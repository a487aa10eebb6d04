-- ===== src/Aspace/Place.antt =====
-- The place that the search of the tree gives for a mapping, and what an insertion there makes.
use phlox.Common.{
  ℕ, ◌+◌, ◌<◌, ◌≤◌, ◌≡◌, ◌⊎◌, refl, inl, inr, true, false, List, [], ◌∷◌, ◌==◌, arith, some,
}
use mathlib.Core.Path.{subst}
use phlox.Aspace.{
  Mapping, Found, equal, root, before, after, insert_before, insert_after, remove_start,
}
use phlox.Aspace.Gap.{Fits, Clear, Clear-below}

abbrev pub Overlaps : Mapping → Mapping → Type 0
Overlaps a b = (a.start ≤ b.last) × (b.start ≤ a.last)

-- One of the mappings is the one that is found and has an address of the new one.
abbrev pub Meets : List Mapping → (new found : Mapping) → Type 0
Meets [] new found = ⊥
Meets (m ∷ ms) new found = ((m ≡ found) × Overlaps m new) ⊎ Meets ms new found

abbrev pub FirstAfter : List Mapping → (new : Mapping) → Type 0
FirstAfter [] new = Unit
FirstAfter (m ∷ ms) new = new.last < m.start

-- The new mapping goes directly before the one that is found.
abbrev pub GoesBefore : List Mapping → (new found : Mapping) → Type 0
GoesBefore [] new found = ⊥
GoesBefore (m ∷ ms) new found =
    ((m ≡ found) × new.last < m.start) ⊎ ((m.last < new.start) × GoesBefore ms new found)

-- The new mapping goes directly after the one that is found.
abbrev pub GoesAfter : List Mapping → (new found : Mapping) → Type 0
GoesAfter [] new found = ⊥
GoesAfter (m ∷ ms) new found =
    (m.last < new.start) × (((m ≡ found) × FirstAfter ms new) ⊎ GoesAfter ms new found)

abbrev pub Located : List Mapping → (new : Mapping) → Found → Type 0
Located ms new (equal m) = Meets ms new m
Located ms new root = ms ≡ []
Located ms new (before m) = GoesBefore ms new m
Located ms new (after m) = GoesAfter ms new m

-- The second list is the first with the new mapping put in somewhere.
abbrev pub Inserted : (new : Mapping) → (ms ms' : List Mapping) → Type 0
Inserted new ms [] = ⊥
Inserted new [] (y ∷ ys) = (y ≡ new) × (ys ≡ [])
Inserted new (m ∷ ms) (y ∷ ys) = ((y ≡ new) × (ys ≡ m ∷ ms)) ⊎ ((y ≡ m) × Inserted new ms ys)

-- The mappings with the new one fit, are those before with the new one put in, and are those before
-- once it is removed.
abbrev pub Added : (low : ℕ) → List Mapping → (high : ℕ) → (new : Mapping) → List Mapping → Type 0
Added low ms high new ms' =
    Fits low ms' high × Inserted new ms ms' × (remove_start ms' new.start ≡ some ms)

pub Inserted-front : (new : Mapping) (ms : List Mapping) → Inserted new ms (new ∷ ms)
Inserted-front new [] = (refl, refl)
Inserted-front new (m ∷ ms) = inl (refl, refl)

FirstAfter-Clear :
    (low : ℕ) (ms : List Mapping) (high : ℕ) (new : Mapping)
    → Fits low ms high
    → FirstAfter ms new
    → Clear new.start new.last ms
FirstAfter-Clear low [] high new f h = tt
FirstAfter-Clear low (m ∷ ms) high new (a, b, c) h =
    (inr h, Clear-below new.start new.last (m.last + 1) ms high c (omega (arith, b, h)))

pub GoesBefore-Clear :
    (low : ℕ) (ms : List Mapping) (high : ℕ) (new found : Mapping)
    → Fits low ms high
    → GoesBefore ms new found
    → Clear new.start new.last ms
GoesBefore-Clear low [] high new found f h = tt
GoesBefore-Clear low (m ∷ ms) high new found (a, b, c) (inl (e, lt)) =
    (inr lt, Clear-below new.start new.last (m.last + 1) ms high c (omega (arith, b, lt)))
GoesBefore-Clear low (m ∷ ms) high new found (a, b, c) (inr (lt, later)) =
    (inl lt, GoesBefore-Clear (m.last + 1) ms high new found c later)

pub GoesAfter-Clear :
    (low : ℕ) (ms : List Mapping) (high : ℕ) (new found : Mapping)
    → Fits low ms high
    → GoesAfter ms new found
    → Clear new.start new.last ms
GoesAfter-Clear low [] high new found f h = tt
GoesAfter-Clear low (m ∷ ms) high new found (a, b, c) (past, inl (e, first)) =
    (inl past, FirstAfter-Clear (m.last + 1) ms high new c first)
GoesAfter-Clear low (m ∷ ms) high new found (a, b, c) (past, inr later) =
    (inl past, GoesAfter-Clear (m.last + 1) ms high new found c later)

same_start : (a : ℕ) → (a == a) ≡ true
same_start a = ground arith

other_start : (a b : ℕ) → a < b → (a == b) ≡ false
other_start a b lt = ground (arith, lt)

other_start_after : (a b : ℕ) → a < b → (b == a) ≡ false
other_start_after a b lt = ground (arith, lt)

-- What is left after the new mapping fits from its end on.
Fits-from :
    (low : ℕ) (ms : List Mapping) (high : ℕ) (new : Mapping)
    → Fits low ms high
    → FirstAfter ms new
    → new.last < high
    → Fits (new.last + 1) ms high
Fits-from low [] high new f first lt = omega (arith, lt)
Fits-from low (m ∷ ms) high new (a, b, c) first lt = (omega (arith, first), b, c)

GoesBefore-start :
    (ms : List Mapping) (new found : Mapping) → GoesBefore ms new found → new.last < found.start
GoesBefore-start [] new found h = elim h [ ]
GoesBefore-start (m ∷ ms) new found (inl (e, lt)) = subst (λ v. new.last < v.start) e lt
GoesBefore-start (m ∷ ms) new found (inr (lt, later)) = GoesBefore-start ms new found later

GoesAfter-start :
    (low : ℕ) (ms : List Mapping) (high : ℕ) (new found : Mapping)
    → Fits low ms high
    → GoesAfter ms new found
    → low ≤ found.start
GoesAfter-start low [] high new found f h = elim h [ ]
GoesAfter-start low (m ∷ ms) high new found (a, b, c) (past, inl (e, first)) =
    subst (λ v. low ≤ v.start) e a
GoesAfter-start low (m ∷ ms) high new found (a, b, c) (past, inr later) =
    omega (arith, a, b, GoesAfter-start (m.last + 1) ms high new found c later)

-- Removal passes over a mapping with another start.
remove-pass :
    (m new : Mapping) (ms ms' : List Mapping)
    → m.start < new.start
    → remove_start ms new.start ≡ some ms'
    → remove_start (m ∷ ms) new.start ≡ some (m ∷ ms')
unfolding remove_start
remove-pass m new ms ms' lt e = rw (other_start m.start new.start lt, e) refl

pub remove-here : (new : Mapping) (ms : List Mapping) → remove_start (new ∷ ms) new.start ≡ some ms
unfolding remove_start
remove-here new ms = rw (same_start new.start) refl

pub insert_before-Added :
    (low : ℕ) (ms : List Mapping) (high : ℕ) (new found : Mapping)
    → Fits low ms high
    → low ≤ new.start
    → new.start ≤ new.last
    → GoesBefore ms new found
    → Added low ms high new (insert_before ms found.start new)
unfolding insert_before
insert_before-Added low [] high new found f le ok h = elim h [ ]
insert_before-Added low (m ∷ ms) high new found (a, b, c) le ok (inl (e, lt)) =
    subst (λ v. Added low (m ∷ ms) high new (insert_before (m ∷ ms) v.start new)) e
      (rw (same_start m.start)
        ((le, ok, (omega (arith, lt), b, c)), inl (refl, refl), remove-here new (m ∷ ms)))
insert_before-Added low (m ∷ ms) high new found (a, b, c) le ok (inr (lt, later)) =
    let added = insert_before-Added (m.last + 1) ms high new found c (omega (arith, lt)) ok later in
    let past = GoesBefore-start ms new found later in
    rw (other_start m.start found.start (omega (arith, b, lt, ok, past))) (
      (a, b, added.0),
      inr (refl, added.1),
      remove-pass m new (insert_before ms found.start new) ms (omega (arith, b, lt)) added.2,
    )

pub insert_after-Added :
    (low : ℕ) (ms : List Mapping) (high : ℕ) (new found : Mapping)
    → Fits low ms high
    → new.start ≤ new.last
    → new.last < high
    → GoesAfter ms new found
    → Added low ms high new (insert_after ms found.start new)
unfolding insert_after
insert_after-Added low [] high new found f ok lt h = elim h [ ]
insert_after-Added low (m ∷ ms) high new found (a, b, c) ok lt (past, inl (e, first)) =
    subst (λ v. Added low (m ∷ ms) high new (insert_after (m ∷ ms) v.start new)) e
      (rw (same_start m.start) (
        (a, b, (omega (arith, past), ok, Fits-from (m.last + 1) ms high new c first lt)),
        inr (refl, Inserted-front new ms),
        remove-pass m new (new ∷ ms) ms (omega (arith, b, past)) (remove-here new ms),
      ))
insert_after-Added low (m ∷ ms) high new found (a, b, c) ok lt (past, inr later) =
    let added = insert_after-Added (m.last + 1) ms high new found c ok lt later in
    let start = GoesAfter-start (m.last + 1) ms high new found c later in
    rw (other_start m.start found.start (omega (arith, b, start))) (
      (a, b, added.0),
      inr (refl, added.1),
      remove-pass m new (insert_after ms found.start new) ms (omega (arith, b, past)) added.2,
    )
