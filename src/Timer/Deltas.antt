-- ===== src/Timer/Deltas.antt =====
-- The deltas of the queue stand for times, in order.
use phlox.Common.{
  ℕ, ◌+◌, ◌-◌, ◌≡◌, refl, ap, inl, inr, Bool, true, false, List, [], ◌∷◌, ◌==◌, ==_iff, ltb, leb,
  if◌then◌else◌, arith, Bool-cases,
}
use phlox.Timer.{Event, add_new_event_nolock}

-- An event and the ticks until it is due.
pub record Due : Type 0 where
  pub time : ℕ
  pub timeout : Bool
  pub id : ℕ
  pub thread : ℕ

abbrev pub due_at : (time : ℕ) → Event → Due
due_at time e = record { time = time; timeout = e.timeout; id = e.id; thread = e.thread }

-- The times of a queue whose first delta counts from `from`.
unfoldable pub times : (from : ℕ) → List Event → List Due
times from [] = []
times from (e ∷ es) = due_at (from + e.delta) e ∷ times (from + e.delta) es

-- The reference: before the first later event, or right behind the first one at the same time.
unfoldable pub insert : Due → List Due → List Due
insert d [] = d ∷ []
insert d (x ∷ xs) =
    let rest = insert d xs in
    if ltb d.time x.time then d ∷ x ∷ xs else if d.time == x.time then x ∷ d ∷ xs else x ∷ rest

-- The events that are due within some ticks, and the others with their new times.
unfoldable pub within : (ticks : ℕ) → List Due → List Due
within ticks [] = []
within ticks (d ∷ ds) = let rest = within ticks ds in if leb d.time ticks then d ∷ rest else rest

unfoldable pub after : (ticks : ℕ) → List Due → List Due
after ticks [] = []
after ticks (d ∷ ds) =
    let rest = after ticks ds in
    if leb d.time ticks then rest else record d { time = d.time - ticks } ∷ rest

times-add_from :
    (from tick : ℕ) (q : List Event) (e : Event)
    → times from (add_new_event_nolock q e tick) ≡ insert (due_at (from + tick) e) (times from q)
unfolding times add_new_event_nolock insert
times-add_from from tick [] e = refl
times-add_from from tick (x ∷ xs) e = elim (Bool-cases (ltb tick x.delta)) [
  | inl lt ↦
      let lt' : ltb (from + tick) (from + x.delta) ≡ true = ground (arith, lt) in
      let at : from + tick + (x.delta - tick) ≡ from + x.delta = ground (arith, lt) in
      rw (lt, lt', at) refl
  | inr ge ↦
      let ge' : ltb (from + tick) (from + x.delta) ≡ false = ground (arith, ge) in
      elim (Bool-cases (tick == x.delta)) [
        | inl same ↦
            let same' : (from + tick == from + x.delta) ≡ true = ground (arith, same) in
            let eq : tick ≡ x.delta = (==_iff tick x.delta).0 same in
            let at : from + x.delta + 0 ≡ from + x.delta = omega arith in
            rw (ge, ge', same, same', eq, at) refl
        | inr other ↦
            let other' : (from + tick == from + x.delta) ≡ false = ground (arith, other) in
            let at : from + x.delta + (tick - x.delta) ≡ from + tick = ground (arith, ge) in
            let rest = times-add_from (from + x.delta) (tick - x.delta) xs e in
            rw (ge, ge', other, other') (ap (λ ds. due_at (from + x.delta) x ∷ ds) (rw at at rest))
      ]
]

-- The deltas of the events queue stand for times: after add_new_event_nolock the times are those
-- of before with the new event at its tick, before the first later event or right behind the first
-- one at the same time, and no other event has a new time.
pub times-add_new_event_nolock :
    (q : List Event) (e : Event) (tick : ℕ)
    → times 0 (add_new_event_nolock q e tick) ≡ insert (due_at tick e) (times 0 q)
times-add_new_event_nolock q e tick =
    let at : 0 + tick ≡ tick = omega arith in rw at at (times-add_from 0 tick q e)
