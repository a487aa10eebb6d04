-- ===== src/Aspace/Search.antt =====
-- What the AVL tree's search gives for a comparator, and what it gives for `compare_mapping`.
use phlox.Common.{ℕ, ◌+◌, ◌<◌, ◌≤◌, ◌≡◌, ◌⊎◌, inl, inr, List, [], ◌∷◌, arith}
use phlox.Common.Int.{ℤ, pos, negsuc, ◌≤ℤ◌}
use phlox.Aspace.{Mapping, Found, equal, root, before, after, TreeSearch, compare_mapping}
use phlox.Aspace.Gap.{Fits}
use phlox.Aspace.Place.{Overlaps, Meets, FirstAfter, GoesBefore, GoesAfter, Located}

abbrev IsSign : ℤ → Type 0
IsSign v = (v ≡ pos 1) ⊎ (v ≡ pos 0) ⊎ (v ≡ negsuc 0)

abbrev NextAtMost : (compare : Mapping → Mapping → ℤ) → Mapping → ℤ → List Mapping → Type 0
NextAtMost compare new v [] = Unit
NextAtMost compare new v (m ∷ ms) = compare new m ≤ℤ v

-- What the comparator says of the new mapping and each of the list is 1, 0 or -1, and never rises
-- along the list, which is what makes the list a search tree for the new mapping.
abbrev pub Falling : (compare : Mapping → Mapping → ℤ) → List Mapping → (new : Mapping) → Type 0
Falling compare [] new = Unit
Falling compare (m ∷ ms) new =
    IsSign (compare new m) × NextAtMost compare new (compare new m) ms × Falling compare ms new

-- One of the mappings is the one that is found, and the comparator says 0 of it.
abbrev pub MeetsBy :
    (compare : Mapping → Mapping → ℤ) → List Mapping → (new found : Mapping) → Type 0
MeetsBy compare [] new found = ⊥
MeetsBy compare (m ∷ ms) new found =
    ((m ≡ found) × (compare new m ≡ pos 0)) ⊎ MeetsBy compare ms new found

abbrev pub FirstAfterBy :
    (compare : Mapping → Mapping → ℤ) → List Mapping → (new : Mapping) → Type 0
FirstAfterBy compare [] new = Unit
FirstAfterBy compare (m ∷ ms) new = compare new m ≡ negsuc 0

-- The comparator says 1 of those before the one that is found, and -1 of that one.
abbrev pub BeforeBy :
    (compare : Mapping → Mapping → ℤ) → List Mapping → (new found : Mapping) → Type 0
BeforeBy compare [] new found = ⊥
BeforeBy compare (m ∷ ms) new found =
    ((m ≡ found) × (compare new m ≡ negsuc 0))
    ⊎ ((compare new m ≡ pos 1) × BeforeBy compare ms new found)

-- The comparator says 1 of those up to the one that is found, and -1 of the next.
abbrev pub AfterBy :
    (compare : Mapping → Mapping → ℤ) → List Mapping → (new found : Mapping) → Type 0
AfterBy compare [] new found = ⊥
AfterBy compare (m ∷ ms) new found =
    (compare new m ≡ pos 1)
    × (((m ≡ found) × FirstAfterBy compare ms new) ⊎ AfterBy compare ms new found)

abbrev pub LocatedBy :
    (compare : Mapping → Mapping → ℤ) → List Mapping → (new : Mapping) → Found → Type 0
LocatedBy compare ms new (equal m) = MeetsBy compare ms new m
LocatedBy compare ms new root = ms ≡ []
LocatedBy compare ms new (before m) = BeforeBy compare ms new m
LocatedBy compare ms new (after m) = AfterBy compare ms new m

-- What avl_tree_find gives, for every comparator that orders the mappings of the tree around the
-- one that is looked for.
pub record FindsPlace (avl_tree_find : TreeSearch) : Type 0 where
  pub locates :
      (compare : Mapping → Mapping → ℤ) (ms : List Mapping) (new : Mapping)
      → Falling compare ms new
      → LocatedBy compare ms new (avl_tree_find compare ms new)

compare_mapping-Overlaps : (new m : Mapping) → compare_mapping new m ≡ pos 0 → Overlaps m new
unfolding compare_mapping
compare_mapping-Overlaps new m e = (ground (arith, e), ground (arith, e))

compare_mapping_after : (new m : Mapping) → compare_mapping new m ≡ pos 1 → m.last < new.start
unfolding compare_mapping
compare_mapping_after new m e = ground (arith, e)

compare_mapping_before : (new m : Mapping) → compare_mapping new m ≡ negsuc 0 → new.last < m.start
unfolding compare_mapping
compare_mapping_before new m e = ground (arith, e)

compare_mapping-IsSign : (new m : Mapping) → IsSign (compare_mapping new m)
unfolding compare_mapping
compare_mapping-IsSign new m = ground arith

-- A later mapping is not less after the new one than an earlier one.
compare_mapping_falls :
    (new m m' : Mapping)
    → m.start ≤ m.last
    → m.last < m'.start
    → m'.start ≤ m'.last
    → new.start ≤ new.last
    → compare_mapping new m' ≤ℤ compare_mapping new m
unfolding compare_mapping
compare_mapping_falls new m m' a b c d = ground (arith, a, b, c, d)

compare_mapping-NextAtMost :
    (m : Mapping) (ms : List Mapping) (high : ℕ) (new : Mapping)
    → m.start ≤ m.last
    → Fits (m.last + 1) ms high
    → new.start ≤ new.last
    → NextAtMost compare_mapping new (compare_mapping new m) ms
compare_mapping-NextAtMost m [] high new a f ok = tt
compare_mapping-NextAtMost m (m' ∷ ms) high new a (b, c, f) ok =
    compare_mapping_falls new m m' a (omega (arith, b)) c ok

-- Mappings in order that do not overlap are a search tree for compare_mapping.
compare_mapping-Falling :
    (low : ℕ) (ms : List Mapping) (high : ℕ) (new : Mapping)
    → Fits low ms high
    → new.start ≤ new.last
    → Falling compare_mapping ms new
compare_mapping-Falling low [] high new f ok = tt
compare_mapping-Falling low (m ∷ ms) high new (a, b, c) ok = (
  compare_mapping-IsSign new m,
  compare_mapping-NextAtMost m ms high new b c ok,
  compare_mapping-Falling (m.last + 1) ms high new c ok,
)

MeetsBy-Meets :
    (ms : List Mapping) (new found : Mapping)
    → MeetsBy compare_mapping ms new found
    → Meets ms new found
MeetsBy-Meets [] new found h = h
MeetsBy-Meets (m ∷ ms) new found (inl (e, z)) = inl (e, compare_mapping-Overlaps new m z)
MeetsBy-Meets (m ∷ ms) new found (inr later) = inr (MeetsBy-Meets ms new found later)

BeforeBy-GoesBefore :
    (ms : List Mapping) (new found : Mapping)
    → BeforeBy compare_mapping ms new found
    → GoesBefore ms new found
BeforeBy-GoesBefore [] new found h = h
BeforeBy-GoesBefore (m ∷ ms) new found (inl (e, z)) = inl (e, compare_mapping_before new m z)
BeforeBy-GoesBefore (m ∷ ms) new found (inr (z, later)) =
    inr (compare_mapping_after new m z, BeforeBy-GoesBefore ms new found later)

FirstAfterBy-FirstAfter :
    (ms : List Mapping) (new : Mapping) → FirstAfterBy compare_mapping ms new → FirstAfter ms new
FirstAfterBy-FirstAfter [] new h = tt
FirstAfterBy-FirstAfter (m ∷ ms) new h = compare_mapping_before new m h

AfterBy-GoesAfter :
    (ms : List Mapping) (new found : Mapping)
    → AfterBy compare_mapping ms new found
    → GoesAfter ms new found
AfterBy-GoesAfter [] new found h = h
AfterBy-GoesAfter (m ∷ ms) new found (z, inl (e, first)) =
    (compare_mapping_after new m z, inl (e, FirstAfterBy-FirstAfter ms new first))
AfterBy-GoesAfter (m ∷ ms) new found (z, inr later) =
    (compare_mapping_after new m z, inr (AfterBy-GoesAfter ms new found later))

LocatedBy-Located :
    (ms : List Mapping) (new : Mapping) (found : Found)
    → LocatedBy compare_mapping ms new found
    → Located ms new found
LocatedBy-Located ms new (equal m) h = MeetsBy-Meets ms new m h
LocatedBy-Located ms new root h = h
LocatedBy-Located ms new (before m) h = BeforeBy-GoesBefore ms new m h
LocatedBy-Located ms new (after m) h = AfterBy-GoesAfter ms new m h

pub find-Located :
    (avl_tree_find : TreeSearch)
    → FindsPlace avl_tree_find
    → (low : ℕ) (ms : List Mapping) (high : ℕ) (new : Mapping) → Fits low ms high
    → new.start ≤ new.last
    → Located ms new (avl_tree_find compare_mapping ms new)
find-Located avl_tree_find laws low ms high new f ok =
    LocatedBy-Located ms new (avl_tree_find compare_mapping ms new)
      (laws.locates compare_mapping ms new (compare_mapping-Falling low ms high new f ok))
