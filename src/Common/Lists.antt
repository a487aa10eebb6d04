-- ===== src/Common/Lists.antt =====
-- Lists measured and indexed by native numbers, under the library's names, and lists of numbers
-- as finite sets: membership as a Boolean test, distinctness, removal of the first occurrence.
use Prim.Native.Nat.{ℕ, zero, suc, ◌+◌}
use mathlib.Core.Path.{◌≡◌, refl}
use mathlib.Core.Logic.{◌⊎◌, inl, inr}
use mathlib.Core.Bool.{Bool, true, false, ◌||◌, or_assoc}
use mathlib.Core.List.{List, [], ◌∷◌, ◌++◌}
use mathlib.Core.Option.{Option, none, some}
use native.Mathlib.Omega.{arith}
use phlox.Common.Tests.{◌==◌, if◌then◌else◌}

module _ {ℓ} {A : Type ℓ} where
  abbrev pub length : List A → ℕ
  length [] = 0
  length (x ∷ xs) = suc (length xs)

  abbrev pub get_elem? : List A → ℕ → Option A
  get_elem? [] i = none
  get_elem? (x ∷ xs) zero = some x
  get_elem? (x ∷ xs) (suc i) = get_elem? xs i

  -- A write out of bounds changes nothing.
  abbrev pub set : List A → ℕ → A → List A
  set [] i v = []
  set (x ∷ xs) zero v = v ∷ xs
  set (x ∷ xs) (suc i) v = x ∷ set xs i v

  pub length-append : (xs ys : List A) → length (xs ++ ys) ≡ length xs + length ys
  length-append [] ys = omega arith
  length-append (x ∷ xs) ys = omega (arith, length-append xs ys)

abbrev pub has : ℕ → List ℕ → Bool
has a [] = false
has a (x ∷ xs) = (a == x) || has a xs

infix 40 ◌∈◌ ◌∉◌
abbrev pub ◌∈◌ : ℕ → List ℕ → Type 0
a ∈ xs = has a xs ≡ true

abbrev pub ◌∉◌ : ℕ → List ℕ → Type 0
a ∉ xs = has a xs ≡ false

abbrev pub Distinct : List ℕ → Type 0
Distinct [] = Unit
Distinct (x ∷ xs) = (x ∉ xs) × Distinct xs

-- The list less the first occurrence of `a`.
abbrev pub erase : ℕ → List ℕ → List ℕ
erase a [] = []
erase a (x ∷ xs) = if x == a then xs else x ∷ erase a xs

pub has-append : (a : ℕ) (xs ys : List ℕ) → has a (xs ++ ys) ≡ (has a xs || has a ys)
has-append a [] ys = refl
has-append a (x ∷ xs) ys = rw (has-append a xs ys, or_assoc)

pub has-erase_ne : (q p : ℕ) (xs : List ℕ) → (q == p) ≡ false → has q (erase p xs) ≡ has q xs
has-erase_ne q p [] h = refl
has-erase_ne q p (x ∷ xs) h = ground (arith, has-erase_ne q p xs h)

pub has-erase_self : (p : ℕ) (xs : List ℕ) → Distinct xs → p ∉ erase p xs
has-erase_self p [] d = refl
has-erase_self p (x ∷ xs) d = ground (arith, has-erase_self p xs d.1)

pub Distinct-erase : (p : ℕ) (xs : List ℕ) → Distinct xs → Distinct (erase p xs)
Distinct-erase p [] d = tt
Distinct-erase p (x ∷ xs) d = ground (arith, Distinct-erase p xs d.1, has-erase_ne x p xs)

pub Distinct-append_one : (p : ℕ) (xs : List ℕ) → Distinct xs → p ∉ xs → Distinct (xs ++ p ∷ [])
Distinct-append_one p [] d out = (refl, tt)
Distinct-append_one p (x ∷ xs) d out =
    (ground (arith, has-append x xs (p ∷ [])), Distinct-append_one p xs d.1 (ground arith))

pub length-erase : (e : ℕ) (xs : List ℕ) → e ∈ xs → length (erase e xs) + 1 ≡ length xs
length-erase e [] h = absurd (cc)
length-erase e (x ∷ xs) h = ground (arith, h, length-erase e xs)

-- A list with the element taken out of its place.
pub Distinct-remove :
    (xs : List ℕ) (e : ℕ) (ys : List ℕ) → Distinct (xs ++ e ∷ ys) → Distinct (xs ++ ys)
Distinct-remove [] e ys d = d.1
Distinct-remove (x ∷ xs) e ys d =
    (ground (arith, d.0, has-append x xs ys, has-append x xs (e ∷ ys)), Distinct-remove xs e ys d.1)

pub List-cases {ℓ} :
    {A : Type ℓ} (xs : List A) → (xs ≡ []) ⊎ ((y : A) × (ys : List A) × (xs ≡ y ∷ ys))
List-cases [] = inl refl
List-cases (y ∷ ys) = inr (y, ys, refl)

pub Distinct-middle :
    (xs : List ℕ) (e : ℕ) (ys : List ℕ) → Distinct (xs ++ e ∷ ys) → (e ∉ xs) × (e ∉ ys)
Distinct-middle [] e ys d = (refl, d.0)
Distinct-middle (x ∷ xs) e ys d =
    let (out_x, out_y) = Distinct-middle xs e ys d.1 in
    (ground (arith, d.0, has-append x xs (e ∷ ys), out_x), out_y)

abbrev pub take {ℓ} : {A : Type ℓ} → ℕ → List A → List A
take zero xs = []
take (suc n) [] = []
take (suc n) (x ∷ xs) = x ∷ take n xs

pub has-take : (n x : ℕ) (xs : List ℕ) → x ∈ take n xs → x ∈ xs
has-take zero x xs i = absurd (cc)
has-take (suc n) x [] i = i
has-take (suc n) x (y ∷ xs) i = ground (arith, i, has-take n x xs)
