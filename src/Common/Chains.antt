-- ===== src/Common/Chains.antt =====
-- Chains: elements linked by one field up to NULL, as the queue and the hash table have them. An
-- element is an address, and the links of all elements are a function on addresses.
use Prim.Native.Nat.{ℕ}
use mathlib.Core.Path.{◌≡◌, refl, sym, ap, ◌∙◌, subst}
use mathlib.Core.Logic.{◌≢◌, inl, inr}
use mathlib.Core.Bool.{true, false}
use mathlib.Core.List.{List, [], ◌∷◌, ◌++◌}
use native.Mathlib.Omega.{arith}
use phlox.Common.Tests.{◌==◌, ==_iff, if◌then◌else◌, Bool-cases}
use phlox.Common.Lists.{has, ◌∈◌, ◌∉◌, Distinct, erase, has-append}

abbrev pub null : ℕ
null = 0

-- An assignment to the link of one element.
abbrev pub link : (ℕ → ℕ) → (p v : ℕ) → ℕ → ℕ
link f p v q = if q == p then v else f q

-- From `p` on, the links run through `xs` and end at NULL.
abbrev pub Run : (ℕ → ℕ) → (p : ℕ) → List ℕ → Type 0
Run next p [] = p ≡ null
Run next p (x ∷ xs) = (p ≡ x) × (x ≢ null) × Run next (next x) xs

-- The last element, or `d` if there is none.
abbrev pub last_of : (d : ℕ) → List ℕ → ℕ
last_of d [] = d
last_of d (x ∷ xs) = last_of x xs

pub Run-link :
    (next : ℕ → ℕ) (e v p : ℕ) (xs : List ℕ) → e ∉ xs → Run next p xs → Run (link next e v) p xs
Run-link next e v p [] out r = r
Run-link next e v p (x ∷ xs) out (at, nz, r) =
    let other : (x == e) ≡ false = ground (arith, out) in
    let out' : e ∉ xs = ground (arith, out) in
    (at, nz, rw other (Run-link next e v (next x) xs out' r))

pub last_of-in : (x : ℕ) (xs : List ℕ) → last_of x xs ∈ x ∷ xs
last_of-in x [] = ground arith
last_of-in x (y ∷ ys) = ground (arith, last_of-in y ys)

pub has_at : (x y : ℕ) (xs : List ℕ) → has x xs ≡ false → has y xs ≡ true → (x == y) ≡ false
has_at x y [] out there = absurd (cc)
has_at x y (z ∷ zs) out there = elim (Bool-cases (y == z)) [
  | inl e ↦ ground (arith, out, e)
  | inr e ↦ has_at x y zs (ground (arith, out)) (ground (arith, there, e))
]

pub last_of-append : (d e : ℕ) (xs : List ℕ) → last_of d (xs ++ e ∷ []) ≡ e
last_of-append d e [] = refl
last_of-append d e (x ∷ xs) = last_of-append x e xs

-- A new element linked behind the last one.
pub Run-snoc :
    (next : ℕ → ℕ) (p x : ℕ) (xs : List ℕ) (e : ℕ)
    → e ≢ null
    → e ∉ x ∷ xs
    → Distinct (x ∷ xs)
    → Run next p (x ∷ xs)
    → Run (link (link next (last_of x xs) e) e null) p (x ∷ xs ++ e ∷ [])
Run-snoc next p x [] e nz out d (at, nx, end) = (at, nx, (ground (arith, out), nz, ground arith))
Run-snoc next p x (y ∷ ys) e nz out d (at, nx, r) =
    let (at_y, ny, rest) = Run-snoc next (next x) y ys e nz (ground (arith, out)) d.1 r in
    let kept : link (link next (last_of y ys) e) e null x ≡ next x =
      ground (arith, out, d, last_of-in y ys, has_at x (last_of y ys) (y ∷ ys)) in
    (at, nx, (kept ∙ at_y, ny, rest))

pub last_ne_null :
    (next : ℕ → ℕ) (p x : ℕ) (xs : List ℕ) → Run next p (x ∷ xs) → last_of x xs ≢ null
last_ne_null next p x [] (at, nx, end) = nx
last_ne_null next p x (y ∷ ys) (at, nx, r) = last_ne_null next (next x) y ys r

-- An element inside a chain is taken out by its predecessor's link.
pub Run-unlink :
    (next : ℕ → ℕ) (p x : ℕ) (zs : List ℕ) (e : ℕ) (ys : List ℕ)
    → Distinct (x ∷ zs ++ e ∷ ys)
    → Run next p (x ∷ zs ++ e ∷ ys)
    → Run (link next (last_of x zs) (next e)) p (x ∷ zs ++ ys)
Run-unlink next p x [] e ys (new, d) (at, nx, (at_e, ne, r)) =
    let out : x ∉ ys = ground (arith, new) in
    let linked : link next x (next e) x ≡ next e = ground arith in
    (
      at,
      nx,
      subst (λ v. Run (link next x (next e)) v ys) (sym linked)
          (Run-link next x (next e) (next e) ys out r),
    )
Run-unlink next p x (y ∷ zs) e ys (new, d) (at, nx, r) =
    let rest = Run-unlink next (next x) y zs e ys d r in
    let other : (x == last_of y zs) ≡ false =
      has_at x (last_of y zs) (y ∷ zs) (ground (arith, new, has-append x zs (e ∷ ys)))
        (last_of-in y zs) in
    let kept : link next (last_of y zs) (next e) x ≡ next x = ground (arith, other) in
    (at, nx, subst (λ v. Run (link next (last_of y zs) (next e)) v (y ∷ zs ++ ys)) (sym kept) rest)

-- A chain from one of its elements on.
pub Run-split :
    (next : ℕ → ℕ) (p : ℕ) (xs : List ℕ) (e : ℕ) (ys : List ℕ)
    → Run next p (xs ++ e ∷ ys)
    → Run next e (e ∷ ys)
Run-split next p [] e ys (at, ne, r) = (refl, ne, r)
Run-split next p (x ∷ xs) e ys (at, nx, r) = Run-split next (next x) xs e ys r

-- The elements before the first occurrence of `e`, and those behind it.
pub first_split :
    (e : ℕ) (xs : List ℕ)
    → e ∈ xs
    → (before : List ℕ) × (after : List ℕ) × (xs ≡ before ++ e ∷ after)
      × (e ∉ before)
      × (erase e xs ≡ before ++ after)
first_split e [] h = absurd (cc)
first_split e (x ∷ xs) h = elim (Bool-cases (x == e)) [
  | inl eq ↦
      let same : x ≡ e = (==_iff x e).0 eq in
      ([], xs, ap (λ y. y ∷ xs) same, refl, ground (arith, eq))
  | inr ne ↦
      let there : e ∈ xs = ground (arith, h, ne) in
      let (before, after, whole, out, rest) = first_split e xs there in
      (
        x ∷ before,
        after,
        ap (λ l. x ∷ l) whole,
        ground (arith, out, ne),
        rw ne (ap (λ l. x ∷ l) rest),
      )
]

pub Run-not_null : (next : ℕ → ℕ) (p : ℕ) (xs : List ℕ) (a : ℕ) → Run next p xs → a ∈ xs → a ≢ null
Run-not_null next p [] a r i = absurd (cc)
Run-not_null next p (x ∷ xs) a (at, nx, r) i = elim (Bool-cases (a == x)) [
  | inl e ↦ subst (λ y. y ≢ null) (sym ((==_iff a x).0 e)) nx
  | inr e ↦ Run-not_null next (next x) xs a r (ground (arith, i, e))
]
