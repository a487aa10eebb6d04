-- ===== src/XList/Segment.antt =====
-- Runs of linked elements: how they are joined, split and relinked at either end.
use phlox.Common.{◌≡◌, refl, ◌≢◌, List, [], ◌∷◌, ◌++◌, arith, ◌∈◌, ◌∉◌, Distinct}
use phlox.XList.{Ptr, null, update}

-- From `p` on, whose predecessor is `b`, the links lead through `xs`; the last one is `e` (or `b`,
-- if there is none) and its successor is `q`.
abbrev pub Seg : (pv nx : Ptr → Ptr) → (b p : Ptr) → List Ptr → (e q : Ptr) → Type 0
Seg pv nx b p [] e q = (p ≡ q) × (b ≡ e)
Seg pv nx b p (x ∷ xs) e q = (p ≡ x) × (x ≢ null) × (pv x ≡ b) × Seg pv nx x (nx x) xs e q

-- The two functions agree on the elements.
abbrev pub Agree : List Ptr → (f g : Ptr → Ptr) → Type 0
Agree xs f g = (a : Ptr) → a ∈ xs → g a ≡ f a

pub frame :
    (pv nx pv' nx' : Ptr → Ptr) (b p : Ptr) (xs : List Ptr) (e q : Ptr)
    → Agree xs pv pv'
    → Agree xs nx nx'
    → Seg pv nx b p xs e q
    → Seg pv' nx' b p xs e q
frame pv nx pv' nx' b p [] e q f g s = s
frame pv nx pv' nx' b p (x ∷ xs) e q f g s =
    let same_next : nx' x ≡ nx x = g x (ground arith) in
    let tail : Seg pv' nx' x (nx x) xs e q =
      frame pv nx pv' nx' x (nx x) xs e q (λ a i. f a (ground arith)) (λ a i. g a (ground arith))
        (s.3) in
    (s.0, s.1, ground (arith, f x), rw same_next tail)

module _ (pv nx : Ptr → Ptr) where
  pub frame-prev :
      (b p : Ptr) (xs : List Ptr) (e q a v : Ptr)
      → a ∉ xs
      → Seg pv nx b p xs e q
      → Seg (update pv a v) nx b p xs e q
  frame-prev b p xs e q a v out =
      frame pv nx (update pv a v) nx b p xs e q (λ c i. ground arith) (λ c i. refl)

  pub frame-next :
      (b p : Ptr) (xs : List Ptr) (e q a v : Ptr)
      → a ∉ xs
      → Seg pv nx b p xs e q
      → Seg pv (update nx a v) b p xs e q
  frame-next b p xs e q a v out =
      frame pv nx pv (update nx a v) b p xs e q (λ c i. refl) (λ c i. ground arith)

  pub join :
      (b p : Ptr) (xs : List Ptr) (r s : Ptr) (ys : List Ptr) (e q : Ptr)
      → Seg pv nx b p xs r s
      → Seg pv nx r s ys e q
      → Seg pv nx b p (xs ++ ys) e q
  join b p [] r s ys e q h k = rw (h.0, h.1) k
  join b p (x ∷ xs) r s ys e q h k = (h.0, h.1, h.2, join x (nx x) xs r s ys e q h.3 k)

  pub split :
      (b p : Ptr) (xs ys : List Ptr) (e q : Ptr)
      → Seg pv nx b p (xs ++ ys) e q
      → (r : Ptr) × (s : Ptr) × Seg pv nx b p xs r s × Seg pv nx r s ys e q
  split b p [] ys e q h = (b, p, (refl, refl), h)
  split b p (x ∷ xs) ys e q h =
      let (r, s, front, back) = split x (nx x) xs ys e q h.3 in (r, s, (h.0, h.1, h.2, front), back)

  -- A new predecessor for the first element of a run that is not empty.
  pub relink_head :
      (b p y : Ptr) (ys : List Ptr) (e q c : Ptr)
      → y ∉ ys
      → Seg pv nx b p (y ∷ ys) e q
      → Seg (update pv y c) nx c p (y ∷ ys) e q
  relink_head b p y ys e q c out h =
      (h.0, h.1, ground arith, frame-prev y (nx y) ys e q y c out h.3)

  -- A new successor for the last element of such a run.
  pub relink_last :
      (b p x : Ptr) (xs : List Ptr) (e q c : Ptr)
      → Distinct (x ∷ xs)
      → Seg pv nx b p (x ∷ xs) e q
      → (e ∈ x ∷ xs) × (e ≢ null) × Seg pv (update nx e c) b p (x ∷ xs) e c
  relink_last b p x [] e q c d h =
      (ground arith, ground arith, (h.0, h.1, h.2, (ground arith, ground arith)))
  relink_last b p x (y ∷ ys) e q c d h =
      let (mem, nz, rest) = relink_last x (nx x) y ys e q c d.1 h.3 in
      let apart : e ≢ x = ground arith in (ground arith, nz, (h.0, h.1, h.2, ground arith))
