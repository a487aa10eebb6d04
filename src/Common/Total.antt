-- ===== src/Common/Total.antt =====
-- Families of sequences, such as the chains of a hash table: the sum of their lengths, and an update.
use phlox.Common.{
  ℕ, zero, suc, ◌+◌, ◌≤◌, ◌<◌, ◌≡◌, refl, false, List, [], ◌∷◌, length, ◌==◌, ==_iff, if◌then◌else◌,
  arith, Bool-cases, inl, inr,
}

-- The sum of the lengths of the first `n` chains, and how many of them are not empty.
unfoldable pub total : ℕ → (ℕ → List ℕ) → ℕ
total zero chains = 0
total (suc n) chains = total n chains + length (chains n)

abbrev pub one_if_used : List ℕ → ℕ
one_if_used [] = 0
one_if_used (x ∷ xs) = 1

unfoldable pub used : ℕ → (ℕ → List ℕ) → ℕ
used zero chains = 0
used (suc n) chains = used n chains + one_if_used (chains n)

-- The chains with another one at `h`.
abbrev pub put : (ℕ → List ℕ) → (h : ℕ) → List ℕ → ℕ → List ℕ
put chains h xs i = if i == h then xs else chains i

pub total-put_above :
    (n h : ℕ) (chains : ℕ → List ℕ) (xs : List ℕ)
    → n ≤ h
    → (total n (put chains h xs) ≡ total n chains) × (used n (put chains h xs) ≡ used n chains)
unfolding total used
total-put_above zero h chains xs le = (refl, refl)
total-put_above (suc n) h chains xs le =
    let other : (n == h) ≡ false = ground arith in
    let (a, b) = total-put_above n h chains xs (omega arith) in
    rw other (omega (arith, a), omega (arith, b))

pub total-put :
    (n h : ℕ) (chains : ℕ → List ℕ) (xs : List ℕ)
    → h < n
    → (total n (put chains h xs) + length (chains h) ≡ total n chains + length xs)
      × (used n (put chains h xs) + one_if_used (chains h) ≡ used n chains + one_if_used xs)
unfolding total used
total-put zero h chains xs lt = absurd (omega arith)
total-put (suc n) h chains xs lt = elim (Bool-cases (n == h)) [
  | inl e ↦
      let same : n ≡ h = (==_iff n h).0 e in
      let (a, b) = total-put_above n h chains xs (omega arith) in
      rw e (ground (arith, a, same), ground (arith, b, same))
  | inr e ↦
      let (a, b) = total-put n h chains xs (ground arith) in
      rw e (omega (arith, a), omega (arith, b))
]

pub used-le-total : (n : ℕ) (chains : ℕ → List ℕ) → used n chains ≤ total n chains
unfolding total used
used-le-total zero chains = omega arith
used-le-total (suc n) chains = ground (arith, used-le-total n chains)

-- A chain is no longer than all of them.
pub length-le-total : (n h : ℕ) (chains : ℕ → List ℕ) → h < n → length (chains h) ≤ total n chains
unfolding total
length-le-total zero h chains lt = absurd (omega arith)
length-le-total (suc n) h chains lt = elim (Bool-cases (n == h)) [
  | inl e ↦ let same : n ≡ h = (==_iff n h).0 e in ground (arith, same)
  | inr e ↦ omega (arith, length-le-total n h chains (ground arith))
]
