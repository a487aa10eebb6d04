-- ===== src/Heap/Sizes.antt =====
-- The sizes of the bins.
use phlox.Common.{
  ℕ, zero, suc, ◌+◌, ◌-◌, ◌*◌, ◌/◌, ◌%◌, ◌^◌, ◌<◌, ◌≤◌, ◌≡◌, ◌⊎◌, refl, sym, ◌∙◌, inl, inr, true,
  false, ◌==◌, ltb, leb, arith, Bool-cases, leb→le, leb_false→lt, ==_iff,
}
use mathlib.Core.Path.{subst}
use native.Mathlib.Nat.{div-mul-le_self, add-mod_right, div_self, div-le_self}
use phlox.Heap.{element_size, grow_size, page_size, bin_count, find_bin}
use phlox.Heap.Owner.{Aligned}

-- What is used of a size below a page.
abbrev SmallSize : (size : ℕ) → Type 0
SmallSize size =
    (0 < size)
    × (size < page_size)
    × (0 < page_size / size)
    × ((address : ℕ) → address % page_size ≡ 0 → address % size ≡ 0)

small_size : (b : ℕ) → b < 8 → SmallSize (16 * 2 ^ b)
small_size zero lt = (omega arith, omega arith, omega arith, λ address e. omega (arith, e))
small_size (suc zero) lt = (omega arith, omega arith, omega arith, λ address e. omega (arith, e))
small_size (suc (suc zero)) lt =
    (omega arith, omega arith, omega arith, λ address e. omega (arith, e))
small_size (suc (suc (suc zero))) lt =
    (omega arith, omega arith, omega arith, λ address e. omega (arith, e))
small_size (suc (suc (suc (suc zero)))) lt =
    (omega arith, omega arith, omega arith, λ address e. omega (arith, e))
small_size (suc (suc (suc (suc (suc zero))))) lt =
    (omega arith, omega arith, omega arith, λ address e. omega (arith, e))
small_size (suc (suc (suc (suc (suc (suc zero)))))) lt =
    (omega arith, omega arith, omega arith, λ address e. omega (arith, e))
small_size (suc (suc (suc (suc (suc (suc (suc zero))))))) lt =
    (omega arith, omega arith, omega arith, λ address e. omega (arith, e))
small_size (suc (suc (suc (suc (suc (suc (suc (suc b)))))))) lt = omega (arith, lt)

small_element_size : (b : ℕ) → b < 8 → element_size b ≡ 16 * 2 ^ b
small_element_size b lt = let small : ltb b 8 ≡ true = ground (arith, lt) in rw small refl

pub large_element_size : (b : ℕ) → 8 ≤ b → element_size b ≡ page_size * (b - 7)
large_element_size b le = let large : ltb b 8 ≡ false = ground (arith, le) in rw large refl

pub small_bin : (b : ℕ) → b < 8 → SmallSize (element_size b)
small_bin b lt = subst SmallSize (sym (small_element_size b lt)) (small_size b lt)

pub small_or_large : (b : ℕ) → (b < 8) ⊎ (8 ≤ b)
small_or_large b = omega arith

pub element_size-pos : (b : ℕ) → 0 < element_size b
element_size-pos b = elim (small_or_large b) [
  | inl lt ↦ (small_bin b lt).0
  | inr le ↦ rw (large_element_size b le) (omega (arith, le))
]

pub grow_size-whole :
    (b : ℕ)
    → b < bin_count
    → (grow_size b % page_size ≡ 0) × (grow_size b ≤ grow_size (bin_count - 1)) × (0 < grow_size b)
grow_size-whole b lt = ground (arith, lt)

-- The raw blocks of a bin that has grown lie in what it got.
pub raw_blocks-le : (b : ℕ) → grow_size b / element_size b * element_size b ≤ grow_size b
raw_blocks-le b = div-mul-le_self (grow_size b) (element_size b)

pub raw_blocks-pos :
    (b : ℕ) → (0 < grow_size b / element_size b) × (grow_size b / element_size b ≤ page_size)
raw_blocks-pos b = elim (small_or_large b) [
  | inl lt ↦
      let small : ltb b 8 ≡ true = ground (arith, lt) in
      let positive = subst (λ v. 0 < page_size / v) (small_element_size b lt) (small_bin b lt).2 in
      rw small (positive, div-le_self page_size (16 * 2 ^ b))
  | inr le ↦
      let large : ltb b 8 ≡ false = ground (arith, le) in
      let whole : page_size * (b - 7) / (page_size * (b - 7)) ≡ 1 = div_self (omega (arith, le)) in
      rw (large, whole) (omega arith, omega arith)
]

pub Aligned-page : (b address : ℕ) → address % page_size ≡ 0 → Aligned b address
Aligned-page b address e = elim (small_or_large b) [
  | inl lt ↦ inl (lt, (small_bin b lt).3 address e)
  | inr le ↦ inr (le, e)
]

pub Aligned-next : (b address : ℕ) → Aligned b address → Aligned b (address + element_size b)
Aligned-next b address (inl (lt, e)) = inl (lt, add-mod_right address (element_size b) ∙ e)
Aligned-next b address (inr (le, e)) = inr (le, rw (large_element_size b le) (omega (arith, e)))

-- The bin that is found is the first whose blocks are large enough.
pub find_bin-first :
    (n i size : ℕ)
    → ((find_bin n i size ≡ i + n) ⊎ (size ≤ element_size (find_bin n i size)))
      × ((b : ℕ) → i ≤ b → b < find_bin n i size → element_size b < size)
      × (find_bin n i size ≤ i + n)
unfolding find_bin
find_bin-first zero i size = (inl (omega arith), λ b lo hi. omega (arith, lo, hi), omega arith)
find_bin-first (suc n) i size =
    let rest = find_bin-first n (i + 1) size in
    elim (Bool-cases (leb size (element_size i))) [
      | inl e ↦
          rw e (inr (leb→le size (element_size i) e), λ b lo hi. omega (arith, lo, hi), omega arith)
      | inr e ↦ rw e (
        elim rest.0 [ inl done_all ↦ inl (omega (arith, done_all)) | inr fits ↦ inr fits ],
        λ b lo hi. elim (Bool-cases (b == i)) [
          | inl same ↦
              subst (λ v. element_size v < size) (sym ((==_iff b i).0 same))
                (leb_false→lt size (element_size i) e)
          | inr other ↦ rest.1 b (ground (arith, lo, other)) hi
        ],
        omega (arith, rest.2),
      )
    ]
