-- ===== src/Heap/Alloc.antt =====
-- A block of a bin, from its free list or from its raw blocks.
use phlox.Common.{
  ℕ, zero, suc, ◌+◌, ◌-◌, ◌*◌, ◌%◌, ◌<◌, ◌≤◌, ◌≡◌, sym, ap, ◌∙◌, inl, inr, true, false, List, ◌∷◌,
  has, ◌∈◌, ◌∉◌, Distinct, ◌==◌, dec32, u32_mod, arith, Bool-cases, ==_iff,
}
use mathlib.Core.Path.{subst}
use native.Mathlib.Nat.{suc-mul}
use phlox.Heap.{Heap, HeapBin, element_size, bin_count, page_of, put_bin, pop}
use phlox.Heap.Owner.{
  Owner, raw, block, bin_of, is_raw, is_block, Owns, OwnsRaw, Aligned, Owned, IsBin, IsHeap,
}
use phlox.Heap.Sizes.{element_size-pos, Aligned-next}
use phlox.Heap.Claim.{set_live, claim, claim-in, claim-out, Owned-claim, bins-put_bin}

-- A block joins a list of its bin.
pub Owned-cons :
    (owner : ℕ → Owner) (b a : ℕ) (l : List ℕ)
    → Owns owner b a × Aligned b a
    → Owned owner b l
    → Owned owner b (a ∷ l)
Owned-cons owner b a l own owned address member = elim (Bool-cases (address == a)) [
  | inl e ↦ subst (λ v. Owns owner b v × Aligned b v) (sym ((==_iff address a).0 e)) own
  | inr e ↦ owned address (ground (arith, member, e))
]

-- The first free block becomes a live one.
pop-IsBin :
    (owner : ℕ → Owner) (b a count : ℕ) (rest live : List ℕ) (bin : HeapBin)
    → bin.free_list ≡ a ∷ rest
    → IsBin owner b live bin
    → (a ∉ live) × IsBin owner b (a ∷ live) (record bin { free_list = rest; free_count = count })
pop-IsBin owner b a count rest live bin e is =
    let member : a ∈ bin.free_list = subst (λ v. a ∈ v) (sym e) (ground arith) in
    let distinct : (a ∉ rest) × Distinct rest = subst Distinct e is.distinct_free in
    let fresh : a ∉ live = elim (Bool-cases (has a live)) [
      | inl t ↦ ground (arith, member, is.apart a t)
      | inr f ↦ f
    ] in
    (
      fresh,
      record {
        free_owned = λ address t.
            is.free_owned address (subst (λ v. address ∈ v) (sym e) (ground (arith, t)));
        live_owned = Owned-cons owner b a live (is.free_owned a member) is.live_owned;
        raw_owned = is.raw_owned;
        raw_aligned = is.raw_aligned;
        raw_small = is.raw_small;
        distinct_free = distinct.1;
        distinct_live = (fresh, is.distinct_live);
        apart = λ address t. elim (Bool-cases (address == a)) [
          | inl same ↦ subst (λ v. v ∉ rest) (sym ((==_iff address a).0 same)) distinct.0
          | inr other ↦
              let out : address ∉ a ∷ rest =
                subst (λ v. address ∉ v) e (is.apart address (ground (arith, t, other))) in
              ground (arith, out)
        ];
      },
    )

-- The addresses and the table do not change with the contents of a bin.
pub put_bin-IsHeap :
    (owner : ℕ → Owner) (live : ℕ → List ℕ) (h : Heap) (b : ℕ) (bin : HeapBin) (l : List ℕ)
    → IsHeap owner live h
    → IsBin owner b l bin
    → IsHeap owner (set_live live b l) (put_bin h b bin)
put_bin-IsHeap owner live h b bin l is own = record {
  is_bin = bins-put_bin owner live h b bin l (λ i lt ne. is.is_bin i lt) own;
  within = is.within;
  paged = is.paged;
  page_base = is.page_base;
  page_ptr = is.page_ptr;
  low = is.low;
  base_le = is.base_le;
  ptr_le = is.ptr_le;
  top = is.top;
}

pub pop-IsHeap :
    (owner : ℕ → Owner) (live : ℕ → List ℕ) (h : Heap) (b a : ℕ) (rest : List ℕ)
    → IsHeap owner live h
    → b < bin_count
    → (h.bins b).free_list ≡ a ∷ rest
    → (a ∉ live b) × IsHeap owner (set_live live b (a ∷ live b)) (pop h b rest)
pop-IsHeap owner live h b a rest is lt e =
    let popped =
      pop-IsBin owner b a (dec32 (h.bins b).free_count) rest (live b) (h.bins b) e
        (is.is_bin b lt) in
    (popped.0, put_bin-IsHeap owner live h b _ (a ∷ live b) is popped.1)

pub raw-split : (n e : ℕ) → 0 < n → n * e ≡ (n - 1) * e + e
raw-split zero e lt = omega (arith, lt)
raw-split (suc n) e lt = let one_less : suc n - 1 ≡ n = omega arith in rw one_less (suc-mul n e)

-- A raw address is in the heap, on a page of its bin.
pub raw-within :
    (owner : ℕ → Owner) (live : ℕ → List ℕ) (h : Heap) (b x : ℕ)
    → IsHeap owner live h
    → owner x ≡ raw b
    → (h.base ≤ x) × (x < h.base_ptr)
raw-within owner live h b x is e = elim (is.within x) [
  | inl n ↦ let clash : true ≡ false = ap is_raw (sym e ∙ n) in ground (arith, clash)
  | inr inside ↦ inside
]

pub raw-paged :
    (owner : ℕ → Owner) (live : ℕ → List ℕ) (h : Heap) (b x : ℕ)
    → IsHeap owner live h
    → owner x ≡ raw b
    → (h.alloc_table (page_of h x)).bin_index ≡ b
raw-paged owner live h b x is e = elim (is.paged x) [
  | inl n ↦ let clash : true ≡ false = ap is_raw (sym e ∙ n) in ground (arith, clash)
  | inr (at, lt) ↦ at ∙ ap bin_of e
]

-- The first raw block is no block yet.
raw-fresh : (owner : ℕ → Owner) (b r : ℕ) (l : List ℕ) → owner r ≡ raw b → Owned owner b l → r ∉ l
raw-fresh owner b r l e owned = elim (Bool-cases (has r l)) [
  | inl t ↦
      let own = (owned r t).0 r (omega arith) (omega (arith, element_size-pos b)) in
      let clash : true ≡ false = ap is_raw (sym e ∙ own) in ground (arith, clash)
  | inr f ↦ f
]

-- The first raw block as a live one.
pub carve-IsBin :
    (owner : ℕ → Owner) (b : ℕ) (live : List ℕ) (bin : HeapBin)
    → IsBin owner b live bin
    → 0 < bin.raw_count
    → bin.raw_list + element_size b < u32_mod
    → (bin.raw_list ∉ live)
      × IsBin
          (claim owner bin.raw_list (bin.raw_list + element_size b) (block b bin.raw_list))
          b
          (bin.raw_list ∷ live)
          (record bin {
            raw_count = dec32 bin.raw_count;
            raw_list = (bin.raw_list + element_size b) % u32_mod;
          })
carve-IsBin owner b live bin is nz top =
    let r = bin.raw_list in
    let e = element_size b in
    let split : bin.raw_count * e ≡ (bin.raw_count - 1) * e + e = raw-split bin.raw_count e nz in
    let first : owner r ≡ raw b =
      is.raw_owned r (omega arith) (omega (arith, split, element_size-pos b)) in
    let no_block : (y : ℕ) → r ≤ y → y < r + e → is_block (owner y) ≡ false =
      λ y lo hi. ap is_block (is.raw_owned y lo (omega (arith, hi, split))) in
    let aligned : Aligned b r = elim is.raw_aligned [
      | inl z ↦ omega (arith, z, nz)
      | inr al ↦ al
    ] in
    let fresh : r ∉ live = raw-fresh owner b r live first is.live_owned in
    let next : (r + e) % u32_mod ≡ r + e = omega (arith, top) in
    let fewer : dec32 bin.raw_count ≡ bin.raw_count - 1 = omega (arith, nz, is.raw_small) in
    let rest : OwnsRaw (claim owner r (r + e) (block b r)) b (r + e) (bin.raw_count - 1) =
      λ x lo hi.
        claim-out owner r (r + e) (block b r) x (inr lo)
        ∙ is.raw_owned x (omega (arith, lo)) (omega (arith, hi, split)) in
    (
      fresh,
      record {
        free_owned = Owned-claim owner r (r + e) (block b r) b bin.free_list no_block is.free_owned;
        live_owned =
            Owned-cons (claim owner r (r + e) (block b r)) b r live
              (λ x lo hi. claim-in owner r (r + e) (block b r) x lo hi, aligned)
              (Owned-claim owner r (r + e) (block b r) b live no_block is.live_owned);
        raw_owned = rw (next, fewer) rest;
        raw_aligned = inr (rw next (Aligned-next b r aligned));
        raw_small = omega arith;
        distinct_free = is.distinct_free;
        distinct_live = (fresh, is.distinct_live);
        apart = λ address t. elim (Bool-cases (address == r)) [
          | inl same ↦
              subst (λ v. v ∉ bin.free_list) (sym ((==_iff address r).0 same))
                (raw-fresh owner b r bin.free_list first is.free_owned)
          | inr other ↦ is.apart address (ground (arith, t, other))
        ];
      },
    )
