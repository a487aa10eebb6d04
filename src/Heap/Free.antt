-- ===== src/Heap/Free.antt =====
-- `kfree` takes back a live block, and refuses one that is free.
use phlox.Common.{
  ℕ, ◌+◌, ◌*◌, ◌/◌, ◌%◌, ◌<◌, ◌≤◌, ◌≡◌, refl, sym, ap, ◌∙◌, inl, inr, true, false, not, ◌&&◌, ◌||◌,
  Option, none, some, List, ◌∷◌, ◌∈◌, ◌∉◌, Distinct, erase, has-erase_ne, has-erase_self,
  Distinct-erase, ◌==◌, ltb, leb, inc32, dec32, arith, Bool-cases, ==_iff,
}
use mathlib.Core.Path.{subst}
use phlox.Heap.{
  Heap, HeapBin, element_size, page_size, bin_count, page_of, push, kfree, count_up, same_bin,
}
use phlox.Heap.Owner.{Owner, nobody, block, bin_of, is_block, Owns, Aligned, IsBin, IsHeap}
use phlox.Heap.Sizes.{element_size-pos, large_element_size}
use phlox.Heap.Claim.{set_live}
use phlox.Heap.Table.{same_bin-true}
use phlox.Heap.Alloc.{put_bin-IsHeap, Owned-cons}
use phlox.Heap.Malloc.{counts-IsHeap}

∈-erase :
    (address a : ℕ) (l : List ℕ)
    → Distinct l
    → address ∈ erase a l
    → ((address == a) ≡ false) × (address ∈ l)
∈-erase address a l d member = elim (Bool-cases (address == a)) [
  | inl e ↦
      let gone : address ∉ erase a l =
        subst (λ v. v ∉ erase a l) (sym ((==_iff address a).0 e)) (has-erase_self a l d) in
      ground (arith, member, gone)
  | inr f ↦ (f, sym (has-erase_ne address a l f) ∙ member)
]

push-IsBin :
    (owner : ℕ → Owner) (b a allocs frees : ℕ) (live : List ℕ) (bin : HeapBin)
    → IsBin owner b live bin
    → a ∈ live
    → IsBin owner b
        (erase a live)
        (record bin { free_list = a ∷ bin.free_list; alloc_count = allocs; free_count = frees })
push-IsBin owner b a allocs frees live bin is member = record {
  free_owned = Owned-cons owner b a bin.free_list (is.live_owned a member) is.free_owned;
  live_owned = λ address t. is.live_owned address (∈-erase address a live is.distinct_live t).1;
  raw_owned = is.raw_owned;
  raw_aligned = is.raw_aligned;
  raw_small = is.raw_small;
  distinct_free = (is.apart a member, is.distinct_free);
  distinct_live = Distinct-erase a live is.distinct_live;
  apart = λ address t.
      let kept = ∈-erase address a live is.distinct_live t in
      let out = is.apart address kept.1 in rw (kept.0, out) refl;
}

-- An address of a block is in the heap, and its page has the bin of the block.
block-page :
    (owner : ℕ → Owner) (live : ℕ → List ℕ) (h : Heap) (b a x : ℕ)
    → IsHeap owner live h
    → owner x ≡ block b a
    → (h.base ≤ x) × (x < h.base + h.size) × ((h.alloc_table (page_of h x)).bin_index ≡ b)
block-page owner live h b a x is e =
    let clash : (owner x ≡ nobody) → false ≡ true = λ n. ap is_block (sym n ∙ e) in
    elim (is.within x) [
      | inl n ↦ let no_owner = clash n in ground (arith, no_owner)
      | inr inside ↦ elim (is.paged x) [
        | inl n ↦ let no_owner = clash n in ground (arith, no_owner)
        | inr at ↦ (inside.0, omega (arith, inside.1, is.ptr_le), at.0 ∙ ap bin_of e)
      ]
    ]

-- All the pages of a block have its bin.
block-same_bin :
    (owner : ℕ → Owner) (live : ℕ → List ℕ) (h : Heap) (b a : ℕ)
    → IsHeap owner live h
    → Owns owner b a
    → Aligned b a
    → same_bin (element_size b / page_size) (page_of h a) b h.alloc_table ≡ true
block-same_bin owner live h b a is owns aligned =
    let start =
      (block-page owner live h b a a is
        (owns a (omega arith) (omega (arith, element_size-pos b)))).0 in
    same_bin-true (element_size b / page_size) (page_of h a) b h.alloc_table (λ i lt.
      let x = a + i * page_size in
      let at = block-page owner live h b a x is (owns x (omega arith) (omega (arith, lt))) in
      let page : page_of h x ≡ page_of h a + i = omega (arith, start) in
      subst (λ v. (h.alloc_table v).bin_index ≡ b) page at.2)

-- The test of the address is passed.
test_passes :
    (b a : ℕ)
    → Aligned b a
    → (leb (element_size b) page_size && not (a % element_size b == 0)) ≡ false
test_passes b a (inl (lt, e)) = ground (arith, e)
test_passes b a (inr (le, e)) = elim (Bool-cases (leb (element_size b) page_size)) [
  | inr f ↦ rw f refl
  | inl t ↦
      let large = large_element_size b le in
      let page : element_size b ≡ page_size = ground (arith, large, t, le) in
      let rest : a % element_size b ≡ 0 = rw page e in ground (arith, rest)
]

abbrev pub Freed :
    (owner : ℕ → Owner) → (live : ℕ → List ℕ) → (bin_index address : ℕ) → Option Heap → Type 0
Freed owner live b address none = ⊥
Freed owner live b address (some h') = IsHeap owner (set_live live b (erase address (live b))) h'

-- In a well-formed heap, kfree of a live block of a bin passes all its tests, and the heap with
-- that block no longer live is well-formed.
pub kfree-Freed :
    (owner : ℕ → Owner) (live : ℕ → List ℕ) (h : Heap) (b address : ℕ)
    → IsHeap owner live h
    → b < bin_count
    → address ∈ live b
    → Freed owner live b address (kfree h address)
unfolding kfree
kfree-Freed owner live h b address is lt member =
    let bin = h.bins b in
    let own = is.is_bin b lt in
    let at = own.live_owned address member in
    let here =
      block-page owner live h b address address is
        (at.0 address (omega arith) (omega (arith, element_size-pos b))) in
    let some_address : (address == 0) ≡ false = ground (arith, here.0, is.low) in
    let inside : (ltb address h.base || leb (h.base + h.size) address) ≡ false =
      ground (arith, here.0, here.1) in
    let known : leb bin_count b ≡ false = ground (arith, lt) in
    let pages = block-same_bin owner live h b address is at.0 at.1 in
    let used_block = own.apart address member in
    let test = test_passes b address at.1 in
    let done_heap =
      counts-IsHeap owner (set_live live b (erase address (live b))) (push h b address) count_up
        (element_size b / page_size) (page_of h address) (λ p. refl)
        (put_bin-IsHeap owner live h b _ (erase address (live b)) is (
          push-IsBin owner b address (dec32 bin.alloc_count) (inc32 bin.free_count) (live b) bin own
            member)) in
    rw (kfree, here.2, some_address, inside, known, test, pages) (rw used_block done_heap)

-- In a well-formed heap, kfree of a block in its bin's free list stops the system.
pub kfree-twice :
    (owner : ℕ → Owner) (live : ℕ → List ℕ) (h : Heap) (b address : ℕ)
    → IsHeap owner live h
    → b < bin_count
    → address ∈ (h.bins b).free_list
    → kfree h address ≡ none
unfolding kfree
kfree-twice owner live h b address is lt member =
    let at = (is.is_bin b lt).free_owned address member in
    let here =
      block-page owner live h b address address is
        (at.0 address (omega arith) (omega (arith, element_size-pos b))) in
    let some_address : (address == 0) ≡ false = ground (arith, here.0, is.low) in
    let inside : (ltb address h.base || leb (h.base + h.size) address) ≡ false =
      ground (arith, here.0, here.1) in
    let known : leb bin_count b ≡ false = ground (arith, lt) in
    let pages = block-same_bin owner live h b address is at.0 at.1 in
    let test = test_passes b address at.1 in
    rw (kfree, here.2, some_address, inside, known, test, pages) (rw member refl)
