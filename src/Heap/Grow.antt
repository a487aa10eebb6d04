-- ===== src/Heap/Grow.antt =====
-- The heap once a raw block is taken, and once a bin gets raw blocks.
use phlox.Common.{
  ℕ, ◌+◌, ◌-◌, ◌*◌, ◌/◌, ◌%◌, ◌<◌, ◌≤◌, ◌≡◌, ◌⊎◌, refl, sym, ap, ◌∙◌, inl, inr, true, false, ◌&&◌,
  none, some, List, ◌∷◌, ◌∉◌, ◌==◌, ltb, leb, u32_mod, arith, Bool-cases, ==_iff, ltb→lt,
  ltb_false→le,
}
use mathlib.Core.Path.{subst}
use phlox.Heap.{
  Heap, element_size, grow_size, page_size, page_align, bin_count, page_of, put_bin, carve,
  raw_alloc, mark_raw_pages,
}
use phlox.Heap.Owner.{Owner, nobody, raw, block, bin_of, is_block, IsBin, IsHeap}
use phlox.Heap.Sizes.{
  element_size-pos, grow_size-whole, raw_blocks-le, raw_blocks-pos, Aligned-page,
}
use phlox.Heap.Claim.{Owned-claim, set_live, claim, claim-in, IsBin-claim, bins-put_bin, raw_of}
use phlox.Heap.Table.{mark_raw_pages-in, mark_raw_pages-out}
use phlox.Heap.Alloc.{carve-IsBin, raw-split, raw-within, raw-paged}

pub carve-IsHeap :
    (owner : ℕ → Owner) (live : ℕ → List ℕ) (h : Heap) (b : ℕ)
    → IsHeap owner live h
    → b < bin_count
    → 0 < (h.bins b).raw_count
    → ((h.bins b).raw_list ∉ live b)
      × IsHeap
          (claim owner
            (h.bins b).raw_list
            ((h.bins b).raw_list + element_size b)
            (block b (h.bins b).raw_list))
          (set_live live b ((h.bins b).raw_list ∷ live b))
          (carve h b).1
carve-IsHeap owner live h b is lt nz =
    let r = (h.bins b).raw_list in
    let e = element_size b in
    let own = is.is_bin b lt in
    let split : (h.bins b).raw_count * e ≡ ((h.bins b).raw_count - 1) * e + e =
      raw-split (h.bins b).raw_count e nz in
    let raw_at : (y : ℕ) → r ≤ y → y < r + e → owner y ≡ raw b =
      λ y lo hi. own.raw_owned y lo (omega (arith, hi, split)) in
    let last = raw-within owner live h b (r + e - 1) is (
      raw_at (r + e - 1) (omega (arith, element_size-pos b)) (omega (arith, element_size-pos b))) in
    let below : r + e < u32_mod = omega (arith, last.1, is.ptr_le, is.top, element_size-pos b) in
    let made = carve-IsBin owner b (live b) (h.bins b) own nz below in
    (
      made.0,
      record {
        is_bin =
            bins-put_bin (claim owner r (r + e) (block b r)) live h b _ (r ∷ live b)
              (λ i bound ne.
                IsBin-claim owner r (r + e) (block b r) i (live i) (h.bins i)
                  (λ y lo hi. ap is_block (raw_at y lo hi))
                  (λ y lo hi. ap (raw_of i) (raw_at y lo hi) ∙ ground (arith, ne))
                  (is.is_bin i bound))
              made.1;
        within = λ x. elim (Bool-cases (leb r x && ltb x (r + e))) [
          | inl t ↦
              inr
                (raw-within owner live h b x is (raw_at x (ground (arith, t)) (ground (arith, t))))
          | inr f ↦ rw f (is.within x)
        ];
        paged = λ x. elim (Bool-cases (leb r x && ltb x (r + e))) [
          | inl t ↦ rw t (
              inr (
                raw-paged owner live h b x is (raw_at x (ground (arith, t)) (ground (arith, t))),
                lt,
              ))
          | inr f ↦ rw f (is.paged x)
        ];
        page_base = is.page_base;
        page_ptr = is.page_ptr;
        low = is.low;
        base_le = is.base_le;
        ptr_le = is.ptr_le;
        top = is.top;
      },
    )

-- What raw_alloc gives where the heap has room.
abbrev pub raw_space : Heap → (bin_index : ℕ) → Heap
raw_space h b = record h {
  base_ptr = h.base_ptr + grow_size b;
  alloc_table = mark_raw_pages (grow_size b / page_size) (page_of h h.base_ptr) b h.alloc_table;
}

page_align-whole : (size : ℕ) → size % page_size ≡ 0 → page_align size ≡ size
page_align-whole size e = omega (arith, e)

next_ptr :
    (ptr aligned size : ℕ)
    → aligned ≡ size
    → ptr + size < u32_mod
    → (ptr + aligned) % u32_mod ≡ ptr + size
next_ptr ptr aligned size e lt = omega (arith, e, lt)

pub raw_alloc-some :
    (owner : ℕ → Owner) (live : ℕ → List ℕ) (h : Heap) (b : ℕ)
    → IsHeap owner live h
    → b < bin_count
    → (raw_alloc h (grow_size b) b ≡ some (h.base_ptr, raw_space h b))
        × (h.base_ptr + grow_size b ≤ h.base + h.size)
      ⊎ (raw_alloc h (grow_size b) b ≡ none) × (h.base + h.size < h.base_ptr + grow_size b)
unfolding raw_alloc
raw_alloc-some owner live h b is lt =
    let g = grow_size b in
    let whole = grow_size-whole b lt in
    let aligned : page_align g ≡ g = page_align-whole g whole.0 in
    let next : (h.base_ptr + page_align g) % u32_mod ≡ h.base_ptr + g =
      next_ptr h.base_ptr (page_align g) g aligned (omega (arith, whole.1, is.ptr_le, is.top)) in
    let pages : h.base_ptr + g - h.base_ptr ≡ g = omega arith in
    elim (Bool-cases (ltb (h.base + h.size) (h.base_ptr + g))) [
      | inl t ↦ inr (rw (raw_alloc, next, t) refl, ltb→lt (h.base + h.size) (h.base_ptr + g) t)
      | inr f ↦
          inl
            (rw (raw_alloc, next, f, pages) refl, ltb_false→le (h.base + h.size) (h.base_ptr + g) f)
    ]

abbrev pub grown : Heap → (bin_index : ℕ) → Heap
grown h b =
    put_bin (raw_space h b) b
      (record (h.bins b) { raw_list = h.base_ptr; raw_count = grow_size b / element_size b })

set_live-same : (live : ℕ → List ℕ) (b i : ℕ) → set_live live b (live b) i ≡ live i
set_live-same live b i = elim (Bool-cases (i == b)) [
  | inl e ↦ rw e (ap live (sym ((==_iff i b).0 e)))
  | inr e ↦ rw e refl
]

-- Above the break there is nobody.
free_above :
    (owner : ℕ → Owner) (live : ℕ → List ℕ) (h : Heap) (x : ℕ)
    → IsHeap owner live h
    → h.base_ptr ≤ x
    → owner x ≡ nobody
free_above owner live h x is le = elim (is.within x) [
  | inl n ↦ n
  | inr (lo, hi) ↦ ground (arith, hi, le)
]

grown-IsBin :
    (owner : ℕ → Owner) (live : ℕ → List ℕ) (h : Heap) (b : ℕ)
    → IsHeap owner live h
    → b < bin_count
    → IsBin
        (claim owner h.base_ptr (h.base_ptr + grow_size b) (raw b))
        b
        (live b)
        ((grown h b).bins b)
grown-IsBin owner live h b is lt =
    let to = h.base_ptr + grow_size b in
    let own = is.is_bin b lt in
    let no_block : (y : ℕ) → h.base_ptr ≤ y → y < to → is_block (owner y) ≡ false =
      λ y lo hi. ap is_block (free_above owner live h y is lo) in
    let self : (b == b) ≡ true = (==_iff b b).1 refl in
    rw self (record {
      free_owned =
          Owned-claim owner h.base_ptr to (raw b) b (h.bins b).free_list no_block own.free_owned;
      live_owned = Owned-claim owner h.base_ptr to (raw b) b (live b) no_block own.live_owned;
      raw_owned =
          λ x lo hi. claim-in owner h.base_ptr to (raw b) x lo (omega (arith, hi, raw_blocks-le b));
      raw_aligned = inr (Aligned-page b h.base_ptr is.page_ptr);
      raw_small = omega (arith, (raw_blocks-pos b).1);
      distinct_free = own.distinct_free;
      distinct_live = own.distinct_live;
      apart = own.apart;
    })

grown-paged :
    (owner : ℕ → Owner) (live : ℕ → List ℕ) (h : Heap) (b x : ℕ)
    → IsHeap owner live h
    → b < bin_count
    → (claim owner h.base_ptr (h.base_ptr + grow_size b) (raw b) x ≡ nobody)
      ⊎ ((((grown h b).alloc_table (page_of (grown h b) x)).bin_index
            ≡ bin_of (claim owner h.base_ptr (h.base_ptr + grow_size b) (raw b) x))
          × (bin_of (claim owner h.base_ptr (h.base_ptr + grow_size b) (raw b) x) < bin_count))
grown-paged owner live h b x is lt =
    let n = grow_size b / page_size in
    let first = page_of h h.base_ptr in
    let whole = (grow_size-whole b lt).0 in
    elim (Bool-cases (leb h.base_ptr x && ltb x (h.base_ptr + grow_size b))) [
      | inl t ↦
          let low : h.base_ptr ≤ x = ground (arith, t) in
          let high : x < h.base_ptr + grow_size b = ground (arith, t) in
          rw t (
            inr (
              mark_raw_pages-in n first b h.alloc_table (page_of h x)
                  (omega (arith, low, is.base_le))
                  (omega (arith, high, low, whole, is.base_le, is.page_ptr, is.page_base)),
              lt,
            ))
      | inr f ↦ rw f (elim (is.within x) [
        | inl none_has ↦ inl none_has
        | inr inside ↦ elim (is.paged x) [
          | inl none_has ↦ inl none_has
          | inr at ↦ inr (
            ap (λ v. v.bin_index)
                  (mark_raw_pages-out n first b h.alloc_table (page_of h x)
                    (inl (omega (arith, inside.0, inside.1, is.page_ptr, is.page_base))))
                ∙ at.0,
            at.1,
          )
        ]
      ])
    ]

pub grown-IsHeap :
    (owner : ℕ → Owner) (live : ℕ → List ℕ) (h : Heap) (b : ℕ)
    → IsHeap owner live h
    → b < bin_count
    → h.base_ptr + grow_size b ≤ h.base + h.size
    → IsHeap (claim owner h.base_ptr (h.base_ptr + grow_size b) (raw b)) live (grown h b)
grown-IsHeap owner live h b is lt room =
    let to = h.base_ptr + grow_size b in
    let none_has : (y : ℕ) → h.base_ptr ≤ y → y < to → owner y ≡ nobody =
      λ y lo hi. free_above owner live h y is lo in
    let self : (b == b) ≡ true = (==_iff b b).1 refl in
    record {
      is_bin = λ i bound. elim (Bool-cases (i == b)) [
        | inl e ↦
            subst (λ v. IsBin (claim owner h.base_ptr to (raw b)) v (live v) ((grown h b).bins v))
              (sym ((==_iff i b).0 e)) (grown-IsBin owner live h b is lt)
        | inr e ↦ rw e (
            IsBin-claim owner h.base_ptr to (raw b) i (live i) (h.bins i)
              (λ y lo hi. ap is_block (none_has y lo hi))
              (λ y lo hi. ap (raw_of i) (none_has y lo hi)) (is.is_bin i bound))
      ];
      within = λ x. elim (Bool-cases (leb h.base_ptr x && ltb x to)) [
        | inl t ↦ inr (ground (arith, t, is.base_le), ground (arith, t))
        | inr f ↦ rw f (elim (is.within x) [
          | inl n ↦ inl n
          | inr inside ↦ inr (inside.0, omega (arith, inside.1))
        ])
      ];
      paged = λ x. grown-paged owner live h b x is lt;
      page_base = is.page_base;
      page_ptr = omega (arith, is.page_ptr, (grow_size-whole b lt).0);
      low = is.low;
      base_le = omega (arith, is.base_le);
      ptr_le = room;
      top = is.top;
    }
