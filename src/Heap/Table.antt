-- ===== src/Heap/Table.antt =====
-- The bins that the table of pages records.
use phlox.Common.{
  ℕ, zero, suc, ◌+◌, ◌<◌, ◌≤◌, ◌≡◌, ◌⊎◌, refl, sym, ap, ◌∙◌, inl, inr, true, false, ◌==◌, arith,
  Bool-cases, ==_iff,
}
use mathlib.Core.Path.{subst}
use phlox.Heap.{HeapPage, put_page, taken_page, mark_raw_pages, count_pages, same_bin}

put_page_self :
    (table : ℕ → HeapPage) (page : ℕ) (entry : HeapPage) → put_page table page entry page ≡ entry
put_page_self table page entry =
    let same : (page == page) ≡ true = (==_iff page page).1 refl in rw same refl

put_page-other :
    (table : ℕ → HeapPage) (page i : ℕ) (entry : HeapPage)
    → (i < page) ⊎ (page < i)
    → put_page table page entry i ≡ table i
put_page-other table page i entry apart =
    let other : (i == page) ≡ false = ground (arith, apart) in rw other refl

pub mark_raw_pages-out :
    (n page b : ℕ) (table : ℕ → HeapPage) (i : ℕ)
    → (i < page) ⊎ (page + n ≤ i)
    → mark_raw_pages n page b table i ≡ table i
unfolding mark_raw_pages
mark_raw_pages-out zero page b table i out = refl
mark_raw_pages-out (suc n) page b table i out =
    mark_raw_pages-out n (page + 1) b (put_page table page (taken_page b)) i (ground (arith, out))
    ∙ put_page-other table page i (taken_page b) (ground (arith, out))

pub mark_raw_pages-in :
    (n page b : ℕ) (table : ℕ → HeapPage) (i : ℕ)
    → page ≤ i
    → i < page + n
    → (mark_raw_pages n page b table i).bin_index ≡ b
unfolding mark_raw_pages
mark_raw_pages-in zero page b table i lo hi = omega (arith, lo, hi)
mark_raw_pages-in (suc n) page b table i lo hi = elim (Bool-cases (i == page)) [
  | inl e ↦
      let at : i ≡ page = (==_iff i page).0 e in
      ap (λ v. v.bin_index)
        (mark_raw_pages-out n (page + 1) b (put_page table page (taken_page b)) i
            (inl (omega (arith, at)))
          ∙ ap (put_page table page (taken_page b)) at
          ∙ put_page_self table page (taken_page b))
  | inr e ↦
      mark_raw_pages-in n (page + 1) b (put_page table page (taken_page b)) i
        (ground (arith, e, lo)) (omega (arith, hi))
]

-- A change that keeps the bin of a page.
abbrev pub KeepsBin : (HeapPage → HeapPage) → Type 0
KeepsBin f = (page : HeapPage) → (f page).bin_index ≡ page.bin_index

pub count_pages-bin :
    (f : HeapPage → HeapPage) (n page : ℕ) (table : ℕ → HeapPage) (i : ℕ)
    → KeepsBin f
    → (count_pages f n page table i).bin_index ≡ (table i).bin_index
unfolding count_pages
count_pages-bin f zero page table i keeps = refl
count_pages-bin f (suc n) page table i keeps =
    count_pages-bin f n (page + 1) (put_page table page (f (table page))) i keeps
    ∙ elim (Bool-cases (i == page)) [
      | inl e ↦
          let at : i ≡ page = (==_iff i page).0 e in
          rw e (keeps (table page) ∙ ap (λ v. (table v).bin_index) (sym at))
      | inr e ↦ rw e refl
    ]

pub same_bin-true :
    (n page b : ℕ) (table : ℕ → HeapPage)
    → ((i : ℕ) → i < n → (table (page + i)).bin_index ≡ b)
    → same_bin n page b table ≡ true
unfolding same_bin
same_bin-true zero page b table h = refl
same_bin-true (suc n) page b table h =
    let here : ((table page).bin_index == b) ≡ true =
      (==_iff (table page).bin_index b).1
        (subst (λ v. (table v).bin_index ≡ b) (omega arith) (h 0 (omega arith))) in
    let rest = same_bin-true n (page + 1) b table (λ i lt.
      subst (λ v. (table v).bin_index ≡ b) (omega arith) (h (i + 1) (omega (arith, lt)))) in
    rw (rest, here) refl
