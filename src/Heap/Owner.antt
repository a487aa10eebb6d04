-- ===== src/Heap/Owner.antt =====
-- Which bin and block each address of the heap belongs to.
use phlox.Common.{
  ℕ, ◌+◌, ◌-◌, ◌*◌, ◌%◌, ◌<◌, ◌≤◌, ◌≡◌, ◌⊎◌, sym, ap, ◌∙◌, Bool, true, false, List, ◌∈◌, ◌∉◌,
  Distinct, u32_mod,
}
use phlox.Heap.{Heap, HeapBin, element_size, grow_size, page_size, bin_count, page_of}

-- Nobody has the address, or it is among a bin's raw blocks, or in a block of a bin.
pub data Owner : Type 0 where
  nobody : Owner
  raw : ℕ → Owner
  block : ℕ → ℕ → Owner

abbrev pub block_of : Owner → ℕ
block_of nobody = 0
block_of (raw b) = 0
block_of (block b address) = address

abbrev pub bin_of : Owner → ℕ
bin_of nobody = bin_count
bin_of (raw b) = b
bin_of (block b address) = b

abbrev pub is_raw : Owner → Bool
is_raw nobody = false
is_raw (raw b) = true
is_raw (block b address) = false

abbrev pub is_block : Owner → Bool
is_block nobody = false
is_block (raw b) = false
is_block (block b address) = true

-- The addresses of a block have it as their owner.
abbrev pub Owns : (owner : ℕ → Owner) → (bin_index address : ℕ) → Type 0
Owns owner b address =
    (x : ℕ) → address ≤ x → x < address + element_size b → owner x ≡ block b address

abbrev pub OwnsRaw : (owner : ℕ → Owner) → (bin_index start count : ℕ) → Type 0
OwnsRaw owner b start count =
    (x : ℕ) → start ≤ x → x < start + count * element_size b → owner x ≡ raw b

-- A block is at a multiple of its size, or at a page.
abbrev pub Aligned : (bin_index address : ℕ) → Type 0
Aligned b address =
    ((b < 8) × (address % element_size b ≡ 0)) ⊎ ((8 ≤ b) × (address % page_size ≡ 0))

abbrev pub Owned : (owner : ℕ → Owner) → (bin_index : ℕ) → List ℕ → Type 0
Owned owner b l = (address : ℕ) → address ∈ l → Owns owner b address × Aligned b address

-- A bin's free and live blocks and its raw ones.
pub record IsBin (owner : ℕ → Owner) (b : ℕ) (live : List ℕ) (bin : HeapBin) : Type 0 where
  pub free_owned : Owned owner b bin.free_list
  pub live_owned : Owned owner b live
  pub raw_owned : OwnsRaw owner b bin.raw_list bin.raw_count
  pub raw_aligned : (bin.raw_count ≡ 0) ⊎ Aligned b bin.raw_list
  pub raw_small : bin.raw_count < u32_mod
  pub distinct_free : Distinct bin.free_list
  pub distinct_live : Distinct live
  pub apart : (address : ℕ) → address ∈ live → address ∉ bin.free_list

-- An address that has an owner is below the break, on a page of its bin.
pub record IsHeap (owner : ℕ → Owner) (live : ℕ → List ℕ) (h : Heap) : Type 0 where
  pub is_bin : (b : ℕ) → b < bin_count → IsBin owner b (live b) (h.bins b)
  pub within : (x : ℕ) → (owner x ≡ nobody) ⊎ ((h.base ≤ x) × (x < h.base_ptr))
  pub paged :
      (x : ℕ)
      → (owner x ≡ nobody)
        ⊎ (((h.alloc_table (page_of h x)).bin_index ≡ bin_of (owner x))
            × (bin_of (owner x) < bin_count))
  pub page_base : h.base % page_size ≡ 0
  pub page_ptr : h.base_ptr % page_size ≡ 0
  pub low : 0 < h.base
  pub base_le : h.base ≤ h.base_ptr
  pub ptr_le : h.base_ptr ≤ h.base + h.size
  pub top : h.base + h.size + grow_size (bin_count - 1) < u32_mod

-- Blocks that share an address are one block of one bin.
pub Owns-same :
    (owner : ℕ → Owner) (b b' address address' x : ℕ)
    → Owns owner b address
    → Owns owner b' address'
    → address ≤ x
    → x < address + element_size b
    → address' ≤ x
    → x < address' + element_size b'
    → (b ≡ b') × (address ≡ address')
Owns-same owner b b' address address' x h h' lo hi lo' hi' =
    let e : block b address ≡ block b' address' = sym (h x lo hi) ∙ h' x lo' hi' in
    (ap bin_of e, ap block_of e)
