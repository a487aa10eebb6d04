-- ===== src/Heap/Claim.antt =====
-- A part of the addresses gets a new owner, and a bin new contents.
use phlox.Common.{
  ℕ, ◌<◌, ◌≤◌, ◌≡◌, ◌≢◌, ◌⊎◌, refl, sym, ap, ◌∙◌, inl, inr, Bool, true, false, ◌&&◌, List, ◌==◌,
  ltb, leb, if◌then◌else◌, arith, Bool-cases, ==_iff,
}
use mathlib.Core.Path.{subst}
use phlox.Heap.{Heap, HeapBin, bin_count, put_bin}
use phlox.Heap.Owner.{Owner, nobody, raw, block, is_block, OwnsRaw, Owned, IsBin}

abbrev pub set_live : (ℕ → List ℕ) → (bin_index : ℕ) → List ℕ → ℕ → List ℕ
set_live live b l i = if i == b then l else live i

-- The addresses from `from` to before `to` get an owner.
abbrev pub claim : (ℕ → Owner) → (from to : ℕ) → Owner → ℕ → Owner
claim owner from to new x = if leb from x && ltb x to then new else owner x

pub claim-in :
    (owner : ℕ → Owner) (from to : ℕ) (new : Owner) (x : ℕ)
    → from ≤ x
    → x < to
    → claim owner from to new x ≡ new
claim-in owner from to new x lo hi =
    let inside : (leb from x && ltb x to) ≡ true = ground (arith, lo, hi) in rw inside refl

pub claim-out :
    (owner : ℕ → Owner) (from to : ℕ) (new : Owner) (x : ℕ)
    → (x < from) ⊎ (to ≤ x)
    → claim owner from to new x ≡ owner x
claim-out owner from to new x out =
    let outside : (leb from x && ltb x to) ≡ false = ground (arith, out) in rw outside refl

-- An address whose owner differs from what the part had is outside the part.
pub outside :
    (owner : ℕ → Owner) (from to : ℕ) (f : Owner → Bool) (x : ℕ)
    → ((y : ℕ) → from ≤ y → y < to → f (owner y) ≡ false)
    → f (owner x) ≡ true
    → (x < from) ⊎ (to ≤ x)
outside owner from to f x clear e = elim (Bool-cases (leb from x && ltb x to)) [
  | inl t ↦
      let off : f (owner x) ≡ false = clear x (ground (arith, t)) (ground (arith, t)) in
      ground (arith, e, off)
  | inr t ↦ ground (arith, t)
]

-- Blocks keep their addresses where a part that has none of them is given away.
pub Owned-claim :
    (owner : ℕ → Owner) (from to : ℕ) (new : Owner) (b : ℕ) (l : List ℕ)
    → ((y : ℕ) → from ≤ y → y < to → is_block (owner y) ≡ false)
    → Owned owner b l
    → Owned (claim owner from to new) b l
Owned-claim owner from to new b l clear owned address member =
    let (owns, aligned) = owned address member in
    (
      λ x lo hi.
          let own : owner x ≡ block b address = owns x lo hi in
          let out = outside owner from to is_block x clear (ap is_block own) in
          claim-out owner from to new x out ∙ own,
      aligned,
    )

abbrev pub raw_of : ℕ → Owner → Bool
raw_of b nobody = false
raw_of b (raw b') = b' == b
raw_of b (block b' address) = false

pub OwnsRaw-claim :
    (owner : ℕ → Owner) (from to : ℕ) (new : Owner) (b start count : ℕ)
    → ((y : ℕ) → from ≤ y → y < to → raw_of b (owner y) ≡ false)
    → OwnsRaw owner b start count
    → OwnsRaw (claim owner from to new) b start count
OwnsRaw-claim owner from to new b start count clear owns = λ x lo hi.
    let own : owner x ≡ raw b = owns x lo hi in
    let self : raw_of b (raw b) ≡ true = (==_iff b b).1 refl in
    claim-out owner from to new x
      (outside owner from to (raw_of b) x clear (ap (raw_of b) own ∙ self))
    ∙ own

-- A bin that has no raw block in the part stays what it is.
pub IsBin-claim :
    (owner : ℕ → Owner) (from to : ℕ) (new : Owner) (b : ℕ) (live : List ℕ) (bin : HeapBin)
    → ((y : ℕ) → from ≤ y → y < to → is_block (owner y) ≡ false)
    → ((y : ℕ) → from ≤ y → y < to → raw_of b (owner y) ≡ false)
    → IsBin owner b live bin
    → IsBin (claim owner from to new) b live bin
IsBin-claim owner from to new b live bin no_block no_raw is = record {
  free_owned = Owned-claim owner from to new b bin.free_list no_block is.free_owned;
  live_owned = Owned-claim owner from to new b live no_block is.live_owned;
  raw_owned = OwnsRaw-claim owner from to new b bin.raw_list bin.raw_count no_raw is.raw_owned;
  raw_aligned = is.raw_aligned;
  raw_small = is.raw_small;
  distinct_free = is.distinct_free;
  distinct_live = is.distinct_live;
  apart = is.apart;
}

-- A bin's contents change, and its live blocks.
pub bins-put_bin :
    (owner : ℕ → Owner) (live : ℕ → List ℕ) (h : Heap) (b : ℕ) (bin : HeapBin) (l : List ℕ)
    → ((i : ℕ) → i < bin_count → i ≢ b → IsBin owner i (live i) (h.bins i))
    → IsBin owner b l bin
    → (i : ℕ) → i < bin_count
    → IsBin owner i (set_live live b l i) ((put_bin h b bin).bins i)
bins-put_bin owner live h b bin l others own i lt = elim (Bool-cases (i == b)) [
  | inl e ↦ rw e (subst (λ v. IsBin owner v l bin) (sym ((==_iff i b).0 e)) own)
  | inr e ↦ rw e (others i lt (ground (arith, e)))
]
