-- ===== src/Heap/Apart.antt =====
-- Live blocks share no address, and a new one none with them.
use phlox.Common.{
  ℕ, ◌+◌, ◌<◌, ◌≤◌, ◌≡◌, ◌⊎◌, sym, inl, inr, some, List, ◌∷◌, ◌∈◌, ◌==◌, leb, arith, Bool-cases,
  ==_iff,
}
use mathlib.Core.Path.{subst}
use phlox.Heap.{Heap, element_size, bin_count, kmalloc}
use phlox.Heap.Owner.{Owner, IsHeap, Owns-same}
use phlox.Heap.Sizes.{element_size-pos}
use phlox.Heap.Claim.{set_live}
use phlox.Heap.Malloc.{Allocated, kmalloc-Allocated}

-- Two live blocks of a heap, unless they are one, share no address.
live_blocks-apart :
    (owner : ℕ → Owner) (live : ℕ → List ℕ) (h : Heap) (b b' address address' : ℕ)
    → IsHeap owner live h
    → b < bin_count
    → b' < bin_count
    → address ∈ live b
    → address' ∈ live b'
    → ((b ≡ b') × (address ≡ address'))
      ⊎ ((address + element_size b ≤ address') ⊎ (address' + element_size b' ≤ address))
live_blocks-apart owner live h b b' address address' is lt lt' member member' =
    let owns = ((is.is_bin b lt).live_owned address member).0 in
    let owns' = ((is.is_bin b' lt').live_owned address' member').0 in
    elim (Bool-cases (leb (address + element_size b) address')) [
      | inl t ↦ inr (inl (ground (arith, t)))
      | inr f ↦ elim (Bool-cases (leb (address' + element_size b') address)) [
        | inl t ↦ inr (inr (ground (arith, t)))
        | inr g ↦ elim (Bool-cases (leb address address')) [
          | inl le ↦ inl (
              Owns-same owner b b' address address' address' owns owns' (ground (arith, le))
                (ground (arith, f)) (omega arith) (omega (arith, element_size-pos b')))
          | inr gt ↦ inl (
              Owns-same owner b b' address address' address owns owns' (omega arith)
                (omega (arith, element_size-pos b)) (ground (arith, gt)) (ground (arith, g)))
        ]
      ]
    ]

-- In a well-formed heap, where kmalloc returns a block for a size, the block's bytes share no
-- address with any live block of any bin.
pub kmalloc-apart :
    (owner : ℕ → Owner) (live : ℕ → List ℕ) (h h' : Heap) (size address b' address' : ℕ)
    → IsHeap owner live h
    → kmalloc h size ≡ some (address, h')
    → b' < bin_count
    → address' ∈ live b'
    → (address + size ≤ address') ⊎ (address' + element_size b' ≤ address)
kmalloc-apart owner live h h' size address b' address' is e lt' member' =
    of_allocated (subst (Allocated live h size) e (kmalloc-Allocated owner live h size is))
  where
    of_allocated :
        Allocated live h size (some (address, h'))
        → (address + size ≤ address') ⊎ (address' + element_size b' ≤ address)
    of_allocated (b, lt, fits, first, (fresh, (owner', is'))) =
        let live' = set_live live b (address ∷ live b) in
        let new : address ∈ live' b = ground arith in
        let old : address' ∈ live' b' = elim (Bool-cases (b' == b)) [
          | inl t ↦
              rw t (ground (arith, subst (λ v. address' ∈ live v) ((==_iff b' b).0 t) member'))
          | inr f ↦ rw f member'
        ] in
        elim (live_blocks-apart owner' live' h' b b' address address' is' lt lt' new old) [
          | inl (same_bin, same) ↦
              let there : address ∈ live b =
                subst (λ v. v ∈ live b) (sym same)
                  (subst (λ v. address' ∈ live v) (sym same_bin) member') in
              ground (arith, fresh, there)
          | inr (inl le) ↦ inl (omega (arith, le, fits))
          | inr (inr le) ↦ inr le
        ]
