-- ===== src/Sem/Ids.antt =====
-- The parts of a semaphore's id, and generated ids.
use phlox.Common.{
  ℕ, ◌<◌, ◌≤◌, ◌≡◌, refl, inl, inr, Bool, true, false, ◌&&◌, ◌==◌, ==_iff, ◌∙◌, ltb, if◌then◌else◌,
  arith, Bool-cases, some, u32_mod, inc32,
}
use phlox.Sem.{sem_idx, sem_gid, sem_id_build, max_gid, max_sem_count, get_next_gid}

-- For a slot of the table and a gid that fits, the id that SEM_ID_BUILD makes is a 32-bit number,
-- and SEM_IDX and SEM_GID give slot and gid back.
pub sem_id_build-parts :
    (slot gid : ℕ)
    → slot < max_sem_count
    → gid ≤ max_gid
    → (sem_idx (sem_id_build slot gid) ≡ slot)
      × (sem_gid (sem_id_build slot gid) ≡ gid)
      × (sem_id_build slot gid < u32_mod)
sem_id_build-parts slot gid a b = (omega (arith, a, b), omega (arith, a, b), omega (arith, a, b))

-- A generated id, and what next_sem_gid is then.
abbrev pub IsGid : (nozero : Bool) → ℕ × ℕ → Type 0
IsGid nozero (gid, next) = (gid ≤ max_gid) × (next < u32_mod) × ((nozero && (gid == 0)) ≡ false)

-- After 0 there is 1.
after_zero :
    (nozero : Bool)
    → (r : ℕ × ℕ) × ((if nozero && (0 == 0) then get_next_gid 2 nozero 0 else some (0, 0)) ≡ some r)
      × IsGid nozero r
unfolding get_next_gid
after_zero true = ((1, 2), refl, (omega arith, omega arith, refl))
after_zero false = ((0, 0), refl, (omega arith, omega arith, refl))

-- A gid that is small enough is taken, unless it is a 0 that is not wanted.
small-IsGid :
    (nozero : Bool) (next : ℕ)
    → ltb max_gid next ≡ false
    → (r : ℕ × ℕ) × ((if nozero && (next == 0)
          then get_next_gid 2 nozero (inc32 next)
          else some (next, inc32 next))
        ≡ some r)
      × IsGid nozero r
unfolding get_next_gid
small-IsGid false next e = ((next, inc32 next), refl, (ground (arith, e), omega arith, refl))
small-IsGid true next e = elim (Bool-cases (next == 0)) [
  | inl z ↦
      let same : next ≡ 0 = (==_iff next 0).0 z in
      rw same ((1, 2), refl, (omega arith, omega arith, refl))
  | inr z ↦ rw z ((next, inc32 next), refl, (ground (arith, e), omega arith, z))
]

-- The two branches of the first round.
first_round :
    (nozero : Bool) (next : ℕ)
    → get_next_gid 3 nozero next ≡ (
        if ltb max_gid next
        then (if nozero && (0 == 0) then get_next_gid 2 nozero 0 else some (0, 0))
        else (if nozero && (next == 0)
            then get_next_gid 2 nozero (inc32 next)
            else some (next, inc32 next)))
unfolding get_next_gid
first_round nozero next = elim (Bool-cases (ltb max_gid next)) [
  | inl e ↦ rw e refl
  | inr e ↦ rw e refl
]

-- get_next_gid ends within three rounds, whatever next_sem_gid is, with a gid that fits above the
-- index bits and is not 0 where that is asked for, and leaves next_sem_gid a 32-bit number.
pub get_next_gid-IsGid :
    (nozero : Bool) (next : ℕ)
    → (r : ℕ × ℕ) × (get_next_gid 3 nozero next ≡ some r) × IsGid nozero r
get_next_gid-IsGid nozero next = elim (Bool-cases (ltb max_gid next)) [
  | inl e ↦ let (r, run, is) = after_zero nozero in (r, first_round nozero next ∙ rw e run, is)
  | inr e ↦
      let (r, run, is) = small-IsGid nozero next e in (r, first_round nozero next ∙ rw e run, is)
]
