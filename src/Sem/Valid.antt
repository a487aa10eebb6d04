-- ===== src/Sem/Valid.antt =====
-- When the table of semaphores is well-formed, and that the routines keep it so.
use phlox.Common.{
  ℕ, zero, suc, ◌+◌, ◌<◌, ◌≤◌, ◌≡◌, ◌∙◌, sym, inl, inr, Bool, false, ◌&&◌, ◌==◌, ==_iff, arith,
  Bool-cases, Option-cases, Option, none, some, [], Distinct,
}
use mathlib.Core.Path.{subst}
use phlox.Sem.{
  Sems, Semaphore, max_sem_count, sem_idx, sem_id_build, max_gid, put_sem, find_slot, get_sem_by_id,
}
use phlox.Sem.Ids.{sem_id_build-parts}

-- A semaphore of a slot: its id, which is not 0, has the slot as index; the count is within its limit;
-- nobody waits twice.
pub record IsSemaphore (slot : ℕ) (sem : Semaphore) : Type 0 where
  pub index : sem_idx sem.id ≡ slot
  pub valid : (sem.id == 0) ≡ false
  pub limit : sem.count ≤ sem.max_count
  pub once : Distinct sem.waiters

pub record IsSems (s : Sems) : Type 0 where
  pub semaphores : (slot : ℕ) (sem : Semaphore) → s.sem_table slot ≡ some sem → IsSemaphore slot sem

some_eq : (a b : Semaphore) → some a ≡ some b → a ≡ b
some_eq a b e = cc

-- A slot that gets a semaphore of its own.
pub put_sem-IsSems :
    (s : Sems) (slot : ℕ) (sem : Semaphore)
    → IsSems s
    → IsSemaphore slot sem
    → IsSems (put_sem s slot (some sem))
put_sem-IsSems s slot sem is it = record {
  semaphores = λ i m e. elim (Bool-cases (i == slot)) [
    | inl same ↦
        let at : some sem ≡ some m = rw same at e in
        rw ((==_iff i slot).0 same) (subst (IsSemaphore slot) (some_eq sem m at) it)
    | inr other ↦ let at : s.sem_table i ≡ some m = rw other at e in is.semaphores i m at
  ];
}

pub put_none-IsSems : (s : Sems) (slot : ℕ) → IsSems s → IsSems (put_sem s slot none)
put_none-IsSems s slot is = record {
  semaphores = λ i m e. elim (Bool-cases (i == slot)) [
    | inl same ↦ let at : none ≡ some m = rw same at e in absurd (cc)
    | inr other ↦ let at : s.sem_table i ≡ some m = rw other at e in is.semaphores i m at
  ];
}

-- What get_sem_by_id finds stands in its slot.
pub found_in :
    (s : Sems) (id : ℕ) (sem : Semaphore)
    → get_sem_by_id s id ≡ some sem
    → (s.sem_table (sem_idx id) ≡ some sem) × (sem.id ≡ id)
unfolding get_sem_by_id
found_in s id sem e = elim (Option-cases (s.sem_table (sem_idx id))) [
  | inl out ↦ let at : none ≡ some sem = rw (out, get_sem_by_id) at e in absurd (cc)
  | inr (m, there) ↦ elim (Bool-cases (m.id == id)) [
    | inl same ↦
        let at : some m ≡ some sem = rw same at (rw (there, get_sem_by_id) at e) in
        (there ∙ at, subst (λ x. x.id ≡ id) (some_eq m sem at) ((==_iff m.id id).0 same))
    | inr other ↦
        let at : none ≡ some sem = rw other at (rw (there, get_sem_by_id) at e) in absurd (cc)
  ]
]

pub found-IsSemaphore :
    (s : Sems) (id : ℕ) (sem : Semaphore)
    → IsSems s
    → get_sem_by_id s id ≡ some sem
    → IsSemaphore (sem_idx id) sem
found-IsSemaphore s id sem is e = is.semaphores (sem_idx id) sem (found_in s id sem e).0

-- The other variables do not matter.
pub same_table : (s s' : Sems) → s'.sem_table ≡ s.sem_table → IsSems s → IsSems s'
same_table s s' e is = record {
  semaphores = λ i m at. let at' : s.sem_table i ≡ some m = rw e at at in is.semaphores i m at';
}

-- The slot that alloc_sem_slot finds is in the table, and free.
pub find_slot-free :
    (n : ℕ) (t : ℕ → Option Semaphore) (i slot : ℕ)
    → find_slot n t i ≡ some slot
    → (slot < i + n) × (t slot ≡ none)
unfolding find_slot
find_slot-free zero t i slot e = absurd (cc)
find_slot-free (suc n) t i slot e = elim (Option-cases (t i)) [
  | inl free ↦
      let at : some i ≡ some slot = rw (free, find_slot) at e in
      let same : i ≡ slot = cc in (omega (arith, same), rw (sym same) free)
  | inr (m, used) ↦
      let at : find_slot n t (i + 1) ≡ some slot = rw (used, find_slot) at e in
      let (a, b) = find_slot-free n t (i + 1) slot at in (omega (arith, a), b)
]

-- The new semaphore of sem_create_ex.
pub new-IsSemaphore :
    (slot gid proc max_count init_count : ℕ) (has_name : Bool)
    → slot < max_sem_count
    → gid ≤ max_gid
    → ((slot == 0) && (gid == 0)) ≡ false
    → init_count ≤ max_count
    → IsSemaphore slot (record {
      id = sem_id_build slot gid;
      proc = proc;
      has_name = has_name;
      max_count = max_count;
      count = init_count;
      waiters = [];
    })
new-IsSemaphore slot gid proc max_count init_count has_name lt le nz limit = record {
  index = (sem_id_build-parts slot gid lt le).0;
  valid = ground (arith, lt, le, nz);
  limit = limit;
  once = tt;
}
