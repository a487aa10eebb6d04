-- ===== src/Sem/Created.antt =====
-- A semaphore that was created is found by its id, with its initial count.
use phlox.Common.{
  ℕ, ◌<◌, ◌≡◌, refl, inl, inr, Bool, true, false, not, ◌&&◌, ◌||◌, ◌==◌, ltb, arith, Bool-cases,
  Option-cases, Option, none, some, [],
}
use phlox.Sem.{
  Sems, Semaphore, max_sem_count, sem_idx, sem_id_build, put_sem, alloc_sem_slot, get_sem_by_id,
  new_sem, entered, enter_sem, sem_create_ex, is_named, is_too_long,
}
use phlox.Sem.Ids.{get_next_gid-IsGid, sem_id_build-parts}
use phlox.Sem.Valid.{find_slot-free}

-- What a creation comes to: no id and the same table, or an id that is not 0 whose slot was free and
-- has the new semaphore.
abbrev pub Created : Sems → (proc max_count init_count : ℕ) → Option ℕ × Sems → Type 0
Created s proc max_count init_count (none, s') = s'.sem_table ≡ s.sem_table
Created s proc max_count init_count (some id, s') =
    ((id == 0) ≡ false)
    × (s.sem_table (sem_idx id) ≡ none)
    × ((sem : Semaphore) × (get_sem_by_id s' id ≡ some sem)
        × (sem.proc ≡ proc)
        × (sem.max_count ≡ max_count)
        × (sem.count ≡ init_count)
        × (sem.waiters ≡ []))

-- A semaphore in the slot of its id is found by it.
get_sem_by_id-slot :
    (s : Sems) (id : ℕ) (sem : Semaphore)
    → s.sem_table (sem_idx id) ≡ some sem
    → (sem.id == id) ≡ true
    → get_sem_by_id s id ≡ some sem
unfolding get_sem_by_id
get_sem_by_id-slot s id sem at same = rw (at, get_sem_by_id) (rw same refl)

put_sem-slot :
    (s : Sems) (slot i : ℕ) (sem : Semaphore)
    → i ≡ slot
    → (put_sem s slot (some sem)).sem_table i ≡ some sem
put_sem-slot s slot i sem e = ground (arith, e)

enter_sem-Created :
    (s : Sems) (slot : ℕ) (has_name added : Bool) (proc max_count init_count : ℕ)
    → slot < max_sem_count
    → s.sem_table slot ≡ none
    → Created s proc max_count init_count
        (enter_sem s slot has_name added proc max_count init_count)
unfolding enter_sem get_sem_by_id
enter_sem-Created s slot has_name added proc max_count init_count lt free =
    let ((gid, next), run, (small, lt', nz)) = get_next_gid-IsGid (slot == 0) s.next_sem_gid in
    let id = sem_id_build slot gid in
    let at : sem_idx id ≡ slot = (sem_id_build-parts slot gid lt small).0 in
    let sem = new_sem id proc has_name max_count init_count in
    let own_id : (sem.id == id) ≡ true = ground arith in
    let nonzero : (id == 0) ≡ false = ground (arith, lt, small, nz) in
    rw (run, enter_sem)
      (elim (Bool-cases (has_name && not added)) [
        | inl taken ↦ rw taken refl
        | inr ok ↦ rw ok (
          nonzero,
          rw at free,
          (
            sem,
            get_sem_by_id-slot (entered s slot next sem) id sem
                (put_sem-slot s slot (sem_idx id) sem at) own_id,
            refl,
            refl,
            refl,
            refl,
          ),
        )
      ])

-- sem_create_ex for a process that exists returns INVALID_SEMID and leaves the table of semaphores
-- as it was, or an id that is not 0, whose slot was free and by which get_sem_by_id finds then the
-- semaphore of that process with the given limit and count and no waiters.
pub sem_create_ex-Created :
    (s : Sems) (name_length : Option ℕ) (got_struct : Bool) (proc : ℕ) (added : Bool)
    (max_count init_count : ℕ)
    → Created s proc max_count init_count
        (sem_create_ex s name_length got_struct (some proc) added max_count init_count)
unfolding sem_create_ex alloc_sem_slot
sem_create_ex-Created s name_length got_struct proc added max_count init_count =
    elim (Bool-cases (is_too_long name_length || ltb max_count init_count)) [
      | inl bad ↦ rw bad refl
      | inr good ↦ elim (Option-cases (alloc_sem_slot s)) [
        | inl full ↦ rw (good, full, sem_create_ex) refl
        | inr (slot, got) ↦
            let (lt, free) = find_slot-free max_sem_count s.sem_table 0 slot got in
            elim (Bool-cases (not got_struct)) [
              | inl out ↦ rw (good, got, sem_create_ex) (rw out refl)
              | inr ok ↦
                  rw (good, got, sem_create_ex)
                    (rw ok (
                      enter_sem-Created s slot (is_named name_length) added proc max_count
                        init_count lt free))
            ]
      ]
    ]
