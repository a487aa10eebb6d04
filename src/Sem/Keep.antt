-- ===== src/Sem/Keep.antt =====
-- The routines keep the table of semaphores well-formed.
use phlox.Common.{
  ℕ, ◌+◌, ◌-◌, ◌%◌, ◌<◌, ◌≤◌, ◌≡◌, ◌∙◌, sym, refl, inl, inr, Bool, false, not, ◌&&◌, ◌||◌, ◌==◌,
  ltb, leb, arith, Bool-cases, Option-cases, Option, none, some, u32_mod, List, [], ◌∷◌, ◌++◌, ◌∉◌,
  Distinct, Distinct-append_one,
}
use mathlib.Core.Path.{subst}
use phlox.Sem.{
  Sems, Semaphore, Wcb, SemStatus, no_error, sem_invalid_value, sem_invalid_handle, max_sem_count,
  sem_idx, put_sem, alloc_sem_slot, is_named, is_too_long, get_sem_by_id, enter_sem, sem_create_ex,
  sem_delete, tell, delete_waiters, sem_up, sem_change_owner,
}
use phlox.Sem.Down.{fill_wcb, acquire_from, acquire}
use phlox.Sem.Ids.{get_next_gid-IsGid}
use phlox.Sem.Wake.{serve, served_by, sem_up-serve}
use phlox.Sem.Valid.{
  IsSemaphore, IsSems, put_sem-IsSems, put_none-IsSems, found-IsSemaphore, same_table,
  find_slot-free, new-IsSemaphore,
}

enter_sem-IsSems :
    (s : Sems) (slot : ℕ) (has_name added : Bool) (proc max_count init_count : ℕ)
    → IsSems s
    → slot < max_sem_count
    → init_count ≤ max_count
    → IsSems (enter_sem s slot has_name added proc max_count init_count).1
unfolding enter_sem
enter_sem-IsSems s slot has_name added proc max_count init_count is lt le =
    let ((gid, next), run, (small, lt', nz)) = get_next_gid-IsGid (slot == 0) s.next_sem_gid in
    let new = new-IsSemaphore slot gid proc max_count init_count has_name lt small nz le in
    rw (run, enter_sem)
      (elim (Bool-cases (has_name && not added)) [
        | inl taken ↦ rw taken (same_table s _ refl is)
        | inr free ↦ rw free (same_table _ _ refl (put_sem-IsSems s slot _ is new))
      ])

pub sem_create_ex-IsSems :
    (s : Sems) (name_length : Option ℕ) (got_struct : Bool) (owner : Option ℕ) (added : Bool)
    (max_count init_count : ℕ)
    → IsSems s
    → IsSems (sem_create_ex s name_length got_struct owner added max_count init_count).1
unfolding sem_create_ex alloc_sem_slot
sem_create_ex-IsSems s name_length got_struct owner added max_count init_count is =
    elim (Bool-cases (is_too_long name_length || ltb max_count init_count)) [
      | inl bad ↦ rw bad is
      | inr good ↦ elim (Option-cases (alloc_sem_slot s)) [
        | inl full ↦ rw (good, full, sem_create_ex) is
        | inr (slot, got) ↦
            let (lt, free) = find_slot-free max_sem_count s.sem_table 0 slot got in
            let le : init_count ≤ max_count = ground (arith, good) in
            elim (Bool-cases (not got_struct)) [
              | inl out ↦ rw (good, got, sem_create_ex) (rw out is)
              | inr ok ↦ elim (Option-cases owner) [
                | inl nobody ↦ rw (good, got, sem_create_ex) (rw (ok, nobody) is)
                | inr (proc, someone) ↦
                    rw (good, got, sem_create_ex)
                      (rw (ok, someone)
                        (enter_sem-IsSems s slot (is_named name_length) added proc max_count
                          init_count is lt le))
              ]
            ]
      ]
    ]

-- The table is not touched by the wake-ups.
delete_waiters-table : (s : Sems) (ws : List ℕ) → (delete_waiters s ws).sem_table ≡ s.sem_table
unfolding delete_waiters
delete_waiters-table s [] = refl
delete_waiters-table s (w ∷ ws) = delete_waiters-table (tell s w) ws

pub sem_delete-IsSems : (s : Sems) (id : ℕ) → IsSems s → IsSems (sem_delete s id).1
unfolding sem_delete
sem_delete-IsSems s id is = elim (Option-cases (get_sem_by_id s id)) [
  | inl out ↦ rw (out, sem_delete) is
  | inr (sem, found) ↦
      rw (found, sem_delete)
        (same_table (put_sem s (sem_idx id) none) _ (delete_waiters-table _ sem.waiters)
          (put_none-IsSems s (sem_idx id) is))
]

-- Those who are kept were there before.
has-serve : (wcbs : ℕ → Wcb) (x : ℕ) (ws : List ℕ) (curr : ℕ) → x ∉ ws → x ∉ (serve wcbs ws curr).0
unfolding serve
has-serve wcbs x [] curr out = out
has-serve wcbs x (w ∷ ws) curr out =
    let out' : x ∉ ws = ground (arith, out) in
    let differs : (x == w) ≡ false = ground (arith, out) in
    elim (Bool-cases (leb (wcbs w).count curr)) [
      | inl e ↦ rw e (has-serve wcbs x ws (curr - (wcbs w).count) out')
      | inr e ↦ rw e (rw differs (has-serve wcbs x ws curr out'))
    ]

Distinct-serve :
    (wcbs : ℕ → Wcb) (ws : List ℕ) (curr : ℕ) → Distinct ws → Distinct (serve wcbs ws curr).0
unfolding serve
Distinct-serve wcbs [] curr d = tt
Distinct-serve wcbs (w ∷ ws) curr d = elim (Bool-cases (leb (wcbs w).count curr)) [
  | inl e ↦ rw e (Distinct-serve wcbs ws (curr - (wcbs w).count) d.1)
  | inr e ↦ rw e (has-serve wcbs w ws curr d.0, Distinct-serve wcbs ws curr d.1)
]

served_by-IsSems :
    (s : Sems) (slot : ℕ) (sem : Semaphore)
    → IsSems s
    → IsSemaphore slot sem
    → IsSems (served_by s slot sem)
served_by-IsSems s slot sem is it =
    let kept = (serve s.wcbs sem.waiters sem.count).0 in
    let sem' : Semaphore = record sem { waiters = kept } in
    same_table (put_sem s slot (some sem')) (served_by s slot sem) refl (
      put_sem-IsSems s slot sem' is (record {
        index = it.index;
        valid = it.valid;
        limit = it.limit;
        once = Distinct-serve s.wcbs sem.waiters sem.count it.once;
      }))

-- The result of a sem_up that found its semaphore.
result_eq :
    (a b : SemStatus) (s s' : Sems)
    → ◌≡◌ {A = Option (SemStatus × Sems)} (some (a, s)) (some (b, s'))
    → s ≡ s'
result_eq a b s s' e = cc

pub sem_up-IsSems :
    (s s' : Sems) (id count : ℕ) (status : SemStatus)
    → sem_up s id count ≡ some (status, s')
    → IsSems s
    → IsSems s'
unfolding sem_up
sem_up-IsSems s s' id count status run is = elim (Option-cases (get_sem_by_id s id)) [
  | inl out ↦ subst IsSems (result_eq sem_invalid_handle status s s' (rw (out, sem_up) at run)) is
  | inr (sem, found) ↦
      let it = found-IsSemaphore s id sem is found in
      let sum = (sem.count + count) % u32_mod in
      let run' = sym (sem_up-serve s id count sem found it.once) ∙ run in
      elim (Bool-cases (ltb sem.max_count sum)) [
        | inl high ↦ subst IsSems (result_eq sem_invalid_value status s s' (rw high at run')) is
        | inr low ↦ elim (Bool-cases (count == 0)) [
          | inl none_up ↦
              subst IsSems (result_eq no_error status s s' (rw none_up at (rw low at run'))) is
          | inr up ↦
              let up_sem : Semaphore = record sem { count = sum } in
              let it' : IsSemaphore (sem_idx id) up_sem = record {
                index = it.index;
                valid = it.valid;
                limit = ground (arith, low);
                once = it.once;
              } in
              subst IsSems (result_eq no_error status _ s' (rw up at (rw low at run')))
                (served_by-IsSems s (sem_idx id) up_sem is it')
        ]
      ]
]

pub sem_change_owner-IsSems :
    (s : Sems) (id : ℕ) (new_owner : Option ℕ)
    → IsSems s
    → IsSems (sem_change_owner s id new_owner).1
unfolding sem_change_owner
sem_change_owner-IsSems s id none is = is
sem_change_owner-IsSems s id (some proc) is = elim (Option-cases (get_sem_by_id s id)) [
  | inl out ↦ rw (out, sem_change_owner) is
  | inr (sem, found) ↦
      let it = found-IsSemaphore s id sem is found in
      rw (found, sem_change_owner)
        (same_table (put_sem s (sem_idx id) (some (record sem { proc = proc }))) _ refl (
          put_sem-IsSems s (sem_idx id) _ is
            (record { index = it.index; valid = it.valid; limit = it.limit; once = it.once })))
]

-- A control block is new to a semaphore.
abbrev pub Fresh : Sems → (id w : ℕ) → Type 0
Fresh s id w = (sem : Semaphore) → get_sem_by_id s id ≡ some sem → w ∉ sem.waiters

acquire_from-IsSems :
    (s : Sems) (id w count : ℕ) (sem : Semaphore)
    (flag_try flag_timeout runnable got_timeout : Bool)
    → IsSems s
    → IsSemaphore (sem_idx id) sem
    → w ∉ sem.waiters
    → IsSems (acquire_from s id w count sem flag_try flag_timeout runnable got_timeout).1
unfolding acquire_from
acquire_from-IsSems s id w count sem flag_try flag_timeout runnable got_timeout is it new =
    let less : Semaphore = record sem { count = sem.count - count } in
    let down : IsSemaphore (sem_idx id) less = record {
      index = it.index;
      valid = it.valid;
      limit = omega (arith, it.limit);
      once = it.once;
    } in
    let more : Semaphore = record sem { waiters = sem.waiters ++ w ∷ [] } in
    let wait : IsSemaphore (sem_idx id) more = record {
      index = it.index;
      valid = it.valid;
      limit = it.limit;
      once = Distinct-append_one w sem.waiters it.once new;
    } in
    elim (Bool-cases (leb count sem.count)) [
      | inl a ↦ rw a (put_sem-IsSems s (sem_idx id) less is down)
      | inr a ↦ elim (Bool-cases flag_try) [
        | inl b ↦ rw (a, b) is
        | inr b ↦ elim (Bool-cases (not runnable)) [
          | inl c ↦ rw (a, b, c) is
          | inr c ↦ elim (Bool-cases (flag_timeout && not got_timeout)) [
            | inl d ↦ rw (a, b, c, d) is
            | inr d ↦ rw (a, b, c, d) (put_sem-IsSems s (sem_idx id) more is wait)
          ]
        ]
      ]
    ]

pub acquire-IsSems :
    (s : Sems) (id w thread count : ℕ) (flag_try flag_timeout runnable got_timeout : Bool)
    → IsSems s
    → Fresh s id w
    → IsSems (acquire s id w thread count flag_try flag_timeout runnable got_timeout).1
unfolding acquire
acquire-IsSems s id w thread count flag_try flag_timeout runnable got_timeout is fresh =
    elim (Option-cases (get_sem_by_id s id)) [
      | inl out ↦ rw (out, acquire) is
      | inr (sem, found) ↦
          rw (found, acquire)
            (acquire_from-IsSems (fill_wcb s w thread count) id w count sem flag_try flag_timeout
              runnable got_timeout (same_table s (fill_wcb s w thread count) refl is)
              (found-IsSemaphore s id sem is found) (fresh sem found))
    ]
