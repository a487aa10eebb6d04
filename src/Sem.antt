-- ===== src/Sem.antt =====
-- phlox/kernel/sem.c: counting semaphores. A control block of a waiting thread is its address, and a
-- list of waiters or of owned semaphores is a sequence, the routines of XList seen from above.
-- The results of the heap, of the process table and of the tree of names are arguments. The threads
-- that are given to `sched_add_thread` are recorded in `woken`, the latest last.
pub mod Down
pub mod Ids
pub mod Wake
pub mod Valid
pub mod Created
pub mod Keep
pub mod Steps
mod Examples
use phlox.Common.{
  ℕ, zero, suc, ◌+◌, ◌-◌, ◌*◌, ◌/◌, ◌%◌, Bool, true, false, not, ◌&&◌, ◌||◌, Option, none, some,
  List, [], ◌∷◌, ◌++◌, length, erase, ◌==◌, ltb, leb, if◌then◌else◌, inc32, u32_mod, map,
}

pub data SemStatus : Type 0 where
  no_error : SemStatus
  sem_general : SemStatus
  sem_invalid_handle : SemStatus
  sem_invalid_value : SemStatus
  sem_deleted : SemStatus
  sem_timeout : SemStatus
  sem_try_failed : SemStatus
  mt_invalid_handle : SemStatus

pub record Semaphore : Type 0 where
  pub id : ℕ
  pub proc : ℕ
  pub has_name : Bool
  pub max_count : ℕ
  pub count : ℕ
  pub waiters : List ℕ

-- The control block of a waiting thread; its semaphore is the one whose waiters have it.
pub record Wcb : Type 0 where
  pub thread : ℕ
  pub count : ℕ
  pub err : SemStatus

-- The variables of the file, the control blocks, the semaphores that processes own, by their slots,
-- and the threads that were woken up.
pub record Sems : Type 0 where
  pub sem_table : ℕ → Option Semaphore
  pub next_sem_gid : ℕ
  pub wcbs : ℕ → Wcb
  pub owned : ℕ → List ℕ
  pub woken : List ℕ

abbrev pub max_sem_count : ℕ
max_sem_count = 8192

-- The parts of an id: 13 bits of index, and the generated id above them.
abbrev pub sem_idx : (id : ℕ) → ℕ
sem_idx id = id % max_sem_count

abbrev pub sem_gid : (id : ℕ) → ℕ
sem_gid id = id / max_sem_count

-- The slot is below the bits of the shifted gid, so `|` is a sum.
abbrev pub sem_id_build : (slot gid : ℕ) → ℕ
sem_id_build slot gid = gid * max_sem_count % u32_mod + slot

abbrev pub max_gid : ℕ
max_gid = sem_gid (u32_mod - 1)

-- The next gid and the new value of next_sem_gid; `none` is that the fuel does not suffice.
unfoldable pub get_next_gid : ℕ → (nozero : Bool) → (next : ℕ) → Option (ℕ × ℕ)
get_next_gid zero nozero next = none
get_next_gid (suc n) nozero next =
    let retval = if ltb max_gid next then 0 else next in
    let next' = if ltb max_gid next then 0 else inc32 next in
    let again = get_next_gid n nozero next' in
    if nozero && (retval == 0) then again else some (retval, next')

-- The first free slot from `i` on.
unfoldable pub find_slot : ℕ → (sem_table : ℕ → Option Semaphore) → (i : ℕ) → Option ℕ
find_slot zero sem_table i = none
find_slot (suc n) sem_table i =
    let rest = find_slot n sem_table (i + 1) in
    elim (sem_table i) [ none ↦ some i | some sem ↦ rest ]

unfoldable pub alloc_sem_slot : Sems → Option ℕ
unfolding find_slot
alloc_sem_slot s = find_slot max_sem_count s.sem_table 0

unfoldable pub get_sem_by_id : Sems → (id : ℕ) → Option Semaphore
get_sem_by_id s id = elim (s.sem_table (sem_idx id)) [
  | none ↦ none
  | some sem ↦ if sem.id == id then some sem else none
]

-- A slot of the table, and the list of a process, get new contents.
abbrev pub put_sem : Sems → (slot : ℕ) → Option Semaphore → Sems
put_sem s slot sem = record s { sem_table = λ i. if i == slot then sem else s.sem_table i }

abbrev pub own : (ℕ → List ℕ) → (proc : ℕ) → List ℕ → ℕ → List ℕ
own owned proc slots p = if p == proc then slots else owned p

pub semaphores_init : Sems → Sems
semaphores_init s = record s { sem_table = λ i. none; next_sem_gid = 1 }

abbrev pub new_sem : (id proc : ℕ) (has_name : Bool) (max_count init_count : ℕ) → Semaphore
new_sem id proc has_name max_count init_count = record {
  id = id;
  proc = proc;
  has_name = has_name;
  max_count = max_count;
  count = init_count;
  waiters = [];
}

-- The semaphore is put into the table and into the list of its process.
abbrev pub entered : Sems → (slot next : ℕ) → Semaphore → Sems
entered s slot next sem = record (put_sem s slot (some sem)) {
  next_sem_gid = next;
  owned = own s.owned sem.proc (s.owned sem.proc ++ slot ∷ []);
}

-- The steps of sem_create_ex with a slot and a process: the id, the table, the tree of names, which
-- had no semaphore of this name where `added`, and the list of the process.
unfoldable pub enter_sem :
    Sems → (slot : ℕ) (has_name added : Bool) (proc max_count init_count : ℕ) → Option ℕ × Sems
unfolding get_next_gid
enter_sem s slot has_name added proc max_count init_count =
    elim (get_next_gid 3 (slot == 0) s.next_sem_gid) [
      | none ↦ (none, s)
      | some (gid, next) ↦
          let id = sem_id_build slot gid in
          let sem = new_sem id proc has_name max_count init_count in
          if has_name && not added
          then (none, record s { next_sem_gid = next })
          else (some id, entered s slot next sem)
    ]

abbrev pub is_named : Option ℕ → Bool
is_named none = false
is_named (some n) = not (n == 0)

abbrev pub is_too_long : Option ℕ → Bool
is_too_long none = false
is_too_long (some n) = ltb 64 n

-- `name_length` is none where the name is NULL, and `owner` the process that proc_get_process_by_id
-- found. The result is the id; `none` is INVALID_SEMID.
unfoldable pub sem_create_ex :
    Sems
    → (name_length : Option ℕ) (got_struct : Bool) (owner : Option ℕ) (added : Bool)
    → (max_count init_count : ℕ) → Option ℕ × Sems
unfolding alloc_sem_slot enter_sem
sem_create_ex s name_length got_struct owner added max_count init_count =
    if is_too_long name_length || ltb max_count init_count
    then (none, s)
    else elim (alloc_sem_slot s) [
      | none ↦ (none, s)
      | some slot ↦ if not got_struct then (none, s) else elim owner [
        | none ↦ (none, s)
        | some proc ↦ enter_sem s slot (is_named name_length) added proc max_count init_count
      ]
    ]

unfoldable pub sem_create :
    Sems
    → (name_length : Option ℕ) (got_struct : Bool) (current_process : ℕ) (added : Bool)
    → (max_count init_count : ℕ) → Option ℕ × Sems
unfolding sem_create_ex
sem_create s name_length got_struct current_process added max_count init_count =
    sem_create_ex s name_length got_struct (some current_process) added max_count init_count

-- The end of sem_delete: each waiter is told and woken up.
abbrev pub tell : Sems → (w : ℕ) → Sems
tell s w = record s {
  wcbs = λ i. if i == w then record (s.wcbs w) { err = sem_deleted } else s.wcbs i;
  woken = s.woken ++ (s.wcbs w).thread ∷ [];
}

pub delete_waiters : Sems → List ℕ → Sems
delete_waiters s [] = s
delete_waiters s (w ∷ ws) = delete_waiters (tell s w) ws

pub sem_delete : Sems → (id : ℕ) → SemStatus × Sems
unfolding get_sem_by_id delete_waiters
sem_delete s id = elim (get_sem_by_id s id) [
  | none ↦ (sem_invalid_handle, s)
  | some sem ↦
      let slot = sem_idx id in
      let s1 = record (put_sem s slot none) {
        owned = own s.owned sem.proc (erase slot (s.owned sem.proc));
      } in
      (no_error, delete_waiters s1 sem.waiters)
]

-- The loop of sem_up: the waiters, the last one to look at, the count that is left, the threads woken up.
pub wake_loop :
    ℕ
    → (wcbs : ℕ → Wcb) → (waiters : List ℕ) → (last curr_count : ℕ) → (woken : List ℕ)
    → Option (List ℕ × List ℕ)
wake_loop zero wcbs waiters last curr_count woken = none
wake_loop (suc n) wcbs [] last curr_count woken = none
wake_loop (suc n) wcbs (w ∷ ws) last curr_count woken =
    let can_acquire = leb (wcbs w).count curr_count in
    let waiters' = if can_acquire then ws else ws ++ w ∷ [] in
    let curr' = if can_acquire then curr_count - (wcbs w).count else curr_count in
    let woken' = if can_acquire then woken ++ (wcbs w).thread ∷ [] else woken in
    let rest = wake_loop n wcbs waiters' last curr' woken' in
    if w == last then some (waiters', woken') else rest

-- The last one of the waiters, if there is one.
pub last_waiter : List ℕ → Option ℕ
last_waiter [] = none
last_waiter (w ∷ ws) = elim (last_waiter ws) [ none ↦ some w | some l ↦ some l ]

-- The semaphore with its new count, in the table, and the threads it lets go on.
pub wake_waiters : Sems → (slot : ℕ) → Semaphore → Option Sems
unfolding wake_loop last_waiter
wake_waiters s slot sem = elim (last_waiter sem.waiters) [
  | none ↦ some (put_sem s slot (some sem))
  | some last ↦ elim (wake_loop (length sem.waiters) s.wcbs sem.waiters last sem.count s.woken) [
    | none ↦ none
    | some (waiters, woken) ↦
        some (record (put_sem s slot (some (record sem { waiters = waiters }))) { woken = woken })
  ]
]

pub sem_up : Sems → (id count : ℕ) → Option (SemStatus × Sems)
unfolding get_sem_by_id wake_waiters
sem_up s id count = elim (get_sem_by_id s id) [
  | none ↦ some (sem_invalid_handle, s)
  | some sem ↦
      let sum = (sem.count + count) % u32_mod in
      if ltb sem.max_count sum
      then some (sem_invalid_value, s)
      else if count == 0
      then some (no_error, s)
      else elim (wake_waiters s (sem_idx id) (record sem { count = sum })) [
        | none ↦ none
        | some s' ↦ some (no_error, s')
      ]
]

pub sem_change_owner : Sems → (id : ℕ) → (new_owner : Option ℕ) → SemStatus × Sems
unfolding get_sem_by_id
sem_change_owner s id new_owner = elim new_owner [
  | none ↦ (mt_invalid_handle, s)
  | some proc ↦ elim (get_sem_by_id s id) [
    | none ↦ (sem_invalid_handle, s)
    | some sem ↦
        let slot = sem_idx id in
        let removed = own s.owned sem.proc (erase slot (s.owned sem.proc)) in
        (
          no_error,
          record (put_sem s slot (some (record sem { proc = proc }))) {
            owned = own removed proc (removed proc ++ slot ∷ []);
          },
        )
  ]
]

-- `none` is INVALID_PROCESSID.
pub sem_get_owner : Sems → (id : ℕ) → Option ℕ
unfolding get_sem_by_id
sem_get_owner s id = elim (get_sem_by_id s id) [ none ↦ none | some sem ↦ some sem.proc ]
