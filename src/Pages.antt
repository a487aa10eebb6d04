-- ===== src/Pages.antt =====
-- phlox/kernel/vm/vm_page.c: the allocator of physical pages. A page is its index in `all_pages`;
-- the three page lists are the sequences of their pages, on which `xlist_add_last`,
-- `xlist_extract_first` and `xlist_remove` put a page last, take the first one and take one out. The
-- counters of `VM_State` are 32-bit. `cleared` records the calls of `clear_page`, by the address
-- that each is given, latest first. The spinlock and the interrupt state leave no trace, since a
-- routine holds the lock from its first read to its last write. A `panic` stops the system.
pub mod Alloc
pub mod Tally
pub mod Invariant
pub mod Transition
pub mod Single
pub mod AnyPage
pub mod GivenPage
pub mod Range
pub mod Sweep
pub mod FirstFit
pub mod Claim
pub mod GivenRange
pub mod BootArgs
pub mod BootPages
mod Examples
use phlox.Common.{
  ℕ, zero, suc, ◌+◌, ◌-◌, ◌*◌, Bool, true, false, ◌&&◌, ◌||◌, not, Option, none, some, List, [],
  ◌∷◌, ◌++◌, ◌==◌, ltb, leb, if◌then◌else◌, inc32, dec32, erase,
}

-- The values of a page state; `invalid` stands for the values that the enumeration does not name.
pub data PageState : Type 0 where
  active inactive free clear wired busy unused : PageState
  invalid : ℕ → PageState

abbrev pub code : PageState → ℕ
code active = 0
code inactive = 1
code free = 2
code clear = 3
code wired = 4
code busy = 5
code unused = 6
code (invalid n) = 7 + n

abbrev pub same_state : PageState → PageState → Bool
same_state s t = code s == code t

-- The counters of `VM_State`.
pub record Counters : Type 0 where
  pub active_pages : ℕ
  pub inactive_pages : ℕ
  pub wired_pages : ℕ
  pub busy_pages : ℕ
  pub clear_pages : ℕ
  pub free_pages : ℕ
  pub unused_pages : ℕ

pub record Lists : Type 0 where
  pub free_list : List ℕ
  pub clear_list : List ℕ
  pub active_list : List ℕ

pub data ListName : Type 0 where
  free_pages_list clear_pages_list active_pages_list : ListName

abbrev pub same_list : ListName → ListName → Bool
same_list free_pages_list free_pages_list = true
same_list clear_pages_list clear_pages_list = true
same_list active_pages_list active_pages_list = true
same_list _ _ = false

abbrev pub list_at : Lists → ListName → List ℕ
list_at l free_pages_list = l.free_list
list_at l clear_pages_list = l.clear_list
list_at l active_pages_list = l.active_list

abbrev pub set_list : Lists → ListName → List ℕ → Lists
set_list l free_pages_list xs = record l { free_list = xs }
set_list l clear_pages_list xs = record l { clear_list = xs }
set_list l active_pages_list xs = record l { active_list = xs }

pub record Pages : Type 0 where
  pub physical_page_offset : ℕ
  pub total_pages_count : ℕ
  pub state : ℕ → PageState
  pub lists : Lists
  pub counters : Counters
  pub cleared : List ℕ

pub data Outcome {ℓ} (A : Type ℓ) : Type ℓ where
  returns : A → Outcome A
  panic : Outcome A
  out_of_fuel : Outcome A

infixl 5 ◌>>=◌
abbrev pub ◌>>=◌ {ℓ κ} : {A : Type ℓ} {B : Type κ} → Outcome A → (A → Outcome B) → Outcome B
returns a >>= f = f a
panic >>= f = panic
out_of_fuel >>= f = out_of_fuel

abbrev pub update {ℓ} : {A : Type ℓ} → (ℕ → A) → ℕ → A → ℕ → A
update f i v j = if j == i then v else f j

pub put_page_to_list : Lists → ListName → ℕ → Lists
put_page_to_list l name p = set_list l name (list_at l name ++ p ∷ [])

pub remove_page_from_list : Lists → ListName → ℕ → Lists
remove_page_from_list l name p = set_list l name (erase p (list_at l name))

-- The first page of the list, if there is one, and the lists without it.
pub get_page_from_list : Lists → ListName → Option (ℕ × Lists)
get_page_from_list l name = elim (list_at l name) [
  | [] ↦ none
  | p ∷ ps ↦ some (p, set_list l name ps)
]

pub move_page_to_list : Lists → (from to : ListName) → ℕ → Lists
unfolding put_page_to_list remove_page_from_list
move_page_to_list l from to p =
    if same_list from to then l else put_page_to_list (remove_page_from_list l from p) to p

-- The first switch of `set_page_state`: the counter of the old state, and its list.
pub leave_state : PageState → Counters → Outcome (Counters × ListName)
leave_state active c = returns (record c { active_pages = dec32 c.active_pages }, active_pages_list)
leave_state inactive c =
    returns (record c { inactive_pages = dec32 c.inactive_pages }, active_pages_list)
leave_state unused c = returns (record c { unused_pages = dec32 c.unused_pages }, active_pages_list)
leave_state wired c = returns (record c { wired_pages = dec32 c.wired_pages }, active_pages_list)
leave_state busy c = returns (record c { busy_pages = dec32 c.busy_pages }, active_pages_list)
leave_state free c = returns (record c { free_pages = dec32 c.free_pages }, free_pages_list)
leave_state clear c = returns (record c { clear_pages = dec32 c.clear_pages }, clear_pages_list)
leave_state (invalid n) c = panic

-- The second switch: the counter of the new state, and its list.
pub enter_state : PageState → Counters → Outcome (Counters × ListName)
enter_state active c = returns (record c { active_pages = inc32 c.active_pages }, active_pages_list)
enter_state inactive c =
    returns (record c { inactive_pages = inc32 c.inactive_pages }, active_pages_list)
enter_state unused c = returns (record c { unused_pages = inc32 c.unused_pages }, active_pages_list)
enter_state wired c = returns (record c { wired_pages = inc32 c.wired_pages }, active_pages_list)
enter_state busy c = returns (record c { busy_pages = inc32 c.busy_pages }, active_pages_list)
enter_state free c = returns (record c { free_pages = inc32 c.free_pages }, free_pages_list)
enter_state clear c = returns (record c { clear_pages = inc32 c.clear_pages }, clear_pages_list)
enter_state (invalid n) c = panic

-- `set_page_state`; its result is always 0.
pub set_page_state : Pages → ℕ → PageState → Outcome Pages
unfolding leave_state enter_state move_page_to_list
set_page_state s p page_state = if same_state (s.state p) page_state then returns s else do
  (c, from) ← leave_state (s.state p) s.counters
  (c', to) ← enter_state page_state c
  returns (record s {
    counters = c';
    lists = move_page_to_list s.lists from to p;
    state = update s.state p page_state;
  })

pub vm_page_set_state : Pages → ℕ → PageState → Outcome Pages
unfolding set_page_state
vm_page_set_state s p page_state = set_page_state s p page_state

-- The index of the page with a physical page number; `none` is NULL.
pub vm_page_lookup : Pages → ℕ → Option ℕ
vm_page_lookup s page_num =
    if ltb page_num s.physical_page_offset
    then none
    else if leb s.total_pages_count (page_num - s.physical_page_offset)
    then none
    else some (page_num - s.physical_page_offset)
