-- ===== src/Klog.antt =====
-- phlox/kernel/klog.c: the kernel log, a cyclic buffer of rows of characters. The buffer is a
-- function on row and column; a character is its code. `row_counter` and unsigned sums are 32-bit.
-- A row that is given to the caller is the list of its 64 characters; no caller passes NULL for it.
pub mod Window
pub mod Writer
mod Examples
use phlox.Common.{
  ℕ, zero, suc, ◌+◌, ◌-◌, ◌%◌, Bool, true, false, ◌&&◌, ◌||◌, Option, none, some, List, [], ◌∷◌,
  ◌==◌, ltb, leb, if◌then◌else◌, inc32, u32_mod,
}

abbrev pub n_rows : ℕ
n_rows = 128

abbrev pub n_cols : ℕ
n_cols = 64

pub record Klog : Type 0 where
  pub row_counter : ℕ
  pub top : ℕ
  pub bottom : ℕ
  pub cursor : ℕ
  pub logbook : ℕ → ℕ → ℕ

pub clear_row : (ℕ → ℕ → ℕ) → ℕ → ℕ → ℕ → ℕ
clear_row book index r c = if r == index && ltb c n_cols then 0 else book r c

-- `_scroll_rows` by a delta that is not negative.
pub scroll_rows : Klog → (delta : ℕ) → Klog
scroll_rows k delta =
    let t = (k.top + delta + n_rows) % n_rows in
    record k { top = t; bottom = (t + 1 + n_rows) % n_rows }

-- `_get_row_index`, a difference of unsigned integers.
pub get_row_index : Klog → (rel_index : ℕ) → ℕ
get_row_index k rel_index = (k.top + u32_mod - rel_index + n_rows) % u32_mod % n_rows

pub klog_init : Klog
klog_init = record { row_counter = 0; top = 0; bottom = 1; cursor = 0; logbook = λ r c. 0 }

pub klog_get_cols_num : ℕ
klog_get_cols_num = n_cols

pub klog_get_rows_num : ℕ
klog_get_rows_num = n_rows

pub klog_get_row_counter : Klog → ℕ
klog_get_row_counter k = k.row_counter

pub klog_get_least_row_counter : Klog → ℕ
unfolding klog_get_row_counter
klog_get_least_row_counter k = (klog_get_row_counter k + u32_mod - n_rows + 1) % u32_mod

pub klog_get_top_index : Klog → ℕ
klog_get_top_index k = k.top

pub klog_get_bottom_index : Klog → ℕ
klog_get_bottom_index k = k.bottom

-- `memcpy` of `n` characters of a row, from column `c` on.
pub copy_row : ℕ → Klog → (index c : ℕ) → List ℕ
copy_row zero k index c = []
copy_row (suc n) k index c = k.logbook index c ∷ copy_row n k index (c + 1)

-- `none` is ERR_INVALID_ARGS.
pub klog_get_row_abs : Klog → ℕ → Option (List ℕ)
klog_get_row_abs k index = if leb n_rows index then none else some (copy_row n_cols k index 0)

pub klog_get_row : Klog → ℕ → Option (List ℕ)
klog_get_row k index =
    if leb n_rows index then none else some (copy_row n_cols k (get_row_index k index) 0)

pub klog_get_previous_row : Klog → Option (List ℕ)
klog_get_previous_row k = klog_get_row k 1

pub klog_get_current_row : Klog → Option (List ℕ)
klog_get_current_row k = klog_get_row_abs k k.top

pub klog_get_last_row : Klog → Option (List ℕ)
klog_get_last_row k = klog_get_row_abs k k.bottom

-- The test of a counter against the range of the available ones, which may wrap around.
abbrev pub out_of_range : (row_counter least_row_counter counter : ℕ) → Bool
out_of_range row_counter least counter =
    if ltb least row_counter
    then ltb counter least || ltb row_counter counter
    else ltb counter least && ltb row_counter counter

-- The counter after the first test.
abbrev pub restrict : (row_counter least_row_counter counter : ℕ) → ℕ
restrict row_counter least counter =
    if out_of_range row_counter least counter then least else counter

-- The counter that is returned.
abbrev pub advance : (row_counter least_row_counter counter : ℕ) → ℕ
advance row_counter least counter =
    if out_of_range row_counter least (inc32 counter) then row_counter else inc32 counter

abbrev pub least_row_counter : Klog → ℕ
least_row_counter k = (k.row_counter + u32_mod - n_rows + 1) % u32_mod

-- The row that is read, and the new counter.
pub klog_get_new_row : Klog → (counter : ℕ) → List ℕ × ℕ
klog_get_new_row k counter =
    let least = least_row_counter k in
    let c = restrict k.row_counter least counter in
    (
      copy_row n_cols k (get_row_index k ((k.row_counter + u32_mod - c) % u32_mod)) 0,
      advance k.row_counter least c,
    )

-- The scroll, the counter and the new row of a form feed or a new line.
pub new_top_row : Klog → Klog
unfolding scroll_rows clear_row
new_top_row k =
    let m = scroll_rows k 1 in
    record m { row_counter = inc32 m.row_counter; logbook = clear_row m.logbook m.top }

-- `memset(&logbook[top][0], 32, cursor)`, where `cursor` is not 0.
pub put_spaces : Klog → Klog
put_spaces k = record k {
  logbook = λ r c. if r == k.top && ltb c k.cursor then 32 else k.logbook r c;
}

pub put_char : Klog → ℕ → Klog
put_char k ch = record k {
  logbook = λ r c. if r == k.top && c == k.cursor then ch else k.logbook r c;
  cursor = k.cursor + 1;
}

-- The block under `if (new_row)`.
pub new_row : Klog → Klog
new_row k = let m = new_top_row k in record m { cursor = 0 }

-- The body of the loop of `klog_puts`, for one character.
pub put : Klog → ℕ → Klog
put k ch =
    if ch == 10
    then new_row k
    else if ch == 13
    then record k { cursor = 0 }
    else if ch == 12
    then (let m = new_top_row k in if m.cursor == 0 then m else put_spaces m)
    else (let m = put_char k ch in if leb n_cols m.cursor then new_row m else m)

pub klog_puts : Klog → List ℕ → Klog
klog_puts k [] = k
klog_puts k (ch ∷ str) = klog_puts (put k ch) str

pub klog_clear : Klog → Klog
klog_clear k = record k { cursor = 0; logbook = λ r c. 0 }
