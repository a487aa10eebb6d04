-- ===== src/Klog/Window.antt =====
-- Reading the log by row counters: which row `klog_get_new_row` reads, and the counter it returns.
use phlox.Common.{ℕ, ◌+◌, ◌-◌, ◌%◌, ◌<◌, ◌≡◌, refl, arith, if◌then◌else◌, ltb, ◌==◌, u32_mod, inc32}
use phlox.Klog.{
  Klog, n_rows, n_cols, get_row_index, copy_row, klog_get_new_row, restrict, advance,
  least_row_counter,
}

-- The indexes are in range, the current row is the one that the row counter falls on, and the
-- bottom row is the one after it.
pub record IsWellFormed (k : Klog) : Type 0 where
  pub counter : k.row_counter < u32_mod
  pub top : k.top ≡ k.row_counter % n_rows
  pub bottom : k.bottom ≡ (k.top + 1) % n_rows
  pub cursor : k.cursor < n_cols

-- How many rows a counter lies behind the row counter, the counters wrapping around.
abbrev pub age : Klog → ℕ → ℕ
age k counter = (k.row_counter + u32_mod - counter) % u32_mod

-- The counter that the reader is taken to mean: one of a row that is no longer there, or not yet
-- there, stands for the oldest row.
abbrev pub meant : Klog → ℕ → ℕ
meant k counter = if ltb (age k counter) n_rows then counter else least_row_counter k

restrict-meant :
    (k : Klog) (counter : ℕ)
    → k.row_counter < u32_mod
    → counter < u32_mod
    → restrict k.row_counter (least_row_counter k) counter ≡ meant k counter
restrict-meant k counter h i = ground arith

get_row_index-counter :
    (k : Klog) (counter : ℕ)
    → IsWellFormed k
    → counter < u32_mod
    → get_row_index k (age k counter) ≡ counter % n_rows
unfolding get_row_index
get_row_index-counter k counter w h = omega (arith, w.top, w.counter)

advance-meant :
    (k : Klog) (c : ℕ)
    → k.row_counter < u32_mod
    → c < u32_mod
    → age k c < n_rows
    → advance k.row_counter (least_row_counter k) c ≡ (if c == k.row_counter then c else inc32 c)
advance-meant k c h i a = ground arith

age-meant : (k : Klog) (counter : ℕ) → k.row_counter < u32_mod → (age k (meant k counter) < n_rows)
age-meant k counter h = ground arith

-- In a well-formed log, klog_get_new_row for any 32-bit counter copies the 64 characters of the
-- row that the counter falls on, if that is one of the last 128 rows, and of the oldest row
-- otherwise, and returns the next counter, or the same one for the current row; counters wrap
-- around at 2 ^ 32.
pub klog_get_new_row-age :
    (k : Klog) (counter : ℕ)
    → IsWellFormed k
    → counter < u32_mod
    → klog_get_new_row k counter ≡ (
      copy_row n_cols k (meant k counter % n_rows) 0,
      if meant k counter == k.row_counter then meant k counter else inc32 (meant k counter),
    )
unfolding klog_get_new_row
klog_get_new_row-age k counter w h =
    let small : meant k counter < u32_mod = ground (arith, w.counter) in
    rw
      (
        restrict-meant k counter w.counter h,
        get_row_index-counter k (meant k counter) w small,
        advance-meant k (meant k counter) w.counter small (age-meant k counter w.counter),
      )
      refl
