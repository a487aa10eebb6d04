-- ===== src/Klog/Examples.antt =====
-- The theorems of the log at the empty log, and a run.
use phlox.Common.{ℕ, ◌%◌, ◌≡◌, arith, List, [], ◌∷◌, if◌then◌else◌, ◌==◌, inc32}
use phlox.Klog.{n_rows, n_cols, klog_init, copy_row, klog_puts, klog_get_new_row}
use phlox.Klog.Window.{IsWellFormed, meant, klog_get_new_row-age}
use phlox.Klog.Writer.{klog_init-IsWellFormed, klog_puts-IsWellFormed}

-- "Hi!", and the same with a form feed in it.
abbrev greeting : List ℕ
greeting = 72 ∷ 105 ∷ 33 ∷ []

abbrev paged : List ℕ
paged = 72 ∷ 12 ∷ 105 ∷ 10 ∷ []

klog_puts-IsWellFormed_example : IsWellFormed (klog_puts klog_init paged)
klog_puts-IsWellFormed_example = klog_puts-IsWellFormed klog_init paged klog_init-IsWellFormed

klog_get_new_row-age_example : klog_get_new_row klog_init 5 ≡ (
  copy_row n_cols klog_init (meant klog_init 5 % n_rows) 0,
  if meant klog_init 5 == klog_init.row_counter
      then meant klog_init 5
      else inc32 (meant klog_init 5),
)
klog_get_new_row-age_example = klog_get_new_row-age klog_init 5 klog_init-IsWellFormed (omega arith)
