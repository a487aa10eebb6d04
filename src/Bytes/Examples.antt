-- ===== src/Bytes/Examples.antt =====
-- The theorems of the block routines at a concrete memory, and runs.
use phlox.Common.{ℕ, ◌+◌, ◌-◌, ◌%◌, ◌≤◌, ◌<◌, ◌≡◌, ◌≢◌, ◌⊎◌, inl, refl, arith}
use phlox.Bytes.{Memory, memmove, memcmp, backward, copy_down, copy_words_down}
use phlox.Bytes.Move.{Moved, memmove-Moved}
use phlox.Bytes.Compare.{IsBytes, memcmp-first_difference}

-- Each byte is the low byte of its address.
abbrev counting : Memory
counting a = a % 256

counting-IsBytes : IsBytes counting
counting-IsBytes a = omega arith

-- Ten bytes, moved up by three, so that the blocks overlap.
memmove-Moved_example : Moved counting 103 100 10 (memmove counting 103 100 10)
memmove-Moved_example =
    memmove-Moved counting 103 100 10 (omega arith) (omega arith, omega arith) (inl refl)

memcmp-first_difference_example :
    ((memcmp 3 counting 10 20 ≡ 0)
      × ((a b : ℕ) → 10 ≤ a → a < 10 + 3 → a + 20 ≡ b + 10 → counting a ≡ counting b))
    ⊎ ((i : ℕ) × (i < 3)
        × (counting (10 + i) ≢ counting (20 + i))
        × (memcmp 3 counting 10 20 ≡ (counting (10 + i) + 256 - counting (20 + i)) % 256)
        × ((a b : ℕ) → 10 ≤ a → a < 10 + i → a + 20 ≡ b + 10 → counting a ≡ counting b))
memcmp-first_difference_example = memcmp-first_difference 3 counting 10 20 counting-IsBytes

-- A byte of 255 is greater than one of 0, but the result is 255, which is -1 as a `signed char`.
compares_with_the_wrong_sign : memcmp 1 counting 255 256 ≡ 255
unfolding memcmp
compares_with_the_wrong_sign = refl

-- The overlapping move by its two loops: the last byte comes from address 109.
moves_up : memmove counting 103 100 10 112 ≡ 109
unfolding memmove backward copy_down copy_words_down
moves_up = refl
