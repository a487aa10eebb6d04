-- ===== src/Strings/Examples.antt =====
-- The theorems of the strings at a concrete memory, and a run.
use phlox.Common.{◌≡◌, refl, arith, some}
use phlox.Bytes.{Memory, write}
use phlox.Strings.{
  strrchr, strrchr_from, strlen, strlcat, copy_until, finish, strnlen, strnlen_from, strlen_from,
}
use phlox.Strings.Terminated.{IsString}

-- "abc" at 100 and "x" at 50.
abbrev words : Memory
words = write (write (write (write (λ a. 0) 100 97) 101 98) 102 99) 50 120

abc-IsString : IsString words 100 3
abc-IsString = record { chars = λ a h k. ground arith; ends = refl }

x-IsString : IsString words 50 1
x-IsString = record { chars = λ a h k. ground arith; ends = refl }

-- Asked for the NUL, `strrchr` returns the start of the string.
finds_the_start : strrchr 10 words 100 0 ≡ some (some 100)
unfolding strrchr strrchr_from
finds_the_start = refl

-- With a size of 4, the destination "x" of `strlcat` gets 5 bytes: the NUL is written at offset 4.
writes_beyond_the_size :
    (m' : Memory) × (strlcat 10 (write words 54 7) 50 100 4 ≡ some (m', 4)) × (m' 54 ≡ 0)
unfolding strlcat copy_until finish strnlen strnlen_from strlen strlen_from
writes_beyond_the_size = (_, refl, refl)
