-- ===== src/Bytes.antt =====
-- phlox/lib/string: the routines on blocks of bytes. Memory is a function from addresses to bytes;
-- an address is a number, and a block does not wrap around the end of memory. A word is four bytes,
-- the lowest first. `%` writes out the masks of the source: `x & 3` is `x % 4`, and `(x | y) & 3` is
-- 0 where both remainders are. A routine that writes returns the memory after it.
pub mod Move
pub mod Fill
pub mod Compare
mod Examples
use phlox.Common.{
  ℕ, zero, suc, ◌+◌, ◌-◌, ◌*◌, ◌/◌, ◌%◌, ◌^◌, Bool, true, false, not, ◌&&◌, ◌||◌, Option, none,
  some, ◌==◌, ltb, leb, if◌then◌else◌, u32_mod,
}

abbrev pub Memory : Type 0
Memory = ℕ → ℕ

abbrev pub write : Memory → ℕ → ℕ → Memory
write m p v a = if a == p then v else m a

-- `*(word *)d = *(word *)s`: the word is read before it is written.
abbrev pub copy_word : Memory → (d s : ℕ) → Memory
copy_word m d s a = if leb d a && ltb a (d + 4) then m (s + (a - d)) else m a

-- The rounds of `for(; len > 0; len--)` for an `int` that is assigned an unsigned value.
abbrev pub int_rounds : ℕ → ℕ
int_rounds len = if ltb len (2 ^ 31) then len else 0

-- `*d++ = *s++`, and the same for words.
pub copy_up : ℕ → Memory → (d s : ℕ) → Memory
copy_up zero m d s = m
copy_up (suc n) m d s = copy_up n (write m d (m s)) (d + 1) (s + 1)

pub copy_words_up : ℕ → Memory → (d s : ℕ) → Memory
copy_words_up zero m d s = m
copy_words_up (suc n) m d s = copy_words_up n (copy_word m d s) (d + 4) (s + 4)

-- `*--d = *--s`, and the same for words.
pub copy_down : ℕ → Memory → (d s : ℕ) → Memory
copy_down zero m d s = m
copy_down (suc n) m d s = copy_down n (write m (d - 1) (m (s - 1))) (d - 1) (s - 1)

pub copy_words_down : ℕ → Memory → (d s : ℕ) → Memory
copy_words_down zero m d s = m
copy_words_down (suc n) m d s = copy_words_down n (copy_word m (d - 4) (s - 4)) (d - 4) (s - 4)

abbrev pub is_aligned : (d s : ℕ) → Bool
is_aligned d s = d % 4 == 0 && s % 4 == 0

-- The bytes that are copied one by one before the words, upwards.
abbrev pub head_up : (d s count : ℕ) → ℕ
head_up d s count =
    if is_aligned d s then 0 else if not (d % 4 == s % 4) || ltb count 4 then count else 4 - d % 4

-- The upward copy of `memcpy` and `memmove`.
pub forward : Memory → (d s count : ℕ) → Memory
forward m d s count =
    let len = head_up d s count in
    let n = int_rounds len in
    let rest = count - len in
    let words = int_rounds (rest / 4) in
    let m1 = copy_up n m d s in
    let m2 = copy_words_up words m1 (d + n) (s + n) in
    copy_up (rest % 4) m2 (d + n + words * 4) (s + n + words * 4)

-- The bytes that are copied one by one before the words, downwards, from the ends of the blocks.
abbrev pub head_down : (d s count : ℕ) → ℕ
head_down d s count =
    if is_aligned d s then 0 else if not (d % 4 == s % 4) || leb count 4 then count else d % 4

-- The downward copy of `memmove`.
pub backward : Memory → (d s count : ℕ) → Memory
backward m dest src count =
    let d = dest + count in
    let s = src + count in
    let len = head_down d s count in
    let n = int_rounds len in
    let rest = count - len in
    let words = int_rounds (rest / 4) in
    let m1 = copy_down n m d s in
    let m2 = copy_words_down words m1 (d - n) (s - n) in
    copy_down (rest % 4) m2 (d - n - words * 4) (s - n - words * 4)

pub memcpy : Memory → (dest src count : ℕ) → Memory
memcpy m dest src count = if count == 0 || dest == src then m else forward m dest src count

-- `(long)d < (long)s`, on 32-bit addresses.
abbrev pub signed_ltb : (d s : ℕ) → Bool
signed_ltb d s = ltb ((d + 2 ^ 31) % u32_mod) ((s + 2 ^ 31) % u32_mod)

pub memmove : Memory → (dest src count : ℕ) → Memory
memmove m dest src count =
    if count == 0 || dest == src
    then m
    else if signed_ltb dest src
    then forward m dest src count
    else backward m dest src count

pub bcopy : Memory → (src dest count : ℕ) → Memory
bcopy m src dest count = memcpy m dest src count

-- `*xs++ = c`
pub fill_bytes : ℕ → Memory → (xs c : ℕ) → Memory
fill_bytes zero m xs c = m
fill_bytes (suc n) m xs c = fill_bytes n (write m xs (c % 256)) (xs + 1) c

-- `*((int *)xs) = cc`
abbrev pub write_int : Memory → (xs cc : ℕ) → Memory
write_int m xs cc =
    write
      (write (write (write m xs (cc % 256)) (xs + 1) (cc / 256 % 256)) (xs + 2) (cc / 65536 % 256))
      (xs + 3) (cc / 16777216 % 256)

pub fill_words : ℕ → Memory → (xs cc : ℕ) → Memory
fill_words zero m xs cc = m
fill_words (suc n) m xs cc = fill_words n (write_int m xs cc) (xs + 4) cc

-- `cc |= cc << 8; cc |= cc << 16`, from one byte: no two of the bits meet.
abbrev pub spread : ℕ → ℕ
spread c = let b = c % 256 in let h = b + b * 256 in h + h * 65536

pub memset : Memory → (s c count : ℕ) → Memory
memset m s c count =
    let len = (4 - s % 4) % 4 in
    let rest = count - len in
    let words = rest / 4 in
    if ltb len count
    then fill_bytes (rest % 4) (fill_words words (fill_bytes len m s c) (s + len) (spread c))
        (s + len + words * 4) c
    else fill_bytes count m s c

pub bzero : Memory → (dst count : ℕ) → Memory
bzero m dst count = memset m dst 0 count

-- The result of `memcmp` is a `signed char`, given here by its 8 bits.
pub memcmp : ℕ → Memory → (cs ct : ℕ) → ℕ
memcmp zero m cs ct = 0
memcmp (suc count) m cs ct =
    let rest = memcmp count m (cs + 1) (ct + 1) in
    let res = (m cs + 256 - m ct) % 256 in if res == 0 then rest else res

-- The address of the first byte `c & 0xff`; `none` is NULL.
pub memchr_from : ℕ → Memory → (buf c i : ℕ) → Option ℕ
memchr_from zero m buf c i = none
memchr_from (suc n) m buf c i =
    let rest = memchr_from n m buf c (i + 1) in
    if m (buf + i) == c % 256 then some (buf + i) else rest

pub memchr : Memory → (buf c len : ℕ) → Option ℕ
memchr m buf c len = memchr_from len m buf c 0

-- The address of the first byte that equals `c`, and the end of the block if there is none.
pub memscan : ℕ → Memory → (addr c : ℕ) → ℕ
memscan zero m addr c = addr
memscan (suc size) m addr c =
    let rest = memscan size m (addr + 1) c in if m addr == c then addr else rest
