-- ===== src/Strings.antt =====
-- phlox/lib/string: the routines on strings that end in NUL, over the memory of Bytes. A loop that
-- ends at a NUL runs on the fuel that its routine is given, and returns `none` if that does not
-- suffice; a loop that a size bounds recurs on it.
pub mod Terminated
pub mod LastChar
mod Examples
use phlox.Common.{
  sign_extend, ℕ, zero, suc, ◌+◌, ◌-◌, ◌%◌, u32_mod, Bool, true, false, not, ◌||◌, Option, none,
  some, ◌==◌, ltb, if◌then◌else◌,
}
use phlox.Bytes.{Memory, write, memcmp, memcpy}

-- For the loops whose rest may run out of fuel.
infixl 5 ◌>>=◌
abbrev pub ◌>>=◌ {ℓ κ} : {A : Type ℓ} {B : Type κ} → Option A → (A → Option B) → Option B
none >>= f = none
some a >>= f = f a

pub strlen_from : ℕ → Memory → (s i : ℕ) → Option ℕ
strlen_from zero m s i = none
strlen_from (suc fuel) m s i =
    let rest = strlen_from fuel m s (i + 1) in if m (s + i) == 0 then some i else rest

pub strlen : ℕ → Memory → ℕ → Option ℕ
strlen fuel m s = strlen_from fuel m s 0

pub strnlen_from : ℕ → Memory → (s i : ℕ) → ℕ
strnlen_from zero m s i = i
strnlen_from (suc count) m s i =
    let rest = strnlen_from count m s (i + 1) in if m (s + i) == 0 then i else rest

pub strnlen : Memory → (s count : ℕ) → ℕ
strnlen m s count = strnlen_from count m s 0

-- `while((*dest++ = *src++) != '\0') ;`
pub strcpy : ℕ → Memory → (dest src : ℕ) → Option Memory
strcpy zero m dest src = none
strcpy (suc fuel) m dest src =
    let rest = strcpy fuel (write m dest (m src)) (dest + 1) (src + 1) in
    if m src == 0 then some (write m dest (m src)) else rest

pub strncpy : ℕ → Memory → (dest src : ℕ) → Memory
strncpy zero m dest src = m
strncpy (suc count) m dest src =
    let rest = strncpy count (write m dest (m src)) (dest + 1) (src + 1) in
    if m src == 0 then write m dest (m src) else rest

-- `while(*dest) dest++;`
pub find_end : ℕ → Memory → ℕ → Option ℕ
find_end zero m dest = none
find_end (suc fuel) m dest =
    let rest = find_end fuel m (dest + 1) in if m dest == 0 then some dest else rest

pub strcat : ℕ → Memory → (dest src : ℕ) → Option Memory
strcat fuel m dest src = do p ← find_end fuel m dest; strcpy fuel m p src

-- The loop of `strlcpy` and `strlcat`: the memory, and where it stops.
pub copy_until : ℕ → Memory → (dst src i : ℕ) → Memory × ℕ
copy_until zero m dst src i = (m, i)
copy_until (suc n) m dst src i =
    let rest = copy_until n (write m (dst + i) (m (src + i))) dst src (i + 1) in
    if m (src + i) == 0 then (m, i) else rest

-- `dst[i] = 0;`, and the length of the rest of the source, as it then is.
pub finish : ℕ → Memory → (dst src i : ℕ) → Option (Memory × ℕ)
finish fuel m dst src i = do
  l ← strlen fuel (write m (dst + i) 0) (src + i)
  some (write m (dst + i) 0, i + l)

pub strlcpy : ℕ → Memory → (dst src s : ℕ) → Option (Memory × ℕ)
strlcpy fuel m dst src zero = do l ← strlen fuel m src; some (m, l)
strlcpy fuel m dst src (suc s) = let r = copy_until s m dst src 0 in finish fuel r.0 dst src r.1

-- The room that the destination has left does not bound the loop.
pub strlcat : ℕ → Memory → (dst src s : ℕ) → Option (Memory × ℕ)
strlcat fuel m dst src zero = do l ← strlen fuel m src; some (m, strnlen m dst 0 + l)
strlcat fuel m dst src (suc s) =
    let j = strnlen m dst (suc s) in
    let r = copy_until s m (dst + j) src 0 in
    do (m', l) ← finish fuel r.0 (dst + j) src r.1; some (m', j + l)

-- The loop of `strncat` that copies, with at least one byte to go.
pub append_bounded : ℕ → Memory → (dest src : ℕ) → Memory
append_bounded zero m dest src = m
append_bounded (suc count) m dest src =
    let m' = write m dest (m src) in
    let rest = append_bounded count m' (dest + 1) (src + 1) in
    if m src == 0 then m' else if count == 0 then write m' (dest + 1) 0 else rest

pub strncat : ℕ → Memory → (dest src count : ℕ) → Option Memory
strncat fuel m dest src count =
    if count == 0 then some m else do p ← find_end fuel m dest; some (append_bounded count m p src)

-- The results of the comparisons are `signed char`, given here by their 8 bits.
pub strcmp : ℕ → Memory → (cs ct : ℕ) → Option ℕ
strcmp zero m cs ct = none
strcmp (suc fuel) m cs ct =
    let rest = strcmp fuel m (cs + 1) (ct + 1) in
    let res = (m cs + 256 - m ct) % 256 in if not (res == 0) || m cs == 0 then some res else rest

pub strncmp : ℕ → Memory → (cs ct : ℕ) → ℕ
strncmp zero m cs ct = 0
strncmp (suc count) m cs ct =
    let rest = strncmp count m (cs + 1) (ct + 1) in
    let res = (m cs + 256 - m ct) % 256 in if not (res == 0) || m cs == 0 then res else rest

pub strcoll : ℕ → Memory → (s1 s2 : ℕ) → Option ℕ
strcoll fuel m s1 s2 = strcmp fuel m s1 s2

-- The inner `none` is NULL.
pub strchr : ℕ → Memory → (s c : ℕ) → Option (Option ℕ)
strchr zero m s c = none
strchr (suc fuel) m s c =
    let rest = strchr fuel m (s + 1) c in
    if m s == c % 256 then some (some s) else if m s == 0 then some none else rest

pub strrchr_from : ℕ → Memory → (s c : ℕ) → (last : Option ℕ) → Option (Option ℕ)
strrchr_from zero m s c last = none
strrchr_from (suc fuel) m s c last =
    let rest = strrchr_from fuel m (s + 1) c (if sign_extend (m s) == c then some s else last) in
    if m s == 0 then some last else rest

-- For the NUL the routine returns the start of the string, not its end.
pub strrchr : ℕ → Memory → (s c : ℕ) → Option (Option ℕ)
strrchr fuel m s c = strrchr_from fuel m s c (if c == 0 then some s else none)

-- The inner loop of `strspn` and `strpbrk`: whether the string at `a` has the character.
pub has_char : ℕ → Memory → (ch a : ℕ) → Option Bool
has_char zero m ch a = none
has_char (suc fuel) m ch a =
    let rest = has_char fuel m ch (a + 1) in
    if m a == 0 then some false else if ch == m a then some true else rest

pub strspn : (fuel : ℕ) → Memory → (accept p count : ℕ) → Option ℕ
strspn zero m accept p count = none
strspn (suc fuel) m accept p count =
    let rest = strspn fuel m accept (p + 1) (count + 1) in
    if m p == 0
    then some count
    else do found ← has_char (suc fuel) m (m p) accept; if found then rest else some count

pub strpbrk : (fuel : ℕ) → Memory → (cs ct : ℕ) → Option (Option ℕ)
strpbrk zero m cs ct = none
strpbrk (suc fuel) m cs ct =
    let rest = strpbrk fuel m (cs + 1) ct in
    if m cs == 0
    then some none
    else do found ← has_char (suc fuel) m (m cs) ct; if found then some (some cs) else rest

-- The loop of `strstr`, for so many rounds.
pub find_string : ℕ → Memory → (s1 s2 l2 : ℕ) → Option ℕ
find_string zero m s1 s2 l2 = none
find_string (suc n) m s1 s2 l2 =
    let rest = find_string n m (s1 + 1) s2 l2 in if memcmp l2 m s1 s2 == 0 then some s1 else rest

pub strstr : ℕ → Memory → (s1 s2 : ℕ) → Option (Option ℕ)
strstr fuel m s1 s2 = do
  l2 ← strlen fuel m s2
  if l2 == 0
      then some (some s1)
      else do l1 ← strlen fuel m s1; some (find_string (l1 + 1 - l2) m s1 s2 l2)

pub strxfrm : ℕ → Memory → (dest src n : ℕ) → Option (Memory × ℕ)
strxfrm fuel m dest src n = do
  len ← strlen fuel m src
  if n == 0
      then some (m, len)
      else (let copy_len = if ltb len n then len else n - 1 in
          some (write (memcpy m dest src copy_len) (dest + copy_len) 0, len))
