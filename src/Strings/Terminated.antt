-- ===== src/Strings/Terminated.antt =====
-- The routines on strings that do end in NUL: they terminate, and what they leave.
use phlox.Common.{
  ℕ, zero, suc, ◌+◌, ◌-◌, ◌≤◌, ◌<◌, ◌≡◌, ◌≢◌, ◌⊎◌, ◌∙◌, ap, inl, inr, refl, arith, some, ◌==◌,
  Bool-cases, true, false,
}
use phlox.Bytes.{Memory, write}
use phlox.Bytes.Move.{Moved, Moved-zero, Moved-up, write-Moved}
use phlox.Strings.{strlen_from, strlen, strcpy, find_end, strcat, copy_until, finish, strlcpy}

-- The string at `s` has `n` characters before its NUL.
pub record IsString (m : Memory) (s n : ℕ) : Type 0 where
  pub chars : (a : ℕ) → s ≤ a → a < s + n → m a ≢ 0
  pub ends : m (s + n) ≡ 0

strlen_from-IsString :
    (fuel : ℕ) (m : Memory) (s i n : ℕ)
    → IsString m s n
    → i ≤ n
    → n < i + fuel
    → strlen_from fuel m s i ≡ some n
unfolding strlen_from
strlen_from-IsString zero m s i n is low high = absurd (omega arith)
strlen_from-IsString (suc fuel) m s i n is low high = elim (Bool-cases (i == n)) [
  | inl e ↦
      let same : i ≡ n = ground arith in
      let end : (m (s + i) == 0) ≡ true = ground (arith, same, is.ends) in
      rw end (ap (λ x. some x) same)
  | inr e ↦
      let more : (m (s + i) == 0) ≡ false =
        ground (arith, is.chars (s + i) (omega arith) (ground arith)) in
      rw more (strlen_from-IsString fuel m s (i + 1) n is (ground arith) (omega arith))
]

-- strlen of a string of n characters returns n, on more fuel than that.
pub strlen-IsString :
    (fuel : ℕ) (m : Memory) (s n : ℕ) → IsString m s n → n < fuel → strlen fuel m s ≡ some n
unfolding strlen
strlen-IsString fuel m s n is enough =
    strlen_from-IsString fuel m s 0 n is (omega arith) (omega arith)

pub IsString-suc : (m : Memory) (s n : ℕ) → IsString m s (suc n) → IsString m (s + 1) n
IsString-suc m s n is = record {
  chars = λ a h k. is.chars a (omega arith) (omega arith);
  ends = let at : s + 1 + n ≡ s + suc n = omega arith in rw at is.ends;
}

-- A write outside a string keeps it.
IsString-write :
    (m : Memory) (s n p v : ℕ) → (p < s) ⊎ (s + n < p) → IsString m s n → IsString (write m p v) s n
IsString-write m s n p v out is = record {
  chars = λ a h k. ground (arith, is.chars a h k, out);
  ends = ground (arith, is.ends, out);
}

-- strcpy of a string of n characters, on more fuel than that, to a destination not above it or
-- behind its NUL copies the string and its NUL and changes no other byte.
pub strcpy-Moved :
    (fuel : ℕ) (m : Memory) (dest src n : ℕ)
    → IsString m src n
    → n < fuel
    → (dest ≤ src) ⊎ (src + n < dest)
    → (m' : Memory) × (strcpy fuel m dest src ≡ some m') × Moved m dest src (n + 1) m'
unfolding strcpy
strcpy-Moved zero m dest src n is enough apart = absurd (omega arith)
strcpy-Moved (suc fuel) m dest src zero is enough apart =
    let end : (m src == 0) ≡ true =
      let at : src + 0 ≡ src = omega arith in ground (arith, is.ends, at) in
    (write m dest (m src), rw end refl, write-Moved m dest src)
strcpy-Moved (suc fuel) m dest src (suc n) is enough apart =
    let more : (m src == 0) ≡ false = ground (arith, is.chars src (omega arith) (omega arith)) in
    let m1 = write m dest (m src) in
    let is1 =
      IsString-write m (src + 1) n dest (m src) (ground (arith, apart)) (IsString-suc m src n is) in
    let (m', run, moved) =
      strcpy-Moved fuel m1 (dest + 1) (src + 1) n is1 (omega arith) (ground (arith, apart)) in
    (
      m',
      rw more run,
      Moved-up m m1 m' dest src 1 (n + 1) (dest + 1) (src + 1) (suc n + 1) (ground (arith, apart))
          (refl, refl, omega arith) (write-Moved m dest src) moved,
    )

find_end-IsString :
    (fuel : ℕ) (m : Memory) (s n : ℕ) → IsString m s n → n < fuel → find_end fuel m s ≡ some (s + n)
unfolding find_end
find_end-IsString zero m s n is enough = absurd (omega arith)
find_end-IsString (suc fuel) m s zero is enough =
    let at : s + 0 ≡ s = omega arith in
    let end : (m s == 0) ≡ true = ground (arith, is.ends, at) in
    rw end (ap (λ x. some x) (omega arith))
find_end-IsString (suc fuel) m s (suc n) is enough =
    let more : (m s == 0) ≡ false = ground (arith, is.chars s (omega arith) (omega arith)) in
    rw more (
      find_end-IsString fuel m (s + 1) n (IsString-suc m s n is) (omega arith)
      ∙ ap (λ x. some x) (omega arith))

-- strcat of a string of n characters to one of k, on more fuel than both, where the NUL of the
-- destination is not above the source or is behind its NUL, copies the source and its NUL to the
-- place of the NUL of the destination and changes no other byte.
pub strcat-Moved :
    (fuel : ℕ) (m : Memory) (dest src k n : ℕ)
    → IsString m dest k
    → IsString m src n
    → k < fuel
    → n < fuel
    → (dest + k ≤ src) ⊎ (src + n < dest + k)
    → (m' : Memory) × (strcat fuel m dest src ≡ some m') × Moved m (dest + k) src (n + 1) m'
unfolding strcat
strcat-Moved fuel m dest src k n at_dest is small enough apart =
    let (m', run, moved) = strcpy-Moved fuel m (dest + k) src n is enough apart in
    (m', rw (find_end-IsString fuel m dest k at_dest small) run, moved)

-- What the loop of `strlcpy` comes to: it copies the string, or its first `n` characters, to a
-- place apart from it.
CopiedUntil : (n : ℕ) → Memory → (dst src i len : ℕ) → Memory × ℕ → Type 0
CopiedUntil n m dst src i len r =
    (k : ℕ) × (k ≤ len)
    × (k ≤ n)
    × ((k ≡ len) ⊎ (k ≡ n))
    × (r.1 ≡ i + k)
    × Moved m (dst + i) (src + i) k r.0

copy_until-CopiedUntil :
    (n : ℕ) (m : Memory) (dst src i len : ℕ)
    → IsString m (src + i) len
    → (dst + (i + n) ≤ src) ⊎ (src + (i + len) < dst)
    → CopiedUntil n m dst src i len (copy_until n m dst src i)
unfolding copy_until CopiedUntil
copy_until-CopiedUntil zero m dst src i len is apart =
    (0, omega arith, omega arith, inr refl, omega arith, Moved-zero m (dst + i) (src + i))
copy_until-CopiedUntil (suc n) m dst src i zero is apart =
    let at : src + i + 0 ≡ src + i = omega arith in
    let end : (m (src + i) == 0) ≡ true = ground (arith, is.ends, at) in
    (
      0,
      omega arith,
      omega arith,
      inl refl,
      rw end (omega arith),
      rw end (Moved-zero m (dst + i) (src + i)),
    )
copy_until-CopiedUntil (suc n) m dst src i (suc len) is apart =
    let more : (m (src + i) == 0) ≡ false =
      ground (arith, is.chars (src + i) (omega arith) (omega arith)) in
    let m1 = write m (dst + i) (m (src + i)) in
    let at_s : src + i + 1 ≡ src + (i + 1) = omega arith in
    let is1 =
      IsString-write m (src + i + 1) len (dst + i) (m (src + i)) (ground (arith, apart))
        (IsString-suc m (src + i) len is) in
    let is2 : IsString m1 (src + (i + 1)) len = rw at_s at is1 in
    let (k, le, small, full, stop, moved) =
      copy_until-CopiedUntil n m1 dst src (i + 1) len is2 (ground (arith, apart)) in
    (
      suc k,
      omega arith,
      omega arith,
      ground arith,
      rw more (omega (arith, stop)),
      rw more (
          Moved-up m m1 _ (dst + i) (src + i) 1 k (dst + (i + 1)) (src + (i + 1)) (suc k)
            (ground (arith, apart)) (omega arith, omega arith, omega arith)
            (write-Moved m (dst + i) (src + i)) moved),
    )

-- The first `k` characters of a string, and a NUL behind them, at `dst`; nothing else changes.
pub record Copied (m : Memory) (dst src k : ℕ) (m' : Memory) : Type 0 where
  pub inside : (a b : ℕ) → dst ≤ a → a < dst + k → a + src ≡ b + dst → m' a ≡ m b
  pub ends : m' (dst + k) ≡ 0
  pub outside : (a : ℕ) → (a < dst) ⊎ (dst + k < a) → m' a ≡ m a

-- strlcpy of a string of len characters, on more fuel than that, to a destination of at least one
-- byte apart from it returns len, and the destination gets the string, cut to the size less one,
-- and a NUL behind it; no other byte changes.
pub strlcpy-Copied :
    (fuel : ℕ) (m : Memory) (dst src size len : ℕ)
    → IsString m src len
    → len < fuel
    → (dst + suc size ≤ src) ⊎ (src + len < dst)
    → (m' : Memory) × (k : ℕ) × (strlcpy fuel m dst src (suc size) ≡ some (m', len))
      × (k ≤ len)
      × (k ≤ size)
      × ((k ≡ len) ⊎ (k ≡ size))
      × Copied m dst src k m'
unfolding strlcpy finish CopiedUntil
strlcpy-Copied fuel m dst src size len is enough apart =
    let at_s : src + 0 ≡ src = omega arith in
    let is0 : IsString m (src + 0) len = rw at_s is in
    let r = copy_until size m dst src 0 in
    let (k, le, small, full, stop, moved) =
      copy_until-CopiedUntil size m dst src 0 len is0 (ground (arith, apart)) in
    let at_k : r.1 ≡ k = omega (arith, stop) in
    let m' = write r.0 (dst + k) 0 in
    let rest : IsString m' (src + k) (len - k) = record {
      chars = λ a h i. ground (
        arith,
        is.chars a (omega arith) (omega arith),
        moved.outside a (ground (arith, apart)),
        apart,
      );
      ends =
          let at : src + k + (len - k) ≡ src + len = omega (arith, le) in
          rw at
            (ground (arith, is.ends, moved.outside (src + len) (ground (arith, apart, le)), apart));
    } in
    let run = strlen-IsString fuel m' (src + k) (len - k) rest (omega arith) in
    let whole : k + (len - k) ≡ len = omega (arith, le) in
    (
      m',
      k,
      rw (at_k, run) (ap (λ l. some (m', l)) whole),
      le,
      small,
      full,
      record {
        inside =
            λ a b h i e. ground (arith, moved.inside a b (omega arith) (omega arith) (omega arith));
        ends = ground arith;
        outside = λ a h. ground (arith, moved.outside a (ground (arith, h)), h);
      },
    )
