-- ===== src/Bytes/Compare.antt =====
-- `memcmp` and the searches for a byte.
use phlox.Common.{
  ℕ, zero, suc, ◌+◌, ◌-◌, ◌%◌, ◌≤◌, ◌<◌, ◌≡◌, ◌≢◌, ◌⊎◌, ◌∙◌, ap, inl, inr, refl, arith, ◌==◌,
  ==_iff, Bool-cases, some, none,
}
use mathlib.Core.Path.{sym, subst}
use phlox.Bytes.{Memory, memcmp, memchr_from, memchr, memscan}

-- The addresses hold bytes.
abbrev pub IsBytes : Memory → Type 0
IsBytes m = (a : ℕ) → m a < 256

-- A property of the numbers from `lo` on, from that of `lo` and of the rest.
range_cons :
    (P : ℕ → Type 0) (lo hi : ℕ)
    → P lo
    → ((a : ℕ) → lo + 1 ≤ a → a < hi → P a)
    → (a : ℕ) → lo ≤ a
    → a < hi
    → P a
range_cons P lo hi at_lo later a h k = elim (Bool-cases (a == lo)) [
  | inl e ↦ subst P (sym ((==_iff a lo).0 e)) at_lo
  | inr e ↦ later a (ground arith) k
]

-- On a memory of bytes, memcmp returns 0 only where the two blocks agree in all bytes, and
-- otherwise the difference of the first two bytes that differ, cut to 8 bits.
pub memcmp-first_difference :
    (count : ℕ) (m : Memory) (cs ct : ℕ)
    → IsBytes m
    → ((memcmp count m cs ct ≡ 0)
        × ((a b : ℕ) → cs ≤ a → a < cs + count → a + ct ≡ b + cs → m a ≡ m b))
      ⊎ ((i : ℕ) × (i < count)
          × (m (cs + i) ≢ m (ct + i))
          × (memcmp count m cs ct ≡ (m (cs + i) + 256 - m (ct + i)) % 256)
          × ((a b : ℕ) → cs ≤ a → a < cs + i → a + ct ≡ b + cs → m a ≡ m b))
unfolding memcmp
memcmp-first_difference zero m cs ct byte = inl (refl, λ a b h k e. absurd (omega arith))
memcmp-first_difference (suc n) m cs ct byte =
    let x = byte cs in
    let y = byte ct in
    elim (Bool-cases ((m cs + 256 - m ct) % 256 == 0)) [
      | inr e ↦
          let differ : m cs ≢ m ct = ground (arith, e, x, y) in
          let at_s : cs + 0 ≡ cs = omega arith in
          let at_t : ct + 0 ≡ ct = omega arith in
          inr (
            0,
            omega arith,
            rw (at_s, at_t) differ,
            rw (at_s, at_t, e) refl,
            λ a b h k l. absurd (omega arith),
          )
      | inl e ↦
          let agree : m cs ≡ m ct = ground (arith, e, x, y) in
          let here = λ (b : ℕ) (l : cs + ct ≡ b + cs).
            (let same : ct ≡ b = omega arith in agree ∙ ap m same) in
          elim (memcmp-first_difference n m (cs + 1) (ct + 1) byte) [
            | inl (run, all) ↦ inl (
              rw e run,
              λ a b h k.
                  range_cons (λ a. a + ct ≡ b + cs → m a ≡ m b) cs (cs + suc n) (here b)
                    (λ a' h' k' l'. all a' b h' (omega arith) (omega arith)) a h k,
            )
            | inr (i, inside, differ, run, before) ↦
                let at_s : cs + 1 + i ≡ cs + suc i = omega arith in
                let at_t : ct + 1 + i ≡ ct + suc i = omega arith in
                inr (
                  suc i,
                  omega arith,
                  rw (at_s, at_t) at differ,
                  rw e (rw (at_s, at_t) at run),
                  λ a b h k.
                      range_cons (λ a. a + ct ≡ b + cs → m a ≡ m b) cs (cs + suc i) (here b)
                        (λ a' h' k' l'. before a' b h' (omega arith) (omega arith)) a h k,
                )
          ]
    ]

-- Where `memchr` looks, and what it returns: the first byte that equals the low byte of `c`.
memchr_from-first :
    (n : ℕ) (m : Memory) (buf c i : ℕ)
    → ((memchr_from n m buf c i ≡ none) × ((a : ℕ) → buf + i ≤ a → a < buf + i + n → m a ≢ c % 256))
      ⊎ ((p : ℕ) × (memchr_from n m buf c i ≡ some p)
          × (buf + i ≤ p)
          × (p < buf + i + n)
          × (m p ≡ c % 256)
          × ((a : ℕ) → buf + i ≤ a → a < p → m a ≢ c % 256))
unfolding memchr_from
memchr_from-first zero m buf c i = inl (refl, λ a h k. absurd (omega arith))
memchr_from-first (suc n) m buf c i = elim (Bool-cases (m (buf + i) == c % 256)) [
  | inl e ↦ inr (
    buf + i,
    rw e refl,
    omega arith,
    omega arith,
    (==_iff (m (buf + i)) (c % 256)).0 e,
    λ a h k. absurd (omega arith),
  )
  | inr e ↦
      let here : m (buf + i) ≢ c % 256 = ground (arith, e) in
      elim (memchr_from-first n m buf c (i + 1)) [
        | inl (run, all) ↦ inl (
          rw e run,
          range_cons (λ a. m a ≢ c % 256) (buf + i) (buf + i + suc n) here
              (λ a h k. all a (omega arith) (omega arith)),
        )
        | inr (p, run, low, high, found, before) ↦ inr (
          p,
          rw e run,
          omega arith,
          omega arith,
          found,
          range_cons (λ a. m a ≢ c % 256) (buf + i) p here (λ a h k. before a (omega arith) k),
        )
      ]
]

-- memchr returns the address of the first byte of the block that equals the low byte of the value,
-- and NULL only where there is none.
pub memchr-first :
    (m : Memory) (buf c len : ℕ)
    → ((memchr m buf c len ≡ none) × ((a : ℕ) → buf ≤ a → a < buf + len → m a ≢ c % 256))
      ⊎ ((p : ℕ) × (memchr m buf c len ≡ some p)
          × (buf ≤ p)
          × (p < buf + len)
          × (m p ≡ c % 256)
          × ((a : ℕ) → buf ≤ a → a < p → m a ≢ c % 256))
unfolding memchr
memchr-first m buf c len = elim (memchr_from-first len m buf c 0) [
  | inl (run, all) ↦ inl (run, λ a h k. all a (omega arith) (omega arith))
  | inr (p, run, low, high, found, before) ↦
      inr (p, run, omega arith, omega arith, found, λ a h k. before a (omega arith) k)
]

-- memscan returns the address of the first byte of the block that equals the value, and the end of
-- the block where there is none.
pub memscan-first :
    (size : ℕ) (m : Memory) (addr c : ℕ)
    → (addr ≤ memscan size m addr c)
      × (memscan size m addr c ≤ addr + size)
      × ((m (memscan size m addr c) ≡ c) ⊎ (memscan size m addr c ≡ addr + size))
      × ((a : ℕ) → addr ≤ a → a < memscan size m addr c → m a ≢ c)
unfolding memscan
memscan-first zero m addr c =
    (omega arith, omega arith, inr (omega arith), λ a h k. absurd (omega arith))
memscan-first (suc n) m addr c = elim (Bool-cases (m addr == c)) [
  | inl e ↦
      rw e (omega arith, omega arith, inl ((==_iff (m addr) c).0 e), λ a h k. absurd (omega arith))
  | inr e ↦
      let (low, high, found, before) = memscan-first n m (addr + 1) c in
      rw e (
        omega arith,
        omega arith,
        ground (arith, found),
        range_cons (λ a. m a ≢ c) addr (memscan n m (addr + 1) c) (ground (arith, e)) before,
      )
]
