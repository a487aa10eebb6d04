-- ===== src/Bytes/Fill.antt =====
-- `memset` and `bzero`: the block is filled, by bytes and by words, and nothing else changes.
use phlox.Common.{
  ℕ, zero, suc, ◌+◌, ◌-◌, ◌*◌, ◌/◌, ◌%◌, ◌≤◌, ◌<◌, ◌≡◌, ◌⊎◌, ◌∙◌, inl, inr, refl, arith, ltb,
  Bool-cases,
}
use phlox.Bytes.{Memory, write, fill_bytes, write_int, fill_words, spread, memset, bzero}

-- The `n` bytes from `s` on are `v`; the others are as they were.
pub record Filled (m : Memory) (s n v : ℕ) (m' : Memory) : Type 0 where
  pub inside : (a : ℕ) → s ≤ a → a < s + n → m' a ≡ v
  pub outside : (a : ℕ) → (a < s) ⊎ (s + n ≤ a) → m' a ≡ m a

Filled-append :
    (m m1 m2 : Memory) (s n k v s' total : ℕ)
    → (s' ≡ s + n) × (total ≡ n + k)
    → Filled m s n v m1
    → Filled m1 s' k v m2
    → Filled m s total v m2
Filled-append m m1 m2 s n k v s' total (e1, e2) x y = record {
  inside = λ a h i. elim (Bool-cases (ltb a s')) [
    | inl l ↦ y.outside a (inl (ground arith)) ∙ x.inside a h (ground arith)
    | inr l ↦ y.inside a (ground arith) (omega arith)
  ];
  outside = λ a h. y.outside a (ground arith) ∙ x.outside a (ground arith);
}

Filled-zero : (m : Memory) (s v : ℕ) → Filled m s 0 v m
Filled-zero m s v = record { inside = λ a h i. absurd (omega arith); outside = λ a h. refl }

write-Filled : (m : Memory) (s v : ℕ) → Filled m s 1 v (write m s v)
write-Filled m s v = record { inside = λ a h i. ground arith; outside = λ a h. ground arith }

fill_bytes-Filled : (n : ℕ) (m : Memory) (s c : ℕ) → Filled m s n (c % 256) (fill_bytes n m s c)
unfolding fill_bytes
fill_bytes-Filled zero m s c = Filled-zero m s (c % 256)
fill_bytes-Filled (suc n) m s c =
    let m1 = write m s (c % 256) in
    Filled-append m m1 (fill_bytes n m1 (s + 1) c) s 1 n (c % 256) (s + 1) (suc n)
      (refl, omega arith) (write-Filled m s (c % 256)) (fill_bytes-Filled n m1 (s + 1) c)

-- Each byte of the spread word is the byte it was made from.
spread-bytes :
    (c : ℕ)
    → (spread c % 256 ≡ c % 256)
      × (spread c / 256 % 256 ≡ c % 256)
      × (spread c / 65536 % 256 ≡ c % 256)
      × (spread c / 16777216 % 256 ≡ c % 256)
spread-bytes c = (omega arith, omega arith, omega arith, omega arith)

write_int-Filled : (m : Memory) (s c : ℕ) → Filled m s 4 (c % 256) (write_int m s (spread c))
write_int-Filled m s c =
    let (b0, b1, b2, b3) = spread-bytes c in
    rw (b0, b1, b2, b3) (record { inside = λ a h i. ground arith; outside = λ a h. ground arith })

fill_words-Filled :
    (n : ℕ) (m : Memory) (s c : ℕ) → Filled m s (n * 4) (c % 256) (fill_words n m s (spread c))
unfolding fill_words
fill_words-Filled zero m s c = Filled-zero m s (c % 256)
fill_words-Filled (suc n) m s c =
    let m1 = write_int m s (spread c) in
    Filled-append m m1 (fill_words n m1 (s + 4) (spread c)) s 4 (n * 4) (c % 256) (s + 4)
      (suc n * 4) (refl, omega arith) (write_int-Filled m s c) (fill_words-Filled n m1 (s + 4) c)

-- memset sets the count bytes from the address on to the low byte of the value, and changes no
-- other byte, however the words lie in the block.
pub memset-Filled : (m : Memory) (s c count : ℕ) → Filled m s count (c % 256) (memset m s c count)
unfolding memset
memset-Filled m s c count =
    let len = (4 - s % 4) % 4 in
    let rest = count - len in
    let words = rest / 4 in
    elim (Bool-cases (ltb len count)) [
      | inr e ↦ rw e (fill_bytes-Filled count m s c)
      | inl e ↦
          let le : len ≤ count = ground arith in
          let m1 = fill_bytes len m s c in
          let m2 = fill_words words m1 (s + len) (spread c) in
          let m3 = fill_bytes (rest % 4) m2 (s + len + words * 4) c in
          let both =
            Filled-append m m1 m2 s len (words * 4) (c % 256) (s + len) (len + words * 4)
              (refl, refl) (fill_bytes-Filled len m s c) (fill_words-Filled words m1 (s + len) c) in
          rw e (
            Filled-append m m2 m3 s (len + words * 4) (rest % 4) (c % 256) (s + len + words * 4)
              count (omega arith, omega (arith, le)) both
              (fill_bytes-Filled (rest % 4) m2 (s + len + words * 4) c))
    ]

pub bzero-Filled : (m : Memory) (dst count : ℕ) → Filled m dst count 0 (bzero m dst count)
unfolding bzero
bzero-Filled m dst count = memset-Filled m dst 0 count
