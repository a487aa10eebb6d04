-- ===== src/Bytes/Move.antt =====
-- Copying a block: the destination gets what the source held before, also where they overlap.
use phlox.Common.{
  ℕ, zero, suc, ◌+◌, ◌-◌, ◌*◌, ◌/◌, ◌%◌, ◌^◌, ◌≤◌, ◌<◌, ◌≡◌, ◌⊎◌, ◌∙◌, ap, inl, inr, refl, arith,
  ◌==◌, ltb, ◌||◌, u32_mod, Bool-cases,
}
use phlox.Bytes.{
  Memory, write, copy_word, int_rounds, copy_up, copy_words_up, copy_down, copy_words_down, head_up,
  head_down, forward, backward, memcpy, memmove, signed_ltb,
}

-- The `n` bytes from `d` on are those that stood from `s` on; the others are as they were.
pub record Moved (m : Memory) (d s n : ℕ) (m' : Memory) : Type 0 where
  pub inside : (a b : ℕ) → d ≤ a → a < d + n → a + s ≡ b + d → m' a ≡ m b
  pub outside : (a : ℕ) → (a < d) ⊎ (d + n ≤ a) → m' a ≡ m a

pub Moved-zero : (m : Memory) (d s : ℕ) → Moved m d s 0 m
Moved-zero m d s = record { inside = λ a b h k e. absurd (omega arith); outside = λ a h. refl }

-- Upwards: the lower part, then the upper one.
pub Moved-up :
    (m m1 m2 : Memory) (d s n k d' s' total : ℕ)
    → (d ≤ s) ⊎ (s + total ≤ d)
    → (d' ≡ d + n) × (s' ≡ s + n) × (total ≡ n + k)
    → Moved m d s n m1
    → Moved m1 d' s' k m2
    → Moved m d s total m2
Moved-up m m1 m2 d s n k d' s' total apart (e1, e2, e3) x y = record {
  inside = λ a b h i e. elim (Bool-cases (ltb a d')) [
    | inl l ↦ y.outside a (inl (ground arith)) ∙ x.inside a b h (ground arith) e
    | inr l ↦ y.inside a b (ground arith) (omega arith) (omega arith) ∙ x.outside b (ground arith)
  ];
  outside = λ a h. y.outside a (ground arith) ∙ x.outside a (ground arith);
}

-- Downwards: the upper part, then the lower one.
Moved-down :
    (m m1 m2 : Memory) (d s n k d' s' total : ℕ)
    → (s ≤ d) ⊎ (d + total ≤ s)
    → (d' ≡ d + k) × (s' ≡ s + k) × (total ≡ n + k)
    → Moved m d' s' n m1
    → Moved m1 d s k m2
    → Moved m d s total m2
Moved-down m m1 m2 d s n k d' s' total apart (e1, e2, e3) x y = record {
  inside = λ a b h i e. elim (Bool-cases (ltb a d')) [
    | inr l ↦
        y.outside a (inr (ground arith)) ∙ x.inside a b (ground arith) (omega arith) (omega arith)
    | inl l ↦ y.inside a b h (ground arith) e ∙ x.outside b (ground arith)
  ];
  outside = λ a h. y.outside a (ground arith) ∙ x.outside a (ground arith);
}

pub write-Moved : (m : Memory) (d s : ℕ) → Moved m d s 1 (write m d (m s))
write-Moved m d s = record {
  inside = λ a b h i e.
      let x : a ≡ d = omega arith in let y : b ≡ s = omega arith in ground (arith, x, y);
  outside = λ a h. ground arith;
}

copy_word-Moved : (m : Memory) (d s : ℕ) → Moved m d s 4 (copy_word m d s)
copy_word-Moved m d s = record {
  inside = λ a b h i e. let x : s + (a - d) ≡ b = omega arith in ground (arith, x);
  outside = λ a h. ground arith;
}

copy_up-Moved :
    (n : ℕ) (m : Memory) (d s : ℕ) → (d ≤ s) ⊎ (s + n ≤ d) → Moved m d s n (copy_up n m d s)
unfolding copy_up
copy_up-Moved zero m d s apart = Moved-zero m d s
copy_up-Moved (suc n) m d s apart =
    let m1 = write m d (m s) in
    Moved-up m m1 (copy_up n m1 (d + 1) (s + 1)) d s 1 n (d + 1) (s + 1) (suc n) apart
      (refl, refl, omega arith) (write-Moved m d s)
      (copy_up-Moved n m1 (d + 1) (s + 1) (ground (arith, apart)))

copy_words_up-Moved :
    (n : ℕ) (m : Memory) (d s : ℕ)
    → (d ≤ s) ⊎ (s + n * 4 ≤ d)
    → Moved m d s (n * 4) (copy_words_up n m d s)
unfolding copy_words_up
copy_words_up-Moved zero m d s apart = Moved-zero m d s
copy_words_up-Moved (suc n) m d s apart =
    let m1 = copy_word m d s in
    Moved-up m m1 (copy_words_up n m1 (d + 4) (s + 4)) d s 4 (n * 4) (d + 4) (s + 4) (suc n * 4)
      apart (refl, refl, omega arith) (copy_word-Moved m d s)
      (copy_words_up-Moved n m1 (d + 4) (s + 4) (ground (arith, apart)))

-- The downward loops start from the ends of the blocks.
copy_down-Moved :
    (n : ℕ) (m : Memory) (d s : ℕ)
    → (s ≤ d) ⊎ (d + n ≤ s)
    → Moved m d s n (copy_down n m (d + n) (s + n))
unfolding copy_down
copy_down-Moved zero m d s apart = Moved-zero m d s
copy_down-Moved (suc n) m d s apart =
    let at_d : d + suc n - 1 ≡ d + n = omega arith in
    let at_s : s + suc n - 1 ≡ s + n = omega arith in
    rw (at_d, at_s)
      (let m1 = write m (d + n) (m (s + n)) in
        Moved-down m m1 (copy_down n m1 (d + n) (s + n)) d s 1 n (d + n) (s + n) (suc n) apart
          (refl, refl, omega arith) (write-Moved m (d + n) (s + n))
          (copy_down-Moved n m1 d s (ground (arith, apart))))

copy_words_down-Moved :
    (n : ℕ) (m : Memory) (d s : ℕ)
    → (s ≤ d) ⊎ (d + n * 4 ≤ s)
    → Moved m d s (n * 4) (copy_words_down n m (d + n * 4) (s + n * 4))
unfolding copy_words_down
copy_words_down-Moved zero m d s apart = Moved-zero m d s
copy_words_down-Moved (suc n) m d s apart =
    let at_d : d + suc n * 4 - 4 ≡ d + n * 4 = omega arith in
    let at_s : s + suc n * 4 - 4 ≡ s + n * 4 = omega arith in
    rw (at_d, at_s)
      (let m1 = copy_word m (d + n * 4) (s + n * 4) in
        Moved-down m m1 (copy_words_down n m1 (d + n * 4) (s + n * 4)) d s 4 (n * 4) (d + n * 4)
          (s + n * 4) (suc n * 4) apart (refl, refl, omega arith)
          (copy_word-Moved m (d + n * 4) (s + n * 4))
          (copy_words_down-Moved n m1 d s (ground (arith, apart))))

copy_down-end :
    (n : ℕ) (m : Memory) (d s e f : ℕ)
    → (e ≡ d + n) × (f ≡ s + n)
    → (s ≤ d) ⊎ (d + n ≤ s)
    → Moved m d s n (copy_down n m e f)
copy_down-end n m d s e f (at_e, at_f) apart = rw (at_e, at_f) (copy_down-Moved n m d s apart)

copy_words_down-end :
    (n : ℕ) (m : Memory) (d s e f : ℕ)
    → (e ≡ d + n * 4) × (f ≡ s + n * 4)
    → (s ≤ d) ⊎ (d + n * 4 ≤ s)
    → Moved m d s (n * 4) (copy_words_down n m e f)
copy_words_down-end n m d s e f (at_e, at_f) apart =
    rw (at_e, at_f) (copy_words_down-Moved n m d s apart)

head_up-le : (d s count : ℕ) → head_up d s count ≤ count
head_up-le d s count = ground arith

head_down-le : (d s count : ℕ) → head_down d s count ≤ count
head_down-le d s count = ground arith

int_rounds-small : (x count : ℕ) → x ≤ count → count < 2 ^ 31 → int_rounds x ≡ x
int_rounds-small x count h small = ground arith

pub forward-Moved :
    (m : Memory) (d s count : ℕ)
    → count < 2 ^ 31
    → (d ≤ s) ⊎ (s + count ≤ d)
    → Moved m d s count (forward m d s count)
unfolding forward
forward-Moved m d s count small apart =
    let len = head_up d s count in
    let rest = count - len in
    let words = rest / 4 in
    let le = head_up-le d s count in
    let same1 : int_rounds len ≡ len = int_rounds-small len count le small in
    let same2 : int_rounds words ≡ words = int_rounds-small words count (omega arith) small in
    rw (same1, same2)
      (let m1 = copy_up len m d s in
        let m2 = copy_words_up words m1 (d + len) (s + len) in
        let m3 = copy_up (rest % 4) m2 (d + len + words * 4) (s + len + words * 4) in
        let first = copy_up-Moved len m d s (ground (arith, le, apart)) in
        let second = copy_words_up-Moved words m1 (d + len) (s + len) (ground (arith, le, apart)) in
        let third =
          copy_up-Moved (rest % 4) m2 (d + len + words * 4) (s + len + words * 4)
            (ground (arith, le, apart)) in
        let both =
          Moved-up m m1 m2 d s len (words * 4) (d + len) (s + len) (len + words * 4)
            (ground (arith, le, apart)) (refl, refl, refl) first second in
        Moved-up m m2 m3 d s (len + words * 4) (rest % 4) (d + len + words * 4)
          (s + len + words * 4) count apart (omega arith, omega arith, omega (arith, le)) both
          third)

pub backward-Moved :
    (m : Memory) (d s count : ℕ)
    → count < 2 ^ 31
    → (s ≤ d) ⊎ (d + count ≤ s)
    → Moved m d s count (backward m d s count)
unfolding backward
backward-Moved m d s count small apart =
    let len = head_down (d + count) (s + count) count in
    let rest = count - len in
    let words = rest / 4 in
    let tail = rest % 4 in
    let le = head_down-le (d + count) (s + count) count in
    let same1 : int_rounds len ≡ len = int_rounds-small len count le small in
    let same2 : int_rounds words ≡ words = int_rounds-small words count (omega arith) small in
    rw (same1, same2)
      (let e = d + count in
        let f = s + count in
        let m1 = copy_down len m e f in
        let m2 = copy_words_down words m1 (e - len) (f - len) in
        let m3 = copy_down tail m2 (e - len - words * 4) (f - len - words * 4) in
        let first =
          copy_down-end len m (d + rest) (s + rest) e f (omega (arith, le), omega (arith, le))
            (ground (arith, le, apart)) in
        let second =
          copy_words_down-end words m1 (d + tail) (s + tail) (e - len) (f - len)
            (omega (arith, le), omega (arith, le)) (ground (arith, le, apart)) in
        let third =
          copy_down-end tail m2 d s (e - len - words * 4) (f - len - words * 4)
            (omega (arith, le), omega (arith, le)) (ground (arith, le, apart)) in
        let both =
          Moved-down m m1 m2 (d + tail) (s + tail) len (words * 4) (d + rest) (s + rest)
            (len + words * 4) (ground (arith, le, apart))
            (omega (arith, le), omega (arith, le), refl) first second in
        Moved-down m m2 m3 d s (len + words * 4) tail (d + tail) (s + tail) count apart
          (refl, refl, omega (arith, le)) both third)

-- memcpy of less than 2 ^ 31 bytes to a destination that is not above the source, or behind its
-- end, gives the destination the bytes that the source held, and changes no other byte.
pub memcpy-Moved :
    (m : Memory) (dest src count : ℕ)
    → count < 2 ^ 31
    → (dest ≤ src) ⊎ (src + count ≤ dest)
    → Moved m dest src count (memcpy m dest src count)
unfolding memcpy
memcpy-Moved m dest src count small apart = elim (Bool-cases (count == 0 || dest == src)) [
  | inl e ↦ rw e (record {
    inside = λ a b h i k. elim (Bool-cases (count == 0)) [
      | inl z ↦ absurd (ground arith)
      | inr z ↦ let same : a ≡ b = ground arith in ap m same
    ];
    outside = λ a h. refl;
  })
  | inr e ↦ rw e (forward-Moved m dest src count small apart)
]

-- memmove of less than 2 ^ 31 bytes between 32-bit addresses, where the blocks start in the same
-- half of memory or do not overlap, gives the destination the bytes that the source held before,
-- however the blocks overlap and are aligned, and changes no other byte.
pub memmove-Moved :
    (m : Memory) (dest src count : ℕ)
    → count < 2 ^ 31
    → (dest < u32_mod) × (src < u32_mod)
    → (ltb dest (2 ^ 31) ≡ ltb src (2 ^ 31)) ⊎ ((dest + count ≤ src) ⊎ (src + count ≤ dest))
    → Moved m dest src count (memmove m dest src count)
unfolding memmove
memmove-Moved m dest src count small (dest_32, src_32) half =
    elim (Bool-cases (count == 0 || dest == src)) [
      | inl e ↦ rw e (record {
        inside = λ a b h i k. elim (Bool-cases (count == 0)) [
          | inl z ↦ absurd (ground arith)
          | inr z ↦ let same : a ≡ b = ground arith in ap m same
        ];
        outside = λ a h. refl;
      })
      | inr e ↦ elim (Bool-cases (signed_ltb dest src)) [
        | inl f ↦
            rw (e, f)
              (forward-Moved m dest src count small (ground (arith, f, half, dest_32, src_32)))
        | inr f ↦
            rw (e, f)
              (backward-Moved m dest src count small (ground (arith, f, half, dest_32, src_32)))
      ]
    ]
