-- ===== src/HashTable/Horner.antt =====
-- phlox/kernel/util/hash_table.c: the hash functions that are polynomials of the characters.
use phlox.Common.{
  ℕ, zero, suc, ◌+◌, ◌-◌, ◌*◌, ◌%◌, ◌<◌, ◌≡◌, ◌∙◌, List, [], ◌∷◌, u32_mod, sign_extend, arith,
}
use phlox.HashTable.Hash.{
  u32, horner, bkdr_from, hash_func_str_bkdr, sdbm_from, hash_func_str_sdbm, djb_from,
  hash_func_str_djb,
}

-- A step of Horner's rule reads the present hash modulo 2 ^ 32 only.
mod_cong :
    (base x y c : ℕ)
    → x % u32_mod ≡ y % u32_mod
    → (x * base + c) % u32_mod ≡ (y * base + c) % u32_mod
mod_cong zero x y c e = omega arith
mod_cong (suc b) x y c e =
    let left : x * suc b + c ≡ x * b + (x + c) = ground arith in
    let right : y * suc b + c ≡ y * b + (y + c) = ground arith in
    let step = mod_cong b x y (x + c) e in rw (left, right) (omega (arith, step, e))

-- Horner's rule reads the present hash modulo 2 ^ 32 only.
horner_cong :
    (base x y : ℕ)
    → (str : List ℕ) → x % u32_mod ≡ y % u32_mod
    → horner base x str ≡ horner base y str
unfolding horner
horner_cong base x y [] e = e
horner_cong base x y (c ∷ str) e =
    horner_cong base (x * base + sign_extend c) (y * base + sign_extend c) str
      (mod_cong base x y (sign_extend c) e)

bkdr_from-horner : (h : ℕ) → (str : List ℕ) → h < u32_mod → bkdr_from h str ≡ horner 131 h str
unfolding bkdr_from horner
bkdr_from-horner h [] b = omega arith
bkdr_from-horner h (c ∷ str) b =
    bkdr_from-horner (u32 (u32 (h * 131) + sign_extend c)) str (omega arith)
    ∙ horner_cong 131 (u32 (u32 (h * 131) + sign_extend c)) (h * 131 + sign_extend c) str
        (omega arith)

djb_from-horner : (h : ℕ) → (str : List ℕ) → h < u32_mod → djb_from h str ≡ horner 33 h str
unfolding djb_from horner
djb_from-horner h [] b = omega arith
djb_from-horner h (c ∷ str) b =
    djb_from-horner (u32 (u32 (u32 (h * 32) + h) + sign_extend c)) str (omega arith)
    ∙ horner_cong 33 (u32 (u32 (u32 (h * 32) + h) + sign_extend c)) (h * 33 + sign_extend c) str
        (omega arith)

sdbm_from-horner : (h : ℕ) → (str : List ℕ) → h < u32_mod → sdbm_from h str ≡ horner 65599 h str
unfolding sdbm_from horner
sdbm_from-horner h [] b = omega arith
sdbm_from-horner h (c ∷ str) b =
    let step = u32 (u32 (sign_extend c + u32 (h * 64) + u32 (h * 65536)) + u32_mod - h) in
    sdbm_from-horner step str (omega arith)
    ∙ horner_cong 65599 step (h * 65599 + sign_extend c) str (omega arith)

-- The hash functions BKDR, SDBM and DJB of a string, whatever their shifts, additions and
-- subtractions wrap, are the polynomials of its signed characters, by Horner's rule with the bases
-- 131, 65599 and 33 and the starts 0, 0 and 5381, modulo 2 ^ 32.
pub hash_func_str-horner :
    (str : List ℕ)
    → (hash_func_str_bkdr str ≡ horner 131 0 str)
      × (hash_func_str_sdbm str ≡ horner 65599 0 str)
      × (hash_func_str_djb str ≡ horner 33 5381 str)
unfolding hash_func_str_bkdr hash_func_str_sdbm hash_func_str_djb
hash_func_str-horner str = (
  bkdr_from-horner 0 str (omega arith),
  sdbm_from-horner 0 str (omega arith),
  djb_from-horner 5381 str (omega arith),
)
