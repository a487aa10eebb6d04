-- ===== src/HashTable/Hash.antt =====
-- phlox/kernel/util/hash_table.c: the hash functions. A string is the list of its characters before
-- the NUL, as bytes; a character is signed. Shifts are written by `*` and `/`.
use Prim.Native.Nat.{bit_and, bit_xor}
use phlox.Common.{
  ℕ, ◌+◌, ◌-◌, ◌*◌, ◌/◌, ◌%◌, List, [], ◌∷◌, length, ◌==◌, if◌then◌else◌, u32_mod, sign_extend,
}

-- A result of 32 bits.
abbrev pub u32 : ℕ → ℕ
u32 x = x % u32_mod

unfoldable pub rs_from : (hash a : ℕ) → List ℕ → ℕ
rs_from hash a [] = hash
rs_from hash a (c ∷ str) = rs_from (u32 (hash * a + sign_extend c)) (u32 (a * 378551)) str

unfoldable pub hash_func_str_rs : List ℕ → ℕ
hash_func_str_rs str = rs_from 0 63689 str

unfoldable pub js_from : ℕ → List ℕ → ℕ
js_from hash [] = hash
js_from hash (c ∷ str) =
    js_from (bit_xor hash (u32 (u32 (hash * 32) + sign_extend c + hash / 4))) str

unfoldable pub hash_func_str_js : List ℕ → ℕ
hash_func_str_js str = js_from 1315423911 str

-- The four high bits, and the others.
abbrev pub high_bits : ℕ
high_bits = 0xF0000000

abbrev pub pjw_step : (hash : ℕ) → ℕ
pjw_step hash =
    let test = bit_and hash high_bits in
    if test == 0 then hash else bit_and (bit_xor hash (test / 16777216)) 0x0FFFFFFF

unfoldable pub pjw_from : ℕ → List ℕ → ℕ
pjw_from hash [] = hash
pjw_from hash (c ∷ str) = pjw_from (pjw_step (u32 (u32 (hash * 16) + sign_extend c))) str

unfoldable pub hash_func_str_pjw : List ℕ → ℕ
hash_func_str_pjw str = pjw_from 0 str

abbrev pub elf_step : (hash : ℕ) → ℕ
elf_step hash =
    let x = bit_and hash high_bits in
    bit_and (if x == 0 then hash else bit_xor hash (x / 16777216)) (u32_mod - 1 - x)

unfoldable pub elf_from : ℕ → List ℕ → ℕ
elf_from hash [] = hash
elf_from hash (c ∷ str) = elf_from (elf_step (u32 (u32 (hash * 16) + sign_extend c))) str

unfoldable pub hash_func_str_elf : List ℕ → ℕ
hash_func_str_elf str = elf_from 0 str

unfoldable pub bkdr_from : ℕ → List ℕ → ℕ
bkdr_from hash [] = hash
bkdr_from hash (c ∷ str) = bkdr_from (u32 (u32 (hash * 131) + sign_extend c)) str

unfoldable pub hash_func_str_bkdr : List ℕ → ℕ
hash_func_str_bkdr str = bkdr_from 0 str

unfoldable pub sdbm_from : ℕ → List ℕ → ℕ
sdbm_from hash [] = hash
sdbm_from hash (c ∷ str) =
    sdbm_from (u32 (u32 (sign_extend c + u32 (hash * 64) + u32 (hash * 65536)) + u32_mod - hash))
      str

unfoldable pub hash_func_str_sdbm : List ℕ → ℕ
hash_func_str_sdbm str = sdbm_from 0 str

unfoldable pub djb_from : ℕ → List ℕ → ℕ
djb_from hash [] = hash
djb_from hash (c ∷ str) = djb_from (u32 (u32 (u32 (hash * 32) + hash) + sign_extend c)) str

unfoldable pub hash_func_str_djb : List ℕ → ℕ
hash_func_str_djb str = djb_from 5381 str

unfoldable pub dek_from : ℕ → List ℕ → ℕ
dek_from hash [] = hash
dek_from hash (c ∷ str) =
    dek_from (bit_xor (bit_xor (u32 (hash * 32)) (hash / 134217728)) (sign_extend c)) str

unfoldable pub hash_func_str_dek : List ℕ → ℕ
hash_func_str_dek str = dek_from (length str) str

unfoldable pub bp_from : ℕ → List ℕ → ℕ
bp_from hash [] = hash
bp_from hash (c ∷ str) = bp_from (bit_xor (u32 (hash * 128)) (sign_extend c)) str

unfoldable pub hash_func_str_bp : List ℕ → ℕ
hash_func_str_bp str = bp_from 0 str

unfoldable pub fnv_from : ℕ → List ℕ → ℕ
fnv_from hash [] = hash
fnv_from hash (c ∷ str) = fnv_from (bit_xor (u32 (hash * 0x811C9DC5)) (sign_extend c)) str

unfoldable pub hash_func_str_fnv : List ℕ → ℕ
hash_func_str_fnv str = fnv_from 0 str

unfoldable pub ap_from : (hash i : ℕ) → List ℕ → ℕ
ap_from hash i [] = hash
ap_from hash i (c ∷ str) =
    let even = bit_xor (u32 (hash * 128)) (u32 (sign_extend c * (hash / 8))) in
    let odd = u32_mod - 1 - bit_xor (u32 (u32 (hash * 2048) + sign_extend c)) (hash / 32) in
    ap_from (bit_xor hash (if i % 2 == 0 then even else odd)) (u32 (i + 1)) str

unfoldable pub hash_func_str_ap : List ℕ → ℕ
hash_func_str_ap str = ap_from 0xAAAAAAAA 0 str

unfoldable pub newos_from : ℕ → List ℕ → ℕ
newos_from hash [] = hash
newos_from hash (c ∷ str) =
    newos_from (bit_xor (u32 (bit_xor hash (hash / 268435456) * 16)) (sign_extend c)) str

unfoldable pub hash_func_str_newos : List ℕ → ℕ
hash_func_str_newos str = newos_from 0 str

unfoldable pub hash_func_int_32shift : ℕ → ℕ
hash_func_int_32shift key =
    let k1 = u32 (u32_mod - 1 - key + u32 (key * 32768)) in
    let k2 = bit_xor k1 (k1 / 4096) in
    let k3 = u32 (k2 + u32 (k2 * 4)) in
    let k4 = bit_xor k3 (k3 / 16) in let k5 = u32 (k4 * 2057) in bit_xor k5 (k5 / 65536)

unfoldable pub hash_func_int_32shiftmult : ℕ → ℕ
hash_func_int_32shiftmult key =
    let k1 = bit_xor (bit_xor key 61) (key / 65536) in
    let k2 = u32 (k1 + u32 (k1 * 8)) in
    let k3 = bit_xor k2 (k2 / 16) in let k4 = u32 (k3 * 0x27d4eb2d) in bit_xor k4 (k4 / 32768)

unfoldable pub hash_func_int_rj : ℕ → ℕ
hash_func_int_rj key =
    let k1 = u32 (u32 (key + 0x7ed55d16) + u32 (key * 4096)) in
    let k2 = bit_xor (bit_xor k1 0xc761c23c) (k1 / 524288) in
    let k3 = u32 (u32 (k2 + 0x165667b1) + u32 (k2 * 32)) in
    let k4 = bit_xor (u32 (k3 + 0xd3a2646c)) (u32 (k3 * 512)) in
    let k5 = u32 (u32 (k4 + 0xfd7046c5) + u32 (k4 * 8)) in
    bit_xor (bit_xor k5 0xb55a4f09) (k5 / 65536)

unfoldable pub hash_func_int_java : ℕ → ℕ
hash_func_int_java key =
    let k1 = bit_xor key (bit_xor (key / 1048576) (key / 4096)) in
    bit_xor (bit_xor k1 (k1 / 128)) (k1 / 16)

-- The reference: a polynomial of the characters by Horner's rule, modulo 2 ^ 32.
unfoldable pub horner : (base hash : ℕ) → List ℕ → ℕ
horner base hash [] = hash % u32_mod
horner base hash (c ∷ str) = horner base (hash * base + sign_extend c) str
