-- ===== src/Strings/LastChar.antt =====
-- `strrchr` finds the last place of a character.
use phlox.Common.{
  sign_extend, ℕ, zero, suc, ◌+◌, ◌≤◌, ◌<◌, ◌≡◌, ◌≢◌, ◌⊎◌, inl, inr, refl, arith, Option, some,
  none, ◌==◌, Bool-cases, true, false,
}
use mathlib.Core.Path.{sym, subst}
use phlox.Bytes.{Memory}
use phlox.Strings.{strrchr, strrchr_from}
use phlox.Strings.Terminated.{IsString, IsString-suc}

-- The loop of `strrchr`, which keeps the place that was seen last.
strrchr_from-last :
    (fuel : ℕ) (m : Memory) (s n c : ℕ) (last : Option ℕ)
    → IsString m s n
    → n < fuel
    → c ≢ 0
    → c < 128
    → ((a : ℕ) → s ≤ a → a < s + n → m a < 256)
    → ((strrchr_from fuel m s c last ≡ some last) × ((a : ℕ) → s ≤ a → a < s + n → m a ≢ c))
      ⊎ ((p : ℕ) × (strrchr_from fuel m s c last ≡ some (some p))
          × (s ≤ p)
          × (p < s + n)
          × (m p ≡ c)
          × ((a : ℕ) → p < a → a < s + n → m a ≢ c))
unfolding strrchr_from
strrchr_from-last zero m s n c last is enough nz small byte = absurd (omega arith)
strrchr_from-last (suc fuel) m s zero c last is enough nz small byte =
    let at : s + 0 ≡ s = omega arith in
    let end : (m s == 0) ≡ true = ground (arith, is.ends, at) in
    inl (rw end refl, λ a h k. absurd (omega arith))
strrchr_from-last (suc fuel) m s (suc n) c last is enough nz small byte =
    let more : (m s == 0) ≡ false = ground (arith, is.chars s (omega arith) (omega arith)) in
    let is1 = IsString-suc m s n is in
    let byte1 : (a : ℕ) → s + 1 ≤ a → a < s + 1 + n → m a < 256 =
      λ a h k. byte a (omega arith) (omega arith) in
    let b = byte s (omega arith) (omega arith) in
    elim (Bool-cases (sign_extend (m s) == c)) [
      | inl e ↦
          let here : m s ≡ c = ground (arith, e, b, small) in
          elim (strrchr_from-last fuel m (s + 1) n c (some s) is1 (omega arith) nz small byte1) [
            | inl (run, all) ↦ inr (
              s,
              rw (more, e) run,
              omega arith,
              omega arith,
              here,
              λ a h k. all a (omega arith) (omega arith),
            )
            | inr (p, run, low, high, found, behind) ↦ inr (
              p,
              rw (more, e) run,
              omega arith,
              omega arith,
              found,
              λ a h k. behind a h (omega arith),
            )
          ]
      | inr e ↦
          let other : m s ≢ c = ground (arith, e, b, small) in
          elim (strrchr_from-last fuel m (s + 1) n c last is1 (omega arith) nz small byte1) [
            | inl (run, all) ↦ inl (
              rw (more, e) run,
              λ a h k. elim (Bool-cases (a == s)) [
                | inl f ↦ let same : a ≡ s = ground arith in subst (λ x. m x ≢ c) (sym same) other
                | inr f ↦ all a (ground arith) (omega arith)
              ],
            )
            | inr (p, run, low, high, found, behind) ↦ inr (
              p,
              rw (more, e) run,
              omega arith,
              omega arith,
              found,
              λ a h k. behind a h (omega arith),
            )
          ]
    ]

-- strrchr for an ASCII character other than NUL, on a string of n bytes and more fuel than that,
-- returns the last place of the character, and NULL only where there is none.
pub strrchr-last :
    (fuel : ℕ) (m : Memory) (s n c : ℕ)
    → IsString m s n
    → n < fuel
    → c ≢ 0
    → c < 128
    → ((a : ℕ) → s ≤ a → a < s + n → m a < 256)
    → ((strrchr fuel m s c ≡ some none) × ((a : ℕ) → s ≤ a → a < s + n → m a ≢ c))
      ⊎ ((p : ℕ) × (strrchr fuel m s c ≡ some (some p))
          × (s ≤ p)
          × (p < s + n)
          × (m p ≡ c)
          × ((a : ℕ) → p < a → a < s + n → m a ≢ c))
unfolding strrchr
strrchr-last fuel m s n c is enough nz small byte =
    let not_nul : (c == 0) ≡ false = ground (arith, nz) in
    rw not_nul (strrchr_from-last fuel m s n c none is enough nz small byte)
