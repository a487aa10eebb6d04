-- ===== src/Pages/Tally.antt =====
-- How many pages are in a state, and how many a change of one page's state makes it.
use phlox.Common.{
  ℕ, zero, suc, ◌+◌, ◌≤◌, ◌<◌, ◌≡◌, refl, ap, sym, ◌∙◌, true, Bool, arith, if◌then◌else◌,
}
use phlox.Pages.{
  PageState, active, inactive, free, clear, wired, busy, unused, invalid, code, same_state, update,
}

-- 1 for true.
abbrev pub one_if : Bool → ℕ
one_if b = if b then 1 else 0

-- The number of pages below `n` in state `t`.
unfoldable pub tally : ℕ → (ℕ → PageState) → PageState → ℕ
tally zero f t = 0
tally (suc n) f t = tally n f t + one_if (same_state (f n) t)

pub tally-le : (n : ℕ) (f : ℕ → PageState) (t : PageState) → tally n f t ≤ n
unfolding tally
tally-le zero f t = omega arith
tally-le (suc n) f t = ground (arith, tally-le n f t)

pub tally_pos :
    (n : ℕ) (f : ℕ → PageState) (t : PageState) (p : ℕ)
    → p < n
    → same_state (f p) t ≡ true
    → 0 < tally n f t
unfolding tally
tally_pos zero f t p h e = absurd (omega arith)
tally_pos (suc n) f t p h e = ground (arith, tally_pos n f t p)

tally-update_above :
    (n : ℕ) (f : ℕ → PageState) (p : ℕ) (v t : PageState)
    → n ≤ p
    → tally n (update f p v) t ≡ tally n f t
unfolding tally
tally-update_above zero f p v t h = refl
tally-update_above (suc n) f p v t h = ground (arith, tally-update_above n f p v t (omega arith))

-- A change of one page's state takes it from one tally to another.
pub tally-update :
    (n : ℕ) (f : ℕ → PageState) (p : ℕ) (v t : PageState)
    → p < n
    → tally n (update f p v) t + one_if (same_state (f p) t) ≡ tally n f t + one_if (same_state v t)
unfolding tally
tally-update zero f p v t h = absurd (omega arith)
tally-update (suc n) f p v t h =
    ground (arith, tally-update n f p v t, tally-update_above n f p v t)

decode : ℕ → PageState
decode zero = active
decode (suc zero) = inactive
decode (suc (suc zero)) = free
decode (suc (suc (suc zero))) = clear
decode (suc (suc (suc (suc zero)))) = wired
decode (suc (suc (suc (suc (suc zero))))) = busy
decode (suc (suc (suc (suc (suc (suc zero)))))) = unused
decode (suc (suc (suc (suc (suc (suc (suc n))))))) = invalid n

decode-code : (t : PageState) → decode (code t) ≡ t
unfolding decode
decode-code active = refl
decode-code inactive = refl
decode-code free = refl
decode-code clear = refl
decode-code wired = refl
decode-code busy = refl
decode-code unused = refl
decode-code (invalid n) =
    let e : 7 + n ≡ suc (suc (suc (suc (suc (suc (suc n)))))) = omega arith in ap decode e

-- The test of the source compares numbers; states with one number are one state.
pub eq_of_same_state : (s t : PageState) → same_state s t ≡ true → s ≡ t
eq_of_same_state s t h =
    let e : code s ≡ code t = ground arith in sym (decode-code s) ∙ ap decode e ∙ decode-code t
