-- ===== src/Scheduler/Priority.antt =====
-- Priorities, bonuses and quanta stay in their ranges.
use phlox.Common.{
  ℕ, zero, suc, ◌+◌, ◌*◌, ◌/◌, ◌%◌, ◌<◌, ◌≤◌, ◌≡◌, inl, inr, ◌||◌, ◌==◌, arith, Bool-cases, u32_mod,
}
use phlox.Common.Int.{ℤ, pos, negsuc, ◌-ℤ◌, ◌≤ℤ◌}
use phlox.Scheduler.{Thread}
use phlox.Scheduler.Switch.{clamp, sys_bonus, carrots_and_sticks}
use phlox.Scheduler.Timer.{estimate_quanta, estimate_factor, factor_a, factor_b}

clamp-range :
    (low high x : ℤ) → low ≤ℤ high → (low ≤ℤ clamp low high x) × (clamp low high x ≤ℤ high)
unfolding clamp
clamp-range low high x le = ground (arith, le)

-- carrots_and_sticks returns a bonus of at most 8 or a penalty of at most 8, whatever the thread's
-- values were.
pub carrots_and_sticks-range :
    (t : Thread) → (negsuc 7 ≤ℤ carrots_and_sticks t) × (carrots_and_sticks t ≤ℤ pos 8)
unfolding carrots_and_sticks sys_bonus
carrots_and_sticks-range t = elim (Bool-cases ((t.sched_policy == 6) || (t.sched_policy == 5))) [
  | inl e ↦ rw e (ground arith)
  | inr e ↦ rw e (clamp-range (negsuc 7) (pos 8) _ (omega arith))
]

factor_a-range : (n : ℕ) → (1 ≤ factor_a n) × (factor_a n ≤ n / 200 + 1)
unfolding factor_a
factor_a-range n = (ground arith, ground arith)

factor_b-range : (n : ℕ) → (1 ≤ factor_b n) × (factor_b n ≤ 8)
unfolding factor_b
factor_b-range n = (ground arith, ground arith)

-- Division by 1 to 8.
div-range : (x b : ℕ) → 60 ≤ x → 1 ≤ b → b ≤ 8 → (7 ≤ x / b) × (x / b ≤ x)
div-range x zero le one eight = absurd (omega arith)
div-range x (suc zero) le one eight = (omega arith, omega arith)
div-range x (suc (suc zero)) le one eight = (omega arith, omega arith)
div-range x (suc (suc (suc zero))) le one eight = (omega arith, omega arith)
div-range x (suc (suc (suc (suc zero)))) le one eight = (omega arith, omega arith)
div-range x (suc (suc (suc (suc (suc zero))))) le one eight = (omega arith, omega arith)
div-range x (suc (suc (suc (suc (suc (suc zero)))))) le one eight = (omega arith, omega arith)
div-range x (suc (suc (suc (suc (suc (suc (suc zero))))))) le one eight = (omega arith, omega arith)
div-range x (suc (suc (suc (suc (suc (suc (suc (suc b)))))))) le one eight =
    let last : b ≡ 0 = omega arith in rw last (omega arith, omega arith)

-- For any 32-bit count of ready threads the estimated quanta is from 20 to 60 milliseconds, and
-- the shuffle factor at least 7 and at most 60 times one more than a 200th of the count, without
-- overflow.
pub estimate-range :
    (total_count : ℕ)
    → total_count < u32_mod
    → (pos 20 ≤ℤ estimate_quanta total_count)
      × (estimate_quanta total_count ≤ℤ pos 60)
      × (7 ≤ estimate_factor total_count)
      × (estimate_factor total_count ≤ (total_count / 200 + 1) * 60)
unfolding estimate_quanta estimate_factor ◌-ℤ◌
estimate-range n lt =
    let (a1, a2) = factor_a-range n in
    let (b1, b2) = factor_b-range n in
    let (low, high) =
      div-range (factor_a n * 60 % u32_mod) (factor_b n) (omega (arith, a1, a2, lt)) b1 b2 in
    (ground arith, ground arith, low, omega (arith, high, a1, a2, lt))
