-- ===== src/Scheduler/Aging.antt =====
-- A thread that waits long enough gets to the highest queue.
use phlox.Common.{ℕ, ◌*◌, ◌/◌, ◌<◌, ◌≤◌, ◌≡◌, true, if◌then◌else◌, arith, List, ◌∷◌, length, ◌∈◌}
use native.Mathlib.Nat.{le-div_iff_mul-le}
use phlox.Common.Int.{ℤ, pos, negsuc, ◌+ℤ◌, ◌-ℤ◌, ◌≤ℤ◌, ltb_ℤ, quot, int_laws}
use phlox.Scheduler.{Scheduler, Thread, ticks2msec}
use phlox.Scheduler.Timer.{waited_prio, shuffled_prio, shuffle_queue}
use phlox.Scheduler.Reschedule.{IsScheduler}
use phlox.Scheduler.Tick.{promote-in}

sum-high : (a b : ℤ) (q c : ℕ) → 127 ≤ q → pos 0 ≤ℤ a +ℤ b → pos 127 ≤ℤ a +ℤ pos q +ℤ pos c +ℤ b
sum-high a b q c le nonneg = omega (int_laws, le, nonneg)

cut-high : (x : ℤ) → pos 127 ≤ℤ x → (if ltb_ℤ (pos 127) x then pos 127 else x) ≡ pos 127
cut-high (pos n) le = ground (arith, le)
cut-high (negsuc n) le = absurd (omega arith)

-- A wait of 127 times the shuffle factor makes up for any priority.
waited_prio-high :
    (s : Scheduler) (t : Thread) (count w : ℕ)
    → ticks2msec s.sched_ticks -ℤ t.sched_stamp ≡ pos w
    → 0 < s.shuffle_factor
    → 127 * s.shuffle_factor ≤ w
    → pos 0 ≤ℤ t.s_prio +ℤ t.carrots_sticks
    → pos 127 ≤ℤ waited_prio s t count
unfolding waited_prio quot
waited_prio-high s t count w waited factor long le =
    let enough : 127 ≤ w / s.shuffle_factor = (le-div_iff_mul-le factor).1 long in
    rw waited (sum-high t.s_prio t.carrots_sticks (w / s.shuffle_factor) (count / 16) enough le)

-- In a consistent scheduler with a shuffle factor that is not 0, where the head of a queue below
-- the highest one has waited at least 127 times the shuffle factor in milliseconds and its static
-- priority and bonus are together not negative, a round of the shuffle at that queue puts it into
-- the highest queue.
pub shuffle_queue-highest :
    (s : Scheduler) (prio th : ℕ) (rest : List ℕ) (w : ℕ)
    → IsScheduler s
    → s.queue prio ≡ th ∷ rest
    → prio < 127
    → ticks2msec s.sched_ticks -ℤ (s.threads th).sched_stamp ≡ pos w
    → 0 < s.shuffle_factor
    → 127 * s.shuffle_factor ≤ w
    → pos 0 ≤ℤ (s.threads th).s_prio +ℤ (s.threads th).carrots_sticks
    → th ∈ (shuffle_queue s prio).queue 127
unfolding shuffle_queue shuffled_prio
shuffle_queue-highest s prio th rest w is e low waited factor long le =
    let count = length (th ∷ rest) in
    let there : th ∈ s.queue prio = rw e (ground arith) in
    let d = (is.run_queue.placed prio th there).1 in
    let high = waited_prio-high s (s.threads th) count w waited factor long le in
    let top = cut-high (waited_prio s (s.threads th) count) high in
    let up : ltb_ℤ (s.threads th).d_prio (pos 127) ≡ true = rw d (ground (arith, low)) in
    rw (e, shuffle_queue) (rw top (rw up (promote-in s prio th 127 rest is e (omega arith))))
