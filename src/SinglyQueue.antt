-- ===== src/SinglyQueue.antt =====
-- phlox/kernel/util/queue.c: the singly linked queue `queue_t`. An element is the address of a
-- `queue_elem_t`, and 0 is NULL; the `next` fields of all elements are a function on addresses. A
-- routine returns the state after it; one whose result is the constant 1 returns the state alone.
pub mod Refines
pub mod Remove
mod Examples
use phlox.Common.{
  ℕ, zero, suc, ◌+◌, Bool, true, false, Option, none, some, ◌==◌, if◌then◌else◌, inc32, dec32,
}
use phlox.Common.Chains.{null, link}

pub record Queue : Type 0 where
  pub head : ℕ
  pub tail : ℕ
  pub count : ℕ
  pub next : ℕ → ℕ

pub queue_init : Queue → Queue
queue_init q = record q { head = null; tail = null; count = 0 }

pub queue_elem_init : Queue → ℕ → Queue
queue_elem_init q e = record q { next = link q.next e null }

-- The body under `if(temp == e)` of `queue_remove`.
pub unlink : Queue → (last temp e : ℕ) → Queue
unlink q last temp e =
    let q1 : Queue =
      if last == null
      then record q { head = q.next temp }
      else record q { next = link q.next last (q.next temp) } in
    let q2 : Queue = if q1.tail == temp then record q1 { tail = last } else q1 in
    record q2 { count = dec32 q2.count; next = link q2.next e null }

-- The loop of `queue_remove` from `temp` on, on fuel; the Boolean is the result.
pub remove_from : ℕ → Queue → (last temp e : ℕ) → Option (Bool × Queue)
remove_from zero q last temp e = none
remove_from (suc n) q last temp e =
    let rest = remove_from n q temp (q.next temp) e in
    if temp == null
    then some (false, q)
    else if temp == e
    then some (true, unlink q last temp e)
    else rest

pub queue_remove : Queue → ℕ → Option (Bool × Queue)
queue_remove q e = remove_from (q.count + 1) q null q.head e

pub queue_enqueue : Queue → ℕ → Queue
queue_enqueue q e =
    let q1 : Queue =
      if q.tail == null
      then record q { tail = e; head = e }
      else record q { next = link q.next q.tail e; tail = e } in
    record q1 { next = link q1.next e null; count = inc32 q1.count }

pub queue_dequeue : Queue → ℕ × Queue
queue_dequeue q =
    let e = q.head in
    let q1 : Queue = if e == null then q else record q { head = q.next e } in
    let q2 : Queue = if q1.tail == e then record q1 { tail = null } else q1 in
    (e, if e == null then q2 else record q2 { count = dec32 q2.count })

pub queue_peek : Queue → ℕ
queue_peek q = q.head

pub queue_isempty : Queue → Bool
queue_isempty q = q.count == 0
