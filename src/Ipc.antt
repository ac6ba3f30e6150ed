-- ===== src/Ipc.antt =====
-- Message passing of process.c: `deadlock`, `schedule`, `msg_send` and `msg_receive`, with every
-- `assert` of the source. A process that blocks stays in the kernel until `schedule` has chosen
-- another one; the code after `block` runs at once, and the switch happens on the way out.
-- `rounds` bounds the two loops of `deadlock` and the walks along the queue of senders; how much
-- is enough is proved in the modules below. What `printx` writes is not modelled.
pub mod Deadlock
pub mod Phase
pub mod Send
pub mod Schedule
pub mod Queue
pub mod Consistent
pub mod Enqueued
pub mod MsgSend
pub mod Unlink
pub mod Receive
pub mod Dequeued
pub mod MsgReceive
pub mod Waiting
mod Tests
pub mod Acyclic
use simple_os.Base.{
  ℕ, zero, suc, ◌+◌, ◌-◌, ◌%◌, ◌^◌, Bool, true, false, ◌&&◌, ◌||◌, not, Option, none, some, ◌==◌,
  if◌then◌else◌, ltb, leb, bit_and, bit_or, is_some,
}
use simple_os.Base.Bits.{not32}
use simple_os.Kernel.{
  Kernel, Process, ProcTable, Message, Cmd, Run, ok, panic, fault, out_of_fuel, pure, ◌>>=◌, ◌>>◌,
  and_then, assert, proc, modify, copy_message, store_message, reset_msg, in_table, has, sending,
  receiving, free_slot, any, no_task, interrupt, nr_tasks, nr_procs, nr_native_procs, update,
}
use simple_os.Kernel.Segment.{seg_linear}

-- The address that a process means by `va`, which for the native processes is `va` itself.
unfoldable pub va2la : ℕ → ℕ → Cmd ℕ
va2la pid va = do
  p ← proc pid
  let la = (seg_linear p.ldt_data + va) % 2 ^ 32
  assert (not (ltb pid (nr_tasks + nr_native_procs)) || la == va)
  pure la

-- A pointer to `proc_table[p]` is followed: outside the table this is an access out of bounds.
abbrev pub in_bounds : ℕ → Cmd (Unit {0})
in_bounds p k = if in_table p then ok tt k else fault

-- The `while` of `deadlock`: from process `p`, does the chain of senders lead to `src`?
pub deadlock_loop : ℕ → ProcTable → ℕ → ℕ → Option Bool
deadlock_loop zero t src p = none
deadlock_loop (suc n) t src p =
    let rest = deadlock_loop n t src (t p).p_sendto in
    if has (t p).p_flags sending
    then (if (t p).p_sendto == src then some true else rest)
    else some false

-- The `do ... while` that prints the cycle.
pub print_loop : ℕ → ℕ → ℕ → Cmd (Unit {0})
print_loop zero src p = λ k. out_of_fuel
print_loop (suc n) src p = do
  q ← proc p
  assert (not (q.msg == 0))
  if q.p_sendto == src then pure tt else print_loop n src q.p_sendto

pub deadlock : ℕ → ℕ → ℕ → Cmd Bool
unfolding deadlock_loop print_loop
deadlock rounds src dest k = elim (deadlock_loop rounds k.proc_table src dest) [
  | none ↦ out_of_fuel
  | some false ↦ ok false k
  | some true ↦ (print_loop rounds src dest >> pure true) k
]

pub unblock : ℕ → Cmd (Unit {0})
unblock p = do q ← proc p; assert (q.p_flags == 0)

-- The next process in turn.
abbrev pub next_in_turn : ℕ → ℕ
next_in_turn p = if leb (nr_tasks + nr_procs) (p + 1) then 0 else p + 1

pub schedule_loop : ℕ → ProcTable → ℕ → Option ℕ
schedule_loop zero t p = none
schedule_loop (suc n) t p =
    let q = next_in_turn p in
    let rest = schedule_loop n t q in
    if (t q).p_flags == free_slot then rest else if (t q).p_flags == 0 then some q else rest

unfoldable pub schedule : ℕ → Cmd (Unit {0})
unfolding schedule_loop
schedule rounds k = elim (schedule_loop rounds k.proc_table k.ready_process) [
  | none ↦ out_of_fuel
  | some q ↦ ok tt (record k { ready_process = q })
]

pub block : ℕ → ℕ → Cmd (Unit {0})
unfolding schedule
block rounds p = do q ← proc p; assert (not (q.p_flags == 0)); schedule rounds

-- The walk to the last process of a queue.
pub last_in_queue : ℕ → ProcTable → ℕ → Option ℕ
last_in_queue zero t p = none
last_in_queue (suc n) t p = elim (t p).next_sending [ none ↦ some p | some q ↦ last_in_queue n t q ]

-- Appends `sender` to the queue of `dest`.
pub enqueue : ℕ → ℕ → ℕ → Cmd (Unit {0})
unfolding last_in_queue
enqueue rounds dest sender k = elim (k.proc_table dest).q_sending [
  | none ↦ modify dest (λ p. record p { q_sending = some sender }) k
  | some head ↦ elim (last_in_queue rounds k.proc_table head) [
    | none ↦ out_of_fuel
    | some last ↦ modify last (λ p. record p { next_sending = some sender }) k
  ]
]

-- The branch of `msg_send` for a receiver that is waiting for this message.
pub deliver : ℕ → ℕ → ℕ → Cmd (Unit {0})
unfolding va2la unblock
deliver sender dest m = do
  p_dest ← proc dest
  assert (not (p_dest.msg == 0))
  assert (not (m == 0))
  to ← va2la dest p_dest.msg
  from ← va2la sender m
  copy_message to from
  modify dest (λ p. record p {
    msg = 0;
    p_flags = bit_and p.p_flags (not32 receiving);
    p_recvfrom = no_task;
  })
  unblock dest
  d ← proc dest
  assert (d.p_flags == 0)
  assert (d.msg == 0)
  assert (d.p_recvfrom == no_task)
  assert (d.p_sendto == no_task)
  s ← proc sender
  assert (s.p_flags == 0)
  assert (s.msg == 0)
  assert (s.p_recvfrom == no_task)
  assert (s.p_sendto == no_task)

-- The branch of `msg_send` for a receiver that is not, in its four parts.
pub mark_sending : ℕ → ℕ → ℕ → Cmd (Unit {0})
mark_sending sender dest m = do
  modify sender (λ p. record p { p_flags = bit_or p.p_flags sending })
  s ← proc sender
  assert (s.p_flags == sending)
  modify sender (λ p. record p { p_sendto = dest; msg = m })

pub append_sender : ℕ → ℕ → ℕ → Cmd (Unit {0})
unfolding enqueue
append_sender rounds sender dest = do
  enqueue rounds dest sender
  modify sender (λ p. record p { next_sending = none })

pub assert_sent : ℕ → ℕ → Cmd (Unit {0})
assert_sent sender dest = do
  b ← proc sender
  assert (b.p_flags == sending)
  assert (not (b.msg == 0))
  assert (b.p_recvfrom == no_task)
  assert (b.p_sendto == dest)

pub wait_to_send : ℕ → ℕ → ℕ → ℕ → Cmd (Unit {0})
unfolding mark_sending append_sender block assert_sent
wait_to_send rounds sender dest m = do
  mark_sending sender dest m
  append_sender rounds sender dest
  block rounds sender
  assert_sent sender dest

-- Is `dest` waiting for a message from `sender`?
abbrev pub accepts : Process → ℕ → Bool
accepts p_dest sender =
    has p_dest.p_flags receiving && (p_dest.p_recvfrom == sender || p_dest.p_recvfrom == any)

unfoldable pub msg_send : ℕ → ℕ → ℕ → ℕ → Cmd ℕ
unfolding deadlock deliver wait_to_send
msg_send rounds sender dest m = do
  assert (not (sender == dest))
  in_bounds dest
  dead ← deadlock rounds sender dest
  assert (not dead)
  p_dest ← proc dest
  (if accepts p_dest sender then deliver sender dest m else wait_to_send rounds sender dest m)
  pure 0

-- The branch of `msg_receive` for a pending interrupt.
pub receive_interrupt : ℕ → ℕ → Cmd (Unit {0})
unfolding va2la
receive_interrupt me m = do
  assert (not (m == 0))
  to ← va2la me m
  store_message to (record reset_msg { source = interrupt; type = 1 })
  modify me (λ p. record p { has_int_msg = 0 })
  w ← proc me
  assert (w.p_flags == 0)
  assert (w.msg == 0)
  assert (w.p_sendto == no_task)
  assert (w.has_int_msg == 0)

-- What is asserted when process `from` is about to hand its message to `me`.
pub assert_handover : ℕ → ℕ → Cmd (Unit {0})
assert_handover me from = do
  w ← proc me
  assert (w.p_flags == 0)
  assert (w.msg == 0)
  assert (w.p_recvfrom == no_task)
  assert (w.p_sendto == no_task)
  assert (is_some w.q_sending)
  f ← proc from
  assert (f.p_flags == sending)
  assert (not (f.msg == 0))
  assert (f.p_recvfrom == no_task)
  assert (f.p_sendto == me)

-- The walk along the queue to process `src`: what stands before it, if anything. The second
-- component of the answer is `prev`.
pub find_in_queue : ℕ → ProcTable → ℕ → Option ℕ → Option ℕ → Option (Option ℕ)
find_in_queue zero t src p prev = none
find_in_queue (suc n) t src none prev = some prev
find_in_queue (suc n) t src (some p) prev =
    let rest = find_in_queue n t src (t p).next_sending (some p) in
    if p == src then some prev else rest

-- Is this pointer the head of the queue?
abbrev pub is_head : ℕ → Option ℕ → Bool
is_head from none = false
is_head from (some q) = from == q

-- The two cases of `unlink`.
pub unlink_head : ℕ → Option ℕ → Option ℕ → Cmd (Unit {0})
unlink_head me prev next = do
  assert (not (is_some prev))
  modify me (λ p. record p { q_sending = next })

pub unlink_inner : Option ℕ → Option ℕ → Cmd (Unit {0})
unlink_inner none next = λ k. panic
unlink_inner (some q) next = modify q (λ p. record p { next_sending = next })

-- Takes `from` out of the queue of `me`.
pub unlink : ℕ → ℕ → Option ℕ → Cmd (Unit {0})
unfolding unlink_head unlink_inner
unlink me from prev = do
  w ← proc me
  f ← proc from
  if is_head from w.q_sending
      then unlink_head me prev f.next_sending
      else unlink_inner prev f.next_sending
  modify from (λ p. record p { next_sending = none })

-- The branch of `msg_receive` that copies the message of `from`.
pub take_message : ℕ → ℕ → Option ℕ → ℕ → Cmd (Unit {0})
unfolding unlink va2la unblock
take_message me from prev m = do
  unlink me from prev
  assert (not (m == 0))
  f ← proc from
  assert (not (f.msg == 0))
  to ← va2la me m
  src ← va2la from f.msg
  copy_message to src
  modify from
      (λ p. record p { msg = 0; p_sendto = no_task; p_flags = bit_and p.p_flags (not32 sending) })
  unblock from

-- The branch of `msg_receive` that waits: `from` is `ANY` or the process that is waited for.
pub wait_to_receive : ℕ → ℕ → ℕ → ℕ → Cmd (Unit {0})
unfolding block
wait_to_receive rounds me from m = do
  modify me (λ p. record p { p_flags = bit_or p.p_flags receiving; msg = m; p_recvfrom = from })
  block rounds me
  w ← proc me
  assert (w.p_flags == receiving)
  assert (not (w.msg == 0))
  assert (not (w.p_recvfrom == no_task))
  assert (w.p_sendto == no_task)
  assert (w.has_int_msg == 0)

-- `msg_receive` with `src == ANY`.
pub receive_any : ℕ → ℕ → ℕ → Cmd (Unit {0})
unfolding assert_handover take_message wait_to_receive
receive_any rounds me m k = elim (k.proc_table me).q_sending [
  | none ↦ wait_to_receive rounds me any m k
  | some from ↦ (assert_handover me from >> take_message me from none m) k
]

-- `prev`, as the walk finds it.
pub find_prev : ℕ → ℕ → Option ℕ → Cmd (Option ℕ)
unfolding find_in_queue
find_prev rounds src head k = elim (find_in_queue rounds k.proc_table src head none) [
  | none ↦ out_of_fuel
  | some prev ↦ ok prev k
]

-- `msg_receive` from a process `src` that is blocked on a message to `me`.
pub receive_queued : ℕ → ℕ → ℕ → ℕ → Cmd (Unit {0})
unfolding assert_handover take_message find_prev
receive_queued rounds me src m = do
  w ← proc me
  assert (is_some w.q_sending)
  prev ← find_prev rounds src w.q_sending
  assert_handover me src
  take_message me src prev m

-- `msg_receive` with one process as `src`.
pub receive_from : ℕ → ℕ → ℕ → ℕ → Cmd (Unit {0})
unfolding receive_queued wait_to_receive
receive_from rounds me src m = do
  in_bounds src
  from ← proc src
  if has from.p_flags sending && from.p_sendto == me
      then receive_queued rounds me src m
      else wait_to_receive rounds me src m

unfoldable pub msg_receive : ℕ → ℕ → ℕ → ℕ → Cmd ℕ
unfolding receive_interrupt receive_any receive_from
msg_receive rounds me src m = do
  assert (not (me == src))
  w ← proc me
  (if not (w.has_int_msg == 0) && (src == any || src == interrupt)
      then receive_interrupt me m
      else if src == any
      then receive_any rounds me m
      else receive_from rounds me src m)
  pure 0
