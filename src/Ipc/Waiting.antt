-- ===== src/Ipc/Waiting.antt =====
-- `msg_receive` when there is no message to take: a pending interrupt is turned into a message,
-- and otherwise the receiver is blocked until a message arrives.
use simple_os.Base.{
  ℕ, ◌+◌, ◌<◌, ◌≡◌, ◌≢◌, refl, false, ◌&&◌, ◌⊎◌, inl, inr, arith, ==_iff, Bool-cases, none, some,
  ◌==◌,
}
use simple_os.Kernel.{
  Kernel, ok, ProcTable, has, update, sending, receiving, any, interrupt, nr_tasks, nr_procs,
  reset_msg, no_task,
}
use simple_os.Ipc.{
  receive_from, receive_any, receive_interrupt, wait_to_receive, msg_receive, block, schedule,
  schedule_loop,
}
use simple_os.Ipc.Phase.{IsReady, IsReceiving, linear, Addressable}
use simple_os.Ipc.Send.{va2la_lem}
use simple_os.Ipc.Schedule.{schedule_loop-total}
use simple_os.Ipc.Consistent.{IsConsistent, SameWaits, IsConsistent-same}
use simple_os.Ipc.MsgReceive.{msg_receive-from, msg_receive-receive_any}

-- A hardware interrupt that is pending for `me` reaches a `msg_receive` from anyone or from
-- INTERRUPT as a message of type HARD_INT, and is pending no longer. Nothing else changes, also if
-- processes are blocked on messages to `me`.
pub msg_receive-interrupt :
    (k : Kernel) (rounds me src m : ℕ)
    → IsReady (k.proc_table me)
    → (k.proc_table me).has_int_msg ≢ 0
    → (src ≡ any) ⊎ (src ≡ interrupt)
    → me < nr_tasks + nr_procs
    → m ≢ 0
    → Addressable k me m
    → msg_receive rounds me src m k
      ≡ ok 0 (record k {
        mem = update k.mem (linear k me m) (record reset_msg { source = interrupt; type = 1 });
        proc_table = update k.proc_table me (record (k.proc_table me) { has_int_msg = 0 });
      })
unfolding msg_receive receive_interrupt
msg_receive-interrupt k rounds me src m ready pending who hme hm av =
    ground (arith, va2la_lem k me m av)

-- The table after `me` has been blocked until a message from `from` arrives at `m`.
abbrev pub listening : ProcTable → ℕ → ℕ → ℕ → ProcTable
listening t me from m =
    update t me (record (t me) { p_flags = receiving; msg = m; p_recvfrom = from })

listening-SameWaits :
    (t : ProcTable) (me from m : ℕ) → IsReady (t me) → SameWaits t (listening t me from m)
listening-SameWaits t me from m ready = record {
  blocked = λ q. ground (arith, ready.flags);
  to = λ q b. ground arith;
  head = λ q. ground arith;
  next = λ q. ground arith;
}

wait_to_receive-listening :
    (k : Kernel) (rounds me from m q : ℕ)
    → IsReady (k.proc_table me)
    → (k.proc_table me).has_int_msg ≡ 0
    → m ≢ 0
    → from ≢ no_task
    → schedule_loop rounds (listening k.proc_table me from m) k.ready_process ≡ some q
    → wait_to_receive rounds me from m k
      ≡ ok tt (record k { proc_table = listening k.proc_table me from m; ready_process = q })
unfolding wait_to_receive block schedule
wait_to_receive-listening k rounds me from m q ready quiet hm hf found =
    rw ready.flags (ground (arith, found))

-- Nothing to take: the queue is empty, or process `src` is not blocked on a message to `me`.
abbrev pub Nothing : ProcTable → ℕ → ℕ → Type 0
Nothing t me src =
    ((src ≡ any) × ((t me).q_sending ≡ none))
    ⊎ ((src < nr_tasks + nr_procs)
        × ((has (t src).p_flags sending && (t src).p_sendto == me) ≡ false))

-- The state after `me` has been blocked until a message from `src` arrives at `m`.
pub record Waits (k : Kernel) (me src m : ℕ) (k' : Kernel) : Type 0 where
  pub is_receiving : IsReceiving (k'.proc_table me) src
  pub buffer : (k'.proc_table me).msg ≡ m
  pub consistent : IsConsistent k'.proc_table
  pub others : (q : ℕ) → (q ≡ me) ⊎ (k'.proc_table q ≡ k.proc_table q)
  pub memory : k'.mem ≡ k.mem
  pub space : (k'.proc_table me).ldt_data ≡ (k.proc_table me).ldt_data
  pub turn : (k'.proc_table k'.ready_process).p_flags ≡ 0

module _ (k k' : Kernel) (rounds me src m : ℕ) (hme : me < nr_tasks + nr_procs) (ne : me ≢ src)
    (quiet : (k.proc_table me).has_int_msg ≡ 0)
    (waits : wait_to_receive rounds me src m k ≡ ok tt k') where
  receive_from-waits :
      src < nr_tasks + nr_procs
      → (has (k.proc_table src).p_flags sending && (k.proc_table src).p_sendto == me) ≡ false
      → msg_receive rounds me src m k ≡ ok 0 k'
  unfolding receive_from
  receive_from-waits h off = msg_receive-from k k' rounds me src m ne h (ground arith)

  receive_any-waits :
      src ≡ any → (k.proc_table me).q_sending ≡ none → msg_receive rounds me src m k ≡ ok 0 k'
  unfolding receive_any
  receive_any-waits e empty =
      rw e (msg_receive-receive_any k k' rounds me m hme quiet (ground arith))

  msg_receive-waits : Nothing k.proc_table me src → msg_receive rounds me src m k ≡ ok 0 k'
  msg_receive-waits (inl (e, empty)) = receive_any-waits e empty
  msg_receive-waits (inr (h, off)) = receive_from-waits h off

-- If there is no message to take and no interrupt pending, `msg_receive` returns 0 with `me`
-- blocked until a message from `src` (or anyone) arrives; every other process is as it was, no
-- message is copied, the invariant still holds, and a process that may run has been chosen. It is
-- enough that some other process `r` may run.
pub msg_receive-Waits :
    (k : Kernel) (me src m r : ℕ)
    → IsReady (k.proc_table me)
    → (k.proc_table me).has_int_msg ≡ 0
    → Nothing k.proc_table me src
    → IsConsistent k.proc_table
    → m ≢ 0
    → me < nr_tasks + nr_procs
    → me ≢ src
    → k.ready_process < nr_tasks + nr_procs
    → r < nr_tasks + nr_procs
    → r ≢ me
    → (k.proc_table r).p_flags ≡ 0
    → (k' : Kernel) × (msg_receive (nr_tasks + nr_procs) me src m k ≡ ok 0 k') × Waits k me src m k'
msg_receive-Waits k me src m r ready quiet nothing c hm hme ne hready hr other free =
    let t' = listening k.proc_table me src m in
    let (q, found, inside, flags, near) =
      schedule_loop-total t' k.ready_process r hready hr (ground arith) in
    (
      record k { proc_table = t'; ready_process = q },
      msg_receive-waits k _ (nr_tasks + nr_procs) me src m hme ne quiet
          (wait_to_receive-listening k (nr_tasks + nr_procs) me src m q ready quiet hm
            (ground arith) found)
          nothing,
      record {
        is_receiving = ground arith;
        buffer = ground arith;
        consistent = IsConsistent-same (listening-SameWaits k.proc_table me src m ready) c;
        others = λ q. elim (Bool-cases (q == me)) [
          | inl here ↦ inl ((==_iff q me).0 here)
          | inr off ↦ inr (ground arith)
        ];
        memory = refl;
        space = ground arith;
        turn = flags;
      },
    )
