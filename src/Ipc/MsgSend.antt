-- ===== src/Ipc/MsgSend.antt =====
-- `msg_send` as a whole: what it returns and leaves behind on each of its branches.
use simple_os.Base.{
  ℕ, ==_iff, zero, suc, ◌+◌, ◌<◌, ◌≡◌, ◌≢◌, refl, Bool, true, false, ◌⊎◌, inl, inr, arith,
  Bool-cases, List, [], ◌∷◌, ◌++◌, some, ◌==◌, ◌↔◌,
}
use simple_os.Kernel.{Kernel, ok, panic, any, nr_tasks, nr_procs, Run}
use simple_os.Ipc.{deadlock_loop, deadlock, print_loop, wait_to_send, accepts, msg_send}
use simple_os.Ipc.Phase.{IsReady, IsSending, IsReceiving, SameCall, Addressable}
use simple_os.Ipc.Deadlock.{Reaches, IsAcyclic, deadlock_loop-total}
use simple_os.Ipc.Queue.{Links-length}
use simple_os.Ipc.Enqueued.{
  sender_outside, sender_sends, others_same, IsQueue-dest, queued-IsConsistent,
}
use simple_os.Ipc.Consistent.{IsQueue, IsConsistent, IsConsistent-same}
use simple_os.Ipc.Send.{delivered, deliver-delivered, queued, wait_to_send-queued, queued-msg}
use simple_os.Ipc.Schedule.{schedule_loop-total}

-- If `dest` waits for a message from `sender` or from anyone, `msg_send` copies the message into
-- the buffer of `dest`, makes `dest` ready and changes nothing else. It returns 0, and no `assert`
-- fails.
pub msg_send-delivered :
    (k : Kernel) (sender dest m src : ℕ)
    → IsReady (k.proc_table sender)
    → IsReceiving (k.proc_table dest) src
    → (src ≡ sender) ⊎ (src ≡ any)
    → m ≢ 0
    → sender ≢ dest
    → dest < nr_tasks + nr_procs
    → Addressable k sender m
    → Addressable k dest (k.proc_table dest).msg
    → msg_send (nr_tasks + nr_procs) sender dest m k ≡ ok 0 (delivered k sender dest m)
unfolding msg_send deadlock deadlock_loop
msg_send-delivered k sender dest m src ready r who hm ne hd av ad =
    ground (arith, deliver-delivered k sender dest m ready r hm ne av ad)

-- The message arrives: the receiver is ready, and its buffer holds the sender's message.
pub delivered-IsReady :
    (k : Kernel) (sender dest m src : ℕ)
    → IsReceiving (k.proc_table dest) src
    → IsReady ((delivered k sender dest m).proc_table dest)
delivered-IsReady k sender dest m src r = ground arith

-- Handing a message over keeps the invariant of message passing.
pub delivered-IsConsistent :
    (k : Kernel) (sender dest m src : ℕ)
    → IsReceiving (k.proc_table dest) src
    → IsConsistent k.proc_table
    → IsConsistent (delivered k sender dest m).proc_table
delivered-IsConsistent k sender dest m src r = IsConsistent-same (record {
  blocked = λ q. ground arith;
  to = λ q b. ground arith;
  head = λ q. ground arith;
  next = λ q. ground arith;
})

-- What the loop that prints a cycle ends with.
abbrev Stops : Kernel → Run (Unit {0}) → Type 0
Stops k r = (r ≡ ok tt k) ⊎ (r ≡ panic)

print_loop-Stops :
    (rounds src p : ℕ) (k : Kernel)
    → deadlock_loop rounds k.proc_table src p ≡ some true
    → Stops k (print_loop rounds src p k)
unfolding deadlock_loop print_loop
print_loop-Stops zero src p k e = cc
print_loop-Stops (suc n) src p k e = elim (Bool-cases ((k.proc_table p).msg == 0)) [
  | inl no_msg ↦ inr (ground arith)
  | inr msg ↦ elim (Bool-cases ((k.proc_table p).p_sendto == src)) [
    | inl there ↦ inl (ground arith)
    | inr on ↦ rw (msg, on) (print_loop-Stops n src (k.proc_table p).p_sendto k (ground arith))
  ]
]

-- If the chain of blocked senders from `dest` leads back to `sender`, `msg_send` panics and sends
-- nothing.
pub msg_send-deadlock :
    (k : Kernel) (sender dest m : ℕ)
    → IsAcyclic k.proc_table
    → Reaches k.proc_table sender dest
    → sender ≢ dest
    → dest < nr_tasks + nr_procs
    → msg_send (nr_tasks + nr_procs) sender dest m k ≡ panic
unfolding msg_send deadlock
msg_send-deadlock k sender dest m a r ne hd =
    let (answer, found, exact) = deadlock_loop-total k.proc_table sender dest a hd in
    let yes_answer = exact.1 r in
    ground (arith, print_loop-Stops (nr_tasks + nr_procs) sender dest k)

-- What the state looks like after `sender` has been blocked on the message at `m` to `dest`, whose
-- queue was `xs`.
pub record Blocks (k : Kernel) (sender dest m : ℕ) (xs : List ℕ) (k' : Kernel) : Type 0 where
  pub is_sending : IsSending (k'.proc_table sender) dest
  pub holds : (k'.proc_table sender).msg ≡ m
  pub queue : IsQueue k'.proc_table dest (xs ++ (sender ∷ []))
  pub consistent : IsConsistent k'.proc_table
  pub others : (q : ℕ) → (q ≡ sender) ⊎ SameCall (k.proc_table q) (k'.proc_table q)
  pub memory : k'.mem ≡ k.mem
  pub turn : (k'.proc_table k'.ready_process).p_flags ≡ 0

no_deadlock :
    (k : Kernel) (s d : ℕ)
    → IsAcyclic k.proc_table
    → d < nr_tasks + nr_procs
    → ¬ Reaches k.proc_table s d
    → deadlock (nr_tasks + nr_procs) s d k ≡ ok false k
unfolding deadlock
no_deadlock k s d a hd safe = answers (deadlock_loop-total k.proc_table s d a hd)
  where
    answers :
        (answer : Bool) × (deadlock_loop (nr_tasks + nr_procs) k.proc_table s d ≡ some answer)
          × ((answer ≡ true) ↔ Reaches k.proc_table s d)
        → deadlock (nr_tasks + nr_procs) s d k ≡ ok false k
    answers (true, found, exact) = absurd (safe (exact.0 refl))
    answers (false, found, exact) = rw (found, deadlock)

msg_send-wait_to_send :
    (k k' : Kernel) (rounds s d m : ℕ)
    → s ≢ d
    → d < nr_tasks + nr_procs
    → deadlock rounds s d k ≡ ok false k
    → accepts (k.proc_table d) s ≡ false
    → wait_to_send rounds s d m k ≡ ok tt k'
    → msg_send rounds s d m k ≡ ok 0 k'
unfolding msg_send
msg_send-wait_to_send k k' rounds s d m ne hd alive refuses sent = ground arith

-- If `dest` does not wait for `sender` and waiting for it closes no cycle, `msg_send` returns 0 with
-- the sender blocked at the end of the queue of `dest`; no other process changes what it is
-- doing, no message is copied, the invariant still holds, and a process that may run has been
-- chosen. It is enough that some other process `r` may run.
pub msg_send-Blocks :
    (k : Kernel) (sender dest m r : ℕ) {xs : List ℕ}
    → IsReady (k.proc_table sender)
    → accepts (k.proc_table dest) sender ≡ false
    → ¬ Reaches k.proc_table sender dest
    → IsConsistent k.proc_table
    → IsQueue k.proc_table dest xs
    → m ≢ 0
    → sender ≢ dest
    → sender < nr_tasks + nr_procs
    → dest < nr_tasks + nr_procs
    → k.ready_process < nr_tasks + nr_procs
    → r < nr_tasks + nr_procs
    → r ≢ sender
    → (k.proc_table r).p_flags ≡ 0
    → (k' : Kernel) × (msg_send (nr_tasks + nr_procs) sender dest m k ≡ ok 0 k')
      × Blocks k sender dest m xs k'
msg_send-Blocks k s d m r {xs} ready refuses safe c queue hm ne hs hd hready hr other free =
    let t' = queued k.proc_table s d m xs in
    let out = sender_outside k s d m xs ready ne hm hs queue in
    let same = others_same k s d m xs ready ne hm hs queue in
    let (q, found, inside, flags, near) =
      schedule_loop-total t' k.ready_process r hready hr (rw (same r other).flags free) in
    (
      record k { proc_table = t'; ready_process = q },
      msg_send-wait_to_send k _ (nr_tasks + nr_procs) s d m ne hd
          (no_deadlock k s d c.acyclic hd safe) refuses
          (wait_to_send-queued k s d m xs ready ne out (nr_tasks + nr_procs) q hm queue.links
            (Links-length (nr_tasks + nr_procs) queue.links queue.inside) found),
      record {
        is_sending = sender_sends k s d m xs ready ne hm hs queue;
        holds = queued-msg k s d m xs ready ne out;
        queue = IsQueue-dest k s d m xs ready ne hm hs queue;
        consistent = queued-IsConsistent k s d m xs ready ne hm hs queue hd safe c;
        others = λ p. elim (Bool-cases (p == s)) [
          | inl here ↦ inl ((==_iff p s).0 here)
          | inr off ↦ inr (same p (ground arith))
        ];
        memory = refl;
        turn = flags;
      },
    )
