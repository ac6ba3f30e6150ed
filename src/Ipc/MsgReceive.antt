-- ===== src/Ipc/MsgReceive.antt =====
-- `msg_receive` as a whole: what it returns and leaves behind on each of its branches.
use simple_os.Base.{
  ℕ, zero, suc, ◌+◌, ◌<◌, ◌≤◌, ◌≡◌, ◌≢◌, refl, true, not, ◌⊎◌, inl, inr, arith, ==_iff, Bool-cases,
  List, ◌∷◌, none, some, Option, length, ◌==◌, is_some,
}
use simple_os.Kernel.{Kernel, ok, ProcTable, has, update, sending, any, no_task, nr_tasks, nr_procs}
use simple_os.Ipc.{
  is_head, find_in_queue, find_prev, assert_handover, take_message, receive_queued, receive_from,
  receive_any, msg_receive,
}
use simple_os.Ipc.Phase.{IsReady, IsSending, linear, Addressable}
use simple_os.Ipc.Queue.{mem, Links, nil, cons, Links-length}
use simple_os.Ipc.Unlink.{erase, find_in_queue-before}
use simple_os.Ipc.Consistent.{IsQueue, IsConsistent}
use simple_os.Ipc.Receive.{received, take_message-received}
use simple_os.Ipc.Dequeued.{
  previous, taken-links, taken-sender, taken-IsReady, IsQueue-erase, taken-IsConsistent,
}

-- What the state looks like after `me` has taken the message of `src` into its buffer at `m`, when
-- its queue was `xs`.
pub record Receives (k : Kernel) (me src m : ℕ) (xs : List ℕ) (k' : Kernel) : Type 0 where
  pub memory : k'.mem ≡ update k.mem (linear k me m) (k.mem (linear k src (k.proc_table src).msg))
  pub let_go : IsReady (k'.proc_table src)
  pub queue : IsQueue k'.proc_table me (erase src xs)
  pub consistent : IsConsistent k'.proc_table
  pub sender :
      k'.proc_table src
      ≡ record (k.proc_table src) { msg = 0; p_sendto = no_task; p_flags = 0; next_sending = none }
  pub others :
      (q : ℕ)
      → (q ≡ src)
        ⊎ (k'.proc_table q ≡ record (k.proc_table q) {
          q_sending = (k'.proc_table q).q_sending;
          next_sending = (k'.proc_table q).next_sending;
        })
  pub turn : k'.ready_process ≡ k.ready_process

received-Receives :
    (k : Kernel) (me src m : ℕ) (xs : List ℕ)
    → IsQueue k.proc_table me xs
    → mem src xs ≡ true
    → me ≢ src
    → IsSending (k.proc_table src) me
    → IsConsistent k.proc_table
    → Receives k me src m xs (received k me src (previous src xs) m)
received-Receives k me src m xs queue i ne sends c = record {
  memory = refl;
  let_go = taken-IsReady k.proc_table me src (previous src xs) sends;
  queue = IsQueue-erase k.proc_table me src xs queue i ne sends;
  consistent = taken-IsConsistent k.proc_table me src xs queue i ne sends c;
  sender = taken-sender k.proc_table me src (previous src xs) ne;
  others = λ q. elim (Bool-cases (q == src)) [
    | inl here ↦ inl ((==_iff q src).0 here)
    | inr off ↦ inr (taken-links k.proc_table me src (previous src xs) q (ground arith))
  ];
  turn = refl;
}

previous_fits :
    {t : ProcTable} {h : Option ℕ} {xs : List ℕ} (src : ℕ)
    → Links t h xs
    → mem src xs ≡ true
    → (is_head src h ≡ not (is_some (previous src xs))) × (is_some h ≡ true)
previous_fits src nil i = absurd (cc)
previous_fits src (cons {p} {xs} out l) i = ground arith

find_in_queue-previous :
    {t : ProcTable} {h : Option ℕ} {xs : List ℕ} (rounds src : ℕ)
    → Links t h xs
    → mem src xs ≡ true
    → length xs ≤ rounds
    → find_in_queue rounds t src h none ≡ some (previous src xs)
unfolding find_in_queue
find_in_queue-previous rounds src nil i fits = absurd (cc)
find_in_queue-previous zero src (cons out l) i fits = absurd (omega arith)
find_in_queue-previous (suc n) src (cons {p = x} {xs} out l) i fits = elim (Bool-cases (x == src)) [
  | inl here ↦ ground arith
  | inr on ↦ ground (arith, find_in_queue-before n src x l (ground arith) (omega arith))
]

module _ (k : Kernel) (me src : ℕ) (ready : IsReady (k.proc_table me))
    (sends : IsSending (k.proc_table src) me)
    (head : is_some (k.proc_table me).q_sending ≡ true) where
  assert_handover-ok : assert_handover me src k ≡ ok tt k
  unfolding assert_handover
  assert_handover-ok = ground arith

-- The branches of `msg_receive`, each from what its last part does.
module _ (k k' : Kernel) (rounds me src m : ℕ) where
  receive_from-queued :
      src < nr_tasks + nr_procs
      → has (k.proc_table src).p_flags sending ≡ true
      → (k.proc_table src).p_sendto ≡ me
      → receive_queued rounds me src m k ≡ ok tt k'
      → receive_from rounds me src m k ≡ ok tt k'
  unfolding receive_from
  receive_from-queued h b to e = ground arith

  pub msg_receive-from :
      me ≢ src
      → src < nr_tasks + nr_procs
      → receive_from rounds me src m k ≡ ok tt k'
      → msg_receive rounds me src m k ≡ ok 0 k'
  unfolding msg_receive
  msg_receive-from ne h e = ground arith

  receive_any-head :
      (prev : Option ℕ)
      → (k.proc_table me).q_sending ≡ some src
      → assert_handover me src k ≡ ok tt k
      → prev ≡ none
      → take_message me src prev m k ≡ ok tt k'
      → receive_any rounds me m k ≡ ok tt k'
  unfolding receive_any
  receive_any-head prev head over first e =
      let e' : take_message me src none m k ≡ ok tt k' = rw first at e in ground arith

pub msg_receive-receive_any :
    (k k' : Kernel) (rounds me m : ℕ)
    → me < nr_tasks + nr_procs
    → (k.proc_table me).has_int_msg ≡ 0
    → receive_any rounds me m k ≡ ok tt k'
    → msg_receive rounds me any m k ≡ ok 0 k'
unfolding msg_receive
msg_receive-receive_any k k' rounds me m h quiet e = ground arith

Links-head : {t : ProcTable} {h : Option ℕ} {x : ℕ} {xs : List ℕ} → Links t h (x ∷ xs) → h ≡ some x
Links-head (cons out l) = refl

module _ (k : Kernel) (me src m : ℕ) {xs : List ℕ} (ready : IsReady (k.proc_table me))
    (queue : IsQueue k.proc_table me xs) (i : mem src xs ≡ true)
    (sends : IsSending (k.proc_table src) me) (hm : m ≢ 0) (av : Addressable k me m)
    (from : Addressable k src (k.proc_table src).msg) where
  took : take_message me src (previous src xs) m k ≡ ok tt (received k me src (previous src xs) m)
  took =
      take_message-received k me src (previous src xs) (previous_fits src queue.links i).0 m sends
        hm av from

  handed_over : assert_handover me src k ≡ ok tt k
  handed_over = assert_handover-ok k me src ready sends (previous_fits src queue.links i).1

  find_prev-previous :
      find_prev (nr_tasks + nr_procs) src (k.proc_table me).q_sending k ≡ ok (previous src xs) k
  unfolding find_prev
  find_prev-previous = rw (
    find_in_queue-previous (nr_tasks + nr_procs) src queue.links i
        (Links-length (nr_tasks + nr_procs) queue.links queue.inside),
    find_prev,
  )

  receive_queued-received :
      receive_queued (nr_tasks + nr_procs) me src m k
      ≡ ok tt (received k me src (previous src xs) m)
  unfolding receive_queued
  receive_queued-received =
      rw ((previous_fits src queue.links i).1, find_prev-previous, handed_over, took)

-- If process `src` is blocked on a message to `me`, wherever it stands in the queue of `me`, a
-- `msg_receive` from `src` by the ready process `me` returns 0 with the message copied to the
-- address `m`. `src` is ready and out of the queue, and nothing else in its entry has changed; no
-- other process changes but for the links of the queues, where the queue of `me` is that without
-- `src`; the invariant is kept. No `assert` fails. This is under the invariant of message passing,
-- with `m` not null, and with both messages where `va2la` accepts them.
pub msg_receive-Receives :
    (k : Kernel) (me src m : ℕ) {xs : List ℕ}
    → IsReady (k.proc_table me)
    → IsQueue k.proc_table me xs
    → mem src xs ≡ true
    → IsSending (k.proc_table src) me
    → IsConsistent k.proc_table
    → m ≢ 0
    → me ≢ src
    → Addressable k me m
    → Addressable k src (k.proc_table src).msg
    → (k' : Kernel) × (msg_receive (nr_tasks + nr_procs) me src m k ≡ ok 0 k')
      × Receives k me src m xs k'
msg_receive-Receives k me src m {xs} ready queue i sends c hm ne av from = (
  received k me src (previous src xs) m,
  msg_receive-from k _ (nr_tasks + nr_procs) me src m ne (queue.inside src i) (
      receive_from-queued k _ (nr_tasks + nr_procs) me src m (queue.inside src i)
        (queue.blocked src i).0 sends.to
        (receive_queued-received k me src m ready queue i sends hm av from)),
  received-Receives k me src m xs queue i ne sends c,
)

-- If processes are blocked on messages to the ready process `me` and no interrupt is pending for it,
-- a `msg_receive` from anyone takes the message of the process that has been in the queue longest:
-- it returns 0 with that message copied to the address `m` and with that process ready and out of the
-- queue, in which the others keep their order. Nothing else changes but the links of the queues; the
-- invariant is kept, and no `assert` fails. This is under the invariant of message passing, with `m`
-- not null, and with both messages where `va2la` accepts them.
pub msg_receive-any :
    (k : Kernel) (me x m : ℕ) {xs : List ℕ}
    → IsReady (k.proc_table me)
    → (k.proc_table me).has_int_msg ≡ 0
    → IsQueue k.proc_table me (x ∷ xs)
    → IsSending (k.proc_table x) me
    → IsConsistent k.proc_table
    → m ≢ 0
    → me < nr_tasks + nr_procs
    → me ≢ x
    → Addressable k me m
    → Addressable k x (k.proc_table x).msg
    → (k' : Kernel) × (msg_receive (nr_tasks + nr_procs) me any m k ≡ ok 0 k')
      × Receives k me x m (x ∷ xs) k'
      × IsQueue k'.proc_table me xs
msg_receive-any k me x m {xs} ready quiet queue sends c hm hme ne av from =
    let i : mem x (x ∷ xs) ≡ true = ground arith in
    let none_before : previous x (x ∷ xs) ≡ none = ground arith in
    let same : erase x (x ∷ xs) ≡ xs = ground arith in
    let got = received-Receives k me x m (x ∷ xs) queue i ne sends c in
    (
      received k me x (previous x (x ∷ xs)) m,
      msg_receive-receive_any k _ (nr_tasks + nr_procs) me m hme quiet (
          receive_any-head k _ (nr_tasks + nr_procs) me x m (previous x (x ∷ xs))
            (Links-head queue.links) (handed_over k me x m ready queue i sends hm av from)
            none_before (took k me x m ready queue i sends hm av from)),
      got,
      rw same at got.queue,
    )
