-- ===== src/Syscall/Ticks.antt =====
-- `get_ticks` from end to end: the call, the answer of `task_sys`, and the result.
use simple_os.Base.{
  ℕ, ◌+◌, ◌<◌, ◌≡◌, ◌≢◌, refl, sym, ap, ◌∙◌, arith, inl, inr, ◌==◌, ==_ne, ==_self, if◌then◌else◌,
}
use simple_os.Kernel.{Kernel, Run, ok, panic, blocks, update, any, nr_tasks, nr_procs, reset_msg}
use simple_os.Ipc.Phase.{IsReady, IsReceiving, linear, Addressable}
use simple_os.Ipc.Consistent.{IsConsistent}
use simple_os.Ipc.Send.{delivered}
use simple_os.Ipc.MsgSend.{delivered-IsConsistent}
use simple_os.Ipc.Waiting.{msg_receive-Waits, Waits}
use simple_os.Syscall.{
  sys_sendrec, send, receive, sendrec, send_recv, get_ticks, get_ticks_result, task_sys_reply,
  task_sys_pid, get_ticks_type, call_both, reply_ticks,
}
use simple_os.Syscall.Source.{stamped, sys_sendrec-receive, sys_sendrec-delivered}

-- A trap whose call goes on, and one whose call has blocked the caller.
pub sendrec-returns :
    (k k' : Kernel) (c function d m : ℕ)
    → sys_sendrec 0 function d m c k ≡ ok 0 k'
    → (k'.proc_table c).p_flags ≡ 0
    → sendrec c function d m k ≡ ok 0 k'
unfolding sendrec
sendrec-returns k k' c function d m e free = rw (e, free) refl

sendrec-blocks :
    (k k' : Kernel) (c function d m : ℕ)
    → sys_sendrec 0 function d m c k ≡ ok 0 k'
    → (k'.proc_table c).p_flags ≢ 0
    → sendrec c function d m k ≡ blocks k'
unfolding sendrec
sendrec-blocks k k' c function d m e stuck = rw (e, ==_ne (k'.proc_table c).p_flags 0 stuck) refl

-- BOTH, when the message is taken at once and no answer is there yet.
call_both-blocks :
    (k k1 k2 : Kernel) (c d m : ℕ)
    → sendrec c send d m k ≡ ok 0 k1
    → sendrec c receive d m k1 ≡ blocks k2
    → call_both c d m k ≡ blocks k2
unfolding call_both
call_both-blocks k k1 k2 c d m e1 e2 = rw (e1, e2) refl

-- A client `c` with its message at `m`, and the task with its own at `b`, where it waits.
pub record Meets (k : Kernel) (c m b : ℕ) : Type 0 where
  pub client : IsReady (k.proc_table c)
  pub server : IsReceiving (k.proc_table task_sys_pid) any
  pub buffer : (k.proc_table task_sys_pid).msg ≡ b
  pub quiet : (k.proc_table c).has_int_msg ≡ 0
  pub consistent : IsConsistent k.proc_table
  pub somewhere : m ≢ 0
  pub in_table : c < nr_tasks + nr_procs
  pub turn : k.ready_process < nr_tasks + nr_procs
  pub other : c ≢ task_sys_pid
  pub client_space : Addressable k c m
  pub server_space : Addressable k task_sys_pid b

-- The client's request reaches the task, and the client waits for the answer.
pub record Requested (k : Kernel) (c m b : ℕ) (k' : Kernel) : Type 0 where
  pub client : IsReceiving (k'.proc_table c) task_sys_pid
  pub client_buffer : (k'.proc_table c).msg ≡ m
  pub server : IsReady (k'.proc_table task_sys_pid)
  pub request : k'.mem (linear k task_sys_pid b) ≡ record (k.mem (linear k c m)) { source = c }
  pub client_space : (k'.proc_table c).ldt_data ≡ (k.proc_table c).ldt_data
  pub server_space : (k'.proc_table task_sys_pid).ldt_data ≡ (k.proc_table task_sys_pid).ldt_data

handed_other :
    (k : Kernel) (c d m q : ℕ) → d ≢ q → (delivered k c d m).proc_table q ≡ k.proc_table q
handed_other k c d m q ne = ground (arith, ne)

handed_space :
    (k : Kernel) (c d m : ℕ)
    → ((delivered k c d m).proc_table d).ldt_data ≡ (k.proc_table d).ldt_data
handed_space k c d m = ground arith

module _ (k : Kernel) (c m b : ℕ) (h : Meets k c m b) where
  -- After the request has been handed over.
  abbrev handed : Kernel
  handed = delivered (stamped k (linear k c m) c) c task_sys_pid m

  client_same : handed.proc_table c ≡ k.proc_table c
  client_same = handed_other (stamped k (linear k c m) c) c task_sys_pid m c (λ e. h.other (sym e))

  request_sent :
      (sys_sendrec 0 send task_sys_pid m c k ≡ ok 0 handed)
      × (IsReady (handed.proc_table task_sys_pid)
          × (handed.mem (linear k task_sys_pid (k.proc_table task_sys_pid).msg)
              ≡ record (k.mem (linear k c m)) { source = c }))
  request_sent =
      sys_sendrec-delivered k c task_sys_pid m (omega arith) h.other h.client_space any h.client
        h.server (inr refl) h.somewhere (rw h.buffer h.server_space)

  Waits-client :
      (k' : Kernel) × (sys_sendrec 0 receive task_sys_pid m c handed ≡ ok 0 k')
      × Waits (stamped handed (linear handed c m) c) c task_sys_pid m k'
  Waits-client =
      let k2 = stamped handed (linear handed c m) c in
      let (sent, (ready, arrived)) = request_sent in
      let av : Addressable handed c m = rw client_same h.client_space in
      let (k', e, w) =
        msg_receive-Waits k2 c task_sys_pid m task_sys_pid (rw client_same h.client)
          (rw client_same h.quiet) (inr (omega arith, ground (arith, ready.flags)))
          (delivered-IsConsistent (stamped k (linear k c m) c) c task_sys_pid m any h.server
            h.consistent)
          h.somewhere h.in_table h.other h.turn (omega arith) (λ e. h.other (sym e)) ready.flags in
      (k', sys_sendrec-receive handed c task_sys_pid m (omega arith) h.other av ∙ e, w)

  pub call_both-Requested :
      linear k c m ≢ linear k task_sys_pid b
      → (k' : Kernel) × (call_both c task_sys_pid m k ≡ blocks k') × Requested k c m b k'
  call_both-Requested apart =
      let (sent, (ready, arrived)) = request_sent in
      let (k', waiting, w) = Waits-client in
      let e1 =
        sendrec-returns k handed c send task_sys_pid m sent (rw client_same h.client.flags) in
      let e2 =
        sendrec-blocks handed k' c receive task_sys_pid m waiting
          (λ z. ground (arith, z, w.is_receiving.flags)) in
      let same : k'.proc_table task_sys_pid ≡ handed.proc_table task_sys_pid =
        elim (w.others task_sys_pid) [ inl e ↦ absurd (h.other (sym e)) | inr e ↦ e ] in
      let here = linear k task_sys_pid b in
      let off : linear handed c m ≢ here = rw client_same apart in
      let now = record (handed.mem (linear handed c m)) { source = c } in
      (
        k',
        call_both-blocks k handed k' c task_sys_pid m e1 e2,
        record {
          client = w.is_receiving;
          client_buffer = w.buffer;
          server = rw same ready;
          request =
              ap (λ f. f here) w.memory
              ∙ ap (λ x. if x then now else handed.mem here) (==_ne (linear handed c m) here off)
              ∙ ap (λ x. handed.mem (linear k task_sys_pid x)) (sym h.buffer)
              ∙ arrived;
          client_space = w.space ∙ ap (λ p. p.ldt_data) client_same;
          server_space =
              ap (λ p. p.ldt_data) same
              ∙ handed_space (stamped k (linear k c m) c) c task_sys_pid m;
        },
      )

-- The state when `get_ticks` has written its request.
abbrev pub written : Kernel → ℕ → ℕ → Kernel
written k c m = record k {
  mem = update k.mem (linear k c m) (record reset_msg { type = get_ticks_type });
}

get_ticks-call_both :
    (k : Kernel) (c m : ℕ) → get_ticks c m k ≡ call_both c task_sys_pid m (written k c m)
unfolding get_ticks send_recv
get_ticks-call_both k c m = refl

-- The task's answer to a request at `b` of a client that waits for it.
module _ (k : Kernel) (c m b ticks : ℕ) (server : IsReady (k.proc_table task_sys_pid))
    (client : IsReceiving (k.proc_table c) task_sys_pid) (buffer : (k.proc_table c).msg ≡ m)
    (hc : c < nr_tasks + nr_procs) (other : c ≢ task_sys_pid) (hb : b ≢ 0)
    (server_space : Addressable k task_sys_pid b) (client_space : Addressable k c m)
    (kind : (k.mem (linear k task_sys_pid b)).type ≡ get_ticks_type)
    (from : (k.mem (linear k task_sys_pid b)).source ≡ c) where
  -- The answer stands in the task's message.
  abbrev answered : Kernel
  answered =
      let a = linear k task_sys_pid b in
      record k { mem = update k.mem a (record (k.mem a) { m3i1 = ticks }) }

  abbrev replied : Kernel
  replied = delivered (stamped answered (linear k task_sys_pid b) task_sys_pid) task_sys_pid c b

  reply_delivered :
      (sys_sendrec 0 send c b task_sys_pid answered ≡ ok 0 replied)
      × (IsReady (replied.proc_table c)
          × (replied.mem (linear k c (k.proc_table c).msg)
              ≡ record (answered.mem (linear k task_sys_pid b)) { source = task_sys_pid }))
  reply_delivered =
      sys_sendrec-delivered answered task_sys_pid c b hc (λ e. other (sym e)) server_space
        task_sys_pid server client (inl refl) hb (rw buffer client_space)

  reply_sent : send_recv task_sys_pid send c b answered ≡ ok 0 replied
  unfolding send_recv
  reply_sent =
      let same : replied.proc_table task_sys_pid ≡ k.proc_table task_sys_pid =
        handed_other (stamped answered (linear k task_sys_pid b) task_sys_pid) task_sys_pid c b
          task_sys_pid other in
      sendrec-returns answered replied task_sys_pid send c b reply_delivered.0
        (rw same server.flags)

  task_sys_reply-sent : task_sys_reply ticks b k ≡ ok 0 replied
  unfolding task_sys_reply reply_ticks
  task_sys_reply-sent =
      let a = linear k task_sys_pid b in
      let other_kind : Kernel → Run ℕ = λ s. panic in
      ap (λ t. (if t == get_ticks_type then reply_ticks ticks b a (k.mem a) else other_kind) k) kind
      ∙ ap (λ c. send_recv task_sys_pid send c b answered) from
      ∙ reply_sent

  result_ticks : get_ticks_result c m replied ≡ ok ticks replied
  unfolding get_ticks_result
  result_ticks =
      let a = linear k task_sys_pid b in
      let space : (replied.proc_table c).ldt_data ≡ (k.proc_table c).ldt_data =
        handed_space (stamped answered a task_sys_pid) task_sys_pid c b in
      let there : replied.mem (linear k c m) ≡ record (answered.mem a) { source = task_sys_pid } =
        ap (λ x. replied.mem (linear k c x)) (sym buffer) ∙ reply_delivered.1.1 in
      let written : (answered.mem a).m3i1 ≡ ticks =
        ap (λ x. (if x then record (k.mem a) { m3i1 = ticks } else k.mem a).m3i1) (==_self a) in
      rw space (rw there (rw written refl))

-- If a process is ready with no interrupt pending for it, `task_sys` waits for a message, and the
-- message system is consistent (`Meets`), then `get_ticks` sends its request to the task and blocks
-- for the answer; the task's answer then makes the process ready again, and `get_ticks` returns the
-- ticks that the task counted. The messages of the two must not be the same memory. Under these
-- conditions no `assert` of the kernel fails on the way.
pub get_ticks-task_sys :
    (k : Kernel) (c m b ticks : ℕ)
    → Meets k c m b
    → linear k c m ≢ linear k task_sys_pid b
    → (k1 : Kernel) × (k2 : Kernel) × (get_ticks c m k ≡ blocks k1)
      × (task_sys_reply ticks b k1 ≡ ok 0 k2)
      × IsReady (k2.proc_table c)
      × (get_ticks_result c m k2 ≡ ok ticks k2)
get_ticks-task_sys k c m b ticks h apart =
    let k0 = written k c m in
    let h0 : Meets k0 c m b = record {
      client = h.client;
      server = h.server;
      buffer = h.buffer;
      quiet = h.quiet;
      consistent = h.consistent;
      somewhere = h.somewhere;
      in_table = h.in_table;
      turn = h.turn;
      other = h.other;
      client_space = h.client_space;
      server_space = h.server_space;
    } in
    let (k1, called, r) = call_both-Requested k0 c m b h0 apart in
    let here : linear k1 task_sys_pid b ≡ linear k task_sys_pid b = rw r.server_space refl in
    let request : k1.mem (linear k1 task_sys_pid b)
        ≡ record (k0.mem (linear k c m)) { source = c } =
      ap k1.mem here ∙ r.request in
    let kind : (k1.mem (linear k1 task_sys_pid b)).type ≡ get_ticks_type =
      ap (λ x. x.type) request
      ∙ ap
          (λ x.
            (if x then record reset_msg { type = get_ticks_type } else k.mem (linear k c m)).type)
          (==_self (linear k c m)) in
    let from : (k1.mem (linear k1 task_sys_pid b)).source ≡ c = ap (λ x. x.source) request in
    let hb : b ≢ 0 = λ z. h.server.has_msg (h.buffer ∙ z) in
    let av : Addressable k1 task_sys_pid b = rw r.server_space h.server_space in
    let ac : Addressable k1 c m = rw r.client_space h.client_space in
    let k2 =
      replied k1 c m b ticks r.server r.client r.client_buffer h.in_table h.other hb av ac kind
        from in
    (
      k1,
      k2,
      get_ticks-call_both k c m ∙ called,
      task_sys_reply-sent k1 c m b ticks r.server r.client r.client_buffer h.in_table h.other hb av
          ac kind from,
      (reply_delivered k1 c m b ticks r.server r.client r.client_buffer h.in_table h.other hb av ac
          kind from).1.0,
      result_ticks k1 c m b ticks r.server r.client r.client_buffer h.in_table h.other hb av ac kind
          from,
    )
