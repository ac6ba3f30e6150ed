-- ===== src/Lifecycle/Sent.antt =====
-- A message that TASK_MM sends to a process which waits for its answer, and `cleanup`.
use simple_os.Base.{
  ℕ, ◌+◌, ◌<◌, ◌≡◌, ◌≢◌, refl, sym, ap, ◌∙◌, arith, true, false, inl, ◌==◌, ==_self, if◌then◌else◌,
}
use simple_os.Kernel.{
  Kernel, Message, ok, update, in_table, Cmd, modify, ◌>>◌, nr_tasks, nr_procs, no_task, free_slot,
}
use simple_os.Ipc.{in_bounds}
use simple_os.Ipc.Phase.{IsReady, IsReceiving, linear, Addressable}
use simple_os.Ipc.Send.{delivered}
use simple_os.Syscall.{send, send_recv, sys_sendrec}
use simple_os.Syscall.Source.{stamped, sys_sendrec-delivered}
use simple_os.Syscall.Ticks.{sendrec-returns}
use simple_os.Lifecycle.{task_mm_pid, reply, cleanup, syscall_ret, wait_result, fork_result}

-- Process `d` waits for an answer of the task, whose own message is at `local`.
pub record Listens (k : Kernel) (local d : ℕ) : Type 0 where
  pub task : IsReady (k.proc_table task_mm_pid)
  pub client : IsReceiving (k.proc_table d) task_mm_pid
  pub somewhere : local ≢ 0
  pub in_table : d < nr_tasks + nr_procs
  pub other : d ≢ task_mm_pid
  pub task_space : Addressable k task_mm_pid local
  pub client_space : Addressable k d (k.proc_table d).msg

-- The state when the task has written its message, and when it has been sent.
abbrev pub filled : Kernel → ℕ → (Message → Message) → Kernel
filled k local f =
    let a = linear k task_mm_pid local in record k { mem = update k.mem a (f (k.mem a)) }

abbrev pub replied : Kernel → ℕ → ℕ → (Message → Message) → Kernel
replied k local d f =
    delivered (stamped (filled k local f) (linear k task_mm_pid local) task_mm_pid) task_mm_pid d
      local

module _ (k : Kernel) (local d : ℕ) (f : Message → Message) (h : Listens k local d) where
  answer_sent :
      (sys_sendrec 0 send d local task_mm_pid (filled k local f) ≡ ok 0 (replied k local d f))
      × (IsReady ((replied k local d f).proc_table d)
          × ((replied k local d f).mem (linear k d (k.proc_table d).msg)
              ≡ record ((filled k local f).mem (linear k task_mm_pid local)) {
                source = task_mm_pid;
              }))
  answer_sent =
      sys_sendrec-delivered (filled k local f) task_mm_pid d local h.in_table (λ e. h.other (sym e))
        h.task_space task_mm_pid h.task h.client (inl refl) h.somewhere h.client_space

  pub replied-IsReady : IsReady ((replied k local d f).proc_table d)
  replied-IsReady = answer_sent.1.0

  pub replied_message :
      (replied k local d f).mem (linear k d (k.proc_table d).msg)
      ≡ record (f (k.mem (linear k task_mm_pid local))) { source = task_mm_pid }
  replied_message =
      let a = linear k task_mm_pid local in
      answer_sent.1.1
      ∙ ap (λ b. record (if b then f (k.mem a) else k.mem a) { source = task_mm_pid }) (==_self a)

  pub replied_entry :
      (replied k local d f).proc_table d
      ≡ record (k.proc_table d) { msg = 0; p_flags = 0; p_recvfrom = no_task }
  replied_entry =
      ap
        (λ b.
          if b
          then record (k.proc_table d) { msg = 0; p_flags = 0; p_recvfrom = no_task }
          else k.proc_table d)
        (==_self d)

  pub replied_other : (q : ℕ) → d ≢ q → (replied k local d f).proc_table q ≡ k.proc_table q
  replied_other q ne = ground (arith, ne)

  -- A message elsewhere is not changed.
  pub replied_far :
      (a : ℕ)
      → linear k task_mm_pid local ≢ a
      → linear k d (k.proc_table d).msg ≢ a
      → (replied k local d f).mem a ≡ k.mem a
  replied_far a far far_client = ground (arith, far, far_client)

  pub fork_result-replied :
      fork_result d (k.proc_table d).msg (replied k local d f)
      ≡ ok (f (k.mem (linear k task_mm_pid local))).m3i2 (replied k local d f)
  unfolding fork_result
  fork_result-replied =
      let space : ((replied k local d f).proc_table d).ldt_data ≡ (k.proc_table d).ldt_data =
        ap (λ p. p.ldt_data) replied_entry in
      rw space (rw replied_message refl)

  pub reply-replied : reply local d f k ≡ ok tt (replied k local d f)
  unfolding reply send_recv
  reply-replied =
      let back =
        sendrec-returns (filled k local f) (replied k local d f) task_mm_pid send d local
          answer_sent.0 (rw (replied_other task_mm_pid h.other) h.task.flags) in
      rw back refl

-- What `cleanup` writes for process `i`.
abbrev pub status_of : ℕ → ℕ → Message → Message
status_of i status m = record m { type = syscall_ret; m3i2 = i; m3i1 = status }

abbrev pub freed : Kernel → ℕ → Kernel
freed k i = record k {
  proc_table = update k.proc_table i (record (k.proc_table i) { p_flags = free_slot });
}

abbrev pub cleaned : Kernel → ℕ → ℕ → ℕ → Kernel
cleaned k local i parent =
    freed (replied k local parent (status_of i (k.proc_table i).exit_status)) i

-- Process `i` is gone: its slot is free, and its parent, which waited, gets its number and status.
pub record Reaped (k : Kernel) (i parent status : ℕ) (k' : Kernel) : Type 0 where
  pub slot : (k'.proc_table i).p_flags ≡ free_slot
  pub parent_ready : IsReady (k'.proc_table parent)
  pub result : wait_result parent (k.proc_table parent).msg k' ≡ ok (status, i) k'
  pub others : (q : ℕ) → i ≢ q → parent ≢ q → k'.proc_table q ≡ k.proc_table q

module _ (k : Kernel) (local i parent : ℕ) (h : Listens k local parent)
    (is_parent : (k.proc_table i).p_parent ≡ parent) where
  pub cleanup-cleaned : cleanup local i k ≡ ok tt (cleaned k local i parent)
  unfolding cleanup
  cleanup-cleaned =
      let inside : in_table parent ≡ true = ground (arith, h.in_table) in
      let sent = reply-replied k local parent (status_of i (k.proc_table i).exit_status) h in
      ap (λ p. finish p k) is_parent ∙ rw (inside, sent) refl
    where
      finish : ℕ → Cmd (Unit {0})
      finish p =
          in_bounds p
          >> (reply local p (status_of i (k.proc_table i).exit_status)
              >> modify i (λ p. record p { p_flags = free_slot }))

  pub cleaned-Reaped :
      i ≢ parent
      → i < nr_tasks + nr_procs
      → Reaped k i parent (k.proc_table i).exit_status (cleaned k local i parent)
  unfolding wait_result
  cleaned-Reaped ne hi =
      let status = (k.proc_table i).exit_status in
      let k1 = replied k local parent (status_of i status) in
      let same : (cleaned k local i parent).proc_table parent ≡ k1.proc_table parent =
        ground (arith, ne) in
      let space : (k1.proc_table parent).ldt_data ≡ (k.proc_table parent).ldt_data = ground arith in
      let valid : (i == no_task) ≡ false = ground (arith, hi) in
      record {
        slot = ground arith;
        parent_ready = rw same (replied-IsReady k local parent (status_of i status) h);
        result =
            rw same (
              rw space
                (rw (replied_message k local parent (status_of i status) h) (rw valid refl)));
        others = λ q a b. ground (arith, a, b);
      }
