-- ===== src/InitProc/Start.antt =====
-- The state in which the kernel starts.
use simple_os.Base.{
  ℕ, zero, ◌+◌, ◌-◌, ◌*◌, ◌%◌, ◌^◌, ◌<◌, ◌≤◌, ◌≡◌, ◌↔◌, refl, sym, ap, ◌∙◌, arith, true, false,
  Bool-cases, inl, inr, [], none, ◌==◌, ==_iff, if◌then◌else◌, leb,
}
use simple_os.Kernel.{
  Process, ProcTable, Kernel, nr_tasks, nr_procs, nr_native_procs, has, sending, free_slot, no_task,
}
use simple_os.Ipc.Phase.{IsReady}
use simple_os.Ipc.Queue.{nil}
use simple_os.Ipc.Deadlock.{free}
use simple_os.Ipc.Consistent.{IsQueue, IsConsistent}
use simple_os.InitProc.{
  Image, init_entry, init_loop, init_proc, kernel_main, with_tty, task_stack_size,
  selector_ldt_first, stack_size_total,
}
use simple_os.InitProc.Entry.{entry, stack_top, init_loop-entry}

-- No process is blocked on a message, and no queue has a member.
pub record Quiet (t : ProcTable) : Type 0 where
  pub idle : (q : ℕ) → q < nr_tasks + nr_procs → has (t q).p_flags sending ≡ false
  pub empty : (q : ℕ) → q < nr_tasks + nr_procs → (t q).q_sending ≡ none

Quiet-IsQueue : (t : ProcTable) (d : ℕ) → Quiet t → d < nr_tasks + nr_procs → IsQueue t d []
Quiet-IsQueue t d quiet h = record {
  links = rw (quiet.empty d h) nil;
  inside = λ x m. ground (arith, m);
  blocked = λ x m. ground (arith, m);
  all = λ x hx b to. ground (arith, quiet.idle x hx, b);
}

pub Quiet-IsConsistent : (t : ProcTable) → Quiet t → IsConsistent t
Quiet-IsConsistent t quiet = record {
  acyclic = record {
    inside = λ p h b. ground (arith, quiet.idle p h, b);
    ends = λ p h. (zero, free p (quiet.idle p h));
  };
  queues = λ d h. ([], Quiet-IsQueue t d quiet h);
}

with_tty-entry :
    (i n : ℕ) (t : ProcTable) (q : ℕ)
    → with_tty i n t q ≡ record (t q) { tty_index = if i == q then n else (t q).tty_index }
with_tty-entry i n t q = elim (Bool-cases (i == q)) [
  | inl y ↦
      ap (λ b. if b then record (t i) { tty_index = n } else t q) y
      ∙ ap (λ j. record (t j) { tty_index = n }) ((==_iff i q).0 y)
      ∙ sym (ap (λ b. record (t q) { tty_index = if b then n else (t q).tty_index }) y)
  | inr off ↦
      ap (λ b. if b then record (t i) { tty_index = n } else t q) off
      ∙ sym (ap (λ b. record (t q) { tty_index = if b then n else (t q).tty_index }) off)
]

abbrev at_tty : ℕ → Process → Process
at_tty n p = record p { tty_index = n }

module _ (image : Image) where
  init_proc-entry :
      (t : ProcTable) (q : ℕ)
      → q < nr_tasks + nr_procs
      → (tty : ℕ) × (init_proc image t q ≡ record (entry image q (t q)) { tty_index = tty })
  unfolding init_proc
  init_proc-entry t q h =
      let t1 =
        init_loop image (nr_tasks + nr_procs) 0 selector_ldt_first
          ((image.task_stack + task_stack_size) % 2 ^ 32) t in
      let t2 = with_tty (nr_tasks + 0) 0 t1 in
      let t3 = with_tty (nr_tasks + 1) 1 t2 in
      let made =
        init_loop-entry image (nr_tasks + nr_procs) 0 selector_ldt_first
          ((image.task_stack + task_stack_size) % 2 ^ 32) t q (omega arith) (λ _. omega arith)
          (omega arith) (omega arith) h in
      let tty : ℕ = if nr_tasks + 2 == q then 2 else (t3 q).tty_index in
      (
        tty,
        with_tty-entry (nr_tasks + 2) 2 t3 q
            ∙ ap (at_tty tty) (with_tty-entry (nr_tasks + 1) 1 t2 q)
            ∙ ap (at_tty tty) (with_tty-entry (nr_tasks + 0) 0 t1 q)
            ∙ ap (at_tty tty) made,
      )

  -- What entry `q` of the table is at the start, if `p` stood there before.
  pub record Native (q : ℕ) (p' : Process) : Type 0 where
    pub ready : IsReady p'
    pub no_interrupt : p'.has_int_msg ≡ 0
    pub orphan : p'.p_parent ≡ no_task
    pub number : p'.pid ≡ q
    pub code : p'.regs.eip ≡ image.init_eip q
    pub stack : p'.regs.esp ≡ stack_top image q
    pub selector : p'.ldt_sel ≡ selector_ldt_first + 8 * q

  Native-entry :
      (q tty : ℕ) (p : Process)
      → q < nr_tasks + nr_native_procs
      → Native q (record (entry image q p) { tty_index = tty })
  unfolding entry init_entry
  Native-entry q tty p h =
      let native : leb (nr_tasks + nr_native_procs) q ≡ false = ground arith in
      rw native (record {
        ready = record { flags = refl; no_msg = refl; from_none = refl; to_none = refl };
        no_interrupt = refl;
        orphan = refl;
        number = refl;
        code = refl;
        stack = refl;
        selector = refl;
      })

  Native-init_proc :
      (t : ProcTable) (q : ℕ) → q < nr_tasks + nr_native_procs → Native q (init_proc image t q)
  Native-init_proc t q h =
      let (tty, e) = init_proc-entry t q (omega arith) in rw e (Native-entry q tty (t q) h)

  free_entry :
      (q : ℕ) (p : Process)
      → nr_tasks + nr_native_procs ≤ q
      → entry image q p ≡ record p { p_flags = free_slot; ldt_sel = selector_ldt_first + 8 * q }
  unfolding entry init_entry
  free_entry q p h =
      let unused : leb (nr_tasks + nr_native_procs) q ≡ true = ground arith in rw unused refl

  entry-Quiet :
      (q : ℕ) (p : Process)
      → p.q_sending ≡ none
      → (has (entry image q p).p_flags sending ≡ false) × ((entry image q p).q_sending ≡ none)
  unfolding entry init_entry
  entry-Quiet q p h = elim (Bool-cases (leb (nr_tasks + nr_native_procs) q)) [
    | inl y ↦ rw y (refl, h)
    | inr n ↦ rw n (refl, refl)
  ]

  init_proc-Quiet :
      (t : ProcTable)
      → ((q : ℕ) → q < nr_tasks + nr_procs → (t q).q_sending ≡ none)
      → Quiet (init_proc image t)
  init_proc-Quiet t blank = record {
    idle = λ q h.
        ap (λ p. has p.p_flags sending) (init_proc-entry t q h).1
        ∙ (entry-Quiet q (t q) (blank q h)).0;
    empty = λ q h.
        ap (λ p. p.q_sending) (init_proc-entry t q h).1 ∙ (entry-Quiet q (t q) (blank q h)).1;
  }

  -- The state of message passing at the start of the kernel.
  pub record Starts (k : Kernel) : Type 0 where
    pub native : (q : ℕ) → q < nr_tasks + nr_native_procs → Native q (k.proc_table q)
    pub unused :
        (q : ℕ)
        → nr_tasks + nr_native_procs ≤ q
        → q < nr_tasks + nr_procs
        → (k.proc_table q).p_flags ≡ free_slot
    pub consistent : IsConsistent k.proc_table
    pub turn : k.ready_process < nr_tasks + nr_procs
    pub running : (k.proc_table k.ready_process).p_flags ≡ 0

  -- If the queues of the process table are empty before, as they are in a table of zeros, then
  -- `kernel_main` sets up seven processes that are ready, start at the address of their code and
  -- wait for no message, marks all other entries as free, and establishes the invariant of message
  -- passing; the process that runs first may run.
  pub kernel_main-Starts :
      (k : Kernel)
      → ((q : ℕ) → q < nr_tasks + nr_procs → (k.proc_table q).q_sending ≡ none)
      → Starts (kernel_main image k)
  unfolding kernel_main
  kernel_main-Starts k blank =
      let t = k.proc_table in
      record {
        native = λ q h. Native-init_proc t q h;
        unused = λ q lo hi.
            let (tty, e) = init_proc-entry t q hi in
            ap (λ p. p.p_flags) e ∙ ap (λ p. p.p_flags) (free_entry q (t q) lo);
        consistent = Quiet-IsConsistent (init_proc image t) (init_proc-Quiet t blank);
        turn = omega arith;
        running = (Native-init_proc t 0 (omega arith)).ready.flags;
      }

  -- The stacks of the processes lie one after the other in `task_stack`, but one place too far: if
  -- the addresses do not wrap round, the stack of process `q` ends `q + 2` stacks behind the start
  -- of the array, and that of the last process, and of no other, ends behind the end of the array.
  pub init_proc-stack :
      (t : ProcTable) (q : ℕ)
      → image.task_stack + stack_size_total + task_stack_size < 2 ^ 32
      → q < nr_tasks + nr_native_procs
      → let top = (init_proc image t q).regs.esp in
        (top ≡ image.task_stack + task_stack_size * (q + 2))
        × ((image.task_stack + stack_size_total < top) ↔ (q ≡ nr_tasks + nr_native_procs - 1))
  init_proc-stack t q room h =
      let e : (init_proc image t q).regs.esp ≡ stack_top image q = (Native-init_proc t q h).stack in
      rw e (omega arith, (λ x. omega arith, λ x. omega arith))
