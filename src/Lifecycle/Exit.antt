-- ===== src/Lifecycle/Exit.antt =====
-- `do_exit`: what becomes of the process and of its parent.
use simple_os.Base.{
  ℕ, ◌+◌, ◌<◌, ◌≡◌, ◌≢◌, refl, sym, ap, ◌∙◌, arith, true, false, ==_ne, ==_self, if◌then◌else◌,
  bit_or, bit_and,
}
use simple_os.Base.Bits.{not32}
use simple_os.Kernel.{
  Kernel, ok, update, in_table, has, receiving, waiting, hanging, no_task, Cmd, modify, ◌>>◌,
  nr_tasks, nr_procs,
}
use simple_os.Ipc.{in_bounds}
use simple_os.Ipc.Phase.{IsReady, linear, Addressable}
use simple_os.Lifecycle.{
  task_mm_pid, wait_result, do_exit, exit_process, tell_parent, adopt_loop, wake, cleanup,
}
use simple_os.Lifecycle.Sent.{Listens, Reaped, cleaned, cleanup-cleaned, cleaned-Reaped}
use simple_os.Lifecycle.Orphans.{adopt_loop-idle}

-- The state when the status is stored, and when the parent no longer waits.
abbrev pub ended : Kernel → ℕ → ℕ → Kernel
ended k pid status = record k {
  proc_table = update k.proc_table pid (record (k.proc_table pid) { exit_status = status });
}

abbrev pub woken : Kernel → ℕ → Kernel
woken k parent = record k {
  proc_table = update k.proc_table parent (record (k.proc_table parent) { p_flags = receiving });
}

-- `parent` waits for a child, with its message where the task can write it; `pid` is its child.
pub record WaitsFor (k : Kernel) (local pid parent : ℕ) : Type 0 where
  pub task : IsReady (k.proc_table task_mm_pid)
  pub flags : (k.proc_table parent).p_flags ≡ receiving + waiting
  pub has_msg : (k.proc_table parent).msg ≢ 0
  pub from : (k.proc_table parent).p_recvfrom ≡ task_mm_pid
  pub to_none : (k.proc_table parent).p_sendto ≡ no_task
  pub somewhere : local ≢ 0
  pub parent_in : parent < nr_tasks + nr_procs
  pub child_in : pid < nr_tasks + nr_procs
  pub parent_other : parent ≢ task_mm_pid
  pub child_other : pid ≢ task_mm_pid
  pub distinct : pid ≢ parent
  pub task_space : Addressable k task_mm_pid local
  pub parent_space : Addressable k parent (k.proc_table parent).msg

module _ (k : Kernel) (local pid parent status : ℕ)
    (is_parent : (k.proc_table pid).p_parent ≡ parent) where
  -- The call up to the loop over the children.
  exit_process-tells :
      (k' : Kernel)
      → pid < nr_tasks + nr_procs
      → parent < nr_tasks + nr_procs
      → tell_parent local parent pid (ended k pid status) ≡ ok tt k'
      → exit_process local status pid k ≡ adopt_loop (nr_tasks + nr_procs) 0 local pid k'
  unfolding exit_process
  exit_process-tells k' hi hp told =
      let inside : in_table pid ≡ true = ground (arith, hi) in
      let inside' : in_table parent ≡ true = ground (arith, hp) in
      start inside ∙ ap (λ p. finish p (ended k pid status)) is_parent ∙ rw (inside', told) refl
    where
      finish : ℕ → Cmd (Unit {0})
      finish p =
          in_bounds p >> (tell_parent local p pid >> adopt_loop (nr_tasks + nr_procs) 0 local pid)

      start :
          in_table pid ≡ true
          → exit_process local status pid k
            ≡ finish (k.proc_table pid).p_parent (ended k pid status)
      start inside = rw inside refl

  -- The state after the exit of a process whose parent waits.
  abbrev reaped : Kernel
  reaped = cleaned (woken (ended k pid status) parent) local pid parent

  module _ (h : WaitsFor k local pid parent) where
    woken-Listens : Listens (woken (ended k pid status) parent) local parent
    woken-Listens =
        let apart = h.distinct in
        let task_apart = h.parent_other in
        let child_apart = h.child_other in
        record {
          task = ground (arith, h.task);
          client = ground arith;
          somewhere = h.somewhere;
          in_table = h.parent_in;
          other = h.parent_other;
          task_space = ground arith;
          client_space = ground arith;
        }

    tell_parent-reaped : tell_parent local parent pid (ended k pid status) ≡ ok tt reaped
    unfolding tell_parent
    tell_parent-reaped =
        let k1 = ended k pid status in
        let apart = h.distinct in
        let flags : (k1.proc_table parent).p_flags ≡ receiving + waiting =
          ground (arith, h.flags) in
        let mine : (k.proc_table pid).p_parent ≡ parent = is_parent in
        ap
          (λ f.
            (if has f waiting
                then wake local parent pid
                else modify parent (λ p. record p { p_flags = bit_or p.p_flags hanging }))
              k1)
          flags
        ∙ ap
            (λ f. cleanup local pid (record k1 {
              proc_table =
                  update k1.proc_table parent
                    (record (k1.proc_table parent) { p_flags = bit_and f (not32 waiting) });
            }))
            flags
        ∙ cleanup-cleaned (woken k1 parent) local pid parent woken-Listens (ground arith)

    reaped-p_parent : (q : ℕ) → (reaped.proc_table q).p_parent ≡ (k.proc_table q).p_parent
    reaped-p_parent q = ground arith

    reaped-Reaped : Reaped k pid parent status reaped
    reaped-Reaped =
        let k2 = woken (ended k pid status) parent in
        let apart = h.distinct in
        let r =
          cleaned-Reaped k2 local pid parent woken-Listens (ground arith) h.distinct h.child_in in
        let same : (k2.proc_table pid).exit_status ≡ status = ground arith in
        let buffer : (k.proc_table parent).msg ≡ (k2.proc_table parent).msg = ground arith in
        record {
          slot = r.slot;
          parent_ready = r.parent_ready;
          result =
              ap (λ m. wait_result parent m reaped) buffer
              ∙ r.result
              ∙ ap (λ s. ok (s, pid) reaped) same;
          others = λ q a b. r.others q a b ∙ ground (arith, a, b);
        }

    exit_process-Reaped :
        ((j : ℕ) → j < nr_tasks + nr_procs → (k.proc_table j).p_parent ≢ pid)
        → (exit_process local status pid k ≡ ok tt reaped) × Reaped k pid parent status reaped
    exit_process-Reaped childless =
        let told = exit_process-tells reaped h.child_in h.parent_in tell_parent-reaped in
        (
          told
              ∙ adopt_loop-idle (nr_tasks + nr_procs) 0 local pid reaped (λ j lt.
                let no_child : (reaped.proc_table j).p_parent ≢ pid =
                  λ e. childless j lt (sym (reaped-p_parent j) ∙ e) in
                rw (==_ne (reaped.proc_table j).p_parent pid no_child) refl),
          reaped-Reaped,
        )

-- The sender of the request that the task has received at `mm_msg`.
abbrev pub requester : Kernel → ℕ → ℕ
requester k mm_msg = (k.mem (linear k task_mm_pid mm_msg)).source

do_exit-exit_process :
    (k : Kernel) (mm_msg local status pid : ℕ)
    → requester k mm_msg ≡ pid
    → do_exit mm_msg local status k ≡ exit_process local status pid k
unfolding do_exit
do_exit-exit_process k mm_msg local status pid e = ap (λ p. exit_process local status p k) e

-- If a process without children asks to exit and its parent waits for a child, then `do_exit`
-- makes the parent ready, with the number and the status of the process as the result of its
-- `wait`, and frees the slot of the process. It changes no other process, and no `assert` fails.
pub do_exit-Reaped :
    (k : Kernel) (mm_msg local pid parent status : ℕ)
    → requester k mm_msg ≡ pid
    → (k.proc_table pid).p_parent ≡ parent
    → WaitsFor k local pid parent
    → ((j : ℕ) → j < nr_tasks + nr_procs → (k.proc_table j).p_parent ≢ pid)
    → (k' : Kernel) × (do_exit mm_msg local status k ≡ ok tt k') × Reaped k pid parent status k'
do_exit-Reaped k mm_msg local pid parent status who is_parent h childless =
    let (done, r) = exit_process-Reaped k local pid parent status is_parent h childless in
    (
      reaped k local pid parent status is_parent,
      do_exit-exit_process k mm_msg local status pid who ∙ done,
      r,
    )

-- The state when the exit of a process is marked at its parent.
abbrev pub marked : Kernel → ℕ → Kernel
marked k parent = record k {
  proc_table =
      update k.proc_table parent
        (record (k.proc_table parent) { p_flags = bit_or (k.proc_table parent).p_flags hanging });
}

marked-flags :
    (k : Kernel) (parent : ℕ)
    → (k.proc_table parent).p_flags ≡ 0
    → ((marked k parent).proc_table parent).p_flags ≡ hanging
marked-flags k parent e =
    let p = k.proc_table parent in
    ap (λ b. (if b then record p { p_flags = bit_or p.p_flags hanging } else p).p_flags)
      (==_self parent)
    ∙ ap (λ f. bit_or f hanging) e

tell_parent-marked :
    (k : Kernel) (local parent pid : ℕ)
    → has (k.proc_table parent).p_flags waiting ≡ false
    → tell_parent local parent pid k ≡ ok tt (marked k parent)
unfolding tell_parent
tell_parent-marked k local parent pid off = rw off refl

-- If a process without children asks to exit and its parent is ready and does not wait, then
-- `do_exit` marks the parent, and not the process, as hanging, so that the parent is no longer
-- ready; the flags of the process stay as they are.
pub do_exit-hanging :
    (k : Kernel) (mm_msg local pid parent status : ℕ)
    → requester k mm_msg ≡ pid
    → (k.proc_table pid).p_parent ≡ parent
    → IsReady (k.proc_table parent)
    → pid < nr_tasks + nr_procs
    → parent < nr_tasks + nr_procs
    → pid ≢ parent
    → ((j : ℕ) → j < nr_tasks + nr_procs → (k.proc_table j).p_parent ≢ pid)
    → (k' : Kernel) × (do_exit mm_msg local status k ≡ ok tt k')
      × ((k'.proc_table parent).p_flags ≡ hanging)
      × ((k'.proc_table pid).p_flags ≡ (k.proc_table pid).p_flags)
do_exit-hanging k mm_msg local pid parent status who is_parent ready hi hp apart childless =
    let k1 = ended k pid status in
    let k' = marked k1 parent in
    let flags : (k1.proc_table parent).p_flags ≡ 0 = ground (arith, ready.flags) in
    let off : has (k1.proc_table parent).p_flags waiting ≡ false = ap (λ f. has f waiting) flags in
    let told =
      exit_process-tells k local pid parent status is_parent k' hi hp
        (tell_parent-marked k1 local parent pid off) in
    let parents : (q : ℕ) → (k'.proc_table q).p_parent ≡ (k.proc_table q).p_parent =
      λ q. ground arith in
    (
      k',
      do_exit-exit_process k mm_msg local status pid who
          ∙ told
          ∙ adopt_loop-idle (nr_tasks + nr_procs) 0 local pid k' (λ j lt.
            let no_child : (k'.proc_table j).p_parent ≢ pid =
              λ e. childless j lt (sym (parents j) ∙ e) in
            rw (==_ne (k'.proc_table j).p_parent pid no_child) refl),
      marked-flags k1 parent flags,
      ground arith,
    )
