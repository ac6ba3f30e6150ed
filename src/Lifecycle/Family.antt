-- ===== src/Lifecycle/Family.antt =====
-- A parent that waits, and its child that exits.
use simple_os.Base.{
  ℕ, suc, ◌+◌, ◌<◌, ◌≡◌, ◌≢◌, sym, ap, ◌∙◌, arith, false, ==_self, if◌then◌else◌, bit_or,
}
use simple_os.Kernel.{Kernel, Message, ok, update, receiving, waiting, nr_tasks, nr_procs}
use simple_os.Ipc.Phase.{linear}
use simple_os.Lifecycle.{task_mm_pid, do_wait, do_exit}
use simple_os.Lifecycle.Sent.{Listens, Reaped}
use simple_os.Lifecycle.Orphans.{hangs_for, count_children}
use simple_os.Lifecycle.Exit.{requester, WaitsFor, do_exit-Reaped}
use simple_os.Lifecycle.Wait.{do_wait-waiting}

-- The state when a process has been marked as waiting.
abbrev pub paused : Kernel → ℕ → Kernel
paused k parent = record k {
  proc_table =
      update k.proc_table parent
        (record (k.proc_table parent) { p_flags = bit_or (k.proc_table parent).p_flags waiting });
}

-- The same processes when the memory has changed.
abbrev pub with_mem : Kernel → (ℕ → Message) → Kernel
with_mem k mem = record k { mem = mem }

paused-flags :
    (k : Kernel) (parent : ℕ)
    → (k.proc_table parent).p_flags ≡ receiving
    → ((paused k parent).proc_table parent).p_flags ≡ receiving + waiting
paused-flags k parent e =
    let p = k.proc_table parent in
    ap (λ b. (if b then record p { p_flags = bit_or p.p_flags waiting } else p).p_flags)
      (==_self parent)
    ∙ ap (λ f. bit_or f waiting) e

paused-WaitsFor :
    (k : Kernel) (mem : ℕ → Message) (local pid parent : ℕ)
    → Listens k local parent
    → pid < nr_tasks + nr_procs
    → pid ≢ task_mm_pid
    → pid ≢ parent
    → WaitsFor (with_mem (paused k parent) mem) local pid parent
paused-WaitsFor k mem local pid parent h hi other apart =
    let off = h.other in
    record {
      task = ground (arith, h.task);
      flags = paused-flags k parent h.client.flags;
      has_msg = ground (arith, h.client.has_msg);
      from = ground (arith, h.client.from);
      to_none = ground (arith, h.client.to_none);
      somewhere = h.somewhere;
      parent_in = h.in_table;
      child_in = hi;
      parent_other = h.other;
      child_other = other;
      distinct = apart;
      task_space = ground arith;
      parent_space = ground arith;
    }

-- A process with a child asks to wait, none of its children hangs, and later the child, which has
-- no children of its own, asks to exit; in between only messages have been written. Then `do_wait`
-- and `do_exit` succeed one after the other, and the parent is ready with the number and the
-- status of the child as the result of its `wait`.
pub do_exit-do_wait :
    (k : Kernel) (mem : ℕ → Message) (mm_msg local pid parent status n : ℕ)
    → requester k mm_msg ≡ parent
    → Listens k local parent
    → ((j : ℕ) → j < nr_tasks + nr_procs → hangs_for k.proc_table parent j ≡ false)
    → count_children (nr_tasks + nr_procs) 0 k.proc_table parent ≡ suc n
    → (k.proc_table pid).p_parent ≡ parent
    → pid < nr_tasks + nr_procs
    → pid ≢ task_mm_pid
    → pid ≢ parent
    → ((j : ℕ) → j < nr_tasks + nr_procs → (k.proc_table j).p_parent ≢ pid)
    → requester (with_mem k mem) mm_msg ≡ pid
    → (k1 : Kernel) × (k2 : Kernel) × (do_wait mm_msg local k ≡ ok tt k1)
      × (do_exit mm_msg local status (with_mem k1 mem) ≡ ok tt k2)
      × Reaped (with_mem k1 mem) pid parent status k2
do_exit-do_wait k mem mm_msg local pid parent status n who h quiet children is_parent hi other apart
      childless later =
    let k1 = with_mem (paused k parent) mem in
    let off = h.other in
    let same : linear k1 task_mm_pid mm_msg ≡ linear k task_mm_pid mm_msg = ground arith in
    let parents : (q : ℕ) → (k1.proc_table q).p_parent ≡ (k.proc_table q).p_parent =
      λ q. ground arith in
    let (k2, done, r) =
      do_exit-Reaped k1 mm_msg local pid parent status (ap (λ a. (mem a).source) same ∙ later)
        (parents pid ∙ is_parent) (paused-WaitsFor k mem local pid parent h hi other apart)
        (λ j lt e. childless j lt (sym (parents j) ∙ e)) in
    (
      paused k parent,
      k2,
      do_wait-waiting k mm_msg local parent who h.in_table quiet n children,
      done,
      r,
    )
