-- ===== src/Lifecycle/Forked.antt =====
-- What `do_fork` leaves behind.
use simple_os.Base.{
  ℕ, ◌+◌, ◌-◌, ◌%◌, ◌^◌, ◌≤◌, ◌≡◌, ◌≢◌, refl, sym, ap, ◌∙◌, arith, true, ◌&&◌, ltb, ==_ne, ==_self,
  if◌then◌else◌, List, leb,
}
use simple_os.Kernel.{
  Kernel, Message, Process, Cmd, ok, update, in_table, nr_tasks, nr_native_procs, ◌>>◌, pure,
  assert, modify,
}
use simple_os.Kernel.Segment.{seg_linear, segment_base, init_descriptor}
use simple_os.Allocator.{Mm, alloc_mem}
use simple_os.Ipc.{in_bounds}
use simple_os.Ipc.Phase.{IsReady, linear}
use simple_os.Lifecycle.{task_mm_pid, fork_result, syscall_ret}
use simple_os.Lifecycle.Sent.{
  Listens, filled, replied, reply-replied, replied-IsReady, replied_entry, replied_other,
  replied_far, fork_result-replied,
}
use simple_os.Lifecycle.Exit.{requester}
use simple_os.Lifecycle.Slot.{FirstFree, do_fork-fork_into}
use simple_os.Lifecycle.Fork.{
  segments_agree, child_base, copy_memory, fork_name, copy_process, new_segments, copy_image,
  invoke_child, fork_into, do_fork,
}

-- What the task writes for the parent, and for the child.
abbrev pub tell_pid : ℕ → Message → Message
tell_pid child m = record m { m3i2 = child }

abbrev pub tell_zero : Message → Message
tell_zero m = record m { type = syscall_ret; m3i1 = 0; m3i2 = 0 }

filled-told :
    (k : Kernel) (mm_msg child a : ℕ)
    → linear k task_mm_pid mm_msg ≡ a
    → ((filled k mm_msg (tell_pid child)).mem a).m3i2 ≡ child
filled-told k mm_msg child a e = ground (arith, e)

child_segment : (p : Process) → seg_linear (new_segments p).ldt_data ≡ child_base
unfolding seg_linear init_descriptor
child_segment p = refl

-- The entry of the child, before it gets its segments.
abbrev pub child_copy : Kernel → ℕ → ℕ → List ℕ → Process
child_copy k child pid name = record (k.proc_table pid) {
  ldt_sel = (k.proc_table child).ldt_sel;
  p_parent = pid;
  name = name;
}

abbrev pub copied_memory : Kernel → ℕ → ℕ → Message
copied_memory k src a =
    if leb (child_base + 0x100000) a && ltb a (child_base + 0x100000 + 0x100000)
    then k.mem (src + (a - (child_base + 0x100000)))
    else k.mem a

-- The state after `copy_process`, and after `copy_image`.
abbrev pub entered : Kernel → ℕ → ℕ → List ℕ → Kernel
entered k child pid name = record k {
  proc_table = update k.proc_table child (child_copy k child pid name);
}

abbrev pub copied : Kernel → ℕ → ℕ → List ℕ → Kernel
copied k child pid name =
    let t = (entered k child pid name).proc_table in
    record k {
      proc_table = update t child (new_segments (t child));
      mem = copied_memory k ((segment_base (k.proc_table pid).ldt_code + 0x100000) % 2 ^ 32);
    }

abbrev pub forked : Kernel → ℕ → ℕ → ℕ → ℕ → List ℕ → Kernel
forked k mm_msg local child pid name =
    replied (filled (copied k child pid name) mm_msg (tell_pid child)) local child tell_zero

-- The child is ready and goes on where its parent stands, but its `fork` returns 0; the number of
-- the child stands in the task's message, and no other process is changed.
pub record Forked (k : Kernel) (mm_msg child pid : ℕ) (k' : Kernel) : Type 0 where
  pub child_ready : IsReady (k'.proc_table child)
  pub child_result : fork_result child (k.proc_table pid).msg k' ≡ ok 0 k'
  pub child_parent : (k'.proc_table child).p_parent ≡ pid
  pub child_regs : (k'.proc_table child).regs ≡ (k.proc_table pid).regs
  pub others : (q : ℕ) → child ≢ q → k'.proc_table q ≡ k.proc_table q
  pub parent_same : k'.proc_table pid ≡ k.proc_table pid
  pub parent_pid : (k'.mem (linear k task_mm_pid mm_msg)).m3i2 ≡ child

-- A process `pid` has asked the task to fork, and entry `child` can be used for it.
pub record CanFork (k : Kernel) (local child pid : ℕ) (name : List ℕ) : Type 0 where
  pub parent : Listens k local pid
  pub slot : FirstFree k.proc_table child
  pub user : nr_tasks + nr_native_procs ≤ child
  pub apart : child ≢ pid
  pub agree : segments_agree (k.proc_table pid).ldt_code (k.proc_table pid).ldt_data ≡ true
  pub fits : fork_name (k.proc_table pid).name child k ≡ ok name k

module _ (k : Kernel) (local child pid : ℕ) (name : List ℕ)
    (h : CanFork k local child pid name) where
  copy_process-entered : copy_process child pid k ≡ ok tt (entered k child pid name)
  unfolding copy_process
  copy_process-entered = rw h.fits refl

  copied_other : (q : ℕ) → child ≢ q → (copied k child pid name).proc_table q ≡ k.proc_table q
  copied_other q ne = rw (==_ne child q ne) refl

  entered_other : (q : ℕ) → child ≢ q → (entered k child pid name).proc_table q ≡ k.proc_table q
  entered_other q ne = rw (==_ne child q ne) refl

  child_entry :
      (copied k child pid name).proc_table child ≡ new_segments (child_copy k child pid name)
  child_entry =
      let t = (entered k child pid name).proc_table in
      let old = k.proc_table child in
      ap (λ b. if b then new_segments (t child) else t child) (==_self child)
      ∙ ap (λ b. new_segments (if b then child_copy k child pid name else old)) (==_self child)

  copy_image-copied :
      copy_image child pid (entered k child pid name) ≡ ok tt (copied k child pid name)
  unfolding copy_image
  copy_image-copied =
      ap (λ p. image p (entered k child pid name)) (entered_other pid h.apart) ∙ rw h.agree refl
    where
      image : Process → Cmd (Unit {0})
      image p =
          assert (segments_agree p.ldt_code p.ldt_data)
          >> (copy_memory (child_base + 0x100000) ((segment_base p.ldt_code + 0x100000) % 2 ^ 32)
                0x100000
              >> modify child new_segments)

  module _ (mm_msg : ℕ) where
    -- The state when the task has written the number of the child.
    abbrev told : Kernel
    told = filled (copied k child pid name) mm_msg (tell_pid child)

    -- The child waits for an answer, as its parent does.
    child-Listens : Listens told local child
    child-Listens =
        let task_apart : child ≢ task_mm_pid = ground (arith, h.user) in
        let e = child_entry in
        let task = copied_other task_mm_pid task_apart in
        record {
          task = rw task h.parent.task;
          client = record {
            flags = ap (λ p. p.p_flags) e ∙ h.parent.client.flags;
            has_msg = λ z. h.parent.client.has_msg (sym (ap (λ p. p.msg) e) ∙ z);
            from = ap (λ p. p.p_recvfrom) e ∙ h.parent.client.from;
            to_none = ap (λ p. p.p_sendto) e ∙ h.parent.client.to_none;
          };
          somewhere = h.parent.somewhere;
          in_table = h.slot.inside;
          other = task_apart;
          task_space = rw task h.parent.task_space;
          client_space = ground (arith, h.user);
        }

    invoke_child-forked :
        invoke_child mm_msg local child (copied k child pid name)
        ≡ ok tt (forked k mm_msg local child pid name)
    invoke_child-forked = reply-replied told local child tell_zero child-Listens

    fork_into-forked :
        (mm : Mm)
        → requester k mm_msg ≡ pid
        → fork_into mm mm_msg local child k
          ≡ ok (0, (alloc_mem mm).1) (forked k mm_msg local child pid name)
    unfolding fork_into
    fork_into-forked mm who =
        let inside : in_table pid ≡ true = ground (arith, h.parent.in_table) in
        ap (λ p. rest p k) who
        ∙ rw inside (rw copy_process-entered (rw copy_image-copied (rw invoke_child-forked refl)))
      where
        rest : ℕ → Cmd (ℕ × Mm)
        rest p =
            in_bounds p
            >> (copy_process child p
                >> (copy_image child p
                    >> (invoke_child mm_msg local child >> pure (0, (alloc_mem mm).1))))

    child_result-forked :
        let k' = forked k mm_msg local child pid name in
        fork_result child (k.proc_table pid).msg k' ≡ ok 0 k'
    child_result-forked =
        ap (λ m. fork_result child m (forked k mm_msg local child pid name))
          (sym (ap (λ p. p.msg) child_entry))
        ∙ fork_result-replied told local child tell_zero child-Listens

    child_buffer :
        linear told child (told.proc_table child).msg
        ≡ (child_base + (k.proc_table pid).msg) % 2 ^ 32
    child_buffer =
        ap (λ p. (seg_linear p.ldt_data + p.msg) % 2 ^ 32) child_entry
        ∙ ap (λ b. (b + (k.proc_table pid).msg) % 2 ^ 32)
            (child_segment (child_copy k child pid name))

    same_space : (a : ℕ) → linear told task_mm_pid a ≡ linear k task_mm_pid a
    same_space a =
        ap (λ p. (seg_linear p.ldt_data + a) % 2 ^ 32)
          (copied_other task_mm_pid (ground (arith, h.user)))

    parent_pid-forked :
        linear k task_mm_pid local ≢ linear k task_mm_pid mm_msg
        → (child_base + (k.proc_table pid).msg) % 2 ^ 32 ≢ linear k task_mm_pid mm_msg
        → ((forked k mm_msg local child pid name).mem (linear k task_mm_pid mm_msg)).m3i2 ≡ child
    parent_pid-forked far far_child =
        let a = linear k task_mm_pid mm_msg in
        ap (λ m. m.m3i2)
          (replied_far told local child tell_zero child-Listens a
            (λ e. far (sym (same_space local) ∙ e)) (λ e. far_child (sym child_buffer ∙ e)))
        ∙ filled-told (copied k child pid name) mm_msg child a (same_space mm_msg)

    Forked-forked :
        linear k task_mm_pid local ≢ linear k task_mm_pid mm_msg
        → (child_base + (k.proc_table pid).msg) % 2 ^ 32 ≢ linear k task_mm_pid mm_msg
        → Forked k mm_msg child pid (forked k mm_msg local child pid name)
    Forked-forked far far_child =
        let entry = replied_entry told local child tell_zero child-Listens in
        let others : (q : ℕ)
            → child ≢ q
            → (forked k mm_msg local child pid name).proc_table q ≡ k.proc_table q =
          λ q ne. replied_other told local child tell_zero child-Listens q ne ∙ copied_other q ne in
        record {
          child_ready = replied-IsReady told local child tell_zero child-Listens;
          child_result = child_result-forked;
          child_parent = ap (λ p. p.p_parent) entry ∙ ap (λ p. p.p_parent) child_entry;
          child_regs = ap (λ p. p.regs) entry ∙ ap (λ p. p.regs) child_entry;
          others = others;
          parent_same = others pid h.apart;
          parent_pid = parent_pid-forked far far_child;
        }

-- If a process asks to fork, its segments agree, an entry behind the native processes is the first
-- free one, and the name of the child fits, then `do_fork` succeeds, without a failed `assert`: the
-- child is ready, has the registers of its parent, and its `fork` returns 0; the
-- number of the child stands in the task's message, and no other process is changed. The task's two
-- messages and the child's must not be the same memory.
pub do_fork-Forked :
    (mm : Mm) (k : Kernel) (mm_msg local child pid : ℕ) (name : List ℕ)
    → requester k mm_msg ≡ pid
    → CanFork k local child pid name
    → linear k task_mm_pid local ≢ linear k task_mm_pid mm_msg
    → (child_base + (k.proc_table pid).msg) % 2 ^ 32 ≢ linear k task_mm_pid mm_msg
    → (k' : Kernel) × (do_fork mm mm_msg local k ≡ ok (0, (alloc_mem mm).1) k')
      × Forked k mm_msg child pid k'
do_fork-Forked mm k mm_msg local child pid name who h far far_child = (
  forked k mm_msg local child pid name,
  do_fork-fork_into mm k mm_msg local child h.slot h.user
      ∙ fork_into-forked k local child pid name h mm_msg mm who,
  Forked-forked k local child pid name h mm_msg far far_child,
)
