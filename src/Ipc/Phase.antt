-- ===== src/Ipc/Phase.antt =====
-- The phases of a process in message passing, as the asserts of process.c describe them.
use simple_os.Base.{ℕ, ◌+◌, ◌%◌, ◌^◌, ◌≡◌, ◌≢◌, true, ◌||◌, not, ◌==◌, ltb}
use simple_os.Kernel.{Kernel, Process, sending, receiving, no_task, nr_tasks, nr_native_procs}
use simple_os.Kernel.Segment.{seg_linear}

pub record IsReady (p : Process) : Type 0 where
  pub flags : p.p_flags ≡ 0
  pub no_msg : p.msg ≡ 0
  pub from_none : p.p_recvfrom ≡ no_task
  pub to_none : p.p_sendto ≡ no_task

pub record IsSending (p : Process) (dest : ℕ) : Type 0 where
  pub flags : p.p_flags ≡ sending
  pub has_msg : p.msg ≢ 0
  pub from_none : p.p_recvfrom ≡ no_task
  pub to : p.p_sendto ≡ dest

pub record IsReceiving (p : Process) (src : ℕ) : Type 0 where
  pub flags : p.p_flags ≡ receiving
  pub has_msg : p.msg ≢ 0
  pub from : p.p_recvfrom ≡ src
  pub to_none : p.p_sendto ≡ no_task

-- The linear address that process `p` means by `va`.
abbrev pub linear : Kernel → ℕ → ℕ → ℕ
linear k p va = (seg_linear (k.proc_table p).ldt_data + va) % 2 ^ 32

-- For the native processes addresses are linear.
abbrev pub Addressable : Kernel → ℕ → ℕ → Type 0
Addressable k p va = (not (ltb p (nr_tasks + nr_native_procs)) || linear k p va == va) ≡ true

-- The fields of a process that say what it is doing in message passing, and its parent, are kept.
pub record SameCall (p p' : Process) : Type 0 where
  pub flags : p'.p_flags ≡ p.p_flags
  pub msg : p'.msg ≡ p.msg
  pub from : p'.p_recvfrom ≡ p.p_recvfrom
  pub to : p'.p_sendto ≡ p.p_sendto
  pub parent : p'.p_parent ≡ p.p_parent
