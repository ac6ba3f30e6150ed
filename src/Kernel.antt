-- ===== src/Kernel.antt =====
-- The process table of include/process.h, the messages that the processes exchange, and the
-- commands that change them. An address is a number; a pointer to a process is its index in
-- `proc_table`, and a null pointer of that kind is `none`.
pub mod Segment
pub mod Samples
use simple_os.Base.{
  ℕ, ◌+◌, ◌-◌, ◌*◌, ◌%◌, ◌^◌, ◌≡◌, Bool, true, false, Option, none, some, List, ◌==◌, if◌then◌else◌,
  ltb, bit_and, not,
}
use simple_os.Kernel.Segment.{Descriptor}

abbrev pub nr_tasks : ℕ
nr_tasks = 3

abbrev pub nr_procs : ℕ
nr_procs = 32

abbrev pub nr_native_procs : ℕ
nr_native_procs = 4

abbrev pub any : ℕ
any = nr_tasks + nr_procs + 10

abbrev pub no_task : ℕ
no_task = nr_tasks + nr_procs + 20

-- -10 as a 32-bit pattern
abbrev pub interrupt : ℕ
interrupt = 2 ^ 32 - 10

-- The flags of `p_flags`.
abbrev pub sending : ℕ
sending = 0x02

abbrev pub receiving : ℕ
receiving = 0x04

abbrev pub waiting : ℕ
waiting = 0x08

abbrev pub hanging : ℕ
hanging = 0x10

abbrev pub free_slot : ℕ
free_slot = 0x20

-- `p_flags & flag`, as a condition
abbrev pub has : ℕ → ℕ → Bool
has flags flag = not (bit_and flags flag == 0)

-- `Message` with the arm `m3` of its union, the only one that the kernel uses. `RETVAL` and
-- `STATUS` are `m3i1`, `PID` and `NAME_LEN` are `m3i2`.
pub record Message : Type 0 where
  pub source : ℕ
  pub type : ℕ
  pub m3i1 : ℕ
  pub m3i2 : ℕ
  pub m3i3 : ℕ
  pub m3i4 : ℕ
  pub m3l1 : ℕ
  pub m3l2 : ℕ
  pub m3p1 : ℕ
  pub m3p2 : ℕ

-- `reset_msg`: all bytes 0
abbrev pub reset_msg : Message
reset_msg = record {
  source = 0;
  type = 0;
  m3i1 = 0;
  m3i2 = 0;
  m3i3 = 0;
  m3i4 = 0;
  m3l1 = 0;
  m3l2 = 0;
  m3p1 = 0;
  m3p2 = 0;
}

-- The registers that are saved when a process is interrupted.
pub record StackFrame : Type 0 where
  pub gs : ℕ
  pub fs : ℕ
  pub es : ℕ
  pub ds : ℕ
  pub edi : ℕ
  pub esi : ℕ
  pub ebp : ℕ
  pub kernel_esp : ℕ
  pub ebx : ℕ
  pub edx : ℕ
  pub ecx : ℕ
  pub eax : ℕ
  pub retaddr : ℕ
  pub eip : ℕ
  pub cs : ℕ
  pub eflags : ℕ
  pub esp : ℕ
  pub ss : ℕ

pub record Process : Type 0 where
  pub regs : StackFrame
  pub ldt_sel : ℕ
  pub ldt_code : Descriptor
  pub ldt_data : Descriptor
  pub pid : ℕ
  pub tty_index : ℕ
  pub p_flags : ℕ
  pub msg : ℕ
  pub p_recvfrom : ℕ
  pub p_sendto : ℕ
  pub has_int_msg : ℕ
  pub p_parent : ℕ
  pub q_sending : Option ℕ
  pub next_sending : Option ℕ
  pub exit_status : ℕ
  pub name : List ℕ

abbrev pub ProcTable : Type 0
ProcTable = ℕ → Process

-- The state that the message calls work on. `mem` is the memory as far as it holds messages, by
-- linear address; messages do not overlap in part. `ready_process` is an index.
pub record Kernel : Type 0 where
  pub proc_table : ProcTable
  pub mem : ℕ → Message
  pub ready_process : ℕ

-- A run ends with a result, or stops: at a failed `assert` or a `panic`, at an access outside
-- `proc_table`, or because the rounds given to a loop are used up. `blocks` is for the code of a
-- process: its system call has blocked it, and what follows runs when it is unblocked.
pub data Run (A : Type 0) : Type 0 where
  ok : A → Kernel → Run A
  panic fault out_of_fuel : Run A
  blocks : Kernel → Run A

abbrev pub Cmd : Type 0 → Type 0
Cmd A = Kernel → Run A

abbrev pub pure : {A : Type 0} → A → Cmd A
pure a k = ok a k

abbrev pub and_then : {A B : Type 0} → Run A → (A → Cmd B) → Run B
and_then (ok a k) f = f a k
and_then panic f = panic
and_then fault f = fault
and_then out_of_fuel f = out_of_fuel
and_then (blocks k) f = blocks k

infixl 5 ◌>>=◌ ◌>>◌
abbrev pub ◌>>=◌ : {A B : Type 0} → Cmd A → (A → Cmd B) → Cmd B
◌>>=◌ m f k = and_then (m k) f

abbrev pub ◌>>◌ : {B : Type 0} → Cmd (Unit {0}) → Cmd B → Cmd B
m >> n = m >>= λ _. n

abbrev pub assert : Bool → Cmd (Unit {0})
assert true k = ok tt k
assert false k = panic

-- A read of `proc_table[p]`.
abbrev pub proc : ℕ → Cmd Process
proc p k = ok (k.proc_table p) k

abbrev pub update {ℓ} : {A : Type ℓ} (table : ℕ → A) (p : ℕ) (entry : A) → ℕ → A
update table p entry q = if p == q then entry else table q

-- A change of some fields of `proc_table[p]`.
abbrev pub modify : ℕ → (Process → Process) → Cmd (Unit {0})
modify p f k = ok tt (record k { proc_table = update k.proc_table p (f (k.proc_table p)) })

-- `p_asm_memcpy(dest, src, sizeof(Message))`
abbrev pub copy_message : ℕ → ℕ → Cmd (Unit {0})
copy_message dest src k = ok tt (record k { mem = update k.mem dest (k.mem src) })

abbrev pub store_message : ℕ → Message → Cmd (Unit {0})
store_message dest m k = ok tt (record k { mem = update k.mem dest m })

-- Where `proc_table` ends.
abbrev pub in_table : ℕ → Bool
in_table p = ltb p (nr_tasks + nr_procs)
