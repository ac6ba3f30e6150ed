-- ===== src/InitProc.antt =====
-- `init_proc` of process.c: the process table at the start. The addresses that the linker chooses,
-- of the code of the processes and of `task_stack`, and the descriptors of the kernel's segments
-- are arguments.
pub mod Entry
pub mod Start
mod Tests
use simple_os.Base.{
  ℕ, zero, suc, ◌+◌, ◌-◌, ◌*◌, ◌%◌, ◌^◌, Bool, List, [], ◌∷◌, none, ◌==◌, if◌then◌else◌, ltb, leb,
  bit_or,
}
use simple_os.Kernel.{
  Process, StackFrame, ProcTable, Kernel, Message, nr_tasks, nr_procs, nr_native_procs, no_task,
  free_slot, update,
}
use simple_os.Kernel.Segment.{Descriptor, init_descriptor}
use simple_os.Strings.{s_strcmp, s_strcpy}

abbrev pub task_stack_size : ℕ
task_stack_size = 0x8000

-- STACK_SIZE_TOTAL, the length of the array `task_stack`
abbrev pub stack_size_total : ℕ
stack_size_total = task_stack_size * (nr_tasks + nr_native_procs)

abbrev pub selector_ldt_first : ℕ
selector_ldt_first = 5 * 8

abbrev pub privilege_task : ℕ
privilege_task = 1

abbrev pub privilege_user : ℕ
privilege_user = 3

abbrev pub da_c : ℕ
da_c = 0x98

abbrev pub da_drw : ℕ
da_drw = 0x92

abbrev pub da_32 : ℕ
da_32 = 0x4000

abbrev pub da_limit_4k : ℕ
da_limit_4k = 0x8000

-- A task: where its code starts, and its name.
pub record Task : Type 0 where
  pub init_eip : ℕ
  pub name : List ℕ

-- "INIT"
abbrev pub init_name : List ℕ
init_name = 0x49 ∷ 0x4e ∷ 0x49 ∷ 0x54 ∷ 0 ∷ []

-- The names of `task_table` and `user_proc_table`, one after the other.
unfoldable pub task_name : ℕ → List ℕ
task_name i =
    if i == 0
    then 0x54 ∷ 0x54 ∷ 0x59 ∷ 0 ∷ []
    else (if i == 1
        then 0x53 ∷ 0x59 ∷ 0x53 ∷ 0 ∷ []
        else (if i == 2
            then 0x4d ∷ 0x4d ∷ 0 ∷ []
            else (if i == 3
                then init_name
                else 0x70 ∷ 0x72 ∷ 0x6f ∷ 0x63 ∷ 0x20 ∷ (0x61 + i - 4) ∷ 0 ∷ [])))

-- What the linker and the boot code give: the code of each task, the address of `task_stack`, and
-- `gdt[SELECTOR_KERNEL_CS >> 3]` and `gdt[SELECTOR_KERNEL_DS >> 3]`.
pub record Image : Type 0 where
  pub init_eip : ℕ → ℕ
  pub task_stack : ℕ
  pub kernel_cs : Descriptor
  pub kernel_ds : Descriptor

abbrev pub with_tty : ℕ → ℕ → ProcTable → ProcTable
with_tty i tty_index t = update t i (record (t i) { tty_index = tty_index })

module _ (image : Image) where
  -- `task` for entry `i`
  unfoldable pub task_of : ℕ → Task
  unfolding task_name
  task_of i = record { init_eip = image.init_eip i; name = task_name i }

  -- The two segments of a process. The name tells the one whose segments start at 0 and are
  -- described anew.
  unfoldable pub ldt_of : Task → ℕ → Process → Process
  unfolding init_descriptor s_strcmp
  ldt_of task privilege proc =
      if s_strcmp task.name init_name == 0
      then record proc {
        ldt_code =
            init_descriptor proc.ldt_code 0 0x600
              (bit_or (bit_or (bit_or da_32 da_limit_4k) da_c) (privilege * 2 ^ 5));
        ldt_data =
            init_descriptor proc.ldt_data 0 0x600
              (bit_or (bit_or (bit_or da_32 da_limit_4k) da_drw) (privilege * 2 ^ 5));
      }
      else record proc {
        ldt_code = record (image.kernel_cs) { attr1 = bit_or da_c (privilege * 2 ^ 5) };
        ldt_data = record (image.kernel_ds) { attr1 = bit_or da_drw (privilege * 2 ^ 5) };
      }

  -- The registers that a process starts with; the others are left as they are.
  unfoldable pub regs_of : Task → ℕ → ℕ → ℕ → StackFrame → StackFrame
  regs_of task rpl eflags stack_top regs = record regs {
    cs = bit_or 4 rpl;
    ds = bit_or (bit_or 8 4) rpl;
    es = bit_or (bit_or 8 4) rpl;
    fs = bit_or (bit_or 8 4) rpl;
    ss = bit_or (bit_or 8 4) rpl;
    gs = bit_or 24 rpl;
    eip = task.init_eip;
    esp = stack_top;
    eflags = eflags;
  }

  -- One round of the loop for entry `i`; `rpl` is the same number as `privilege`. The last arguments
  -- are `selector_ldt` and `task_stack_top`, as the round leaves it.
  unfoldable pub init_entry : ℕ → ℕ → ℕ → Process → Process
  unfolding task_of ldt_of regs_of s_strcpy
  init_entry i selector_ldt stack_top proc =
      if leb (nr_tasks + nr_native_procs) i
      then record proc { p_flags = free_slot; ldt_sel = selector_ldt }
      else (let task = task_of i in
          let is_task = ltb i nr_tasks in
          let privilege = if is_task then privilege_task else privilege_user in
          let eflags = if is_task then 0x1202 else 0x202 in
          record (ldt_of task privilege proc) {
            name = s_strcpy task.name;
            p_parent = no_task;
            ldt_sel = selector_ldt;
            regs = regs_of task privilege eflags stack_top proc.regs;
            pid = i;
            tty_index = 0;
            p_flags = 0;
            msg = 0;
            p_recvfrom = no_task;
            p_sendto = no_task;
            has_int_msg = 0;
            q_sending = none;
            next_sending = none;
          })

  -- The `for` loop, with `rounds` left.
  unfoldable pub init_loop : ℕ → ℕ → ℕ → ℕ → ProcTable → ProcTable
  unfolding init_entry
  init_loop zero i selector_ldt task_stack_top t = t
  init_loop (suc rounds) i selector_ldt task_stack_top t =
      let top =
        if leb (nr_tasks + nr_native_procs) i
        then task_stack_top
        else (task_stack_top + task_stack_size) % 2 ^ 32 in
      init_loop rounds (i + 1) ((selector_ldt + 8) % 2 ^ 16) top
        (update t i (init_entry i selector_ldt top (t i)))

  unfoldable pub init_proc : ProcTable → ProcTable
  unfolding init_loop
  init_proc t = with_tty (nr_tasks + 2) 2 (
      with_tty (nr_tasks + 1) 1 (
        with_tty (nr_tasks + 0) 0 (
          init_loop (nr_tasks + nr_procs) 0 selector_ldt_first
            ((image.task_stack + task_stack_size) % 2 ^ 32) t)))

  -- What `kernel_main` does to the state that the message calls work on.
  pub kernel_main : Kernel → Kernel
  unfolding init_proc
  kernel_main k = record k { proc_table = init_proc k.proc_table; ready_process = 0 }
