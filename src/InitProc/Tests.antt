-- ===== src/InitProc/Tests.antt =====
-- The start of the kernel in a table of zeros.
use simple_os.Base.{◌-◌, ◌+◌, ◌*◌, ◌<◌, ◌≡◌, ◌↔◌, refl, arith, none, []}
use simple_os.Kernel.{Process, Kernel, nr_tasks, nr_native_procs, reset_msg}
use simple_os.Kernel.Segment.{Descriptor}
use simple_os.InitProc.{Image, init_proc, kernel_main, task_stack_size, stack_size_total}
use simple_os.InitProc.Start.{Starts, kernel_main-Starts, init_proc-stack}

abbrev no_segment : Descriptor
no_segment = record {
  limit_low = 0;
  base_low = 0;
  base_mid = 0;
  attr1 = 0;
  limit_high_attr2 = 0;
  base_high = 0;
}

abbrev blank : Process
blank = record {
  regs = record {
    gs = 0;
    fs = 0;
    es = 0;
    ds = 0;
    edi = 0;
    esi = 0;
    ebp = 0;
    kernel_esp = 0;
    ebx = 0;
    edx = 0;
    ecx = 0;
    eax = 0;
    retaddr = 0;
    eip = 0;
    cs = 0;
    eflags = 0;
    esp = 0;
    ss = 0;
  };
  ldt_sel = 0;
  ldt_code = no_segment;
  ldt_data = no_segment;
  pid = 0;
  tty_index = 0;
  p_flags = 0;
  msg = 0;
  p_recvfrom = 0;
  p_sendto = 0;
  has_int_msg = 0;
  p_parent = 0;
  q_sending = none;
  next_sending = none;
  exit_status = 0;
  name = [];
}

abbrev image : Image
image = record {
  init_eip = λ i. 0x100000 + 0x1000 * i;
  task_stack = 0x120000;
  kernel_cs = no_segment;
  kernel_ds = no_segment;
}

abbrev bss : Kernel
bss = record { proc_table = λ q. blank; mem = λ a. reset_msg; ready_process = 0 }

kernel_main-Starts_example : Starts image (kernel_main image bss)
kernel_main-Starts_example = kernel_main-Starts image bss (λ q h. refl)

init_proc-stack_example :
    let top = (init_proc image bss.proc_table 6).regs.esp in
    (top ≡ image.task_stack + task_stack_size * (6 + 2))
    × ((image.task_stack + stack_size_total < top) ↔ (6 ≡ nr_tasks + nr_native_procs - 1))
init_proc-stack_example = init_proc-stack image bss.proc_table 6 (omega arith) (omega arith)
