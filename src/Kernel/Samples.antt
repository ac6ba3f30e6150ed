-- ===== src/Kernel/Samples.antt =====
-- A process for tests: it is ready, and its segments start at 0.
use simple_os.Base.{none, []}
use simple_os.Kernel.{Process, no_task}

abbrev pub ready : Process
ready = record {
  regs = record {
    gs = 0;
    fs = 0;
    es = 0;
    ds = 0;
    edi = 0;
    esi = 0;
    ebp = 0;
    kernel_esp = 0;
    ebx = 0;
    edx = 0;
    ecx = 0;
    eax = 0;
    retaddr = 0;
    eip = 0;
    cs = 0;
    eflags = 0;
    esp = 0;
    ss = 0;
  };
  ldt_sel = 0;
  ldt_code = record {
    limit_low = 0;
    base_low = 0;
    base_mid = 0;
    attr1 = 0;
    limit_high_attr2 = 0;
    base_high = 0;
  };
  ldt_data = record {
    limit_low = 0;
    base_low = 0;
    base_mid = 0;
    attr1 = 0;
    limit_high_attr2 = 0;
    base_high = 0;
  };
  pid = 0;
  tty_index = 0;
  p_flags = 0;
  msg = 0;
  p_recvfrom = no_task;
  p_sendto = no_task;
  has_int_msg = 0;
  p_parent = no_task;
  q_sending = none;
  next_sending = none;
  exit_status = 0;
  name = [];
}
