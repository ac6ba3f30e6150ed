-- ===== src/Syscall.antt =====
-- The system call `sys_sendrec` of syscall.c and its users: `send_recv` of process.c, `get_ticks`
-- of syscall.c, `task_sys` of systask.c, and the clock interrupt of clock.c. A process whose call
-- has blocked it stops with `blocks`; what it does next is a definition of its own.
pub mod Source
pub mod Ticks
mod Tests
use simple_os.Base.{
  ℕ, ◌+◌, ◌%◌, ◌^◌, Bool, true, false, ◌&&◌, ◌||◌, not, ◌==◌, if◌then◌else◌, some, none,
}
use simple_os.Kernel.{
  Kernel, Message, Run, ok, panic, fault, out_of_fuel, blocks, Cmd, pure, assert, proc, ◌>>=◌, ◌>>◌,
  reset_msg, store_message, any, interrupt, in_table, nr_tasks, nr_procs,
}
use simple_os.Kernel.Segment.{seg_linear}
use simple_os.Ipc.{va2la, msg_send, msg_receive, schedule}

abbrev pub send : ℕ
send = 1

abbrev pub receive : ℕ
receive = 2

abbrev pub both : ℕ
both = 3

abbrev pub task_sys_pid : ℕ
task_sys_pid = 1

-- The message types of include/process.h that are used here.
abbrev pub get_ticks_type : ℕ
get_ticks_type = 2

abbrev pub load_message : ℕ → Cmd Message
load_message a k = ok (k.mem a) k

-- `msg->source = caller;`, then the check that the caller does not talk to itself.
abbrev pub stamp : ℕ → ℕ → Cmd (Unit {0})
stamp a caller = do m ← load_message a; store_message a (record m { source = caller })

-- The loops of the message calls need a round for each entry of the process table.
unfoldable pub sys_sendrec : ℕ → ℕ → ℕ → ℕ → ℕ → Cmd ℕ
sys_sendrec k_reenter function src_dest m caller = do
  assert (k_reenter == 0)
  assert (in_table src_dest || src_dest == any || src_dest == interrupt)
  msg ← va2la caller m
  stamp msg caller
  assert (not (caller == src_dest))
  if function == send
      then msg_send (nr_tasks + nr_procs) caller src_dest m
      else if function == receive
      then msg_receive (nr_tasks + nr_procs) caller src_dest m
      else λ k. panic

-- How a call returns to the process that made it.
abbrev pub return_to : ℕ → Run ℕ → Run ℕ
return_to caller (ok ret k) = if (k.proc_table caller).p_flags == 0 then ok ret k else blocks k
return_to caller panic = panic
return_to caller fault = fault
return_to caller out_of_fuel = out_of_fuel
return_to caller (blocks k) = blocks k

-- The trap from a process, which finds the kernel not entered already.
unfoldable pub sendrec : ℕ → ℕ → ℕ → ℕ → Cmd ℕ
sendrec caller function src_dest m k = return_to caller (sys_sendrec 0 function src_dest m caller k)

-- The linear address that a process reads or writes.
abbrev pub address : ℕ → ℕ → Cmd ℕ
address p va = do q ← proc p; pure ((seg_linear q.ldt_data + va) % 2 ^ 32)

abbrev pub clear_message : ℕ → ℕ → Cmd (Unit {0})
clear_message caller m = do a ← address caller m; store_message a reset_msg

-- `case BOTH`
unfoldable pub call_both : ℕ → ℕ → ℕ → Cmd ℕ
call_both caller src_dest m = do
  ret ← sendrec caller send src_dest m
  if ret == 0 then sendrec caller receive src_dest m else pure ret

unfoldable pub send_recv : ℕ → ℕ → ℕ → ℕ → Cmd ℕ
send_recv caller function src_dest m = do
  if function == receive then clear_message caller m else pure tt
  if function == both
      then call_both caller src_dest m
      else if function == send || function == receive
      then sendrec caller function src_dest m
      else λ k. panic

-- `get_ticks`, with its local message at `m`, up to its return from `send_recv`.
unfoldable pub get_ticks : ℕ → ℕ → Cmd ℕ
get_ticks caller m = do
  a ← address caller m
  store_message a (record reset_msg { type = get_ticks_type })
  send_recv caller both task_sys_pid m

-- What `get_ticks` returns then.
unfoldable pub get_ticks_result : ℕ → ℕ → Cmd ℕ
get_ticks_result caller m = do a ← address caller m; msg ← load_message a; pure msg.m3i1

-- `case GET_TICKS`, for the message at `m`, which stands at address `a`
unfoldable pub reply_ticks : ℕ → ℕ → ℕ → Message → Cmd ℕ
reply_ticks ticks m a msg = do
  store_message a (record msg { m3i1 = ticks })
  send_recv task_sys_pid send msg.source m

-- The `switch` of `task_sys`, with its local message at `m`.
unfoldable pub task_sys_reply : ℕ → ℕ → Cmd ℕ
task_sys_reply ticks m = do
  a ← address task_sys_pid m
  msg ← load_message a
  if msg.type == get_ticks_type then reply_ticks ticks m a msg else λ k. panic

-- One round of `task_sys`.
unfoldable pub task_sys : ℕ → ℕ → Cmd ℕ
task_sys ticks m = do ret ← send_recv task_sys_pid receive any m; task_sys_reply ticks m

-- The clock interrupt: the ticks are counted, and if no interrupt was being served before, another
-- process is chosen.
unfoldable pub clock_handler : ℕ → ℕ → Kernel → ℕ × Run (Unit {0})
clock_handler k_reenter ticks k =
    ((ticks + 1) % 2 ^ 32, if k_reenter == 0 then schedule (nr_tasks + nr_procs) k else ok tt k)
