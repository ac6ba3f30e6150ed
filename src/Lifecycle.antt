-- ===== src/Lifecycle.antt =====
-- The life of a process: `fork`, `exit` and `wait` of syscall.c, and the parts of mm/mm.c that
-- answer them in the task TASK_MM. `mm_msg` is the address of the task's message, `local` that of
-- the message on its stack; a message on the stack keeps what the memory held where the code does
-- not write it.
pub mod Sent
pub mod Orphans
pub mod Exit
pub mod Wait
pub mod Family
pub mod Fork
pub mod Slot
pub mod Forked
pub mod Exec
pub mod Task
mod Tests
mod ExecTests
use simple_os.Base.{
  ℕ, zero, suc, ◌+◌, ◌-◌, ◌^◌, Bool, true, false, ◌&&◌, Option, none, some, List, ◌==◌,
  if◌then◌else◌, bit_and, bit_or,
}
use simple_os.Base.Bits.{not32}
use simple_os.Strings.{s_strlen}
use simple_os.Kernel.{
  Kernel, Message, Process, Cmd, ok, panic, pure, assert, proc, modify, ◌>>=◌, ◌>>◌, store_message,
  has, waiting, hanging, free_slot, no_task, nr_tasks, nr_procs,
}
use simple_os.Ipc.{in_bounds}
use simple_os.Syscall.{send, both, load_message, address, send_recv}

abbrev pub task_mm_pid : ℕ
task_mm_pid = 2

abbrev pub init_pid : ℕ
init_pid = 3

abbrev pub fork_type : ℕ
fork_type = 3

abbrev pub syscall_ret : ℕ
syscall_ret = 4

abbrev pub exit_type : ℕ
exit_type = 5

abbrev pub wait_type : ℕ
wait_type = 6

abbrev pub exec_type : ℕ
exec_type = 7

-- Fields of the message at `m` are written by the process `caller`.
abbrev pub fill : ℕ → ℕ → (Message → Message) → Cmd (Unit {0})
fill caller m f = do a ← address caller m; msg ← load_message a; store_message a (f msg)

abbrev pub received : ℕ → ℕ → Cmd Message
received caller m = do a ← address caller m; load_message a

-- The calls, with their message at `m`, up to their return from `send_recv`.
unfoldable pub fork : ℕ → ℕ → Cmd ℕ
fork caller m = do
  fill caller m (λ msg. record msg { type = fork_type })
  send_recv caller both task_mm_pid m

unfoldable pub exit : ℕ → ℕ → ℕ → Cmd ℕ
exit caller m s = do
  fill caller m (λ msg. record msg { type = exit_type; m3i1 = s })
  send_recv caller both task_mm_pid m

unfoldable pub wait : ℕ → ℕ → Cmd ℕ
wait caller m = do
  fill caller m (λ msg. record msg { type = wait_type })
  send_recv caller both task_mm_pid m

-- The name at the address `path`, as the list of its bytes, is measured here.
unfoldable pub execl : ℕ → ℕ → ℕ → List ℕ → Cmd ℕ
execl caller m path name = do
  fill caller m (λ msg. record msg {
    type = exec_type;
    m3p1 = path;
    m3i2 = s_strlen name;
    m3p2 = 0;
    m3i3 = 0;
  })
  send_recv caller both task_mm_pid m

-- What they do then. `wait` returns the status, too.
unfoldable pub fork_result : ℕ → ℕ → Cmd ℕ
fork_result caller m = do msg ← received caller m; pure msg.m3i2

unfoldable pub exit_result : ℕ → ℕ → Cmd (Unit {0})
exit_result caller m = do msg ← received caller m; assert (msg.type == syscall_ret)

unfoldable pub execl_result : ℕ → ℕ → Cmd ℕ
execl_result caller m = do msg ← received caller m; assert (msg.type == syscall_ret); pure msg.m3i1

unfoldable pub wait_result : ℕ → ℕ → Cmd (ℕ × ℕ)
wait_result caller m = do
  msg ← received caller m
  pure (msg.m3i1, if msg.m3i2 == no_task then 2 ^ 32 - 1 else msg.m3i2)

-- A message of the task, whose result the task does not use.
unfoldable pub reply : ℕ → ℕ → (Message → Message) → Cmd (Unit {0})
reply local dest f = do
  fill task_mm_pid local f
  ret ← send_recv task_mm_pid send dest local
  pure tt

unfoldable pub cleanup : ℕ → ℕ → Cmd (Unit {0})
cleanup local i = do
  p ← proc i
  in_bounds p.p_parent
  reply local p.p_parent (λ m. record m { type = syscall_ret; m3i2 = i; m3i1 = p.exit_status })
  modify i (λ p. record p { p_flags = free_slot })

-- `p_flags &= ~WAITING`, then `cleanup`.
abbrev pub wake : ℕ → ℕ → ℕ → Cmd (Unit {0})
wake local parent i = do
  modify parent (λ p. record p { p_flags = bit_and p.p_flags (not32 waiting) })
  cleanup local i

-- The parent is told, or marked.
unfoldable pub tell_parent : ℕ → ℕ → ℕ → Cmd (Unit {0})
tell_parent local parent i = do
  p ← proc parent
  if has p.p_flags waiting
      then wake local parent i
      else modify parent (λ p. record p { p_flags = bit_or p.p_flags hanging })

-- The body of the loop over the children, for process `i`. The comparison that stands in place of
-- an assignment has no effect.
unfoldable pub adopt : ℕ → ℕ → ℕ → Cmd (Unit {0})
adopt local pid i = do
  p ← proc i
  init ← proc init_pid
  if (p.p_parent == pid) && (has init.p_flags waiting && has p.p_flags hanging)
      then wake local init_pid i
      else pure tt

unfoldable pub adopt_loop : ℕ → ℕ → ℕ → ℕ → Cmd (Unit {0})
adopt_loop zero i local pid = pure tt
adopt_loop (suc rounds) i local pid = adopt local pid i >> adopt_loop rounds (i + 1) local pid

unfoldable pub exit_process : ℕ → ℕ → ℕ → Cmd (Unit {0})
exit_process local status pid = do
  in_bounds pid
  p ← proc pid
  modify pid (λ p. record p { exit_status = status })
  in_bounds p.p_parent
  tell_parent local p.p_parent pid
  adopt_loop (nr_tasks + nr_procs) 0 local pid

unfoldable pub do_exit : ℕ → ℕ → ℕ → Cmd (Unit {0})
do_exit mm_msg local status = do
  msg ← received task_mm_pid mm_msg
  exit_process local status msg.source

-- The loop of `do_wait`: the number of children, or `none` if a hanging one has been cleaned up.
unfoldable pub wait_loop : ℕ → ℕ → ℕ → ℕ → ℕ → Cmd (Option ℕ)
wait_loop zero i children local pid k = ok (some children) k
wait_loop (suc rounds) i children local pid k =
    let p = k.proc_table i in
    let more = if p.p_parent == pid then children + 1 else children in
    let rest = wait_loop rounds (i + 1) more local pid k in
    if (p.p_parent == pid) && has p.p_flags hanging then (cleanup local i >> pure none) k else rest

-- What follows the loop.
unfoldable pub after_loop : ℕ → ℕ → Option ℕ → Cmd (Unit {0})
after_loop local pid none = pure tt
after_loop local pid (some zero) =
    reply local pid (λ m. record m { type = syscall_ret; m3i2 = no_task })
after_loop local pid (some (suc n)) =
    modify pid (λ p. record p { p_flags = bit_or p.p_flags waiting })

unfoldable pub do_wait : ℕ → ℕ → Cmd (Unit {0})
do_wait mm_msg local = do
  msg ← received task_mm_pid mm_msg
  in_bounds msg.source
  children ← wait_loop (nr_tasks + nr_procs) 0 0 local msg.source
  after_loop local msg.source children
