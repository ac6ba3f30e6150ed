-- ===== src/Lifecycle/Task.antt =====
-- The task TASK_MM of systask.c, which answers `fork`, `exit`, `wait` and `execl`.
use simple_os.Base.{
  ℕ, ◌+◌, ◌<◌, ◌≡◌, refl, sym, ap, ◌∙◌, arith, ◌==◌, ==_self, ==_ne, if◌then◌else◌, true, some,
}
use simple_os.Kernel.{Kernel, Message, Process, Cmd, ok, panic, pure, in_table, any, ◌>>=◌, ◌>>◌}
use simple_os.Ipc.Phase.{linear, IsReady}
use simple_os.Allocator.{Mm, alloc_mem, free_mem}
use simple_os.RomFs.{INode, romfs_namei}
use simple_os.Storage.{StorageDevice}
use simple_os.Loader.{Bytes}
use simple_os.Elf.{ehdr_at}
use simple_os.Elf.Image.{IsImage, Loads, segment}
use simple_os.Syscall.{receive, send_recv}
use simple_os.Lifecycle.{
  task_mm_pid, fork_type, exit_type, wait_type, exec_type, syscall_ret, fill, received, reply,
  execl_result, do_exit, do_wait,
}
use simple_os.Lifecycle.Sent.{
  Listens, replied, reply-replied, replied-IsReady, replied_entry, replied_message, filled,
}
use simple_os.Lifecycle.Fork.{do_fork}
use simple_os.Lifecycle.Exec.{
  do_execl, do_execl-entered, entered, echo, bytes_from, file_in, in_process, max_path, file_start,
}

-- What the task keeps: the bytes in memory, and the map of the blocks.
abbrev pub Memory : Type 0
Memory = Bytes × Mm

-- `mm_msg.RETVAL = ...`, then the answer.
abbrev pub answer : ℕ → ℕ → ℕ → Cmd (Unit {0})
answer mm_msg src ret = do
  fill task_mm_pid mm_msg (λ m. record m { m3i1 = ret })
  reply mm_msg src (λ m. record m { type = syscall_ret })

-- The `switch` on a message, and the answer. `do_execl` returns nothing, so that the value which the
-- task takes for its result is any, `left`.
unfoldable pub serve : ℕ → ℕ → ℕ → StorageDevice → ℕ → ℕ → Memory → Cmd Memory
serve searches rounds left device mm_msg local (bytes, mm) = do
  msg ← received task_mm_pid mm_msg
  if msg.type == fork_type
      then (do
        (ret, mm1) ← do_fork mm mm_msg local
        answer mm_msg msg.source ret
        pure (bytes, mm1))
      else if msg.type == exit_type
      then (do_exit mm_msg local msg.m3i1 >> pure (bytes, mm))
      else if msg.type == wait_type
      then (do_wait mm_msg local >> pure (bytes, mm))
      else if msg.type == exec_type
      then (do
        memory ← do_execl searches rounds device bytes mm mm_msg
        answer mm_msg msg.source left
        pure memory)
      else (λ k. panic)

-- One round of `task_mm`, with its messages at `mm_msg` and, on its stack, at `local`.
unfoldable pub task_mm : ℕ → ℕ → ℕ → StorageDevice → ℕ → ℕ → Memory → Cmd Memory
task_mm searches rounds left device mm_msg local memory = do
  ret ← send_recv task_mm_pid receive any mm_msg
  serve searches rounds left device mm_msg local memory

-- A process whose next instruction was set still waits for the answer.
entered-Listens :
    (k : Kernel) (local src entry : ℕ)
    → Listens k local src
    → Listens (entered k src entry) local src
entered-Listens k local src entry h =
    let away = ==_ne src task_mm_pid h.other in
    let here = ==_self src in
    record {
      task = rw (away) h.task;
      client = rw (here) (record {
        flags = h.client.flags;
        has_msg = h.client.has_msg;
        from = h.client.from;
        to_none = h.client.to_none;
      });
      somewhere = h.somewhere;
      in_table = h.in_table;
      other = h.other;
      task_space = rw (away) h.task_space;
      client_space = rw (here) h.client_space;
    }

-- The result is written before the answer.
abbrev pub with_result : Kernel → ℕ → ℕ → Kernel
with_result k mm_msg ret = filled k mm_msg (λ m. record m { m3i1 = ret })

result-Listens :
    (k : Kernel) (mm_msg src ret : ℕ)
    → Listens k mm_msg src
    → Listens (with_result k mm_msg ret) mm_msg src
result-Listens k mm_msg src ret h = record {
  task = h.task;
  client = h.client;
  somewhere = h.somewhere;
  in_table = h.in_table;
  other = h.other;
  task_space = h.task_space;
  client_space = h.client_space;
}

-- What `execl` returns then is the result in the task's message.
execl_result-replied :
    (k : Kernel) (mm_msg src : ℕ)
    → Listens k mm_msg src
    → execl_result src
        (k.proc_table src).msg
        (replied k mm_msg src (λ m. record m { type = syscall_ret }))
      ≡ ok
          (k.mem (linear k task_mm_pid mm_msg)).m3i1
          (replied k mm_msg src (λ m. record m { type = syscall_ret }))
unfolding execl_result
execl_result-replied k mm_msg src h =
    let f = λ (m : Message). record m { type = syscall_ret } in
    let space : ((replied k mm_msg src f).proc_table src).ldt_data ≡ (k.proc_table src).ldt_data =
      ap (λ (p : Process). p.ldt_data) (replied_entry k mm_msg src f h) in
    rw space (rw (replied_message k mm_msg src f h) refl)

-- The same for a result that was written before, where the process calls with its message at `at`.
execl_result-with_result :
    (k : Kernel) (mm_msg src ret at : ℕ)
    → Listens k mm_msg src
    → (k.proc_table src).msg ≡ at
    → execl_result src at
        (replied (with_result k mm_msg ret) mm_msg src (λ m. record m { type = syscall_ret }))
      ≡ ok ret
          (replied (with_result k mm_msg ret) mm_msg src (λ m. record m { type = syscall_ret }))
execl_result-with_result k mm_msg src ret at h e =
    let k1 = with_result k mm_msg ret in
    let after = replied k1 mm_msg src (λ m. record m { type = syscall_ret }) in
    let written : (k1.mem (linear k task_mm_pid mm_msg)).m3i1 ≡ ret =
      rw (==_self (linear k task_mm_pid mm_msg)) refl in
    ap (λ (a : ℕ). execl_result src a after) (sym e)
    ∙ execl_result-replied k1 mm_msg src (result-Listens k mm_msg src ret h)
    ∙ ap (λ (r : ℕ). ok r after) written

-- Let TASK_MM serve an `execl`, with a name of less than 256 bytes, of a process that waits for its
-- answer, and let the file that `namei` finds be in order as an ELF image for this process, in the
-- block that it is read to. With a round for each program header and one more, the process is then
-- ready again, with the entry of the file as its next instruction and each segment to load in its
-- memory; the code that called would get `left` as its result.
pub serve-exec :
    (searches rounds left : ℕ)
    → (device : StorageDevice) → (mm_msg local : ℕ) → (bytes : Bytes) → (mm mm1 : Mm) → (k : Kernel)
    → (inode : INode) → (k.mem (linear k task_mm_pid mm_msg)).type ≡ exec_type
    → (k.mem (linear k task_mm_pid mm_msg)).m3i2 < max_path
    → Listens k mm_msg ((k.mem (linear k task_mm_pid mm_msg)).source)
    → romfs_namei searches (bytes_from bytes device.start_pos device.storage_size) echo mm
      ≡ some (some inode, mm1)
    → IsImage
        (file_in device bytes inode (alloc_mem mm1).0)
        (in_process (k.proc_table ((k.mem (linear k task_mm_pid mm_msg)).source)))
        (alloc_mem mm1).0
        inode.dsize
    → (ehdr_at (file_in device bytes inode (alloc_mem mm1).0) (alloc_mem mm1).0).e_phnum < rounds
    → let src = (k.mem (linear k task_mm_pid mm_msg)).source in
      let buf = (alloc_mem mm1).0 in
      let image = file_in device bytes inode buf in
      (k' : Kernel) × (after : Bytes) × (serve searches rounds left device mm_msg local
          (bytes, mm)
          k
        ≡ ok (after, free_mem (alloc_mem mm1).1 buf) k')
      × IsReady (k'.proc_table src)
      × ((k'.proc_table src).regs.eip ≡ (ehdr_at image buf).e_entry)
      × (execl_result src (k.proc_table src).msg k' ≡ ok left k')
      × ((j : ℕ)
          → Loads image buf j
          → (x : ℕ) → x < (segment image buf j).p_filesz
          → after (in_process (k.proc_table src) (segment image buf j).p_vaddr + x)
            ≡ bytes (file_start device inode + ((segment image buf j).p_offset + x)))
unfolding serve
serve-exec searches rounds left device mm_msg local bytes mm mm1 k inode type short waits found
      is_image enough =
    let src = (k.mem (linear k task_mm_pid mm_msg)).source in
    let buf = (alloc_mem mm1).0 in
    let entry = (ehdr_at (file_in device bytes inode buf) buf).e_entry in
    let known : in_table src ≡ true = ground (arith, waits.in_table) in
    let (after, result, content) =
      do_execl-entered searches rounds device bytes mm mm1 mm_msg k inode known short found is_image
        enough in
    let k1 = entered k src entry in
    let f = λ (m : Message). record m { type = syscall_ret } in
    let k2 = with_result k1 mm_msg left in
    let listens = result-Listens k1 mm_msg src left (entered-Listens k mm_msg src entry waits) in
    (
      replied k2 mm_msg src f,
      after,
      rw (type, result, reply-replied k2 mm_msg src f listens) refl,
      replied-IsReady k2 mm_msg src f listens,
      ap (λ (p : Process). p.regs.eip) (replied_entry k2 mm_msg src f listens)
          ∙ rw (==_self src) refl,
      execl_result-with_result k1 mm_msg src left (k.proc_table src).msg
          (entered-Listens k mm_msg src entry waits) (rw (==_self src) refl),
      content,
    )
