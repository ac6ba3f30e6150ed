-- ===== src/Lifecycle/Fork.antt =====
-- `do_fork` of mm/mm.c.
use simple_os.Base.{
  ℕ, zero, suc, ◌+◌, ◌-◌, ◌*◌, ◌/◌, ◌%◌, ◌^◌, Bool, ◌&&◌, not, Option, none, some, List, [], ◌∷◌,
  ◌++◌, ◌==◌, if◌then◌else◌, ltb, leb, bit_and, bit_or, length,
}
use simple_os.Kernel.{
  Process, ProcTable, Cmd, ok, fault, out_of_fuel, pure, assert, proc, modify, ◌>>=◌, ◌>>◌,
  free_slot, nr_tasks, nr_procs, nr_native_procs,
}
use simple_os.Kernel.Segment.{Descriptor, init_descriptor, segment_base, segment_limit}
use simple_os.InitProc.{da_c, da_drw, da_32, da_limit_4k, privilege_user}
use simple_os.Allocator.{Mm, alloc_mem}
use simple_os.Stdio.{s32_sprintf}
use simple_os.Strings.Laws.{text_of}
use simple_os.Ipc.{in_bounds}
use simple_os.Lifecycle.{task_mm_pid, syscall_ret, fill, received, reply}

-- The first free entry of the process table, or the number behind the last entry.
unfoldable pub find_slot : ℕ → ℕ → ProcTable → ℕ
find_slot zero i t = i
find_slot (suc rounds) i t =
    let rest = find_slot rounds (i + 1) t in if (t i).p_flags == free_slot then i else rest

-- The size of a segment whose limit is `limit`.
abbrev pub segment_size : Descriptor → ℕ → ℕ
segment_size d limit =
    let unit = if not (bit_and d.limit_high_attr2 (da_limit_4k / 2 ^ 8) == 0) then 4096 else 1 in
    (limit + 1) * unit % 2 ^ 32

-- What is asserted of the two segments of the caller; the size of the second is computed with the
-- limit of the first, as in the source.
unfoldable pub segments_agree : Descriptor → Descriptor → Bool
segments_agree text rest =
    (segment_base text == segment_base rest)
    && ((segment_limit text == segment_limit rest)
        && (segment_size text (segment_limit text) == segment_size rest (segment_limit text)))

abbrev pub child_base : ℕ
child_base = 0xa00000

-- `p_asm_memcpy` of a part of the memory.
abbrev pub copy_memory : ℕ → ℕ → ℕ → Cmd (Unit {0})
copy_memory dest src size k = ok tt (record k {
  mem = λ a. if leb dest a && ltb a (dest + size) then k.mem (src + (a - dest)) else k.mem a;
})

-- "%s_%d"
abbrev pub name_format : List ℕ
name_format = 0x25 ∷ 0x73 ∷ 0x5f ∷ 0x25 ∷ 0x64 ∷ []

abbrev pub task_name_len : ℕ
task_name_len = 32

-- The text stored in `name`, if it fits with the 0 that ends it.
abbrev pub stored_name : Option (List ℕ × ℕ) → Cmd (List ℕ)
stored_name none k = out_of_fuel
stored_name (some (text, count)) k =
    if ltb (length text) task_name_len then ok (text ++ (0 ∷ [])) k else fault

unfoldable pub fork_name : List ℕ → ℕ → Cmd (List ℕ)
unfolding s32_sprintf
fork_name name child =
    stored_name (s32_sprintf (λ a. text_of name) (λ i. if i == 0 then 0 else child) name_format)

-- The entry of the child is that of its parent, but for some fields.
unfoldable pub copy_process : ℕ → ℕ → Cmd (Unit {0})
copy_process child pid = do
  parent ← proc pid
  name ← fork_name parent.name child
  modify child (λ p. record parent { ldt_sel = p.ldt_sel; p_parent = pid; name = name })

-- The segments of the child.
abbrev pub new_segments : Process → Process
new_segments p = record p {
  ldt_code =
      init_descriptor p.ldt_code child_base 0x3ff
        (bit_or (bit_or (bit_or da_limit_4k da_32) da_c) (privilege_user * 2 ^ 5));
  ldt_data =
      init_descriptor p.ldt_data child_base 0x3ff
        (bit_or (bit_or (bit_or da_limit_4k da_32) da_drw) (privilege_user * 2 ^ 5));
}

unfoldable pub copy_image : ℕ → ℕ → Cmd (Unit {0})
copy_image child pid = do
  parent ← proc pid
  assert (segments_agree parent.ldt_code parent.ldt_data)
  copy_memory (child_base + 0x100000) ((segment_base parent.ldt_code + 0x100000) % 2 ^ 32) 0x100000
  modify child new_segments

abbrev pub invoke_child : ℕ → ℕ → ℕ → Cmd (Unit {0})
invoke_child mm_msg local child = do
  fill task_mm_pid mm_msg (λ m. record m { m3i2 = child })
  reply local child (λ m. record m { type = syscall_ret; m3i1 = 0; m3i2 = 0 })

-- The call when entry `child` is free. The block that `alloc_mem` gives is not used.
unfoldable pub fork_into : Mm → ℕ → ℕ → ℕ → Cmd (ℕ × Mm)
fork_into mm mm_msg local child = do
  msg ← received task_mm_pid mm_msg
  in_bounds msg.source
  copy_process child msg.source
  copy_image child msg.source
  invoke_child mm_msg local child
  pure (0, (alloc_mem mm).1)

unfoldable pub do_fork : Mm → ℕ → ℕ → Cmd (ℕ × Mm)
do_fork mm mm_msg local k =
    let child = find_slot (nr_tasks + nr_procs) 0 k.proc_table in
    (assert (leb (nr_tasks + nr_native_procs) child)
        >> (if child == nr_tasks + nr_procs
            then pure (2 ^ 32 - 1, mm)
            else fork_into mm mm_msg local child))
      k
