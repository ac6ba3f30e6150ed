-- ===== src/Lifecycle/Exec.antt =====
-- `do_execl` of mm/mm.c, on the file system of `RomFs`, the allocator and the loop over the program
-- headers of `Elf`. Beside the messages, memory holds bytes: those of the storage device, of the
-- block for the file, and of the program. The segments of the tasks start at 0, so that an address
-- in TASK_MM is a linear one, which `va2la` asserts.
use simple_os.Base.{
  false, ◌*◌, ℕ, zero, suc, ◌+◌, ◌-◌, ◌%◌, ◌^◌, ◌<◌, ◌≡◌, refl, ap, ◌∙◌, arith, ltb, leb, ◌==◌,
  true, if◌then◌else◌, Option, some, none, List, [], ◌∷◌,
}
use simple_os.Kernel.{
  in_table, Kernel, Process, Cmd, ok, fault, out_of_fuel, pure, assert, proc, modify, update, ◌>>=◌,
  ◌>>◌,
}
use simple_os.Kernel.Segment.{seg_linear}
use simple_os.Ipc.{in_bounds}
use simple_os.Ipc.Phase.{linear}
use simple_os.Allocator.{Mm, alloc_mem, free_mem}
use simple_os.RomFs.{INode, romfs_namei, romfs_get_daddr}
use simple_os.Storage.{StorageDevice, ramdisk_dout}
use simple_os.Loader.{Bytes}
use simple_os.Elf.{Memcpy, ehdr_at, copy_segments, s32_memcpy}
use simple_os.Elf.Copying.{CopyLaws, s32_memcpy-CopyLaws}
use simple_os.Elf.Image.{IsImage, Loads, segment}
use simple_os.Elf.Segments.{copy_segments-LoadedFrom}
use simple_os.Lifecycle.{task_mm_pid, received}

-- `p_asm_memcpy` of p_kernel.s
unfoldable pub p_asm_memcpy : Memcpy
p_asm_memcpy memory dest src zero = memory
p_asm_memcpy memory dest src (suc n) =
    p_asm_memcpy (λ a. if a == dest then memory src else memory a) ((dest + 1) % 2 ^ 32)
      ((src + 1) % 2 ^ 32) n

p_asm_memcpy-s32_memcpy :
    (memory : Bytes) (dest src n : ℕ)
    → p_asm_memcpy memory dest src n ≡ s32_memcpy memory dest src n
unfolding p_asm_memcpy s32_memcpy
p_asm_memcpy-s32_memcpy memory dest src zero = refl
p_asm_memcpy-s32_memcpy memory dest src (suc n) =
    p_asm_memcpy-s32_memcpy (λ a. if a == dest then memory src else memory a) ((dest + 1) % 2 ^ 32)
      ((src + 1) % 2 ^ 32) n

p_asm_memcpy-CopyLaws : CopyLaws p_asm_memcpy
p_asm_memcpy-CopyLaws = record {
  inside = λ memory dest src n i hd hs apart h.
      ap (λ (m : Bytes). m (dest + i)) (p_asm_memcpy-s32_memcpy memory dest src n)
      ∙ s32_memcpy-CopyLaws.inside memory dest src n i hd hs apart h;
  outside = λ memory dest src n a hd out.
      ap (λ (m : Bytes). m a) (p_asm_memcpy-s32_memcpy memory dest src n)
      ∙ s32_memcpy-CopyLaws.outside memory dest src n a hd out;
}

abbrev pub max_path : ℕ
max_path = 256

-- "echo"
abbrev pub echo : List ℕ
echo = 0x65 ∷ 0x63 ∷ 0x68 ∷ 0x6f ∷ []

-- The bytes of memory from an address on, so many.
abbrev pub bytes_from : Bytes → ℕ → ℕ → List ℕ
bytes_from memory at zero = []
bytes_from memory at (suc n) = memory at ∷ bytes_from memory (at + 1) n

-- The inode that `namei` finds. A null pointer for it is followed.
abbrev pub inode_of : Option (Option INode × Mm) → Cmd (INode × Mm)
inode_of none k = out_of_fuel
inode_of (some (none, mm)) k = fault
inode_of (some (some inode, mm)) k = ok (inode, mm) k

abbrev pub memory_of : Option Bytes → Cmd Bytes
memory_of none k = out_of_fuel
memory_of (some bytes) k = ok bytes k

-- The file read into the block at `buf`.
abbrev pub file_in : StorageDevice → Bytes → INode → ℕ → Bytes
file_in device bytes inode buf =
    (ramdisk_dout device buf (romfs_get_daddr inode) inode.dsize bytes).1

-- Where an address of the program is.
abbrev pub in_process : Process → ℕ → ℕ
in_process p va = (seg_linear p.ldt_data + va) % 2 ^ 32

-- `do_execl` writes nothing on the screen while it copies.
abbrev pub no_note : ℕ → ℕ → Bytes → Bytes
no_note line value bytes = bytes

-- The rest of the function, for the caller `src`, with the file in the block at `buf`. The `assert` of
-- `va2la` for the native processes, whose addresses are linear, is left out.
unfoldable pub exec_image : ℕ → Bytes → Mm → ℕ → ℕ → Cmd (Bytes × Mm)
exec_image rounds bytes mm buf src = do
  in_bounds src
  p ← proc src
  bytes1 ← memory_of (copy_segments p_asm_memcpy no_note (in_process p) buf rounds bytes)
  modify src (λ q. record q { regs = record (q.regs) { eip = (ehdr_at bytes buf).e_entry } })
  pure (bytes1, free_mem mm buf)

-- The call, with rounds for the search and for the loop. The path in the message is not used.
unfoldable pub do_execl : ℕ → ℕ → StorageDevice → Bytes → Mm → ℕ → Cmd (Bytes × Mm)
do_execl searches rounds device bytes mm mm_msg = do
  msg ← received task_mm_pid mm_msg
  assert (ltb ((msg.m3i2 + 2 ^ 31) % 2 ^ 32) (max_path + 2 ^ 31))
  (inode, mm1) ←
      inode_of
        (romfs_namei searches (bytes_from bytes device.start_pos device.storage_size) echo mm)
  let (buf, mm2) = alloc_mem mm1 in
      exec_image rounds (file_in device bytes inode buf) mm2 buf msg.source

-- Where the file is on the storage device.
abbrev pub file_start : StorageDevice → INode → ℕ
file_start device inode = (romfs_get_daddr inode + device.start_pos) % 2 ^ 32

shift : (a b c : ℕ) → a + b + c ≡ a + (b + c)
shift a b c = omega arith

file_in-content :
    (device : StorageDevice) (bytes : Bytes) (inode : INode) (buf x : ℕ)
    → x < inode.dsize
    → file_in device bytes inode buf (buf + x) ≡ bytes (file_start device inode + x)
unfolding ramdisk_dout
file_in-content device bytes inode buf x h =
    let low : leb buf (buf + x) ≡ true = ground arith in
    let high : ltb (buf + x) (buf + inode.dsize) ≡ true = ground arith in
    let at : buf + x - buf ≡ x = omega arith in rw (low, high, at) refl

-- The state with the entry of a program as the next instruction of a process.
abbrev pub entered : Kernel → ℕ → ℕ → Kernel
entered k src entry = record k {
  proc_table =
      update k.proc_table src
        (record (k.proc_table src) { regs = record ((k.proc_table src).regs) { eip = entry } });
}

-- If `namei` finds a file that is in order as an ELF image, the caller is in the process table and the
-- name in the message is not too long, then `do_execl`, with a round for each program header and one
-- more, sets the caller's next instruction to the entry of the file, with the bytes of each segment
-- to load at the segment's address in the caller's memory, and gives the block back.
pub do_execl-entered :
    (searches rounds : ℕ)
    → (device : StorageDevice) → (bytes : Bytes) → (mm mm1 : Mm) → (mm_msg : ℕ) → (k : Kernel)
    → (inode : INode) → in_table ((k.mem (linear k task_mm_pid mm_msg)).source) ≡ true
    → (k.mem (linear k task_mm_pid mm_msg)).m3i2 < max_path
    → romfs_namei searches (bytes_from bytes device.start_pos device.storage_size) echo mm
      ≡ some (some inode, mm1)
    → IsImage
        (file_in device bytes inode (alloc_mem mm1).0)
        (in_process (k.proc_table ((k.mem (linear k task_mm_pid mm_msg)).source)))
        (alloc_mem mm1).0
        inode.dsize
    → (ehdr_at (file_in device bytes inode (alloc_mem mm1).0) (alloc_mem mm1).0).e_phnum < rounds
    → let src = (k.mem (linear k task_mm_pid mm_msg)).source in
      let buf = (alloc_mem mm1).0 in
      let image = file_in device bytes inode buf in
      (after : Bytes) × (do_execl searches rounds device bytes mm mm_msg k
        ≡ ok (after, free_mem (alloc_mem mm1).1 buf) (entered k src (ehdr_at image buf).e_entry))
      × ((j : ℕ)
          → Loads image buf j
          → (x : ℕ) → x < (segment image buf j).p_filesz
          → after (in_process (k.proc_table src) (segment image buf j).p_vaddr + x)
            ≡ bytes (file_start device inode + ((segment image buf j).p_offset + x)))
unfolding do_execl exec_image
do_execl-entered searches rounds device bytes mm mm1 mm_msg k inode known short found is_image
      enough =
    let src = (k.mem (linear k task_mm_pid mm_msg)).source in
    let buf = (alloc_mem mm1).0 in
    let image = file_in device bytes inode buf in
    let (after, result, loaded) =
      copy_segments-LoadedFrom p_asm_memcpy p_asm_memcpy-CopyLaws (λ a. false)
        (in_process (k.proc_table src)) buf inode.dsize image is_image
        (record { image_off = λ a low high. refl; segments_off = λ j loads x h. refl }) no_note
        (14 + 3 * (ehdr_at image buf).e_phnum)
        (record { outside = λ line value memory a h dark. refl }) rounds image (λ a low high. refl)
        enough (omega arith) in
    let name : ltb (((k.mem (linear k task_mm_pid mm_msg)).m3i2 + 2 ^ 31) % 2 ^ 32)
          (max_path + 2 ^ 31)
        ≡ true =
      ground arith in
    (
      after,
      rw (name, found, known, result) refl,
      λ j loads x h.
          let off = (segment image buf j).p_offset in
          loaded.content j (omega arith) loads x h
          ∙ ap image (shift buf off x)
          ∙ file_in-content device bytes inode buf (off + x)
              (omega (arith, is_image.has_segments j loads)),
    )
