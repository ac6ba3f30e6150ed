-- ===== src/Lifecycle/ExecTests.antt =====
-- Process 7 executes the program "echo": an ELF file of 124 bytes at offset 80 of a file system that
-- starts at 0x200000, of which one segment is to load, at 0x5000.
use simple_os.Base.{ℕ, zero, suc, ◌+◌, ◌<◌, ◌≡◌, inl, refl, arith, [], ◌∷◌, some}
use simple_os.Kernel.{Kernel, Process, ok, reset_msg, update, receiving}
use simple_os.Kernel.Samples.{ready}
use simple_os.Kernel.Segment.{seg_linear}
use simple_os.Ipc.Phase.{IsReady}
use simple_os.Allocator.{Mm, alloc_mem, free_mem, find_from, find_free_area}
use simple_os.Strings.{s_strlen, strlen_loop, s_strcmp}
use simple_os.RomFs.{
  INode, romfs_namei, namei_loop, romfs_get_daddr, be32tole32, get_next_16_boundary,
  print_romfs_entry, fill_inode,
}
use simple_os.Storage.{StorageDevice, ramdisk_dout}
use simple_os.Loader.{Bytes}
use simple_os.Loader.Sample.{written}
use simple_os.Elf.{ehdr_at, u16_at, u32_at}
use simple_os.Elf.Image.{IsImage, Loads, segment}
use simple_os.Lifecycle.{execl_result}
use simple_os.Lifecycle.Sent.{Listens}
use simple_os.Lifecycle.Exec.{
  do_execl, do_execl-entered, entered, echo, bytes_from, file_in, in_process, file_start,
}
use simple_os.Lifecycle.Task.{serve, serve-exec}

abbrev disk : Bytes
disk a =
    written
      ((0x200013, 48)
        ∷ (0x20003b, 124)
        ∷ (0x200040, 0x65)
        ∷ (0x200041, 0x63)
        ∷ (0x200042, 0x68)
        ∷ (0x200043, 0x6f)
        ∷ (0x200069, 0x50)
        ∷ (0x20006c, 52)
        ∷ (0x20007c, 2)
        ∷ (0x200084, 1)
        ∷ (0x200088, 120)
        ∷ (0x20008d, 0x50)
        ∷ (0x200094, 4)
        ∷ (0x2000a4, 6)
        ∷ (0x2000c8, 0x90)
        ∷ (0x2000cb, 0xc3)
        ∷ [])
      a

abbrev device : StorageDevice
device = record { start_pos = 0x200000; sector_size = 512; storage_size = 204 }

abbrev mm : Mm
mm = record { memory_used = 0; mm_start = 0x1000000 }

abbrev mm_found : Mm
mm_found = record { memory_used = 2; mm_start = 0x1000000 }

abbrev inode : INode
inode = record { fn_name = 64; dsize = 124; daddr = 48 }

abbrev caller : Process
caller = record ready { p_flags = receiving; msg = 0x9000; p_recvfrom = 2 }

abbrev asked : Kernel
asked = record {
  proc_table = update (λ q. ready) 7 caller;
  mem = λ a. record reset_msg { source = 7; type = 7 };
  ready_process = 2;
}

echo-found : romfs_namei 2 (bytes_from disk 0x200000 204) echo mm ≡ some (some inode, mm_found)
unfolding romfs_namei namei_loop be32tole32 get_next_16_boundary print_romfs_entry fill_inode
    alloc_mem free_mem find_from find_free_area s_strlen strlen_loop s_strcmp
echo-found = refl

abbrev image : Bytes
image = file_in device disk inode 0x1000000

image-first : (j : ℕ) → Loads image 0x1000000 j → j ≡ 0
unfolding ramdisk_dout romfs_get_daddr get_next_16_boundary u32_at u16_at
image-first zero loads = refl
image-first (suc zero) (h, type) = let other : 6 ≡ 1 = type in absurd (omega (arith, other))
image-first (suc (suc j)) (h, type) = let few : suc (suc j) < 2 = h in absurd (omega arith)

image-few : (ehdr_at image 0x1000000).e_phnum < 3
unfolding ramdisk_dout romfs_get_daddr get_next_16_boundary u32_at u16_at
image-few = omega arith

image-IsImage : IsImage image (in_process caller) 0x1000000 124
unfolding ramdisk_dout romfs_get_daddr get_next_16_boundary u32_at u16_at seg_linear
image-IsImage = record {
  fits = omega arith;
  has_header = omega arith;
  has_headers = omega arith;
  has_segments = λ j loads. rw (image-first j loads) (omega arith);
  below = λ j loads. rw (image-first j loads) (omega arith);
  beside = λ j loads. rw (image-first j loads) (inl (omega arith));
  apart =
      λ j k before first second. absurd (omega (arith, image-first j first, image-first k second));
}

do_execl-entered_example :
    (after : Bytes) × (do_execl 2 3 device disk mm 0x7000 asked
      ≡ ok
          (after, free_mem (alloc_mem mm_found).1 (alloc_mem mm_found).0)
          (entered asked 7 (ehdr_at image 0x1000000).e_entry))
    × ((j : ℕ)
        → Loads image 0x1000000 j
        → (x : ℕ) → x < (segment image 0x1000000 j).p_filesz
        → after (in_process caller (segment image 0x1000000 j).p_vaddr + x)
          ≡ disk (file_start device inode + ((segment image 0x1000000 j).p_offset + x)))
unfolding alloc_mem find_from find_free_area
do_execl-entered_example =
    do_execl-entered 2 3 device disk mm mm_found 0x7000 asked inode refl (omega arith) echo-found
      image-IsImage image-few

caller-Listens : Listens asked 0x7000 7
unfolding seg_linear
caller-Listens = record {
  task = ground arith;
  client = ground arith;
  somewhere = omega arith;
  in_table = omega arith;
  other = omega arith;
  task_space = refl;
  client_space = refl;
}

serve-exec_example :
    (k' : Kernel) × (after : Bytes) × (serve 2 3 0 device 0x7000 0x6000 (disk, mm) asked
      ≡ ok (after, free_mem (alloc_mem mm_found).1 (alloc_mem mm_found).0) k')
    × IsReady (k'.proc_table 7)
    × ((k'.proc_table 7).regs.eip ≡ (ehdr_at image 0x1000000).e_entry)
    × (execl_result 7 0x9000 k' ≡ ok 0 k')
    × ((j : ℕ)
        → Loads image 0x1000000 j
        → (x : ℕ) → x < (segment image 0x1000000 j).p_filesz
        → after (in_process caller (segment image 0x1000000 j).p_vaddr + x)
          ≡ disk (file_start device inode + ((segment image 0x1000000 j).p_offset + x)))
unfolding alloc_mem find_from find_free_area
serve-exec_example =
    serve-exec 2 3 0 device 0x7000 0x6000 disk mm mm_found asked inode refl (omega arith)
      caller-Listens echo-found image-IsImage image-few
