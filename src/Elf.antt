-- ===== src/Elf.antt =====
-- Loading of an ELF image by its program headers, as kernel_loader/protected_code.c does it for the
-- kernel and `do_execl` of mm/mm.c for a program, with the structures of include/elf.h. Memory is a
-- function from addresses to bytes, so that the image, what is loaded and the screen are in the same
-- memory.
pub mod Copying
pub mod Image
pub mod Segments
pub mod Protected
pub mod Sections
pub mod Info
mod Tests
use simple_os.Base.{ℕ, zero, suc, ◌+◌, ◌*◌, ◌%◌, ◌^◌, ltb, ◌==◌, if◌then◌else◌, Option, none, some}
use simple_os.Kernel.{update}
use simple_os.Stdio.Screen.{screen, s32_print_int, clear_line}
use simple_os.Loader.{Bytes}

-- A byte, and words of two and four bytes, at an address of 32 bits.
abbrev pub byte_at : Bytes → ℕ → ℕ
byte_at memory a = memory (a % 2 ^ 32)

unfoldable pub u16_at : Bytes → ℕ → ℕ
u16_at memory a = byte_at memory a + 2 ^ 8 * byte_at memory (a + 1)

unfoldable pub u32_at : Bytes → ℕ → ℕ
u32_at memory a = u16_at memory a + 2 ^ 16 * u16_at memory (a + 2)

-- `elf32_ehdr_` behind its first 16 bytes.
pub record Elf32Ehdr : Type 0 where
  pub e_type : ℕ
  pub e_machine : ℕ
  pub e_version : ℕ
  pub e_entry : ℕ
  pub e_phoff : ℕ
  pub e_shoff : ℕ
  pub e_flags : ℕ
  pub e_ehsize : ℕ
  pub e_phentsize : ℕ
  pub e_phnum : ℕ
  pub e_shentsize : ℕ
  pub e_shnum : ℕ
  pub e_shstrndx : ℕ

abbrev pub ehdr_at : Bytes → ℕ → Elf32Ehdr
ehdr_at memory a = record {
  e_type = u16_at memory (a + 16);
  e_machine = u16_at memory (a + 18);
  e_version = u32_at memory (a + 20);
  e_entry = u32_at memory (a + 24);
  e_phoff = u32_at memory (a + 28);
  e_shoff = u32_at memory (a + 32);
  e_flags = u32_at memory (a + 36);
  e_ehsize = u16_at memory (a + 40);
  e_phentsize = u16_at memory (a + 42);
  e_phnum = u16_at memory (a + 44);
  e_shentsize = u16_at memory (a + 46);
  e_shnum = u16_at memory (a + 48);
  e_shstrndx = u16_at memory (a + 50);
}

-- `elf32_phdr_`
pub record Elf32Phdr : Type 0 where
  pub p_type : ℕ
  pub p_offset : ℕ
  pub p_vaddr : ℕ
  pub p_paddr : ℕ
  pub p_filesz : ℕ
  pub p_memsz : ℕ
  pub p_flags : ℕ
  pub p_align : ℕ

abbrev pub phdr_at : Bytes → ℕ → Elf32Phdr
phdr_at memory a = record {
  p_type = u32_at memory a;
  p_offset = u32_at memory (a + 4);
  p_vaddr = u32_at memory (a + 8);
  p_paddr = u32_at memory (a + 12);
  p_filesz = u32_at memory (a + 16);
  p_memsz = u32_at memory (a + 20);
  p_flags = u32_at memory (a + 24);
  p_align = u32_at memory (a + 28);
}

abbrev pub pt_load : ℕ
pt_load = 1

-- `dest`, `src` and `n` of a function that copies bytes.
abbrev pub Memcpy : Type 0
Memcpy = Bytes → ℕ → ℕ → ℕ → Bytes

-- `s32_memcpy`: byte after byte, each read after those before it are written.
unfoldable pub s32_memcpy : Memcpy
s32_memcpy memory dest src zero = memory
s32_memcpy memory dest src (suc n) =
    s32_memcpy (λ a. if a == dest then memory src else memory a) ((dest + 1) % 2 ^ 32)
      ((src + 1) % 2 ^ 32) n

-- The loop over the program headers of the image at `buff`, with a way to copy, the address that a
-- segment goes to, and what `note` writes for a number on a line of the screen: nothing in
-- `do_execl`. `line` is the last line that was written. The number of headers is read from memory
-- again each time.
module _ (memcpy : Memcpy) (note : ℕ → ℕ → Bytes → Bytes) (linear : ℕ → ℕ) (buff : ℕ) where
  abbrev pub note_entry : ℕ → Bytes → Bytes
  note_entry line memory = note line (ehdr_at memory buff).e_entry memory

  -- The notes on two lines, and the copy.
  abbrev pub load_segment : ℕ → ℕ → Bytes → Bytes
  load_segment line elf_pheader memory =
      let memory1 = note (line + 1) (phdr_at memory elf_pheader).p_vaddr memory in
      let memory2 = note (line + 2) (phdr_at memory1 elf_pheader).p_offset memory1 in
      let header = phdr_at memory2 elf_pheader in
      memcpy memory2 (linear header.p_vaddr) ((buff + header.p_offset) % 2 ^ 32) header.p_filesz

  -- One round, with `line` for the note of the entry: the last line then, and the memory.
  unfoldable pub copy_segment : ℕ → ℕ → Bytes → ℕ × Bytes
  copy_segment line elf_pheader memory =
      let memory1 = note_entry line memory in
      if (phdr_at memory1 elf_pheader).p_type == pt_load
      then (line + 2, load_segment line elf_pheader memory1)
      else (line, memory1)

  unfoldable pub segments_loop : ℕ → ℕ → ℕ → ℕ → Bytes → Option Bytes
  unfolding copy_segment
  segments_loop zero i line elf_pheader memory = none
  segments_loop (suc rounds) i line elf_pheader memory =
      let (line1, memory1) = copy_segment (line + 1) elf_pheader memory in
      let rest = segments_loop rounds (i + 1) line1 ((elf_pheader + 32) % 2 ^ 32) memory1 in
      if ltb i (ehdr_at memory buff).e_phnum then rest else some (note_entry (line + 1) memory)

  -- The loop from the first header on, and the notes before and behind it.
  abbrev pub copy_segments : ℕ → Bytes → Option Bytes
  copy_segments rounds memory =
      segments_loop rounds 0 11 ((buff + (ehdr_at memory buff).e_phoff) % 2 ^ 32)
        (note_entry 11 memory)

abbrev pub load_kernel_addr : ℕ
load_kernel_addr = 0x300000

-- Where `copy_elf_code` jumps, and the memory then.
abbrev pub jump : ℕ → Option Bytes → Option (ℕ × Bytes)
jump entry none = none
jump entry (some memory) = some (entry, memory)

-- `clear_line(line); s32_print_int(value, (u8*)(0xb8000+160*line), 16);`
unfoldable pub print_on_line : ℕ → ℕ → Bytes → Bytes
unfolding s32_print_int clear_line
print_on_line line value memory =
    s32_print_int value (screen + 160 * line) 16 (clear_line line memory)

-- 'P' and 'M' in the first cells of the screen.
abbrev pub write_pm : Bytes → Bytes
write_pm memory = update (update (update memory screen 0x50) (screen + 2) 0x4d) (screen + 3) 9

unfoldable pub copy_elf_code : ℕ → Bytes → Option (ℕ × Bytes)
copy_elf_code rounds memory =
    let memory1 = write_pm memory in
    jump (ehdr_at memory1 load_kernel_addr).e_entry
      (copy_segments s32_memcpy print_on_line (λ va. va) load_kernel_addr rounds memory1)
