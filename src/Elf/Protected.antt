-- ===== src/Elf/Protected.antt =====
-- `copy_elf_code` of kernel_loader/protected_code.c: the kernel is loaded, and what the code notes on
-- the screen stays there.
use simple_os.Base.{
  ℕ, ◌+◌, ◌*◌, ◌≤◌, ◌<◌, ◌≡◌, refl, ap, ◌∙◌, arith, Bool, false, ◌&&◌, ltb, leb, some, ==_ne,
}
use simple_os.Loader.{Bytes}
use simple_os.Stdio.Screen.{screen, s32_print_int-outside, clear_line, clear_line-outside}
use simple_os.Elf.{
  ehdr_at, s32_memcpy, load_kernel_addr, jump, copy_elf_code, print_on_line, write_pm,
}
use simple_os.Elf.Copying.{Apart, s32_memcpy-CopyLaws}
use simple_os.Elf.Image.{
  Agree, segment, Loads, IsImage, LoadedFrom, NoteLaws, OffScreen, entry_same,
}
use simple_os.Elf.Segments.{copy_segments-LoadedFrom}

-- The 32 KB of text memory, which have 204 lines.
abbrev pub on_text_screen : ℕ → Bool
on_text_screen a = leb 0xb8000 a && ltb a 0xc0000

print_on_line-NoteLaws : NoteLaws print_on_line on_text_screen 204
unfolding print_on_line
print_on_line-NoteLaws = record {
  outside = λ line value memory a h dark.
      s32_print_int-outside value (screen + 160 * line) 16 (clear_line line memory) a (omega arith)
        (omega arith) (ground (arith, dark))
      ∙ clear_line-outside line memory a (omega arith) (ground (arith, dark));
}

write_pm-outside :
    (memory : Bytes) (a : ℕ) → on_text_screen a ≡ false → write_pm memory a ≡ memory a
write_pm-outside memory a dark =
    rw
      (
        ==_ne screen a (λ e. ground (arith, dark, e)),
        ==_ne (screen + 2) a (λ e. ground (arith, dark, e)),
        ==_ne (screen + 3) a (λ e. ground (arith, dark, e)),
      )
      refl

-- The image and its segments are off the screen.
kernel-OffScreen :
    (image : Bytes) (size : ℕ)
    → ((j : ℕ)
        → Loads image load_kernel_addr j
        → Apart
            (segment image load_kernel_addr j).p_vaddr
            (segment image load_kernel_addr j).p_filesz
            0xb8000
            0x8000)
    → OffScreen on_text_screen image (λ va. va) load_kernel_addr size
kernel-OffScreen image size dark = record {
  image_off = λ a low high. ground arith;
  segments_off = λ j loads k h. ground (arith, dark j loads);
}

-- If the kernel's ELF file in memory is in order, has at most 63 program headers, and no segment goes to
-- the text memory of the screen, then `copy_elf_code`, with a round for each program header and one
-- more, jumps to its entry, with each segment to load in its place. The rest of the memory is as it
-- was, that of the file included, but for the text memory, 0xb8000 to 0xbffff, where the code
-- writes what it does.
pub copy_elf_code-LoadedFrom :
    (image : Bytes)
    → (size : ℕ) → IsImage image (λ va. va) load_kernel_addr size
    → (ehdr_at image load_kernel_addr).e_phnum ≤ 63
    → ((j : ℕ)
        → Loads image load_kernel_addr j
        → Apart
            (segment image load_kernel_addr j).p_vaddr
            (segment image load_kernel_addr j).p_filesz
            0xb8000
            0x8000)
    → (rounds : ℕ) → (ehdr_at image load_kernel_addr).e_phnum < rounds
    → (after : Bytes) × (copy_elf_code rounds image
        ≡ some ((ehdr_at image load_kernel_addr).e_entry, after))
      × LoadedFrom on_text_screen 0 image (λ va. va) load_kernel_addr image after
unfolding copy_elf_code
copy_elf_code-LoadedFrom image size is_image few dark rounds enough =
    let off = kernel-OffScreen image size dark in
    let before = write_pm image in
    let same : Agree load_kernel_addr size image before =
      λ a low high. write_pm-outside image a (off.image_off a low high) in
    let (after, result, loaded) =
      copy_segments-LoadedFrom s32_memcpy s32_memcpy-CopyLaws on_text_screen (λ va. va)
        load_kernel_addr size image is_image off print_on_line 204 print_on_line-NoteLaws rounds
        before same enough (omega arith) in
    (
      after,
      ap (jump (ehdr_at before load_kernel_addr).e_entry) result
          ∙ ap (λ (entry : ℕ). some (entry, after))
              (entry_same (λ va. va) load_kernel_addr size image is_image before same),
      record {
        content = loaded.content;
        rest = λ a dim out. loaded.rest a dim out ∙ write_pm-outside image a dim;
      },
    )
