-- ===== src/Elf/Tests.antt =====
-- An ELF file of 124 bytes with two program headers, of which one is to load.
use simple_os.Base.{ℕ, zero, suc, ◌+◌, ◌<◌, ◌≤◌, ◌≡◌, inl, refl, arith, true, [], ◌∷◌, some}
use simple_os.Loader.{Bytes}
use simple_os.Loader.Sample.{written}
use simple_os.Elf.{ehdr_at, u16_at, u32_at, load_kernel_addr, copy_elf_code}
use simple_os.Elf.Image.{IsImage, LoadedFrom, Loads}
use simple_os.Elf.Protected.{on_text_screen, copy_elf_code-LoadedFrom}
use simple_os.Elf.Sections.{get_kernel_info, s_memcmp, is_alloc, section_header, top_of}
use simple_os.Elf.Info.{get_kernel_info-covers}

file : Bytes
file a =
    written
      ((0x300019, 0x50)
        ∷ (0x30001c, 52)
        ∷ (0x30002c, 2)
        ∷ (0x300034, 1)
        ∷ (0x300038, 120)
        ∷ (0x30003d, 0x50)
        ∷ (0x300044, 4)
        ∷ (0x300054, 6)
        ∷ (0x300078, 0x90)
        ∷ (0x30007b, 0xc3)
        ∷ [])
      a

file-first : (j : ℕ) → Loads file load_kernel_addr j → j ≡ 0
unfolding file u32_at u16_at
file-first zero loads = refl
file-first (suc zero) (h, type) = let other : 6 ≡ 1 = type in absurd (omega (arith, other))
file-first (suc (suc j)) (h, type) = let few : suc (suc j) < 2 = h in absurd (omega arith)

file-IsImage : IsImage file (λ va. va) load_kernel_addr 124
unfolding file u32_at u16_at
file-IsImage = record {
  fits = omega arith;
  has_header = omega arith;
  has_headers = omega arith;
  has_segments = λ j loads. rw (file-first j loads) (omega arith);
  below = λ j loads. rw (file-first j loads) (omega arith);
  beside = λ j loads. rw (file-first j loads) (inl (omega arith));
  apart =
      λ j k before first second. absurd (omega (arith, file-first j first, file-first k second));
}

copy_elf_code-LoadedFrom_example :
    (after : Bytes) × (copy_elf_code 3 file ≡ some ((ehdr_at file load_kernel_addr).e_entry, after))
    × LoadedFrom on_text_screen 0 file (λ va. va) load_kernel_addr file after
unfolding file u32_at u16_at
copy_elf_code-LoadedFrom_example =
    copy_elf_code-LoadedFrom file 124 file-IsImage (omega arith)
      (λ j loads. rw (file-first j loads) (inl (omega arith))) 3 (omega arith)

-- A file with one section, of 16 bytes at 0x5000.
sections : Bytes
sections a =
    written
      ((0x200500, 0x7f)
        ∷ (0x200501, 0x45)
        ∷ (0x200502, 0x4c)
        ∷ (0x200503, 0x46)
        ∷ (0x200520, 52)
        ∷ (0x20052e, 40)
        ∷ (0x200530, 1)
        ∷ (0x20053c, 2)
        ∷ (0x200541, 0x50)
        ∷ (0x200548, 16)
        ∷ [])
      a

get_kernel_info-covers_example :
    (b : ℕ) × (l : ℕ) × (get_kernel_info sections ≡ some (b, l))
    × (b ≤ 0x5000)
    × (0x5010 ≤ b + l + 1)
    × ((k : ℕ) × (k < 1)
        × (is_alloc (section_header sections k) ≡ true)
        × (b ≡ (section_header sections k).sh_addr))
    × ((k : ℕ) × (k < 1)
        × (is_alloc (section_header sections k) ≡ true)
        × (b + l + 1 ≡ top_of (section_header sections k)))
unfolding sections u32_at u16_at s_memcmp
get_kernel_info-covers_example =
    get_kernel_info-covers sections refl 0 (omega arith) refl (omega arith) (omega arith)
