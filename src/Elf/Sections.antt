-- ===== src/Elf/Sections.antt =====
-- `get_kernel_info` of k_stdlib.c: where the sections of the kernel's ELF file are in memory, from
-- the lowest address to the highest; with `s_memcmp` of include/k_string.h. What it prints is left
-- out.
use simple_os.Base.{
  ℕ, zero, suc, ◌+◌, ◌-◌, ◌*◌, ◌%◌, ◌^◌, ◌==◌, if◌then◌else◌, ltb, Option, none, some, bit_and,
  get_or, [], ◌∷◌, not, ◌&&◌, Bool,
}
use simple_os.Loader.{Bytes}
use simple_os.Elf.{ehdr_at, u32_at}

-- `Elf32_Shdr`
pub record Elf32Shdr : Type 0 where
  pub sh_name : ℕ
  pub sh_type : ℕ
  pub sh_flags : ℕ
  pub sh_addr : ℕ
  pub sh_offset : ℕ
  pub sh_size : ℕ
  pub sh_link : ℕ
  pub sh_info : ℕ
  pub sh_addralign : ℕ
  pub sh_entsize : ℕ

abbrev pub shdr_at : Bytes → ℕ → Elf32Shdr
shdr_at memory a = record {
  sh_name = u32_at memory a;
  sh_type = u32_at memory (a + 4);
  sh_flags = u32_at memory (a + 8);
  sh_addr = u32_at memory (a + 12);
  sh_offset = u32_at memory (a + 16);
  sh_size = u32_at memory (a + 20);
  sh_link = u32_at memory (a + 24);
  sh_info = u32_at memory (a + 28);
  sh_addralign = u32_at memory (a + 32);
  sh_entsize = u32_at memory (a + 36);
}

-- A `char` as the word of an `int`.
abbrev pub char_word : ℕ → ℕ
char_word c = if ltb c 128 then c else c + 2 ^ 32 - 256

-- For pointers that are not null.
unfoldable pub s_memcmp : Bytes → Bytes → ℕ → ℕ
s_memcmp p1 p2 zero = 0
s_memcmp p1 p2 (suc n) =
    let rest = s_memcmp (λ i. p1 (suc i)) (λ i. p2 (suc i)) n in
    if p1 0 == p2 0 then rest else (char_word (p1 0) + 2 ^ 32 - char_word (p2 0)) % 2 ^ 32

-- "\177ELF"
abbrev pub elfmag : Bytes
elfmag i = get_or (0x7f ∷ 0x45 ∷ 0x4c ∷ 0x46 ∷ []) i 0

abbrev pub kernel_info : ℕ
kernel_info = 0x200500

abbrev pub is_alloc : Elf32Shdr → Bool
is_alloc header = not (bit_and header.sh_flags 2 == 0)

-- The header of section `i`.
abbrev pub section_header : Bytes → ℕ → Elf32Shdr
section_header memory i =
    let header = ehdr_at memory kernel_info in
    shdr_at memory ((kernel_info + header.e_shoff + i * header.e_shentsize) % 2 ^ 32)

abbrev pub top_of : Elf32Shdr → ℕ
top_of header = (header.sh_addr + header.sh_size) % 2 ^ 32

-- `if (*b > bottom) *b = bottom` and `if (t < top) t = top`, for a section that is allocated.
unfoldable pub lower : Bool → ℕ → ℕ → ℕ
lower alloc bottom b = if alloc && ltb bottom b then bottom else b

unfoldable pub upper : Bool → ℕ → ℕ → ℕ
upper alloc top t = if alloc && ltb t top then top else t

-- The loop over the sections from `i` on, `left` of them, on `*b` and `t`.
unfoldable pub section_loop : Bytes → ℕ → ℕ → ℕ → ℕ → ℕ × ℕ
section_loop memory zero i b t = (b, t)
section_loop memory (suc left) i b t =
    let header = section_header memory i in
    let bottom = header.sh_addr in
    let top = top_of header in
    section_loop memory left (i + 1) (if is_alloc header && ltb bottom b then bottom else b)
      (if is_alloc header && ltb t top then top else t)

-- `*b` and `*l`, or `none` for -1.
unfoldable pub get_kernel_info : Bytes → Option (ℕ × ℕ)
get_kernel_info memory =
    let (b, t) = section_loop memory (ehdr_at memory kernel_info).e_shnum 0 (2 ^ 32 - 1) 0 in
    if s_memcmp (λ i. memory (kernel_info + i)) elfmag 4 == 0
    then some (b, (t + 2 ^ 33 - b - 1) % 2 ^ 32)
    else none
