-- ===== src/Elf/Image.antt =====
-- What it is for an ELF image in memory to be in order, and to be loaded.
use simple_os.Base.{
  ℕ, ◌+◌, ◌*◌, ◌%◌, ◌^◌, ◌≤◌, ◌<◌, ◌≡◌, ◌≢◌, ◌⊎◌, ◌∙◌, refl, ==_ne, arith, Bool, false,
}
use simple_os.Loader.{Bytes}
use simple_os.Elf.{Memcpy, Elf32Phdr, ehdr_at, phdr_at, u16_at, u32_at, pt_load, copy_segment}
use simple_os.Elf.Copying.{Apart}

-- Two memories have the same bytes in a run.
abbrev pub Agree : ℕ → ℕ → Bytes → Bytes → Type 0
Agree from size m0 m1 = (a : ℕ) → from ≤ a → a < from + size → m1 a ≡ m0 a

module _ (from size : ℕ) (m0 m1 : Bytes) (same : Agree from size m0 m1)
    (fits : from + size < 2 ^ 32) where
  u16_at-same : (a : ℕ) → from ≤ a → a + 2 ≤ from + size → u16_at m1 a ≡ u16_at m0 a
  unfolding u16_at
  u16_at-same a low high =
      let e0 : a % 2 ^ 32 ≡ a = omega arith in
      let e1 : (a + 1) % 2 ^ 32 ≡ a + 1 = omega arith in
      rw (e0, e1, same a low (omega arith), same (a + 1) (omega arith) (omega arith)) refl

  u32_at-same : (a : ℕ) → from ≤ a → a + 4 ≤ from + size → u32_at m1 a ≡ u32_at m0 a
  unfolding u32_at
  u32_at-same a low high =
      rw (u16_at-same a low (omega arith), u16_at-same (a + 2) (omega arith) (omega arith)) refl

-- Program header `j` of the image at `buff`, and its address.
abbrev pub pheader : Bytes → ℕ → ℕ → ℕ
pheader memory buff j = buff + (ehdr_at memory buff).e_phoff + 32 * j

abbrev pub segment : Bytes → ℕ → ℕ → Elf32Phdr
segment memory buff j = phdr_at memory (pheader memory buff j)

-- Segment `j` is one to load.
abbrev pub Loads : Bytes → ℕ → ℕ → Type 0
Loads memory buff j =
    (j < (ehdr_at memory buff).e_phnum) × ((segment memory buff j).p_type ≡ pt_load)

-- An image of `size` bytes at `buff`: its headers and segments are inside of it, and the segments go
-- to places below 4 GB that are neither in it nor in each other.
pub record IsImage (memory : Bytes) (linear : ℕ → ℕ) (buff size : ℕ) : Type 0 where
  pub fits : buff + size < 2 ^ 32
  pub has_header : 52 ≤ size
  pub has_headers : (ehdr_at memory buff).e_phoff + 32 * (ehdr_at memory buff).e_phnum ≤ size
  pub has_segments :
      (j : ℕ)
      → Loads memory buff j
      → (segment memory buff j).p_offset + (segment memory buff j).p_filesz ≤ size
  pub below :
      (j : ℕ)
      → Loads memory buff j
      → linear (segment memory buff j).p_vaddr + (segment memory buff j).p_filesz < 2 ^ 32
  pub beside :
      (j : ℕ)
      → Loads memory buff j
      → Apart (linear (segment memory buff j).p_vaddr) (segment memory buff j).p_filesz buff size
  pub apart :
      (j k : ℕ)
      → j < k
      → Loads memory buff j
      → Loads memory buff k
      → Apart
          (linear (segment memory buff j).p_vaddr)
          (segment memory buff j).p_filesz
          (linear (segment memory buff k).p_vaddr)
          (segment memory buff k).p_filesz

-- What the loading needs of the notes that it writes: on the first `lines` lines they change nothing
-- but the screen.
pub record NoteLaws (note : ℕ → ℕ → Bytes → Bytes) (on_screen : ℕ → Bool) (lines : ℕ) : Type 0 where
  pub outside :
      (line value : ℕ) (memory : Bytes) (a : ℕ)
      → line < lines
      → on_screen a ≡ false
      → note line value memory a ≡ memory a

-- Neither the image nor a segment is on the screen.
pub record OffScreen (on_screen : ℕ → Bool) (image : Bytes) (linear : ℕ → ℕ) (buff size : ℕ)
    : Type 0 where
  pub image_off : (a : ℕ) → buff ≤ a → a < buff + size → on_screen a ≡ false
  pub segments_off :
      (j : ℕ)
      → Loads image buff j
      → (k : ℕ) → k < (segment image buff j).p_filesz
      → on_screen (linear (segment image buff j).p_vaddr + k) ≡ false

-- The segments from `i` on are loaded: each has its bytes of the image, and what is neither in one nor
-- on the screen is as it was.
pub record LoadedFrom (on_screen : ℕ → Bool) (i : ℕ) (image : Bytes) (linear : ℕ → ℕ) (buff : ℕ)
    (before after : Bytes) : Type 0 where
  pub content :
      (j : ℕ)
      → i ≤ j
      → Loads image buff j
      → (k : ℕ) → k < (segment image buff j).p_filesz
      → after (linear (segment image buff j).p_vaddr + k)
        ≡ image (buff + (segment image buff j).p_offset + k)
  pub rest :
      (a : ℕ)
      → on_screen a ≡ false
      → ((j : ℕ)
          → i ≤ j
          → Loads image buff j
          → (a < linear (segment image buff j).p_vaddr)
            ⊎ (linear (segment image buff j).p_vaddr + (segment image buff j).p_filesz ≤ a))
      → after a ≡ before a

-- What the code reads in the image is the same as long as the image is.
module _ (linear : ℕ → ℕ) (buff size : ℕ) (image : Bytes)
    (is_image : IsImage image linear buff size) (now : Bytes)
    (same : Agree buff size image now) where
  pub phnum_same : (ehdr_at now buff).e_phnum ≡ (ehdr_at image buff).e_phnum
  phnum_same =
      u16_at-same buff size image now same is_image.fits (buff + 44) (omega arith)
        (omega (arith, is_image.has_header))

  pub entry_same : (ehdr_at now buff).e_entry ≡ (ehdr_at image buff).e_entry
  entry_same =
      u32_at-same buff size image now same is_image.fits (buff + 24) (omega arith)
        (omega (arith, is_image.has_header))

  pub phoff_same : (ehdr_at now buff).e_phoff ≡ (ehdr_at image buff).e_phoff
  phoff_same =
      u32_at-same buff size image now same is_image.fits (buff + 28) (omega arith)
        (omega (arith, is_image.has_header))

  pub header_same :
      (i : ℕ)
      → i < (ehdr_at image buff).e_phnum
      → (at : ℕ) → pheader image buff i ≤ at
      → at ≤ pheader image buff i + 28
      → u32_at now at ≡ u32_at image at
  header_same i h at low high =
      u32_at-same buff size image now same is_image.fits at (omega arith)
        (omega (arith, is_image.has_headers))

module _ (memcpy : Memcpy) (note : ℕ → ℕ → Bytes → Bytes) (on_screen : ℕ → Bool) (lines : ℕ)
    (notes : NoteLaws note on_screen lines) (linear : ℕ → ℕ) (buff size : ℕ) (image : Bytes)
    (is_image : IsImage image linear buff size)
    (off : OffScreen on_screen image linear buff size) where
  pub note-Agree :
      (now : Bytes) (line value : ℕ)
      → line < lines
      → Agree buff size image now
      → Agree buff size image (note line value now)
  note-Agree now line value h same a low high =
      notes.outside line value now a h (off.image_off a low high) ∙ same a low high

  -- One round of the loop in an image that is there.
  module _ (now : Bytes) (same : Agree buff size image now) (line i : ℕ)
      (h : i < (ehdr_at image buff).e_phnum) (low : line + 2 < lines) where
    entry_noted : Bytes
    entry_noted = note line (ehdr_at now buff).e_entry now

    entry_noted-Agree : Agree buff size image entry_noted
    unfolding entry_noted
    entry_noted-Agree = note-Agree now line (ehdr_at now buff).e_entry (omega arith) same

    type_same : (phdr_at entry_noted (pheader image buff i)).p_type ≡ (segment image buff i).p_type
    type_same =
        header_same linear buff size image is_image entry_noted entry_noted-Agree i h
          (pheader image buff i) (omega arith) (omega arith)

    pub copy_segment-skip :
        (segment image buff i).p_type ≢ pt_load
        → copy_segment memcpy note linear buff line (pheader image buff i) now
          ≡ (line, note line (ehdr_at now buff).e_entry now)
    unfolding copy_segment entry_noted
    copy_segment-skip other = rw (type_same, ==_ne _ pt_load other) refl

    -- The copy is made in a memory `noted` that differs from `now` on the screen only.
    pub copy_segment-load :
        Loads image buff i
        → (noted : Bytes) × (copy_segment memcpy note linear buff line (pheader image buff i) now
            ≡ (
              line + 2,
              memcpy noted
                  (linear (segment image buff i).p_vaddr)
                  (buff + (segment image buff i).p_offset)
                  (segment image buff i).p_filesz,
            ))
          × Agree buff size image noted
          × ((a : ℕ) → on_screen a ≡ false → noted a ≡ now a)
    unfolding copy_segment entry_noted
    copy_segment-load loads =
        let at = pheader image buff i in
        let m1 = note (line + 1) (phdr_at entry_noted at).p_vaddr entry_noted in
        let m2 = note (line + 2) (phdr_at m1 at).p_offset m1 in
        let same1 =
          note-Agree entry_noted (line + 1) (phdr_at entry_noted at).p_vaddr (omega arith)
            entry_noted-Agree in
        let same2 = note-Agree m1 (line + 2) (phdr_at m1 at).p_offset low same1 in
        let read = header_same linear buff size image is_image m2 same2 i h in
        let e1 = read (at + 8) (omega arith) (omega arith) in
        let e2 = read (at + 4) (omega arith) (omega arith) in
        let e4 = read (at + 16) (omega arith) (omega arith) in
        let e : (buff + (segment image buff i).p_offset) % 2 ^ 32
            ≡ buff + (segment image buff i).p_offset =
          omega (arith, is_image.fits, is_image.has_segments i loads) in
        (
          m2,
          rw (type_same, loads.1, e1, e2, e4, e) refl,
          same2,
          λ a out.
              notes.outside (line + 2) (phdr_at m1 at).p_offset m1 a low out
              ∙ notes.outside (line + 1) (phdr_at entry_noted at).p_vaddr entry_noted a
                  (omega arith) out
              ∙ notes.outside line (ehdr_at now buff).e_entry now a (omega arith) out,
        )
