-- ===== src/Loader/Copy.antt =====
-- One cluster copied by the kernel loader.
use simple_os.Base.{
  ℕ, zero, suc, ◌+◌, ◌-◌, ◌*◌, ◌%◌, ◌^◌, ◌≤◌, ◌<◌, ◌≡◌, ◌≢◌, ==_ne, refl, ◌∙◌, ◌==◌, if◌then◌else◌,
  ◌⊎◌, inl, arith,
}
use simple_os.Loader.{Bios, Bytes, Bpb, Loader, asm_4g_memcpy, sector_of_cluster, copy_cluster}
use simple_os.Loader.Disk.{ReadsDisk, read_sector-sector_of}

-- Bytes that fit below 4 GB are copied, and what is outside stays.
asm_4g_memcpy-outside :
    (memory : Bytes) (dest : ℕ) (src : Bytes) (n a : ℕ)
    → dest + n < 2 ^ 32
    → (a < dest) ⊎ (dest + n ≤ a)
    → asm_4g_memcpy memory dest src n a ≡ memory a
unfolding asm_4g_memcpy
asm_4g_memcpy-outside memory dest src zero a fits out = refl
asm_4g_memcpy-outside memory dest src (suc n) a fits out =
    let e : (dest + 1) % 2 ^ 32 ≡ dest + 1 = omega arith in
    let away : a ≢ dest = λ same. ground (arith, out, same) in
    rw (e) (
      asm_4g_memcpy-outside (λ b. if b == dest then src 0 else memory b) (dest + 1)
        (λ i. src (suc i)) n a (omega arith) (omega (arith, out))
      ∙ rw (==_ne a dest away) refl)

asm_4g_memcpy-inside :
    (memory : Bytes) (dest : ℕ) (src : Bytes) (n i : ℕ)
    → dest + n < 2 ^ 32
    → i < n
    → asm_4g_memcpy memory dest src n (dest + i) ≡ src i
unfolding asm_4g_memcpy
asm_4g_memcpy-inside memory dest src zero i fits h = absurd (omega arith)
asm_4g_memcpy-inside memory dest src (suc n) zero fits h =
    let e : (dest + 1) % 2 ^ 32 ≡ dest + 1 = omega arith in
    rw (e) (
      asm_4g_memcpy-outside (λ b. if b == dest then src 0 else memory b) (dest + 1)
        (λ i. src (suc i)) n (dest + 0) (omega arith) (inl (omega arith))
      ∙ ground arith)
asm_4g_memcpy-inside memory dest src (suc n) (suc i) fits h =
    let e : (dest + 1) % 2 ^ 32 ≡ dest + 1 = omega arith in
    let at : dest + suc i ≡ dest + 1 + i = omega arith in
    rw (e, at)
      (asm_4g_memcpy-inside (λ b. if b == dest then src 0 else memory b) (dest + 1)
        (λ i. src (suc i)) n i (omega arith) (omega arith))

-- What `copy_cluster` does where it reads the disk: the sector `lba` is in memory from the old
-- `kernel_addr` on, which moves behind it, and the rest of the memory stays.
pub record Copied (image : Bytes) (lba : ℕ) (before after : Loader) : Type 0 where
  pub same_bpb : after.bpb ≡ before.bpb
  pub behind : after.kernel_addr ≡ before.kernel_addr + 512
  pub content : (i : ℕ) → i < 512 → after.memory (before.kernel_addr + i) ≡ image (512 * lba + i)
  pub below : (a : ℕ) → a < before.kernel_addr → after.memory a ≡ before.memory a

-- The sectors before the first cluster, of which the numbers start at 2.
abbrev pub area_start : Bpb → ℕ
area_start bpb = bpb.root_dir_occupy_sector + bpb.root_dir_start_sector

pub copy_cluster-Copied :
    (bios : Bios)
    → (image : Bytes) → ReadsDisk bios image
    → (loader : Loader) → (c : ℕ) → 2 ≤ c
    → c + area_start loader.bpb < 2882
    → loader.kernel_addr + 512 < 2 ^ 32
    → Copied image (c + area_start loader.bpb - 2) loader (copy_cluster bios loader c)
unfolding copy_cluster
copy_cluster-Copied bios image disk loader c two area fits =
    let lba = c + area_start loader.bpb - 2 in
    let e : sector_of_cluster loader.bpb c ≡ lba = omega arith in
    let (ok, bytes) = read_sector-sector_of bios image disk lba loader.read_data (omega arith) in
    record {
      same_bpb = refl;
      behind = omega arith;
      content = λ i hi.
          rw (e)
            (asm_4g_memcpy-inside loader.memory loader.kernel_addr _ 512 i fits hi ∙ bytes i hi);
      below = λ a ha. asm_4g_memcpy-outside loader.memory loader.kernel_addr _ 512 a fits (inl ha);
    }
