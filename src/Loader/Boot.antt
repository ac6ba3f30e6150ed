-- ===== src/Loader/Boot.antt =====
-- The kernel loader as a whole, from the boot sector to the kernel in memory.
use simple_os.Base.{
  ℕ, suc, ◌+◌, ◌*◌, ◌/◌, ◌%◌, ◌^◌, ◌≤◌, ◌<◌, ◌≡◌, refl, ap, ◌∙◌, ltb, ◌==◌, arith, true,
  if◌then◌else◌, List, ◌∷◌, length,
}
use simple_os.Base.Bits.{bit_or-fields}
use simple_os.Loader.{Bios, Bytes, Bpb, Loader, two_bytes, init_bpb, read_sector, load_file_to_ram}
use simple_os.Loader.Directory.{
  init_protected_mode, outcome, with_root_dir, search_sectors, search_end, start_c,
}
use simple_os.Loader.Disk.{ReadsDisk, Holds, read_sector-reads}
use simple_os.Loader.Search.{IsKernel, IsPassed, dir_entry, cluster_in, size_in}
use simple_os.Loader.Found.{search_sectors-found}
use simple_os.Loader.Copy.{area_start}
use simple_os.Loader.Load.{Chain, Loaded, load_file_to_ram-Loaded}

-- Two bytes of the boot sector, the lower first.
abbrev pub half_word : Bytes → ℕ → ℕ
half_word image a = image a + 2 ^ 8 * image (a + 1)

-- The first sector of the root directory: behind the boot sectors and the tables.
abbrev pub root_start : Bytes → ℕ
root_start image = image 0x10 * half_word image 0x16 + half_word image 0xe

-- The sectors that its entries need, of 32 bytes each.
abbrev pub root_size : Bytes → ℕ
root_size image = (half_word image 17 * 32 + 511) / 512

low_word : (n : ℕ) → n < 2 ^ 16 → n % 2 ^ 16 ≡ n
low_word n h = omega arith

round_up :
    (n : ℕ)
    → n < 2 ^ 16
    → (if n * 32 % 512 == 0 then n * 32 / 512 else n * 32 / 512 + 1) % 2 ^ 16 ≡ (n * 32 + 511) / 512
round_up n h = ground arith

module _ (image : Bytes) (byte : (a : ℕ) → image a < 256) (buff : Bytes)
    (holds : Holds image buff 0 512) where
  boot_word : (a : ℕ) → a < 511 → two_bytes buff (a + 1) a ≡ half_word image a
  boot_word a h =
      let low : buff a ≡ image a = holds a (omega arith) ∙ ap image (omega arith) in
      let high : buff (a + 1) ≡ image (a + 1) =
        holds (a + 1) (omega arith) ∙ ap image (omega arith) in
      rw (low, high) (bit_or-fields 8 (image (a + 1)) (image a) (byte a) ∙ omega arith)

  root_dir_sectors :
      (bpb : Bpb)
      → half_word image 11 ≡ 512
      → root_start image < 2 ^ 16
      → ((with_root_dir (init_bpb buff bpb)).byte_per_sector ≡ 512)
        × ((with_root_dir (init_bpb buff bpb)).root_dir_start_sector ≡ root_start image)
        × ((with_root_dir (init_bpb buff bpb)).root_dir_occupy_sector ≡ root_size image)
  unfolding with_root_dir init_bpb
  root_dir_sectors bpb sectors fits =
      let count : buff 0x10 ≡ image 0x10 = holds 0x10 (omega arith) in
      let table = boot_word 0x16 (omega arith) in
      let boot = boot_word 0xe (omega arith) in
      let size = boot_word 11 (omega arith) ∙ sectors in
      let entries = boot_word 17 (omega arith) in
      (
        size,
        rw (count, table, boot) (low_word (root_start image) fits),
        rw (size, entries) (round_up (half_word image 17) (omega (arith, byte 17, byte 18))),
      )

-- What `start_c` comes to when the search succeeds.
start_c-load_file_to_ram :
    (bios : Bios)
    → (rounds : ℕ) → (loader : Loader) → (buff : Bytes) → (cluster size : ℕ)
    → (with_root_dir (init_bpb (read_sector bios buff 1 0 0 0 1).1 loader.bpb)).byte_per_sector
      ≡ 512
    → search_sectors bios
        (suc
          (with_root_dir
            (init_bpb (read_sector bios buff 1 0 0 0 1).1 loader.bpb)).root_dir_occupy_sector)
        (with_root_dir
          (init_bpb (read_sector bios buff 1 0 0 0 1).1 loader.bpb)).root_dir_start_sector
        (read_sector bios buff 1 0 0 0 1).1
        0
      ≡ search_end cluster size
    → 512 < size
    → start_c bios rounds loader buff
      ≡ outcome (
          load_file_to_ram bios rounds
            (record loader {
              bpb = with_root_dir (init_bpb (read_sector bios buff 1 0 0 0 1).1 loader.bpb);
            })
            cluster
            1)
unfolding start_c
start_c-load_file_to_ram bios rounds loader buff cluster size sectors search large =
    let big : ltb 512 size ≡ true = ground arith in rw (search, sectors, big) refl

-- Let the BIOS read a disk of 2880 sectors of 512 bytes on which the root directory has the kernel, in
-- an entry behind others that the search passes, with more than one sector as the size of the file
-- and a chain of clusters from the one in that entry on. With a round for each further cluster and
-- one more, and room for the clusters below 4 GB, the loader then ends with the clusters of the
-- kernel one behind the other in memory from `kernel_addr` on, and what is below is as it was.
pub start_c-Loaded :
    (bios : Bios)
    → (image : Bytes) → ReadsDisk bios image
    → ((a : ℕ) → image a < 256)
    → half_word image 11 ≡ 512
    → root_start image + root_size image < 2880
    → (target : ℕ) → 16 * root_start image ≤ target
    → target < 16 * (root_start image + root_size image)
    → ((g : ℕ) → 16 * root_start image ≤ g → g < target → IsPassed (dir_entry image g))
    → IsKernel (dir_entry image target)
    → 512 < size_in (dir_entry image target)
    → (rest : List ℕ)
    → Chain image (root_size image + root_start image) (cluster_in (dir_entry image target)) rest
    → (rounds : ℕ) → length rest < rounds
    → (loader : Loader) → loader.kernel_addr + 512 * suc (length rest) < 2 ^ 32
    → (buff : Bytes)
    → (after : Loader) × (start_c bios rounds loader buff ≡ init_protected_mode after)
      × Loaded image
          (root_size image + root_start image)
          (cluster_in (dir_entry image target) ∷ rest)
          loader
          after
start_c-Loaded bios image disk byte sectors fits target from till passed kernel large rest chain
      rounds enough loader room buff =
    let (ok, holds) =
      read_sector-reads bios image disk 1 0 0 0 buff (omega arith) (omega arith) (omega arith) in
    let buff1 = (read_sector bios buff 1 0 0 0 1).1 in
    let bpb = with_root_dir (init_bpb buff1 loader.bpb) in
    let (size, start, occupy) =
      root_dir_sectors image byte buff1 holds loader.bpb sectors (omega arith) in
    let cluster = cluster_in (dir_entry image target) in
    let found_it : search_sectors bios (suc bpb.root_dir_occupy_sector) bpb.root_dir_start_sector
          buff1 0
        ≡ search_end cluster (size_in (dir_entry image target)) =
      rw (start, occupy)
        (search_sectors-found image byte bios disk (suc (root_size image)) (root_start image) target
          buff1 0 from (omega arith) (omega arith) passed kernel) in
    let area : area_start bpb ≡ root_size image + root_start image = rw (start, occupy) refl in
    let (after, result, loaded) =
      load_file_to_ram-Loaded bios image disk byte rounds (root_size image + root_start image)
        cluster 1 rest (record loader { bpb = bpb }) chain area (λ e. omega arith) enough
        (omega arith) in
    (
      after,
      start_c-load_file_to_ram bios rounds loader buff cluster (size_in (dir_entry image target))
            size found_it large
          ∙ ap outcome result,
      record { behind = loaded.behind; content = loaded.content; below = loaded.below },
    )
