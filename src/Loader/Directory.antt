-- ===== src/Loader/Directory.antt =====
-- The search for the kernel in the root directory, from `start_c` of kernel_loader/kernel_loader.c,
-- and the rest of that function up to the switch into protected mode.
use simple_os.Base.{
  ℕ, zero, suc, ◌+◌, ◌-◌, ◌*◌, ◌/◌, ◌%◌, ◌^◌, ltb, ◌==◌, if◌then◌else◌, bit_or, get_or, Option,
  none, some, [], ◌∷◌,
}
use simple_os.Loader.{
  Bytes, Bios, Bpb, Loader, two_bytes, init_bpb, s_strncmp, read_sector, track_of, head_of,
  sector_of, load_file_to_ram,
}

-- "P_KERNELELF"
abbrev pub kernel_name : Bytes
kernel_name i =
    get_or (0x50 ∷ 0x5f ∷ 0x4b ∷ 0x45 ∷ 0x52 ∷ 0x4e ∷ 0x45 ∷ 0x4c ∷ 0x45 ∷ 0x4c ∷ 0x46 ∷ []) i 0

-- Where the search stands: it goes on, with the value of `file_size`, or it is at `search_end` with
-- the values of `first_kernel_cluster` and `file_size`. What no entry sets is -1.
pub data Search : Type 0 where
  going : ℕ → Search
  search_end : ℕ → ℕ → Search

abbrev pub no_cluster : ℕ
no_cluster = 2 ^ 32 - 1

-- `file_size` of an entry, from its first byte on.
abbrev pub four_bytes : Bytes → ℕ
four_bytes entry =
    bit_or (bit_or (bit_or (entry 0x1f * 2 ^ 24) (entry 0x1e * 2 ^ 16)) (entry 0x1d * 2 ^ 8))
      (entry 0x1c)

-- The body of the inner loop on one entry, `next` being what the further entries come to.
abbrev pub search_entry : Bytes → (ℕ → Search) → Search
search_entry entry next =
    let f_c = two_bytes entry 0x1b 0x1a in
    let file_size = four_bytes entry in
    let later = next file_size in
    if entry 0 == 0xe5
    then later
    else if entry 0 == 0
    then search_end no_cluster file_size
    else if entry 0xb / 2 ^ 3 % 2 == 1
    then later
    else if s_strncmp (λ i. if ltb i 11 then entry i else 0) kernel_name 11 == 0
    then search_end f_c file_size
    else later

-- The entries of a sector from `j` on, `left` of them.
unfoldable pub search_entries : ℕ → ℕ → Bytes → ℕ → Search
search_entries zero j buff file_size = going file_size
search_entries (suc left) j buff file_size =
    search_entry (λ i. buff (i + j * 32)) (λ (size : ℕ). search_entries left (suc j) buff size)

-- `start_c` ends at the switch into protected mode with the kernel in memory, unless the boot sector
-- makes it divide by zero.
pub data Outcome : Type 0 where
  divide_error : Outcome
  out_of_rounds : Outcome
  init_protected_mode : Loader → Outcome

-- `goto search_end` leaves the loops; else they go on.
abbrev pub then_search : Search → (ℕ → Search) → Search
then_search (going file_size) next = next file_size
then_search (search_end cluster file_size) next = search_end cluster file_size

-- The values of `first_kernel_cluster` and `file_size` behind the loops.
abbrev pub found_entry : Search → ℕ × ℕ
found_entry (going file_size) = (no_cluster, file_size)
found_entry (search_end cluster file_size) = (cluster, file_size)

abbrev pub outcome : Option Loader → Outcome
outcome none = out_of_rounds
outcome (some loader) = init_protected_mode loader

-- What `start_c` adds to the parameter block, where its sectors are not empty.
unfoldable pub with_root_dir : Bpb → Bpb
with_root_dir bpb =
    let size = bpb.root_entry_count * 32 in
    let sectors = size / bpb.byte_per_sector in
    record bpb {
      root_dir_occupy_sector =
          (if size % bpb.byte_per_sector == 0 then sectors else sectors + 1) % 2 ^ 16;
      root_dir_start_sector =
          (bpb.fat_count * bpb.fat_occupy_sector + bpb.boot_occupy_sector) % 2 ^ 16;
    }

module _ (bios : Bios) where
  -- The sectors from `i` on, `left` of them.
  unfoldable pub search_sectors : ℕ → ℕ → Bytes → ℕ → Search
  search_sectors zero i buff file_size = going file_size
  search_sectors (suc left) i buff file_size =
      let (r, buff1) = read_sector bios buff (sector_of i) (track_of i) (head_of i) 0 1 in
      then_search (search_entries 16 0 buff1 file_size)
        (λ (size : ℕ). search_sectors left (suc i) buff1 size)

  -- `start_c` with the buffer at `IMAGE_LMA`, up to `init_protected_mode`. The loop over the sectors
  -- of the root directory takes one more.
  unfoldable pub start_c : ℕ → Loader → Bytes → Outcome
  start_c rounds loader buff =
      let (r, buff1) = read_sector bios buff 1 0 0 0 1 in
      let bpb = with_root_dir (init_bpb buff1 loader.bpb) in
      let (first_kernel_cluster, file_size) =
        found_entry
          (search_sectors (suc bpb.root_dir_occupy_sector) bpb.root_dir_start_sector buff1 0) in
      if bpb.byte_per_sector == 0
      then divide_error
      else outcome (
          load_file_to_ram bios rounds (record loader { bpb = bpb }) first_kernel_cluster
            (if ltb 512 file_size then 1 else 0))
