-- ===== src/Loader.antt =====
-- The kernel loader of kernel_loader/kernel_loader.c, as compiled without LOAD_FS: it reads the boot
-- sector of the floppy disk, looks for the kernel in the root directory, and copies the clusters of
-- that file one behind the other into memory. The BIOS is a parameter. What the loader prints, and
-- where it waits for a key, is left out.
pub mod Disk
pub mod Fat
pub mod Copy
pub mod Load
pub mod Directory
pub mod Search
pub mod Found
pub mod Boot
pub mod Sample
mod Tests
use simple_os.Base.{
  ℕ, zero, suc, ◌+◌, ◌-◌, ◌*◌, ◌/◌, ◌%◌, ◌^◌, Bool, true, false, ltb, ◌==◌, ◌&&◌, if◌then◌else◌,
  not, bit_and, bit_or, get_or, Option, none, some, List, [], ◌∷◌,
}

-- Memory, and buffers in it, from their start.
abbrev pub Bytes : Type 0
Bytes = ℕ → ℕ

-- The state in which `int $0x13` returns: the carry flag, %ax and the buffer at %es:%bx.
pub record Answer : Type 0 where
  pub carry : Bool
  pub ax : ℕ
  pub buffer : Bytes

-- `int $0x13` on %ax, %cx and %dx and the buffer at %es:%bx.
abbrev pub Bios : Type 0
Bios = ℕ → ℕ → ℕ → Bytes → Answer

-- `BPB_`
pub record Bpb : Type 0 where
  pub vendor_name : Bytes
  pub byte_per_sector : ℕ
  pub sector_per_cluster : ℕ
  pub boot_occupy_sector : ℕ
  pub fat_count : ℕ
  pub root_entry_count : ℕ
  pub logic_sector_count : ℕ
  pub fat_occupy_sector : ℕ
  pub sector_per_track : ℕ
  pub head_count : ℕ
  pub hidden_sector_count : ℕ
  pub root_dir_occupy_sector : ℕ
  pub root_dir_start_sector : ℕ

-- The variables of the loader, and the memory behind %fs.
pub record Loader : Type 0 where
  pub bpb : Bpb
  pub fat_buffer : Bytes
  pub read_data : Bytes
  pub kernel_addr : ℕ
  pub memory : Bytes

-- `(buff[high] << 8) | buff[low]`
abbrev pub two_bytes : Bytes → ℕ → ℕ → ℕ
two_bytes buff high low = bit_or (buff high * 2 ^ 8) (buff low)

unfoldable pub init_bpb : Bytes → Bpb → Bpb
init_bpb buff bpb =
    let count = two_bytes buff 0x14 0x13 in
    record {
      vendor_name = λ i. if ltb i 9 then buff (3 + i) else bpb.vendor_name i;
      byte_per_sector = two_bytes buff 12 11;
      sector_per_cluster = buff 0xd;
      boot_occupy_sector = two_bytes buff 0xf 0xe;
      fat_count = buff 0x10;
      root_entry_count = two_bytes buff 18 17;
      logic_sector_count = if count == 0 then two_bytes buff 0x23 0x20 else count;
      fat_occupy_sector = two_bytes buff 0x17 0x16;
      sector_per_track = two_bytes buff 0x19 0x18;
      head_count = two_bytes buff 0x1b 0x1a;
      hidden_sector_count = two_bytes buff 0x1f 0x1c;
      root_dir_occupy_sector = bpb.root_dir_occupy_sector;
      root_dir_start_sector = bpb.root_dir_start_sector;
    }

-- `asm_4g_memcpy` of kernel_loader/kloader_init.S: it copies `n` bytes, the lowest first.
unfoldable pub asm_4g_memcpy : Bytes → ℕ → Bytes → ℕ → Bytes
asm_4g_memcpy memory dest src zero = memory
asm_4g_memcpy memory dest src (suc n) =
    asm_4g_memcpy (λ a. if a == dest then src 0 else memory a) ((dest + 1) % 2 ^ 32)
      (λ i. src (suc i)) n

-- The pointers move on only while neither is at a zero byte.
unfoldable pub s_strncmp : Bytes → Bytes → ℕ → ℕ
s_strncmp s1 s2 zero = 0
s_strncmp s1 s2 (suc n) =
    let both = not (s1 0 == 0) && not (s2 0 == 0) in
    let rest =
      s_strncmp (if both then (λ i. s1 (suc i)) else s1) (if both then (λ i. s2 (suc i)) else s2)
        n in
    if both && not (s1 0 == s2 0) then 2 ^ 32 - 1 else rest

unfoldable pub is_odd : ℕ → ℕ
is_odd n = if n % 2 == 0 then 2 ^ 32 - 1 else 1

-- `n / 18` and `n % 18` for an `int` given as its word.
abbrev pub quotient18 : ℕ → ℕ
quotient18 n = if ltb n (2 ^ 31) then n / 18 else (2 ^ 32 - (2 ^ 32 - n) / 18) % 2 ^ 32

abbrev pub rest18 : ℕ → ℕ
rest18 n = if ltb n (2 ^ 31) then n % 18 else (2 ^ 32 - (2 ^ 32 - n) % 18) % 2 ^ 32

-- The track, head and sector of a logical sector; the sector number is 8 bits for the BIOS, and so
-- is that of the track, whose sign is cut off.
unfoldable pub track_of : ℕ → ℕ
track_of r_sec = quotient18 r_sec / 2 % 2 ^ 8

unfoldable pub head_of : ℕ → ℕ
head_of r_sec = quotient18 r_sec % 2

unfoldable pub sector_of : ℕ → ℕ
sector_of r_sec = (rest18 r_sec + 1) % 2 ^ 32

-- `r_sec` for a cluster, as the word of an `int`.
abbrev pub sector_of_cluster : Bpb → ℕ → ℕ
sector_of_cluster bpb cluster =
    (cluster + (2 ^ 32 - 2) + bpb.root_dir_occupy_sector + bpb.root_dir_start_sector) % 2 ^ 32

-- What depends on the BIOS.
module _ (bios : Bios) where
  -- The result, and the buffer then.
  unfoldable pub read_sector : Bytes → ℕ → ℕ → ℕ → ℕ → ℕ → ℕ × Bytes
  read_sector buff sector_no track_no head_no disk_no blocks =
      let answer =
        bios (bit_or 0x200 (blocks % 2 ^ 8)) (bit_or (track_no % 2 ^ 8 * 2 ^ 8) (sector_no % 2 ^ 8))
          (bit_or (head_no % 2 ^ 8 * 2 ^ 8) (disk_no % 2 ^ 8)) buff in
      (if answer.carry then 1 else if answer.ax == blocks % 2 ^ 8 then 0 else 1, answer.buffer)

  -- The `u8` that the result goes to is not looked at.
  unfoldable pub read_fat : Bytes → ℕ → ℕ × Bytes
  read_fat fat_buf fat_sector_no =
      let (r, buffer) =
        read_sector fat_buf (fat_sector_no % 18) (fat_sector_no / 18 / 2) (fat_sector_no / 18 % 2) 0
          2 in
      (1, buffer)

  unfoldable pub get_next_cluster : Loader → ℕ → ℕ × Loader
  get_next_cluster loader cur_cluster =
      let offset =
        if is_odd cur_cluster == 1 then (cur_cluster - 1) / 2 * 3 else cur_cluster / 2 * 3 in
      let short_offset = offset % 512 in
      let (ok, fat_buf) = read_fat loader.fat_buffer ((offset / 512 + 2) % 2 ^ 16) in
      let next_cluster =
        if is_odd cur_cluster == 1
        then bit_or (bit_and (fat_buf (short_offset + 1) / 2 ^ 4) 0xf)
            (fat_buf (short_offset + 2) * 2 ^ 4)
        else bit_or (bit_and (fat_buf (short_offset + 1)) 0xf * 2 ^ 8) (fat_buf short_offset) in
      (next_cluster % 2 ^ 16, record loader { fat_buffer = fat_buf })

  -- The lines that read the sector of a cluster and copy it to `kernel_addr`. The result of
  -- `read_sector` is not looked at.
  unfoldable pub copy_cluster : Loader → ℕ → Loader
  copy_cluster loader cluster =
      let r_sec = sector_of_cluster loader.bpb cluster in
      let (r, buff) =
        read_sector loader.read_data (sector_of r_sec) (track_of r_sec) (head_of r_sec) 0 1 in
      record loader {
        read_data = buff;
        memory = asm_4g_memcpy loader.memory loader.kernel_addr buff 512;
        kernel_addr = (loader.kernel_addr + 512) % 2 ^ 32;
      }

  -- The `while` of `load_file_to_ram`, with `rounds` left.
  unfoldable pub load_loop : ℕ → Loader → ℕ → Option Loader
  load_loop zero loader cur_cluster = none
  load_loop (suc rounds) loader cur_cluster =
      let (next_cluster, loader1) = get_next_cluster loader cur_cluster in
      let rest = load_loop rounds (copy_cluster loader1 next_cluster) next_cluster in
      if next_cluster == 0xfff then some loader1 else rest

  unfoldable pub load_file_to_ram : ℕ → Loader → ℕ → ℕ → Option Loader
  load_file_to_ram rounds loader begin_cluster fat =
      let loader1 = copy_cluster loader begin_cluster in
      if fat == 0 then some loader1 else load_loop rounds loader1 (begin_cluster % 2 ^ 16)
