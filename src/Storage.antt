-- ===== src/Storage.antt =====
-- The tables of storage.c and fs/vfs.c, in which devices and file systems are registered, and the
-- device that reads from memory. A pointer is a number, and a null pointer is 0.
pub mod Registered
mod Tests
use simple_os.Base.{ℕ, ◌+◌, ◌-◌, ◌%◌, ◌^◌, ◌==◌, if◌then◌else◌, leb, ltb, ◌&&◌}
use simple_os.Kernel.{update}

abbrev pub max_super_block : ℕ
max_super_block = 8

abbrev pub max_storage_device : ℕ
max_storage_device = 2

-- `StorageDevice`, without the pointers to its two functions.
pub record StorageDevice : Type 0 where
  pub start_pos : ℕ
  pub sector_size : ℕ
  pub storage_size : ℕ

-- `ramdisk_dout`: what it returns, and the memory after the copy to `dest`.
unfoldable pub ramdisk_dout : StorageDevice → ℕ → ℕ → ℕ → (ℕ → ℕ) → ℕ × (ℕ → ℕ)
ramdisk_dout sd dest addr size mem =
    let source = (addr + sd.start_pos) % 2 ^ 32 in
    (size, λ a. if leb dest a && ltb a (dest + size) then mem (source + (a - dest)) else mem a)

-- `register_storage_device` and `register_file_system`: what they return, and the table. The index
-- is not compared with the length of the table.
unfoldable pub register_storage_device : ℕ → ℕ → (ℕ → ℕ) → ℕ × (ℕ → ℕ)
register_storage_device sd num storage =
    if storage num == 0 then (0, update storage num sd) else (2 ^ 32 - 1, storage)

unfoldable pub register_file_system : ℕ → ℕ → (ℕ → ℕ) → ℕ × (ℕ → ℕ)
register_file_system type id fs_type =
    if fs_type id == 0 then (0, update fs_type id type) else (2 ^ 32 - 1, fs_type)

-- `unregister_file_system` looks at nothing but the index.
unfoldable pub unregister_file_system : ℕ → (ℕ → ℕ) → ℕ → ℕ
unregister_file_system id fs_type = update fs_type id 0
