-- ===== src/Storage/Tests.antt =====
-- A device whose bytes are copied, and one that is registered.
use simple_os.Base.{◌%◌, ◌≡◌, refl}
use simple_os.Storage.{StorageDevice, ramdisk_dout, register_storage_device}

abbrev disk : StorageDevice
disk = record { start_pos = 0x1000; sector_size = 512; storage_size = 4096 }

-- The third byte of the copy comes from the third byte behind the offset.
copied : (ramdisk_dout disk 0x8000 0x20 8 (λ a. a % 256)).1 0x8002 ≡ 0x22
unfolding ramdisk_dout
copied = refl

registered : (register_storage_device 5 1 (λ i. 0)).1 1 ≡ 5
unfolding register_storage_device
registered = refl
