-- ===== src/Loader/Tests.antt =====
-- The kernel loader on a small disk: its root directory has the label of the volume and the kernel,
-- which has two clusters, and the entry of the first of these crosses the end of a sector.
use simple_os.Base.{
  ℕ, ◌+◌, ◌-◌, ◌*◌, ◌/◌, ◌%◌, ◌^◌, ◌≤◌, ◌<◌, ◌≡◌, refl, ap, ◌==◌, ==_iff, false, inl, inr, arith,
  List, [], ◌∷◌,
}
use simple_os.Base.Bits.{holds_below, holds_below-true}
use simple_os.Loader.{
  Bios, Bytes, Bpb, Loader, read_sector, sector_of, track_of, head_of, get_next_cluster,
}
use simple_os.Loader.Sample.{written, written-lt}
use simple_os.Loader.Directory.{kernel_name, start_c, init_protected_mode}
use simple_os.Loader.Disk.{ReadsDisk, Holds, read_sector-sector_of}
use simple_os.Loader.Fat.{fat_entry, get_next_cluster-fat_entry}
use simple_os.Loader.Load.{Chain, Loaded}
use simple_os.Loader.Search.{IsKernel, IsPassed, dir_entry}
use simple_os.Loader.Boot.{start_c-Loaded}

-- The boot sector, two entries of the allocation table, two of the root directory, and two bytes of
-- the kernel.
abbrev bytes : List (ℕ × ℕ)
bytes =
    (12, 2)
    ∷ (0xe, 1)
    ∷ (0x10, 2)
    ∷ (17, 224)
    ∷ (0x13, 64)
    ∷ (0x14, 11)
    ∷ (0x16, 9)
    ∷ (1023, 0x60)
    ∷ (1024, 0x15)
    ∷ (1025, 0xff)
    ∷ (1026, 0x0f)
    ∷ (9728, 0x53)
    ∷ (9739, 0x8)
    ∷ (9760, 0x50)
    ∷ (9761, 0x5f)
    ∷ (9762, 0x4b)
    ∷ (9763, 0x45)
    ∷ (9764, 0x52)
    ∷ (9765, 0x4e)
    ∷ (9766, 0x45)
    ∷ (9767, 0x4c)
    ∷ (9768, 0x45)
    ∷ (9769, 0x4c)
    ∷ (9770, 0x46)
    ∷ (9771, 0x20)
    ∷ (9786, 0x55)
    ∷ (9787, 0x1)
    ∷ (9788, 0xe8)
    ∷ (9789, 0x3)
    ∷ (190464, 0x7f)
    ∷ (190976, 0x45)
    ∷ []

unfoldable image : Bytes
image a = written bytes a

image-lt : (a : ℕ) → image a < 256
unfolding image
image-lt a = written-lt bytes a

abbrev floppy : Bios
floppy ax cx dx buff = record {
  carry = false;
  ax = ax - 0x200;
  buffer = λ i. image (512 * ((cx / 2 ^ 8 * 2 + dx / 2 ^ 8) * 18 + (cx % 2 ^ 8 - 1)) + i);
}

floppy-ReadsDisk : ReadsDisk floppy image
floppy-ReadsDisk = record {
  reads = λ n t h s buff hs hh ht. (refl, omega arith, λ i hi. ap image (omega arith));
}

abbrev bpb : Bpb
bpb = record {
  vendor_name = λ i. 0;
  byte_per_sector = 512;
  sector_per_cluster = 1;
  boot_occupy_sector = 1;
  fat_count = 2;
  root_entry_count = 224;
  logic_sector_count = 2880;
  fat_occupy_sector = 9;
  sector_per_track = 18;
  head_count = 2;
  hidden_sector_count = 0;
  root_dir_occupy_sector = 14;
  root_dir_start_sector = 19;
}

abbrev loader : Loader
loader = record {
  bpb = bpb;
  fat_buffer = λ i. 0;
  read_data = λ i. 0;
  kernel_addr = 0x300000;
  memory = λ a. 0;
}

read_sector-sector_of_example :
    ((read_sector floppy (λ i. 0) (sector_of 373) (track_of 373) (head_of 373) 0 1).0 ≡ 0)
    × Holds image
        (read_sector floppy (λ i. 0) (sector_of 373) (track_of 373) (head_of 373) 0 1).1
        373
        512
read_sector-sector_of_example =
    read_sector-sector_of floppy image floppy-ReadsDisk 373 (λ i. 0) (omega arith)

get_next_cluster-fat_entry_example : (get_next_cluster floppy loader 341).0 ≡ fat_entry image 341
get_next_cluster-fat_entry_example =
    get_next_cluster-fat_entry floppy image floppy-ReadsDisk image-lt loader 341 (omega arith)

fat_entry_first : fat_entry image 341 ≡ 342
unfolding fat_entry image
fat_entry_first = refl

fat_entry_last : fat_entry image 342 ≡ 0xfff
unfolding fat_entry image
fat_entry_last = refl

kernel_chain : Chain image 33 341 (342 ∷ [])
kernel_chain =
    Chain.link (omega arith) (omega arith) fat_entry_first (λ e. omega arith)
      (Chain.last (omega arith) (omega arith) fat_entry_last refl) refl

label-IsPassed : (g : ℕ) → 16 * 19 ≤ g → g < 305 → IsPassed (dir_entry image g)
unfolding image
label-IsPassed g low high =
    let e : g ≡ 304 = omega arith in rw (e) (inr ((λ z. omega arith), inl refl))

second_entry-IsKernel : IsKernel (dir_entry image 305)
unfolding image holds_below
second_entry-IsKernel = (
  (λ i hi.
      (==_iff _ _).0
        (holds_below-true 11 (λ (x : ℕ). dir_entry image 305 x == kernel_name x) i refl hi)),
  refl,
)

start_c-Loaded_example :
    (after : Loader) × (start_c floppy 2 loader (λ i. 0) ≡ init_protected_mode after)
    × Loaded image 33 (341 ∷ 342 ∷ []) loader after
unfolding image
start_c-Loaded_example =
    start_c-Loaded floppy image floppy-ReadsDisk image-lt refl (omega arith) 305 (omega arith)
      (omega arith) label-IsPassed second_entry-IsKernel (omega arith) (342 ∷ []) kernel_chain 2
      (omega arith) loader (omega arith) (λ i. 0)
