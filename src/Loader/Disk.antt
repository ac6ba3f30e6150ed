-- ===== src/Loader/Disk.antt =====
-- What the BIOS promises the kernel loader, and what its sector numbers come to.
use simple_os.Base.{
  ℕ, suc, ◌+◌, ◌*◌, ◌/◌, ◌%◌, ◌^◌, ◌≤◌, ◌<◌, ◌≡◌, refl, ap, ◌∙◌, false, ==_self, bit_or, arith,
}
use simple_os.Base.Bits.{bit_or-fields}
use simple_os.Loader.{Bios, Bytes, read_sector, track_of, head_of, sector_of}

-- The documented behaviour of `int $0x13` with %ah = 2 on a 1.44 MB disk with the bytes `image`: `n`
-- sectors of one track, from sector `s + 1` of track `t` and head `h` on, are read into the buffer.
pub record ReadsDisk (bios : Bios) (image : Bytes) : Type 0 where
  pub reads :
      (n t h s : ℕ) (buff : Bytes)
      → s + n ≤ 18
      → h < 2
      → t < 80
      → (((bios (0x200 + n) (t * 2 ^ 8 + suc s) (h * 2 ^ 8) buff).carry ≡ false)
          × ((bios (0x200 + n) (t * 2 ^ 8 + suc s) (h * 2 ^ 8) buff).ax ≡ n)
          × ((i : ℕ)
              → i < 512 * n
              → (bios (0x200 + n) (t * 2 ^ 8 + suc s) (h * 2 ^ 8) buff).buffer i
                ≡ image (512 * ((t * 2 + h) * 18 + s) + i)))

-- A buffer holds the sectors from a logical sector on, so many bytes of them.
abbrev pub Holds : Bytes → Bytes → ℕ → ℕ → Type 0
Holds image buff lba size = (i : ℕ) → i < size → buff i ≡ image (512 * lba + i)

module _ (bios : Bios) (image : Bytes) (disk : ReadsDisk bios image) where
  -- The registers that `read_sector` sets, as sums.
  pub read_sector-reads :
      (n t h s : ℕ) (buff : Bytes)
      → s + n ≤ 18
      → h < 2
      → t < 80
      → ((read_sector bios buff (suc s) t h 0 n).0 ≡ 0)
        × Holds image (read_sector bios buff (suc s) t h 0 n).1 ((t * 2 + h) * 18 + s) (512 * n)
  unfolding read_sector
  read_sector-reads n t h s buff hs hh ht =
      let en : n % 2 ^ 8 ≡ n = omega arith in
      let es : suc s % 2 ^ 8 ≡ suc s = omega arith in
      let et : t % 2 ^ 8 ≡ t = omega arith in
      let eh : h % 2 ^ 8 ≡ h = omega arith in
      let ax : bit_or 0x200 n ≡ 0x200 + n = bit_or-fields 8 2 n (omega arith) in
      let cx : bit_or (t * 2 ^ 8) (suc s) ≡ t * 2 ^ 8 + suc s =
        bit_or-fields 8 t (suc s) (omega arith) in
      let dx : bit_or (h * 2 ^ 8) 0 ≡ h * 2 ^ 8 = bit_or-fields 8 h 0 (omega arith) ∙ omega arith in
      let (carry, moved, bytes) = disk.reads n t h s buff hs hh ht in
      rw (en, es, et, eh, ax, cx, dx, carry, moved, ==_self n) (refl, bytes)

-- A logical sector of the disk has track, head and sector, with sectors from 1, and in this order.
pub sector_of-lem :
    (lba : ℕ)
    → lba < 2880
    → (sector_of lba ≡ suc (lba % 18)) × (head_of lba ≡ lba / 18 % 2) × (track_of lba ≡ lba / 36)
unfolding sector_of head_of track_of
sector_of-lem lba h = (ground arith, ground arith, ground arith)

-- The sector that the loader reads for a logical sector of the disk is this sector, and the read
-- succeeds.
pub read_sector-sector_of :
    (bios : Bios)
    → (image : Bytes) → ReadsDisk bios image
    → (lba : ℕ) → (buff : Bytes) → lba < 2880
    → ((read_sector bios buff (sector_of lba) (track_of lba) (head_of lba) 0 1).0 ≡ 0)
      × Holds image
          (read_sector bios buff (sector_of lba) (track_of lba) (head_of lba) 0 1).1
          lba
          512
read_sector-sector_of bios image disk lba buff h =
    let (es, eh, et) = sector_of-lem lba h in
    let (ok, bytes) =
      read_sector-reads bios image disk 1 (lba / 36) (lba / 18 % 2) (lba % 18) buff (omega arith)
        (omega arith) (omega arith) in
    let e : (lba / 36 * 2 + lba / 18 % 2) * 18 + lba % 18 ≡ lba = omega arith in
    rw (es, eh, et) (ok, λ i hi. bytes i hi ∙ ap (λ (l : ℕ). image (512 * l + i)) e)
