-- ===== src/Loader/Fat.antt =====
-- The cluster that follows another, from the file allocation table of the kernel loader's disk.
use simple_os.Base.{
  ℕ, suc, ◌+◌, ◌-◌, ◌*◌, ◌/◌, ◌%◌, ◌^◌, ◌≤◌, ◌<◌, ◌≡◌, ◌≢◌, ap, ◌∙◌, ◌==◌, if◌then◌else◌, bit_or,
  bit_and, Bool-cases, ==_iff, inl, inr, arith,
}
use simple_os.Base.Bits.{bit_or-fields, fields-bit_or, bit_and-low_digit}
use simple_os.Loader.{Bios, Bytes, Loader, read_fat, is_odd, get_next_cluster}
use simple_os.Loader.Disk.{ReadsDisk, Holds, read_sector-reads}

-- Entry `c` of a table of 12 bits each in sector 1: bits `12 c` to `12 c + 11`, the lowest first.
abbrev pub fat_word : Bytes → ℕ → ℕ
fat_word image c = image (512 + 3 * c / 2) + 2 ^ 8 * image (512 + 3 * c / 2 + 1)

unfoldable pub fat_entry : Bytes → ℕ → ℕ
fat_entry image c = if c % 2 == 0 then fat_word image c % 2 ^ 12 else fat_word image c / 2 ^ 4

even_entry :
    (low high : ℕ)
    → low < 256
    → high < 256
    → bit_or (bit_and high 0xf * 2 ^ 8) low % 2 ^ 16 ≡ (low + 2 ^ 8 * high) % 2 ^ 12
even_entry low high hl hh =
    rw (bit_or-fields 8 (bit_and high 0xf) low hl, bit_and-low_digit high) (omega arith)

odd_entry :
    (low high : ℕ)
    → low < 256
    → high < 256
    → bit_or (bit_and (low / 2 ^ 4) 0xf) (high * 2 ^ 4) % 2 ^ 16 ≡ (low + 2 ^ 8 * high) / 2 ^ 4
odd_entry low high hl hh =
    rw (bit_and-low_digit (low / 2 ^ 4), fields-bit_or 4 high (low / 2 ^ 4 % 16) (omega arith))
      (omega arith)

module _ (bios : Bios) (image : Bytes) (disk : ReadsDisk bios image) where
  -- The two sectors that `read_fat` reads, for the sector numbers that occur.
  read_fat-Holds :
      (fat_buf : Bytes) (s : ℕ) → s ≤ 16 → Holds image (read_fat bios fat_buf (suc s)).1 s 1024
  unfolding read_fat
  read_fat-Holds fat_buf s h =
      let e0 : suc s % 18 ≡ suc s = omega arith in
      let e1 : suc s / 18 / 2 ≡ 0 = omega arith in
      let e2 : suc s / 18 % 2 ≡ 0 = omega arith in
      let (ok, bytes) =
        read_sector-reads bios image disk 2 0 0 s fat_buf (omega arith) (omega arith)
          (omega arith) in
      rw (e0, e1, e2) (λ i hi. bytes i hi ∙ ap (λ (l : ℕ). image (512 * l + i)) (omega arith))

  -- The byte `k` behind an offset of the table, in the buffer that `read_fat` fills for it.
  fat_byte :
      (fat_buf : Bytes) (offset k a : ℕ)
      → offset < 2 ^ 13
      → k < 1024
      → 512 * (offset / 512 + 1) + k ≡ a
      → (read_fat bios fat_buf ((offset / 512 + 2) % 2 ^ 16)).1 k ≡ image a
  fat_byte fat_buf offset k a h hk at =
      let e : (offset / 512 + 2) % 2 ^ 16 ≡ suc (offset / 512 + 1) = omega arith in
      rw (e) (read_fat-Holds fat_buf (offset / 512 + 1) (omega arith) k hk ∙ ap image at)

  -- On a disk of bytes, the loader finds the entry of a cluster's number below `2 ^ 12`, also when
  -- this entry crosses the end of a sector.
  pub get_next_cluster-fat_entry :
      ((a : ℕ) → image a < 256)
      → (loader : Loader) → (c : ℕ) → c < 2 ^ 12
      → (get_next_cluster bios loader c).0 ≡ fat_entry image c
  unfolding get_next_cluster fat_entry is_odd
  get_next_cluster-fat_entry byte loader c h = elim (Bool-cases (c % 2 == 0)) [
    | inl even ↦
        let o = c / 2 * 3 in
        let two = (==_iff (c % 2) 0).0 even in
        let buf = loader.fat_buffer in
        let b0 =
          fat_byte buf o (o % 512) (512 + 3 * c / 2) (omega arith) (omega arith) (omega arith) in
        let b1 =
          fat_byte buf o (o % 512 + 1) (512 + 3 * c / 2 + 1) (omega arith) (omega arith)
            (omega arith) in
        rw (even, b0, b1)
          (even_entry (image (512 + 3 * c / 2)) (image (512 + 3 * c / 2 + 1)) (byte _) (byte _))
    | inr odd ↦
        let o = (c - 1) / 2 * 3 in
        let one : c % 2 ≢ 0 = λ e. ground (arith, odd, e) in
        let buf = loader.fat_buffer in
        let b0 =
          fat_byte buf o (o % 512 + 1) (512 + 3 * c / 2) (omega arith) (omega arith)
            (omega arith) in
        let b1 =
          fat_byte buf o (o % 512 + 2) (512 + 3 * c / 2 + 1) (omega arith) (omega arith)
            (omega arith) in
        rw (odd, b0, b1)
          (odd_entry (image (512 + 3 * c / 2)) (image (512 + 3 * c / 2 + 1)) (byte _) (byte _))
  ]
