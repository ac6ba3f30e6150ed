-- ===== src/Loader/Found.antt =====
-- The search of the kernel loader over the sectors of the root directory.
use simple_os.Base.{
  ℕ, zero, suc, ◌+◌, ◌*◌, ◌≤◌, ◌<◌, ◌≡◌, refl, sym, ap, ◌∙◌, ltb, ◌==◌, ==_iff, Bool-cases, inl,
  inr, arith,
}
use simple_os.Loader.{Bios, Bytes, read_sector, track_of, head_of, sector_of}
use simple_os.Loader.Directory.{
  four_bytes, search_entries, search_sectors, then_search, going, search_end,
}
use simple_os.Loader.Disk.{ReadsDisk, Holds, read_sector-sector_of}
use simple_os.Loader.Search.{
  IsKernel, IsPassed, dir_entry, cluster_in, size_in, search_entry-found, search_entry-passed,
}

module _ (image : Bytes) (byte : (a : ℕ) → image a < 256) where
  -- The entries of a sector `lba` from `j` on: either `target` is that of the kernel, or all are
  -- passed.
  module _ (lba : ℕ) (buff : Bytes) (holds : Holds image buff lba 512) where
    entry_same :
        (j : ℕ) → j < 16 → (i : ℕ) → i < 32 → buff (i + j * 32) ≡ image (32 * (16 * lba + j) + i)
    entry_same j h i hi = holds (i + j * 32) (omega arith) ∙ ap image (omega arith)

    entries_found :
        (left j target size : ℕ)
        → 16 * lba + j ≤ target
        → target < 16 * lba + j + left
        → j + left ≤ 16
        → ((g : ℕ) → 16 * lba + j ≤ g → g < target → IsPassed (dir_entry image g))
        → IsKernel (dir_entry image target)
        → search_entries left j buff size
          ≡ search_end (cluster_in (dir_entry image target)) (size_in (dir_entry image target))
    unfolding search_entries
    entries_found zero j target size from till fits passed kernel = absurd (omega arith)
    entries_found (suc left) j target size from till fits passed kernel =
        let here = λ (i : ℕ). buff (i + j * 32) in
        let further = λ (s : ℕ). search_entries left (suc j) buff s in
        elim (Bool-cases (target == 16 * lba + j)) [
          | inl now ↦
              let e = (==_iff target (16 * lba + j)).0 now in
              search_entry-found image byte target here
                (λ i hi.
                  entry_same j (omega arith) i hi ∙ ap (λ (g : ℕ). image (32 * g + i)) (sym e))
                further kernel
          | inr later ↦
              let more : 16 * lba + suc j ≤ target = ground (arith, later, from) in
              search_entry-passed image byte (16 * lba + j) here (entry_same j (omega arith))
                further (passed (16 * lba + j) (omega arith) (omega (arith, more)))
              ∙ entries_found left (suc j) target (four_bytes here) more (omega arith) (omega arith)
                  (λ g low high. passed g (omega arith) high) kernel
        ]

    entries_passed :
        (left j size : ℕ)
        → j + left ≤ 16
        → ((g : ℕ) → 16 * lba + j ≤ g → g < 16 * lba + j + left → IsPassed (dir_entry image g))
        → (last : ℕ) × (search_entries left j buff size ≡ going last)
    unfolding search_entries
    entries_passed zero j size fits passed = (size, refl)
    entries_passed (suc left) j size fits passed =
        let here = λ (i : ℕ). buff (i + j * 32) in
        let (last, e) =
          entries_passed left (suc j) (four_bytes here) (omega arith)
            (λ g low high. passed g (omega arith) (omega arith)) in
        (
          last,
          search_entry-passed image byte (16 * lba + j) here (entry_same j (omega arith))
                (λ (s : ℕ). search_entries left (suc j) buff s)
                (passed (16 * lba + j) (omega arith) (omega arith))
              ∙ e,
        )

  -- If the entry `target` of the disk is that of the kernel, in one of the `left` sectors from `i`
  -- on, and those before it in these sectors are passed, then the search ends with its cluster and
  -- its size.
  pub search_sectors-found :
      (bios : Bios)
      → ReadsDisk bios image
      → (left i target : ℕ) → (buff : Bytes) → (size : ℕ) → 16 * i ≤ target
      → target < 16 * (i + left)
      → i + left ≤ 2880
      → ((g : ℕ) → 16 * i ≤ g → g < target → IsPassed (dir_entry image g))
      → IsKernel (dir_entry image target)
      → search_sectors bios left i buff size
        ≡ search_end (cluster_in (dir_entry image target)) (size_in (dir_entry image target))
  unfolding search_sectors
  search_sectors-found bios disk zero i target buff size from till fits passed kernel =
      absurd (omega arith)
  search_sectors-found bios disk (suc left) i target buff size from till fits passed kernel =
      let (ok, holds) = read_sector-sector_of bios image disk i buff (omega arith) in
      let buff1 = (read_sector bios buff (sector_of i) (track_of i) (head_of i) 0 1).1 in
      let further = λ (s : ℕ). search_sectors bios left (suc i) buff1 s in
      elim (Bool-cases (ltb target (16 * suc i))) [
        | inl here ↦
            ap (λ s. then_search s further)
              (entries_found i buff1 holds 16 0 target size (omega arith) (ground (arith, here))
                (omega arith) (λ g low high. passed g (omega arith) high) kernel)
        | inr later ↦
            let more : 16 * suc i ≤ target = ground (arith, later) in
            let (last, e) =
              entries_passed i buff1 holds 16 0 size (omega arith)
                (λ g low high. passed g (omega arith) (omega (arith, more))) in
            ap (λ s. then_search s further) e
            ∙ search_sectors-found bios disk left (suc i) target buff1 last more (omega arith)
                (omega arith) (λ g low high. passed g (omega arith) high) kernel
      ]
