-- ===== src/Loader/Load.antt =====
-- A whole file loaded by the kernel loader: its clusters one behind the other.
use simple_os.Base.{
  ℕ, zero, suc, ◌+◌, ◌-◌, ◌*◌, ◌/◌, ◌%◌, ◌^◌, ◌≤◌, ◌<◌, ◌≡◌, ◌≢◌, refl, sym, ap, ◌∙◌, ltb,
  Bool-cases, ==_ne, inl, inr, arith, some, List, [], ◌∷◌, length, get_or,
}
use simple_os.Loader.{
  Bios, Bytes, Loader, get_next_cluster, copy_cluster, load_loop, load_file_to_ram,
}
use simple_os.Loader.Disk.{ReadsDisk}
use simple_os.Loader.Fat.{fat_entry, get_next_cluster-fat_entry}
use simple_os.Loader.Copy.{Copied, area_start, copy_cluster-Copied}

-- The clusters of a file from one on: each is in the data area of the disk, and its entry in the
-- file allocation table is the next one, or 0xfff in the last.
pub data Chain (image : Bytes) (start : ℕ) : ℕ → List ℕ → Type 0 where
  last :
      {c : ℕ} {rest : List ℕ}
      → 2 ≤ c
      → c + start < 2882
      → fat_entry image c ≡ 0xfff
      → rest ≡ []
      → Chain image start c rest
  link :
      {c d : ℕ} {rest more : List ℕ}
      → 2 ≤ c
      → c + start < 2882
      → fat_entry image c ≡ d
      → d ≢ 0xfff
      → Chain image start d more
      → rest ≡ d ∷ more
      → Chain image start c rest

-- Byte `a` of a file with the given clusters.
abbrev pub file_byte : Bytes → ℕ → List ℕ → ℕ → ℕ
file_byte image start clusters a = image (512 * (get_or clusters (a / 512) 0 + start - 2) + a % 512)

-- What loading clusters does: they are in memory from the old `kernel_addr` on, and what was below
-- is as it was.
pub record Loaded (image : Bytes) (start : ℕ) (clusters : List ℕ) (before after : Loader)
    : Type 0 where
  pub behind : after.kernel_addr ≡ before.kernel_addr + 512 * length clusters
  pub content :
      (a : ℕ)
      → a < 512 * length clusters
      → after.memory (before.kernel_addr + a) ≡ file_byte image start clusters a
  pub below : (a : ℕ) → a < before.kernel_addr → after.memory a ≡ before.memory a

-- One more cluster in front.
module _ (image : Bytes) (start c : ℕ) (rest : List ℕ) (l0 l1 l2 : Loader)
    (first : Copied image (c + start - 2) l0 l1) (others : Loaded image start rest l1 l2) where
  first_byte :
      (a : ℕ) → a < 512 → l2.memory (l0.kernel_addr + a) ≡ file_byte image start (c ∷ rest) a
  first_byte a h =
      let sector : a / 512 ≡ 0 = omega arith in
      let at : a % 512 ≡ a = omega arith in
      rw (sector, at)
        (others.below (l0.kernel_addr + a) (omega (arith, first.behind)) ∙ first.content a h)

  later_byte :
      (b : ℕ)
      → b < 512 * length rest
      → l2.memory (l0.kernel_addr + (512 + b)) ≡ file_byte image start (c ∷ rest) (512 + b)
  later_byte b h =
      let sector : (512 + b) / 512 ≡ suc (b / 512) = omega arith in
      let at : (512 + b) % 512 ≡ b % 512 = omega arith in
      let e : l0.kernel_addr + (512 + b) ≡ l1.kernel_addr + b = omega (arith, first.behind) in
      rw (sector, at, e) (others.content b h)

  Copied-Loaded : Loaded image start (c ∷ rest) l0 l2
  Copied-Loaded = record {
    behind = omega (arith, others.behind, first.behind);
    content = λ a ha. elim (Bool-cases (ltb a 512)) [
      | inl early ↦ first_byte a (ground (arith, early))
      | inr late ↦
          let e : 512 + (a - 512) ≡ a = ground (arith, late) in
          ap (λ (x : ℕ). l2.memory (l0.kernel_addr + x)) (sym e)
          ∙ later_byte (a - 512) (omega (arith, e))
          ∙ ap (file_byte image start (c ∷ rest)) e
    ];
    below = λ a ha. others.below a (omega (arith, first.behind)) ∙ first.below a ha;
  }

chain_start :
    (image : Bytes) (start c : ℕ) (rest : List ℕ)
    → Chain image start c rest
    → (2 ≤ c) × (c + start < 2882)
chain_start image start c rest (Chain.last two area e r) = (two, area)
chain_start image start c rest (Chain.link two area e n more r) = (two, area)

module _ (bios : Bios) (image : Bytes) (disk : ReadsDisk bios image)
    (byte : (a : ℕ) → image a < 256) where
  -- The copy of the next cluster, after its number was looked up.
  next-Copied :
      (loader : Loader) (c d : ℕ)
      → 2 ≤ d
      → d + area_start loader.bpb < 2882
      → loader.kernel_addr + 512 < 2 ^ 32
      → Copied image
          (d + area_start loader.bpb - 2)
          loader
          (copy_cluster bios (get_next_cluster bios loader c).1 d)
  unfolding get_next_cluster
  next-Copied loader c d two area fits =
      let l1 = (get_next_cluster bios loader c).1 in
      let copied = copy_cluster-Copied bios image disk l1 d two area fits in
      record {
        same_bpb = copied.same_bpb;
        behind = copied.behind;
        content = copied.content;
        below = copied.below;
      }

  last-Loaded :
      (start : ℕ) (loader : Loader) (c : ℕ)
      → Loaded image start [] loader (get_next_cluster bios loader c).1
  unfolding get_next_cluster
  last-Loaded start loader c = record {
    behind = omega arith;
    content = λ a ha. absurd (omega arith);
    below = λ a ha. refl;
  }

  load_loop-Loaded :
      (rounds start c : ℕ) (rest : List ℕ) (loader : Loader)
      → Chain image start c rest
      → area_start loader.bpb ≡ start
      → length rest < rounds
      → loader.kernel_addr + 512 * length rest < 2 ^ 32
      → (after : Loader) × (load_loop bios rounds loader c ≡ some after)
        × Loaded image start rest loader after
  unfolding load_loop
  load_loop-Loaded zero start c rest loader chain at h fits = absurd (omega arith)
  load_loop-Loaded (suc rounds) start c rest loader (Chain.last two area e r) at h fits =
      let now = get_next_cluster-fat_entry bios image disk byte loader c (omega arith) ∙ e in
      let after = (get_next_cluster bios loader c).1 in
      (after, rw (now) refl, rw (r) (last-Loaded start loader c))
  load_loop-Loaded (suc rounds) start c rest loader
        (Chain.link {d = d} {more = more} two area e n chain r) at h fits =
      let now = get_next_cluster-fat_entry bios image disk byte loader c (omega arith) ∙ e in
      let (dtwo, darea) = chain_start image start d more chain in
      let len : length rest ≡ suc (length more) = ap length r in
      let copied = next-Copied loader c d dtwo (rw (at) darea) (omega (arith, len)) in
      let l2 = copy_cluster bios (get_next_cluster bios loader c).1 d in
      let (after, result, loaded) =
        load_loop-Loaded rounds start d more l2 chain (ap area_start copied.same_bpb ∙ at)
          (omega (arith, len)) (omega (arith, len, copied.behind)) in
      (
        after,
        rw (now, ==_ne d 0xfff n) result,
        rw (r) (Copied-Loaded image start d more loader l2 after (rw (sym at) copied) loaded),
      )

  -- Loading a file to which the clusters from `c` on belong puts all of its sectors one behind the
  -- other into memory from `kernel_addr` on, and leaves what is below. Rounds for every cluster are
  -- enough.
  pub load_file_to_ram-Loaded :
      (rounds start c fat : ℕ) (rest : List ℕ) (loader : Loader)
      → Chain image start c rest
      → area_start loader.bpb ≡ start
      → fat ≢ 0
      → length rest < rounds
      → loader.kernel_addr + 512 * length (c ∷ rest) < 2 ^ 32
      → (after : Loader) × (load_file_to_ram bios rounds loader c fat ≡ some after)
        × Loaded image start (c ∷ rest) loader after
  unfolding load_file_to_ram
  load_file_to_ram-Loaded rounds start c fat rest loader chain at table enough fits =
      let (two, area) = chain_start image start c rest chain in
      let copied = copy_cluster-Copied bios image disk loader c two (rw (at) area) (omega arith) in
      let l1 = copy_cluster bios loader c in
      let word : c % 2 ^ 16 ≡ c = omega arith in
      let (after, result, loaded) =
        load_loop-Loaded rounds start c rest l1 chain (ap area_start copied.same_bpb ∙ at) enough
          (omega (arith, copied.behind)) in
      let first : Copied image (c + start - 2) loader l1 = rw (sym at) copied in
      (
        after,
        rw (==_ne fat 0 table, word) result,
        Copied-Loaded image start c rest loader l1 after first loaded,
      )
