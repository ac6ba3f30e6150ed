-- ===== src/RomFs/Walk.antt =====
-- The walk of `romfs_namei` along the entries of an image.
use simple_os.Base.{
  ℕ, zero, suc, ◌+◌, ◌<◌, ◌≡◌, ◌≢◌, refl, ap, arith, none, some, List, [], ◌∷◌, ◌==◌, ==_ne, drop,
  length, Bool-cases, inl, inr,
}
use simple_os.Allocator.{Mm, alloc_mem, free_mem}
use simple_os.Strings.{s_strlen, s_strcmp}
use simple_os.Strings.Laws.{text_of, AllBytes, nothing, next, s_strcmp-text_of}
use simple_os.RomFs.{
  print_romfs_entry, fill_inode, namei_loop, finish_namei, romfs_namei, get_next_16_boundary,
}

-- The name of the entry at an offset.
abbrev pub name_at : List ℕ → ℕ → List ℕ
name_at buf offset = text_of (drop (offset + 16) buf)

AllBytes-drop : (n : ℕ) (s : List ℕ) → AllBytes s → AllBytes (drop n s)
AllBytes-drop zero s b = b
AllBytes-drop (suc n) [] b = nothing
AllBytes-drop (suc n) (c ∷ s) (next h b) = AllBytes-drop n s b

-- Behind the entry at `offset`, the first entry called `name` is at `target`; `n` entries stand in
-- between.
pub data Leads (buf name : List ℕ) : ℕ → ℕ → ℕ → Type 0 where
  here :
      {offset target : ℕ}
      → print_romfs_entry buf offset ≡ target
      → name_at buf target ≡ name
      → Leads buf name 0 offset target
  there :
      {n offset middle target : ℕ}
      → print_romfs_entry buf offset ≡ middle
      → name_at buf middle ≢ name
      → middle ≢ 0
      → Leads buf name n middle target
      → Leads buf name (suc n) offset target

-- Behind the entry at `offset` no entry is called `name`. The last offset is 0, and the loop looks
-- for a name there, too, where the name of the volume stands.
pub data Misses (buf name : List ℕ) : ℕ → ℕ → Type 0 where
  last :
      {offset : ℕ}
      → print_romfs_entry buf offset ≡ 0
      → name_at buf 0 ≢ name
      → Misses buf name 0 offset
  more :
      {n offset middle : ℕ}
      → print_romfs_entry buf offset ≡ middle
      → name_at buf middle ≢ name
      → middle ≢ 0
      → Misses buf name n middle
      → Misses buf name (suc n) offset

module _ (buf dir : List ℕ) (bytes : AllBytes buf) (dir_bytes : AllBytes dir) where
  matches :
      (offset : ℕ) → name_at buf offset ≡ text_of dir → s_strcmp (drop (offset + 16) buf) dir ≡ 0
  matches offset e =
      (s_strcmp-text_of (drop (offset + 16) buf) dir (AllBytes-drop (offset + 16) buf bytes)
          dir_bytes).1
        e

  differs :
      (offset : ℕ) → name_at buf offset ≢ text_of dir → s_strcmp (drop (offset + 16) buf) dir ≢ 0
  differs offset ne e = ne (
      (s_strcmp-text_of (drop (offset + 16) buf) dir (AllBytes-drop (offset + 16) buf bytes)
          dir_bytes).0
        e)

  pub namei_loop-Leads :
      (n rounds offset target : ℕ)
      → n < rounds
      → Leads buf (text_of dir) n offset target
      → namei_loop rounds buf dir offset ≡ some (some (fill_inode buf target))
  unfolding namei_loop
  namei_loop-Leads zero zero offset target h w = absurd (omega arith)
  namei_loop-Leads zero (suc rounds) offset target h (here e same) =
      rw e (rw (matches target same) refl)
  namei_loop-Leads (suc n) zero offset target h w = absurd (omega arith)
  namei_loop-Leads (suc n) (suc rounds) offset target h (there {middle} e off on w) = rw e (
      rw (==_ne (s_strcmp (drop (middle + 16) buf) dir) 0 (differs middle off), ==_ne middle 0 on)
        (namei_loop-Leads n rounds middle target (omega arith) w))

  pub namei_loop-Misses :
      (n rounds offset : ℕ)
      → n < rounds
      → Misses buf (text_of dir) n offset
      → namei_loop rounds buf dir offset ≡ some none
  unfolding namei_loop
  namei_loop-Misses zero zero offset h w = absurd (omega arith)
  namei_loop-Misses zero (suc rounds) offset h (last e off) =
      rw e (rw (==_ne (s_strcmp (drop 16 buf) dir) 0 (differs 0 off)) refl)
  namei_loop-Misses (suc n) zero offset h w = absurd (omega arith)
  namei_loop-Misses (suc n) (suc rounds) offset h (more {middle} e off on w) = rw e (
      rw (==_ne (s_strcmp (drop (middle + 16) buf) dir) 0 (differs middle off), ==_ne middle 0 on)
        (namei_loop-Misses n rounds middle (omega arith) w))

-- Where the first entry of an image stands.
abbrev pub first_entry : List ℕ → ℕ
first_entry image = get_next_16_boundary (s_strlen (drop 16 image) + 0x10)

-- If behind the first entry of an image there is one with the name that is looked for, then
-- `romfs_namei` gives the inode of the first such entry. Of the two blocks that it allocates, it
-- frees the one that held the image. One round for each entry is enough.
pub romfs_namei-Leads :
    (rounds n target : ℕ) (image dir : List ℕ) (mm : Mm)
    → AllBytes image
    → AllBytes dir
    → length image ≢ 0
    → n < rounds
    → Leads image (text_of dir) n (first_entry image) target
    → romfs_namei rounds image dir mm
      ≡ some
          (some (fill_inode image target), free_mem (alloc_mem (alloc_mem mm).1).1 (alloc_mem mm).0)
unfolding romfs_namei
romfs_namei-Leads rounds n target image dir mm bytes dir_bytes full h w =
    rw (==_ne (length image) 0 full) (
      ap (finish_namei (alloc_mem mm).0 (alloc_mem mm).1)
        (namei_loop-Leads image dir bytes dir_bytes n rounds (first_entry image) target h w))

-- If no entry behind the first one has the name that is looked for, nor the volume, then
-- `romfs_namei` finds nothing, even if the first entry has that name; the block that held the image
-- is not freed.
pub romfs_namei-Misses :
    (rounds n : ℕ) (image dir : List ℕ) (mm : Mm)
    → AllBytes image
    → AllBytes dir
    → n < rounds
    → Misses image (text_of dir) n (first_entry image)
    → romfs_namei rounds image dir mm ≡ some (none, (alloc_mem mm).1)
unfolding romfs_namei
romfs_namei-Misses rounds n image dir mm bytes dir_bytes h w =
    elim (Bool-cases (length image == 0)) [
      | inl y ↦ rw y refl
      | inr m ↦ rw m (
          ap (finish_namei (alloc_mem mm).0 (alloc_mem mm).1)
            (namei_loop-Misses image dir bytes dir_bytes n rounds (first_entry image) h w))
    ]
