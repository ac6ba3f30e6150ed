-- ===== src/RomFs/Tests.antt =====
-- An image of the volume "v" with the entries "a" and "b".
use simple_os.Base.{
  ℕ, ◌<◌, ◌≡◌, ◌≢◌, ◌↔◌, refl, ap, arith, Bool, true, ◌&&◌, none, some, List, [], ◌∷◌, ◌++◌,
  replicate, ltb,
}
use simple_os.Allocator.{Mm, alloc_mem, free_mem}
use simple_os.Strings.{strlen_loop, s_strlen, first_char}
use simple_os.Strings.Laws.{text_of, AllBytes, nothing, next}
use simple_os.RomFs.{
  INode, be32tole32, get_next_16_boundary, print_romfs_entry, fill_inode, romfs_namei,
  romfs_get_daddr,
}
use simple_os.RomFs.Walk.{
  Leads, here, Misses, last, more, first_entry, romfs_namei-Leads, romfs_namei-Misses,
}
use simple_os.RomFs.Content.{content_offset, romfs_get_daddr-content_offset}

-- An entry: the offset of the next one with its kind, no `spec`, the size, no checksum, the name.
abbrev entry : ℕ → ℕ → ℕ → List ℕ
entry following size name =
    0 ∷ 0 ∷ 0 ∷ following ∷ 0 ∷ 0 ∷ 0 ∷ 0 ∷ 0 ∷ 0 ∷ 0 ∷ size ∷ 0 ∷ 0 ∷ 0 ∷ 0 ∷ name ∷ replicate 15 0

abbrev image : List ℕ
image = replicate 16 0 ++ (0x76 ∷ replicate 15 0) ++ entry 0x42 3 0x61 ++ entry 2 5 0x62

abbrev name_a : List ℕ
name_a = 0x61 ∷ 0 ∷ []

abbrev name_b : List ℕ
name_b = 0x62 ∷ 0 ∷ []

abbrev mm : Mm
mm = record { memory_used = 0; mm_start = 0x1000000 }

all_small : List ℕ → Bool
all_small [] = true
all_small (c ∷ s) = ltb c 256 && all_small s

all_small-AllBytes : (s : List ℕ) → all_small s ≡ true → AllBytes s
unfolding all_small
all_small-AllBytes [] h = nothing
all_small-AllBytes (c ∷ s) h = next (ground (arith, h)) (all_small-AllBytes s (ground (arith, h)))

image-AllBytes : AllBytes image
unfolding all_small
image-AllBytes = all_small-AllBytes image refl

name_a-AllBytes : AllBytes name_a
unfolding all_small
name_a-AllBytes = all_small-AllBytes name_a refl

name_b-AllBytes : AllBytes name_b
unfolding all_small
name_b-AllBytes = all_small-AllBytes name_b refl

byte_order : be32tole32 0x12345678 ≡ 0x78563412
unfolding be32tole32
byte_order = refl

b-Leads : Leads image (text_of name_b) 0 (first_entry image) 64
unfolding be32tole32 print_romfs_entry get_next_16_boundary s_strlen strlen_loop text_of
b-Leads = here refl refl

other_name : (c d : ℕ) → c ≢ d → (c ∷ []) ≢ (d ∷ [])
other_name c d ne e = ne (ap first_char e)

-- Entry "a" is the first one, which the walk passes by.
a-Misses : Misses image (text_of name_a) 1 (first_entry image)
unfolding be32tole32 print_romfs_entry get_next_16_boundary s_strlen strlen_loop text_of
a-Misses =
    more {middle = 64} refl (other_name 0x62 0x61 (omega arith)) (omega arith)
      (last refl (other_name 0x76 0x61 (omega arith)))

romfs_namei-Leads_example :
    romfs_namei 2 image name_b mm
    ≡ some (some (fill_inode image 64), free_mem (alloc_mem (alloc_mem mm).1).1 (alloc_mem mm).0)
romfs_namei-Leads_example =
    romfs_namei-Leads 2 0 64 image name_b mm image-AllBytes name_b-AllBytes (omega arith)
      (omega arith) b-Leads

romfs_namei-Misses_example : romfs_namei 2 image name_a mm ≡ some (none, (alloc_mem mm).1)
romfs_namei-Misses_example =
    romfs_namei-Misses 2 1 image name_a mm image-AllBytes name_a-AllBytes (omega arith) a-Misses

abbrev file : INode
file = record { fn_name = 80; dsize = 5; daddr = 64 }

romfs_get_daddr-content_offset_example : (romfs_get_daddr file ≡ content_offset 64 1) ↔ (1 < 16)
romfs_get_daddr-content_offset_example =
    romfs_get_daddr-content_offset file 1 (omega arith) refl (omega arith)
