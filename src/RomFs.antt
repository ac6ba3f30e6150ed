-- ===== src/RomFs.antt =====
-- The read-only file system of fs/romfs.c, on the storage device of storage.c, with the byte order
-- of include/endian.h. The image is the list of its bytes, and an address in it is an offset. What
-- the functions print is left out.
pub mod Order
pub mod Walk
pub mod Content
mod Tests
use simple_os.Base.{
  ℕ, zero, suc, ◌+◌, ◌-◌, ◌*◌, ◌/◌, ◌%◌, ◌^◌, Option, none, some, List, ◌==◌, if◌then◌else◌,
  bit_and, bit_xor, get_or, drop, length,
}
use simple_os.Allocator.{Mm, alloc_mem, free_mem}
use simple_os.Strings.{s_strlen, s_strcmp}

-- The macro `swap`, on its two operands.
abbrev pub swap : ℕ → ℕ → ℕ × ℕ
swap a b = let a1 = bit_xor a b in let b1 = bit_xor b a1 in let a2 = bit_xor a1 b1 in (a2, b1)

-- `U`: a word and its bytes, the lowest first.
pub record U : Type 0 where
  pub c0 : ℕ
  pub c1 : ℕ
  pub c2 : ℕ
  pub c3 : ℕ

abbrev pub bytes_of : ℕ → U
bytes_of ui = record {
  c0 = ui % 2 ^ 8;
  c1 = ui / 2 ^ 8 % 2 ^ 8;
  c2 = ui / 2 ^ 16 % 2 ^ 8;
  c3 = ui / 2 ^ 24 % 2 ^ 8;
}

abbrev pub word_of : U → ℕ
word_of u = u.c0 + 2 ^ 8 * u.c1 + 2 ^ 16 * u.c2 + 2 ^ 24 * u.c3

abbrev pub swapped : U → U
swapped u =
    let (a0, a3) = swap u.c0 u.c3 in
    let (a1, a2) = swap u.c1 u.c2 in record { c0 = a0; c1 = a1; c2 = a2; c3 = a3 }

unfoldable pub be32tole32 : ℕ → ℕ
be32tole32 big_endian_32bits = word_of (swapped (bytes_of big_endian_32bits))

-- The same function under another name.
unfoldable pub le32tobe32 : ℕ → ℕ
le32tobe32 host_32bits = word_of (swapped (bytes_of host_32bits))

unfoldable pub get_next_16_boundary : ℕ → ℕ
get_next_16_boundary len =
    if bit_and len 15 == 0 then len else (len + (16 - bit_and len 15)) % 2 ^ 32

-- The `u32` at an offset of the image, as the processor reads it.
abbrev pub read_u32 : List ℕ → ℕ → ℕ
read_u32 buf offset = word_of (record {
  c0 = get_or buf offset 0;
  c1 = get_or buf (offset + 1) 0;
  c2 = get_or buf (offset + 2) 0;
  c3 = get_or buf (offset + 3) 0;
})

-- `RomFsHeader` at an offset.
pub record RomFsHeader : Type 0 where
  pub nextfh : ℕ
  pub spec : ℕ
  pub size : ℕ
  pub checksum : ℕ

abbrev pub header_at : List ℕ → ℕ → RomFsHeader
header_at buf offset = record {
  nextfh = read_u32 buf offset;
  spec = read_u32 buf (offset + 4);
  size = read_u32 buf (offset + 8);
  checksum = read_u32 buf (offset + 12);
}

-- `INode`; the name is an offset, and the super block is always that of the file system.
pub record INode : Type 0 where
  pub fn_name : ℕ
  pub dsize : ℕ
  pub daddr : ℕ

-- `print_romfs_entry` without the printing: `*offset` becomes the offset of the next entry.
unfoldable pub print_romfs_entry : List ℕ → ℕ → ℕ
unfolding be32tole32
print_romfs_entry buf offset = bit_and (be32tole32 (header_at buf offset).nextfh) 0xfffffff0

-- The inode for the entry at an offset.
unfoldable pub fill_inode : List ℕ → ℕ → INode
unfolding be32tole32
fill_inode buf next_offset = record {
  fn_name = next_offset + 16;
  dsize = be32tole32 (header_at buf next_offset).size;
  daddr = next_offset;
}

-- The `do ... while` of `romfs_namei` from an offset, with `rounds` left.
unfoldable pub namei_loop : ℕ → List ℕ → List ℕ → ℕ → Option (Option INode)
namei_loop zero buf dir offset = none
namei_loop (suc rounds) buf dir offset =
    let next_offset = print_romfs_entry buf offset in
    let rest = namei_loop rounds buf dir next_offset in
    if s_strcmp (drop (next_offset + 16) buf) dir == 0
    then some (some (fill_inode buf next_offset))
    else if next_offset == 0
    then some none
    else rest

-- What follows the loop: the image is read at once, so that one pass is all. A block is taken for
-- the inode, and that of the image is given back; if nothing is found, it is not.
abbrev pub finish_namei : ℕ → Mm → Option (Option INode) → Option (Option INode × Mm)
finish_namei buf_addr mm none = none
finish_namei buf_addr mm (some none) = some (none, mm)
finish_namei buf_addr mm (some (some inode)) = some (some inode, free_mem (alloc_mem mm).1 buf_addr)

-- `romfs_namei` on an image of some bytes, of which the device reads all. The loop starts at the
-- first entry behind the name of the volume.
unfoldable pub romfs_namei : ℕ → List ℕ → List ℕ → Mm → Option (Option INode × Mm)
romfs_namei rounds image dir mm =
    let (buf_addr, mm1) = alloc_mem mm in
    let first = get_next_16_boundary (s_strlen (drop 16 image) + 0x10) in
    if length image == 0
    then some (none, mm1)
    else finish_namei buf_addr mm1 (namei_loop rounds image dir first)

unfoldable pub romfs_get_daddr : INode → ℕ
romfs_get_daddr inode =
    let content = if inode.dsize == 0 then 0 else get_next_16_boundary (inode.daddr + 2) in
    (content + 16) % 2 ^ 32
