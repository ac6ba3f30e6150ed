-- ===== src/RomFs/Content.antt =====
-- Where the content of a file starts.
use simple_os.Base.{ℕ, ◌+◌, ◌*◌, ◌/◌, ◌%◌, ◌^◌, ◌<◌, ◌≡◌, ◌≢◌, ◌↔◌, ◌∙◌, arith, ==_ne}
use simple_os.Base.Bits.{bit_and-low_digit}
use simple_os.RomFs.{INode, get_next_16_boundary, romfs_get_daddr}

-- The offset of the content of an entry whose name has `len` bytes: behind the header of 16 bytes
-- and the name with its end, at a multiple of 16.
abbrev pub content_offset : ℕ → ℕ → ℕ
content_offset entry len = entry + 16 + (len + 1 + 15) / 16 * 16

-- `get_next_16_boundary` finds the least multiple of 16 that is not below an offset, unless it would
-- not fit into 32 bits.
boundary-lem : (len : ℕ) → len + 15 < 2 ^ 32 → get_next_16_boundary len ≡ (len + 15) / 16 * 16
unfolding get_next_16_boundary
boundary-lem len h = rw (bit_and-low_digit len) (ground arith)

-- For a file that is not empty, whose entry is at a multiple of 16, `romfs_get_daddr` finds the
-- offset of its content if its name has at most 15 bytes, and not otherwise.
pub romfs_get_daddr-content_offset :
    (inode : INode) (len : ℕ)
    → inode.dsize ≢ 0
    → inode.daddr % 16 ≡ 0
    → inode.daddr + 64 < 2 ^ 32
    → (romfs_get_daddr inode ≡ content_offset inode.daddr len) ↔ (len < 16)
unfolding romfs_get_daddr
romfs_get_daddr-content_offset inode len file aligned fits =
    let at : get_next_16_boundary (inode.daddr + 2) ≡ inode.daddr + 16 =
      boundary-lem (inode.daddr + 2) (omega arith) ∙ omega arith in
    rw (==_ne inode.dsize 0 file, at) ((λ e. omega arith), (λ lt. omega arith))
