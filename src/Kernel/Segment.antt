-- ===== src/Kernel/Segment.antt =====
-- Segment descriptors of include/protect.h: how a base and a limit are split over the fields, and
-- how they are read back.
pub mod Laws
mod Tests
use simple_os.Base.{ℕ, ◌+◌, ◌*◌, ◌/◌, ◌%◌, ◌^◌, ◌≡◌, ◌<◌, refl, bit_and, bit_or, arith}

pub record Descriptor : Type 0 where
  pub limit_low : ℕ
  pub base_low : ℕ
  pub base_mid : ℕ
  pub attr1 : ℕ
  pub limit_high_attr2 : ℕ
  pub base_high : ℕ

-- `init_descriptor`. The shift of `limit` goes to the left, as in the source.
unfoldable pub init_descriptor : Descriptor → ℕ → ℕ → ℕ → Descriptor
init_descriptor desc base limit attr = record {
  limit_low = limit % 2 ^ 16;
  base_low = base % 2 ^ 16;
  base_mid = base / 2 ^ 16 % 2 ^ 8;
  attr1 = attr % 2 ^ 8;
  limit_high_attr2 = bit_or (bit_and (limit * 2 ^ 16 % 2 ^ 32) 0x0f) (bit_and (attr / 2 ^ 8) 0xf0);
  base_high = base / 2 ^ 24 % 2 ^ 8;
}

-- `ldt_seg_linear` at the descriptor that it selects; `seg2base` computes the same.
unfoldable pub seg_linear : Descriptor → ℕ
seg_linear d = bit_or (bit_or (d.base_high * 2 ^ 24) (d.base_mid * 2 ^ 16)) d.base_low

-- `reassembly(high, high_shift, mid, mid_shift, low)`, in `u32`
unfoldable pub reassembly : ℕ → ℕ → ℕ → ℕ → ℕ → ℕ
reassembly high high_shift mid mid_shift low =
    (high * 2 ^ high_shift + mid * 2 ^ mid_shift + low) % 2 ^ 32

-- The base and the limit of a segment, as `do_fork` reads them back.
unfoldable pub segment_base : Descriptor → ℕ
unfolding reassembly
segment_base d = reassembly d.base_high 24 d.base_mid 16 d.base_low

unfoldable pub segment_limit : Descriptor → ℕ
unfolding reassembly
segment_limit d = reassembly 0 0 (bit_and d.limit_high_attr2 0xf) 16 d.limit_low

-- The fields hold no more than their width.
pub record IsDescriptor (d : Descriptor) : Type 0 where
  pub base_low : d.base_low < 2 ^ 16
  pub base_mid : d.base_mid < 2 ^ 8
  pub base_high : d.base_high < 2 ^ 8
