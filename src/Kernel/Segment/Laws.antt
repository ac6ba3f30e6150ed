-- ===== src/Kernel/Segment/Laws.antt =====
-- What descriptors keep of a base and of a limit.
use simple_os.Base.{ℕ, ◌+◌, ◌*◌, ◌/◌, ◌%◌, ◌^◌, ◌≡◌, ◌<◌, bit_and, bit_or, arith, ◌∙◌}
use simple_os.Base.Bits.{bit_or-fields, bit_and-low_digit, bit_and-high_digit, zero-bit_or}
use simple_os.Kernel.Segment.{
  Descriptor, init_descriptor, seg_linear, segment_base, segment_limit, IsDescriptor,
}

-- The two ways in which the kernel reads a segment's base, by `|` and by `+`, agree.
pub seg_linear-eq-segment_base : (d : Descriptor) → IsDescriptor d → seg_linear d ≡ segment_base d
unfolding seg_linear segment_base
seg_linear-eq-segment_base d v =
    let high : bit_or (d.base_high * 2 ^ 24) (d.base_mid * 2 ^ 16)
        ≡ (d.base_high * 2 ^ 8 + d.base_mid) * 2 ^ 16 =
      rw (bit_or-fields 24 d.base_high (d.base_mid * 2 ^ 16) (omega arith)) (omega arith) in
    rw (high, bit_or-fields 16 (d.base_high * 2 ^ 8 + d.base_mid) d.base_low v.base_low)
      (omega arith)

init_descriptor-IsDescriptor :
    (desc : Descriptor) (base limit attr : ℕ) → IsDescriptor (init_descriptor desc base limit attr)
unfolding init_descriptor
init_descriptor-IsDescriptor desc base limit attr = omega arith

-- The base that `init_descriptor` stores is read back whole, by either way of reading it.
pub seg_linear-init_descriptor :
    (desc : Descriptor) (base limit attr : ℕ)
    → base < 2 ^ 32
    → (seg_linear (init_descriptor desc base limit attr) ≡ base)
      × (segment_base (init_descriptor desc base limit attr) ≡ base)
seg_linear-init_descriptor desc base limit attr h =
    (seg_linear-eq-segment_base d (init_descriptor-IsDescriptor desc base limit attr) ∙ back, back)
  where
    d : Descriptor
    d = init_descriptor desc base limit attr

    back : segment_base d ≡ base
    back = unfold segment_base init_descriptor in omega arith

-- The attributes leave no trace in the digit that holds the upper part of a limit.
attributes-low_digit : (attr : ℕ) → bit_and (bit_or 0 (bit_and (attr / 2 ^ 8) 0xf0)) 0xf ≡ 0
attributes-low_digit attr =
    rw (zero-bit_or, bit_and-low_digit) (omega (arith, bit_and-high_digit (attr / 2 ^ 8)))

-- Of the limit that is given to `init_descriptor` only the lower 16 bits are read back: the
-- upper four, which the hardware keeps in `limit_high_attr2`, are lost.
pub segment_limit-init_descriptor :
    (desc : Descriptor) (base limit attr : ℕ)
    → segment_limit (init_descriptor desc base limit attr) ≡ limit % 2 ^ 16
unfolding segment_limit init_descriptor
segment_limit-init_descriptor desc base limit attr = rw (upper, attributes-low_digit) (omega arith)
  where
    upper : bit_and (limit * 2 ^ 16 % 2 ^ 32) 0x0f ≡ 0
    upper = rw bit_and-low_digit (omega arith)
