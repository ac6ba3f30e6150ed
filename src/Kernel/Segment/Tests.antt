-- ===== src/Kernel/Segment/Tests.antt =====
-- Descriptors of the segments that the kernel sets up.
use simple_os.Base.{◌≡◌, arith}
use simple_os.Kernel.Segment.{Descriptor, init_descriptor, seg_linear, segment_base}
use simple_os.Kernel.Segment.Laws.{seg_linear-init_descriptor}

abbrev blank : Descriptor
blank = record {
  limit_low = 0;
  base_low = 0;
  base_mid = 0;
  attr1 = 0;
  limit_high_attr2 = 0;
  base_high = 0;
}

abbrev child : Descriptor
child = record {
  limit_low = 0x3ff;
  base_low = 0x1234;
  base_mid = 0xa0;
  attr1 = 0xf8;
  limit_high_attr2 = 0xc0;
  base_high = 1;
}

seg_linear-init_descriptor_example :
    (seg_linear (init_descriptor blank 0xa0_0000 0x3ff 0xc0f8) ≡ 0xa0_0000)
    × (segment_base (init_descriptor blank 0xa0_0000 0x3ff 0xc0f8) ≡ 0xa0_0000)
seg_linear-init_descriptor_example =
    seg_linear-init_descriptor blank 0xa0_0000 0x3ff 0xc0f8 (omega arith)
