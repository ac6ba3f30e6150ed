-- ===== src/Allocator.antt =====
-- The block allocator of mm/mm.c: a 32-bit map `memory_used` of blocks of 512 KB that start at
-- `mm_start`. The functions are proved correct in the modules below.
pub mod FreeArea
pub mod Blocks
mod Tests
use simple_os.Base.{
  ℕ, zero, suc, ◌+◌, ◌-◌, ◌*◌, ◌/◌, ◌%◌, ◌^◌, Option, none, some, ◌==◌, if◌then◌else◌, bit_and,
  bit_or,
}
use simple_os.Base.Bits.{bit, not32}

-- The globals of the allocator that its operations read or write.
pub record Mm : Type 0 where
  pub memory_used : ℕ
  pub mm_start : ℕ

-- 512*1024
abbrev pub block_size : ℕ
block_size = 512 * 1024

-- The `for` loop of `find_free_area`, with `n` rounds left. `none` stands for -1.
unfoldable pub find_from : ℕ → ℕ → ℕ → Option ℕ × ℕ
find_from zero i used = (none, used)
find_from (suc n) i used =
    let rest = find_from n (suc i) used in
    if bit used i == 0 then (some i, bit_or used (2 ^ i)) else rest

unfoldable pub find_free_area : ℕ → Option ℕ × ℕ
unfolding find_from
find_free_area used = find_from 32 0 used

-- The address of block `i`; the addition is that of `u32`.
abbrev pub block_address : Mm → ℕ → ℕ
block_address s i = (s.mm_start + i * block_size) % 2 ^ 32

-- Returns the address of a block, or the null pointer 0.
unfoldable pub alloc_mem : Mm → ℕ × Mm
alloc_mem s =
    let (found, used) = find_free_area s.memory_used in
    elim found [ none ↦ (0, s) | some i ↦ (block_address s i, record s { memory_used = used }) ]

-- The index of the block at an address. The subtraction is that of `u32`.
abbrev pub block_index : Mm → ℕ → ℕ
block_index s mem_addr = (mem_addr + 2 ^ 32 - s.mm_start) % 2 ^ 32 / block_size

-- The processor takes a shift count modulo 32.
unfoldable pub free_mem : Mm → ℕ → Mm
free_mem s mem_addr = if mem_addr == 0 then s else record s {
  memory_used = bit_and s.memory_used (not32 (2 ^ (block_index s mem_addr % 32)));
}

-- `mm_init`, given what `memtest` found.
pub mm_init : ℕ → ℕ → Mm
mm_init used memsize = record {
  memory_used = used;
  mm_start = (memsize + 2 ^ 32 - 16 * 1024 * 1024) % 2 ^ 32;
}
