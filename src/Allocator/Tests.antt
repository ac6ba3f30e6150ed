-- ===== src/Allocator/Tests.antt =====
-- The allocator on small maps, and its theorems at them.
use simple_os.Base.{ℕ, ◌+◌, ◌-◌, ◌*◌, ◌^◌, ◌≤◌, ◌<◌, ◌≡◌, ◌⊎◌, refl, some, arith, ==_iff, ◌==◌}
use simple_os.Base.Bits.{bit, holds_below-true, holds_below}
use simple_os.Allocator.{Mm, block_size, find_free_area, alloc_mem, free_mem}
use simple_os.Allocator.Blocks.{IsPlaced, alloc_mem-disjoint, free_mem-alloc_mem}

-- 16 MB from 0x1000000; blocks 0, 1 and 3 are in use.
abbrev state : Mm
state = record { memory_used = 0xb; mm_start = 0x100_0000 }

abbrev full_state : Mm
full_state = record { memory_used = 2 ^ 32 - 1; mm_start = 0x100_0000 }

finds_block_two : find_free_area 0xb ≡ (some 2, 0xf)
unfolding find_free_area
finds_block_two = refl

state-IsPlaced : IsPlaced state
state-IsPlaced = omega arith

all_ones : (j : ℕ) → j < 32 → bit (2 ^ 32 - 1) j ≡ 1
unfolding holds_below
all_ones j h = (==_iff _ _).0 (holds_below-true 32 (λ x. bit (2 ^ 32 - 1) x == 1) j refl h)

state-allocates : (alloc_mem state).0 ≡ 0x100_0000 + 2 * block_size
unfolding alloc_mem find_free_area
state-allocates = refl

alloc_mem-disjoint_example :
    ((alloc_mem state).0 + block_size ≤ 0x100_0000 + 3 * block_size)
    ⊎ (0x100_0000 + 3 * block_size + block_size ≤ (alloc_mem state).0)
alloc_mem-disjoint_example =
    alloc_mem-disjoint state 3 state-IsPlaced (omega (arith, state-allocates)) refl

free_mem-alloc_mem_example :
    bit (free_mem (alloc_mem state).1 (alloc_mem state).0).memory_used 2 ≡ bit 0xb 2
free_mem-alloc_mem_example =
    free_mem-alloc_mem state 2 state-IsPlaced (omega (arith, state-allocates)) (omega arith)
