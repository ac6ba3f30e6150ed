-- ===== src/Allocator/Blocks.antt =====
-- The blocks that `alloc_mem` hands out: where they lie, that no two overlap, and that `free_mem`
-- undoes an allocation.
use simple_os.Base.{
  ℕ, ◌+◌, ◌*◌, ◌^◌, ◌≤◌, ◌<◌, ◌≡◌, ◌≢◌, ◌⊎◌, inl, inr, refl, arith, ◌==◌, if◌then◌else◌,
  Option-cases,
}
use simple_os.Base.Bits.{bit, bit-and, bit-not32, not32}
use simple_os.Allocator.{
  Mm, block_size, block_address, block_index, find_free_area, alloc_mem, free_mem,
}
use simple_os.Allocator.FreeArea.{find_free_area-some, find_free_area-none}

-- The 16 MB of the blocks lie below 4 GB, and not at address 0.
pub record IsPlaced (s : Mm) : Type 0 where
  pub above : 0 < s.mm_start
  pub below : s.mm_start + 32 * block_size ≤ 2 ^ 32

-- The index of a block is found again from its address.
index-address : (s : Mm) (k : ℕ) → IsPlaced s → k < 32 → block_index s (block_address s k) ≡ k
index-address s k p h = omega arith

-- A successful `alloc_mem` takes a block that was free and marks just that block.
record Took (s s' : Mm) (a k : ℕ) : Type 0 where
  fits : k < 32
  address : a ≡ s.mm_start + k * block_size
  was_free : bit s.memory_used k ≡ 0
  start : s'.mm_start ≡ s.mm_start
  marked : (j : ℕ) → bit s'.memory_used j ≡ (if k == j then 1 else bit s.memory_used j)

alloc_mem-Took :
    (s : Mm) → IsPlaced s → (alloc_mem s).0 ≢ 0 → (k : ℕ) × Took s (alloc_mem s).1 (alloc_mem s).0 k
unfolding alloc_mem
alloc_mem-Took s p ne = elim (Option-cases (find_free_area s.memory_used).0) [
  | inl no_block ↦ absurd (ground arith)
  | inr (k, e) ↦
      let found = find_free_area-some s.memory_used k e in
      (
        k,
        rw (e, alloc_mem)
            (record {
              fits = found.0;
              address = omega (arith, found.0);
              was_free = found.1;
              start = refl;
              marked = found.2;
            }),
      )
]

-- With all 32 blocks taken `alloc_mem` returns the null pointer and changes nothing.
pub alloc_mem-full : (s : Mm) → ((j : ℕ) → j < 32 → bit s.memory_used j ≡ 1) → alloc_mem s ≡ (0, s)
unfolding alloc_mem
alloc_mem-full s full = rw (find_free_area-none s.memory_used full, alloc_mem)

-- If the 16 MB of blocks lie below 4 GB and not at address 0, a block that `alloc_mem` hands out
-- overlaps no block `j` that is in use.
pub alloc_mem-disjoint :
    (s : Mm) (j : ℕ)
    → IsPlaced s
    → (alloc_mem s).0 ≢ 0
    → bit s.memory_used j ≡ 1
    → ((alloc_mem s).0 + block_size ≤ s.mm_start + j * block_size)
      ⊎ (s.mm_start + j * block_size + block_size ≤ (alloc_mem s).0)
alloc_mem-disjoint s j p ne taken =
    let (k, t) = alloc_mem-Took s p ne in ground (arith, t.address, t.was_free)

-- What `free_mem` does to each of the 32 blocks, at the address of block `k`.
free_mem-bit :
    (s : Mm) (k j : ℕ)
    → IsPlaced s
    → k < 32
    → j < 32
    → bit (free_mem s (s.mm_start + k * block_size)).memory_used j
      ≡ (if k == j then 0 else bit s.memory_used j)
unfolding free_mem
free_mem-bit s k j p hk hj =
    ground
      (arith, index-address s k p hk, bit-and j s.memory_used (not32 (2 ^ k)), bit-not32 k j hk hj)

-- If the 32 blocks lie above address 0 and below 4 GB (`IsPlaced`) and `alloc_mem` finds a block, then
-- freeing the block that it returned restores the state of each of the 32 blocks.
pub free_mem-alloc_mem :
    (s : Mm) (j : ℕ)
    → IsPlaced s
    → (alloc_mem s).0 ≢ 0
    → j < 32
    → let (a, s') = alloc_mem s in bit (free_mem s' a).memory_used j ≡ bit s.memory_used j
free_mem-alloc_mem s j p ne hj =
    let (k, t) = alloc_mem-Took s p ne in
    let s' = (alloc_mem s).1 in
    let p' : IsPlaced s' = record {
      above = omega (arith, t.start);
      below = omega (arith, t.start);
    } in
    rw (t.address, ← t.start)
      (ground (arith, free_mem-bit s' k j p' t.fits hj, t.marked j, t.was_free))
