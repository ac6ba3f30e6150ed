-- ===== src/Lifecycle/Slot.antt =====
-- The entry of the process table that `do_fork` takes.
use simple_os.Base.{
  ℕ, zero, suc, ◌+◌, ◌-◌, ◌^◌, ◌<◌, ◌≤◌, ◌≡◌, ◌≢◌, refl, ◌∙◌, arith, true, false, Bool-cases, inl,
  inr, ◌==◌, ==_ne, ==_iff, leb,
}
use simple_os.Kernel.{Kernel, ProcTable, ok, free_slot, nr_tasks, nr_procs, nr_native_procs}
use simple_os.Allocator.{Mm}
use simple_os.Lifecycle.Fork.{find_slot, fork_into, do_fork}

-- Entry `i` is the first free one of the table.
pub record FirstFree (t : ProcTable) (i : ℕ) : Type 0 where
  pub inside : i < nr_tasks + nr_procs
  pub free : (t i).p_flags ≡ free_slot
  pub first : (j : ℕ) → j < i → (t j).p_flags ≢ free_slot

find_slot-FirstFree :
    (rounds from i : ℕ) (t : ProcTable)
    → from ≤ i
    → i < from + rounds
    → (t i).p_flags ≡ free_slot
    → ((j : ℕ) → j < i → (t j).p_flags ≢ free_slot)
    → find_slot rounds from t ≡ i
unfolding find_slot
find_slot-FirstFree zero from i t lo hi free first = absurd (omega arith)
find_slot-FirstFree (suc rounds) from i t lo hi free first = elim (Bool-cases (from == i)) [
  | inl y ↦
      let e : from ≡ i = (==_iff from i).0 y in
      let here : ((t from).p_flags == free_slot) ≡ true = rw e (rw free refl) in rw here e
  | inr n ↦
      let below : from < i = ground (arith, n) in
      rw (==_ne (t from).p_flags free_slot (first from below))
        (find_slot-FirstFree rounds (from + 1) i t (omega arith) (omega arith) free first)
]

pub do_fork-fork_into :
    (mm : Mm) (k : Kernel) (mm_msg local child : ℕ)
    → FirstFree k.proc_table child
    → nr_tasks + nr_native_procs ≤ child
    → do_fork mm mm_msg local k ≡ fork_into mm mm_msg local child k
unfolding do_fork
do_fork-fork_into mm k mm_msg local child slot user =
    let found =
      find_slot-FirstFree (nr_tasks + nr_procs) 0 child k.proc_table (omega arith) slot.inside
        slot.free slot.first in
    let behind : leb (nr_tasks + nr_native_procs) child ≡ true = ground (arith, user) in
    let inside : (child == nr_tasks + nr_procs) ≡ false = ground (arith, slot.inside) in
    rw found (rw (behind, inside) refl)

find_slot-full :
    (rounds from : ℕ) (t : ProcTable)
    → ((j : ℕ) → j < from + rounds → (t j).p_flags ≢ free_slot)
    → find_slot rounds from t ≡ from + rounds
unfolding find_slot
find_slot-full zero from t full = omega arith
find_slot-full (suc rounds) from t full =
    rw (==_ne (t from).p_flags free_slot (full from (omega arith)))
      (find_slot-full rounds (from + 1) t (λ j lt. full j (omega arith)) ∙ omega arith)

-- If no entry of the process table is free, `do_fork` returns -1 and changes nothing.
pub do_fork-full :
    (mm : Mm) (k : Kernel) (mm_msg local : ℕ)
    → ((j : ℕ) → j < nr_tasks + nr_procs → (k.proc_table j).p_flags ≢ free_slot)
    → do_fork mm mm_msg local k ≡ ok (2 ^ 32 - 1, mm) k
unfolding do_fork
do_fork-full mm k mm_msg local full =
    rw (find_slot-full (nr_tasks + nr_procs) 0 k.proc_table full) refl
