-- ===== src/Ipc/Schedule.antt =====
-- `schedule` goes round the process table: it stops at the next process that may run.
use simple_os.Base.{
  ℕ, zero, suc, ◌+◌, ◌-◌, ◌<◌, ◌≤◌, ◌≡◌, some, ◌==◌, arith, inl, inr, Bool-cases, if◌then◌else◌,
  ltb,
}
use simple_os.Kernel.{ProcTable, nr_tasks, nr_procs}
use simple_os.Ipc.{schedule_loop, next_in_turn}

-- How many turns it takes from process `p` to process `q`, at least one.
abbrev pub turns : ℕ → ℕ → ℕ
turns p q = if ltb p q then q - p else q + (nr_tasks + nr_procs) - p

-- What the loop answers if `r` may run: a process that may run, no later in turn than `r`.
abbrev Chooses : ℕ → ProcTable → ℕ → ℕ → Type 0
Chooses rounds t p r =
    (q : ℕ) × (schedule_loop rounds t p ≡ some q)
    × (q < nr_tasks + nr_procs)
    × ((t q).p_flags ≡ 0)
    × (turns p q ≤ turns p r)

schedule_loop-Chooses :
    (rounds : ℕ) (t : ProcTable) (p r : ℕ)
    → p < nr_tasks + nr_procs
    → r < nr_tasks + nr_procs
    → (t r).p_flags ≡ 0
    → turns p r ≤ rounds
    → Chooses rounds t p r
unfolding schedule_loop
schedule_loop-Chooses zero t p r hp hr e h = absurd (ground arith)
schedule_loop-Chooses (suc n) t p r hp hr e h =
    elim (Bool-cases ((t (next_in_turn p)).p_flags == 0)) [
      | inl ready ↦ (next_in_turn p, ground arith, ground arith, ground arith, ground arith)
      | inr busy ↦
          let (q, found, inside, flags, near) =
            schedule_loop-Chooses n t (next_in_turn p) r (ground arith) hr e (ground arith) in
          (q, ground arith, inside, flags, ground arith)
    ]

-- If some process `r` may run, 35 rounds of the loop of `schedule` are enough: it chooses a process
-- that may run and that comes no later in turn after the current process `p` than `r` does.
pub schedule_loop-total :
    (t : ProcTable) (p r : ℕ)
    → p < nr_tasks + nr_procs
    → r < nr_tasks + nr_procs
    → (t r).p_flags ≡ 0
    → (q : ℕ) × (schedule_loop (nr_tasks + nr_procs) t p ≡ some q)
      × (q < nr_tasks + nr_procs)
      × ((t q).p_flags ≡ 0)
      × (turns p q ≤ turns p r)
schedule_loop-total t p r hp hr e =
    schedule_loop-Chooses (nr_tasks + nr_procs) t p r hp hr e (ground arith)
