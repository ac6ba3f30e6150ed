-- ===== src/InitProc/Entry.antt =====
-- What the loop of `init_proc` leaves in each entry of the process table.
use simple_os.Base.{
  ℕ, zero, suc, ◌+◌, ◌*◌, ◌%◌, ◌^◌, ◌<◌, ◌≤◌, ◌≡◌, refl, ap, ◌∙◌, arith, Bool-cases, inl, inr, ◌==◌,
  ==_iff, ==_ne, if◌then◌else◌, leb,
}
use simple_os.Kernel.{Process, ProcTable, nr_tasks, nr_procs, nr_native_procs, update}
use simple_os.InitProc.{Image, init_entry, init_loop, task_stack_size, selector_ldt_first}

-- The stack of entry `i` ends here.
abbrev pub stack_top : Image → ℕ → ℕ
stack_top image i = (image.task_stack + task_stack_size * (i + 2)) % 2 ^ 32

-- Entry `i`, made from what stood there.
unfoldable pub entry : Image → ℕ → Process → Process
entry image i p = init_entry image i (selector_ldt_first + 8 * i) (stack_top image i) p

module _ (image : Image) where
  init_entry-entry :
      (i selector top : ℕ) (p : Process)
      → selector ≡ selector_ldt_first + 8 * i
      → (i < nr_tasks + nr_native_procs → top ≡ stack_top image i)
      → init_entry image i selector top p ≡ entry image i p
  unfolding entry init_entry
  init_entry-entry i selector top p hs ht = elim (Bool-cases (leb (nr_tasks + nr_native_procs) i)) [
    | inl free ↦ rw (free, hs) refl
    | inr native ↦ rw (hs, ht (ground arith)) refl
  ]

  init_loop-before :
      (rounds i selector top : ℕ) (t : ProcTable) (q : ℕ)
      → q < i
      → init_loop image rounds i selector top t q ≡ t q
  unfolding init_loop
  init_loop-before zero i selector top t q h = refl
  init_loop-before (suc rounds) i selector top t q h =
      let top' =
        if leb (nr_tasks + nr_native_procs) i then top else (top + task_stack_size) % 2 ^ 32 in
      init_loop-before rounds (i + 1) ((selector + 8) % 2 ^ 16) top'
        (update t i (init_entry image i selector top' (t i))) q (omega arith)
      ∙ ap (λ b. if b then init_entry image i selector top' (t i) else t q)
          (==_ne i q (omega arith))

  -- `task_stack_top` before round `i`.
  abbrev BeforeRound : ℕ → ℕ → Type 0
  BeforeRound i top =
      i ≤ nr_tasks + nr_native_procs → top ≡ (image.task_stack + task_stack_size * (i + 1)) % 2 ^ 32

  abbrev next_top : ℕ → ℕ → ℕ
  next_top i top =
      if leb (nr_tasks + nr_native_procs) i then top else (top + task_stack_size) % 2 ^ 32

  next_top-stack_top :
      (i top : ℕ)
      → BeforeRound i top
      → i < nr_tasks + nr_native_procs
      → next_top i top ≡ stack_top image i
  next_top-stack_top i top h lt = ground (arith, h (omega arith))

  next_round : (i top : ℕ) → BeforeRound i top → BeforeRound (i + 1) (next_top i top)
  next_round i top h lt = ground (arith, h (omega arith))

  pub init_loop-entry :
      (rounds i selector top : ℕ) (t : ProcTable) (q : ℕ)
      → selector ≡ selector_ldt_first + 8 * i
      → BeforeRound i top
      → i + rounds ≤ nr_tasks + nr_procs
      → i ≤ q
      → q < i + rounds
      → init_loop image rounds i selector top t q ≡ entry image q (t q)
  unfolding init_loop
  init_loop-entry zero i selector top t q hs ht room lo hi = absurd (omega arith)
  init_loop-entry (suc rounds) i selector top t q hs ht room lo hi =
      let top' = next_top i top in
      let e = init_entry image i selector top' (t i) in
      let t' = update t i e in
      elim (Bool-cases (i == q)) [
        | inl y ↦
            let here : i ≡ q = (==_iff i q).0 y in
            init_loop-before rounds (i + 1) ((selector + 8) % 2 ^ 16) top' t' q (omega arith)
            ∙ ap (λ b. if b then e else t q) y
            ∙ init_entry-entry i selector top' (t i) hs (next_top-stack_top i top ht)
            ∙ ap (λ j. entry image j (t j)) here
        | inr n ↦
            init_loop-entry rounds (i + 1) ((selector + 8) % 2 ^ 16) top' t' q (omega arith)
              (next_round i top ht) (omega arith) (ground (arith, n)) (omega arith)
            ∙ ap (λ b. entry image q (if b then e else t q)) n
      ]
