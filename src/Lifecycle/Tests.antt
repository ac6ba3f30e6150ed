-- ===== src/Lifecycle/Tests.antt =====
-- A parent, process 3, and its child, process 7.
use simple_os.Base.{
  ℕ, ◌+◌, ◌<◌, ◌≡◌, ◌≢◌, refl, arith, false, ◌==◌, if◌then◌else◌, Bool-cases, inl, inr, [], ◌∷◌,
}
use simple_os.Kernel.{
  Process, ProcTable, Kernel, Message, ok, reset_msg, update, receiving, hanging, no_task, nr_tasks,
  nr_procs,
}
use simple_os.Kernel.Samples.{ready}
use simple_os.Kernel.Segment.{seg_linear}
use simple_os.Lifecycle.{do_exit, do_wait}
use simple_os.Lifecycle.Sent.{Listens, Reaped}
use simple_os.Lifecycle.Orphans.{hangs_for, count_children}
use simple_os.Lifecycle.Exit.{do_exit-hanging}
use simple_os.Allocator.{Mm, alloc_mem}
use simple_os.Stdio.{
  s32_sprintf, format_loop, convert, s32_itoa, itoa_from, digit_loop, digit_table, swap_loop,
}
use simple_os.Strings.Laws.{text_of}
use simple_os.Kernel.Segment.{segment_base, segment_limit, reassembly}
use simple_os.Lifecycle.Fork.{do_fork, fork_name, segments_agree}
use simple_os.Lifecycle.Slot.{FirstFree}
use simple_os.Lifecycle.Forked.{CanFork, Forked, do_fork-Forked}
use simple_os.Lifecycle.Family.{with_mem, do_exit-do_wait}

-- The parent with some flags; it has called the task.
abbrev parent : ℕ → Process
parent flags = record ready { p_flags = flags; msg = 0x8000; p_recvfrom = 2 }

abbrev child : Process
child = record ready { p_flags = receiving; msg = 0x9000; p_recvfrom = 2; p_parent = 3 }

abbrev family : Process → ProcTable
family p = update (update (λ q. ready) 3 p) 7 child

-- The state when process `source` has asked the task, with its message at 0x7000.
abbrev asked : ℕ → Process → Kernel
asked source p = record {
  proc_table = family p;
  mem = λ a. record reset_msg { source = source };
  ready_process = 2;
}

family-p_parent :
    (p : Process)
    → p.p_parent ≡ no_task
    → (j : ℕ) → j < nr_tasks + nr_procs
    → (family p j).p_parent ≢ 7
family-p_parent p e j lt = ground (arith, e)

-- None of the three kinds of processes hangs.
family-quiet : (j : ℕ) → j < nr_tasks + nr_procs → hangs_for (family (parent receiving)) 3 j ≡ false
family-quiet j lt = elim (Bool-cases (7 == j)) [
  | inl y ↦ rw y refl
  | inr n ↦ elim (Bool-cases (3 == j)) [ inl y ↦ rw (n, y) refl | inr m ↦ rw (n, m) refl ]
]

do_exit-hanging_example :
    let k = asked 7 ready in
    (k' : Kernel) × (do_exit 0x7000 0x6000 42 k ≡ ok tt k')
    × ((k'.proc_table 3).p_flags ≡ hanging)
    × ((k'.proc_table 7).p_flags ≡ receiving)
unfolding seg_linear
do_exit-hanging_example =
    do_exit-hanging (asked 7 ready) 0x7000 0x6000 7 3 42 refl refl (ground arith) (omega arith)
      (omega arith) (omega arith) (family-p_parent ready refl)

-- Process 3 has called, and waits for the answer.
waiting-Listens : Listens (asked 3 (parent receiving)) 0x6000 3
unfolding seg_linear
waiting-Listens = record {
  task = ground arith;
  client = ground arith;
  somewhere = omega arith;
  in_table = omega arith;
  other = omega arith;
  task_space = refl;
  client_space = refl;
}

-- Process 7 has no children and waits for the answer.
childless-Listens : Listens (asked 7 (parent receiving)) 0x6000 7
unfolding seg_linear
childless-Listens = record {
  task = ground arith;
  client = ground arith;
  somewhere = omega arith;
  in_table = omega arith;
  other = omega arith;
  task_space = refl;
  client_space = refl;
}

child-quiet : (j : ℕ) → j < nr_tasks + nr_procs → hangs_for (family (parent receiving)) 7 j ≡ false
child-quiet j lt = elim (Bool-cases (7 == j)) [
  | inl y ↦ rw y refl
  | inr n ↦ elim (Bool-cases (3 == j)) [ inl y ↦ rw (n, y) refl | inr m ↦ rw (n, m) refl ]
]

do_exit-do_wait_example :
    let k = asked 3 (parent receiving) in
    let mem : ℕ → Message = λ a. record reset_msg { source = 7 } in
    (k1 : Kernel) × (k2 : Kernel) × (do_wait 0x7000 0x6000 k ≡ ok tt k1)
    × (do_exit 0x7000 0x6000 42 (with_mem k1 mem) ≡ ok tt k2)
    × Reaped (with_mem k1 mem) 7 3 42 k2
unfolding seg_linear count_children
do_exit-do_wait_example =
    do_exit-do_wait (asked 3 (parent receiving)) (λ a. record reset_msg { source = 7 }) 0x7000
      0x6000 7 3 42 0 refl waiting-Listens family-quiet refl refl (omega arith) (omega arith)
      (omega arith) (family-p_parent (parent receiving) refl) refl

-- The entry behind the child is free.
abbrev with_space : Kernel
with_space =
    let k = asked 3 (parent receiving) in
    record k {
      proc_table = update k.proc_table 8 (record ready { p_flags = 0x20 });
      mem = λ a. record reset_msg { source = if a == 0x7000 then 3 else 0 };
    }

abbrev mm : Mm
mm = record { memory_used = 0; mm_start = 0x1000000 }

space-Listens : Listens with_space 0x6000 3
unfolding seg_linear
space-Listens = record {
  task = ground arith;
  client = ground arith;
  somewhere = omega arith;
  in_table = omega arith;
  other = omega arith;
  task_space = refl;
  client_space = refl;
}

space-FirstFree : FirstFree with_space.proc_table 8
space-FirstFree = record { inside = omega arith; free = refl; first = λ j lt. ground arith }

-- The child is called "_8", since its parent has no name.
space-CanFork : CanFork with_space 0x6000 8 3 (0x5f ∷ 0x38 ∷ 0 ∷ [])
unfolding fork_name s32_sprintf format_loop convert s32_itoa itoa_from digit_loop digit_table
    swap_loop text_of segments_agree segment_base segment_limit reassembly
space-CanFork = record {
  parent = space-Listens;
  slot = space-FirstFree;
  user = omega arith;
  apart = omega arith;
  agree = refl;
  fits = refl;
}

do_fork-Forked_example :
    (k' : Kernel) × (do_fork mm 0x7000 0x6000 with_space ≡ ok (0, (alloc_mem mm).1) k')
    × Forked with_space 0x7000 8 3 k'
unfolding seg_linear
do_fork-Forked_example =
    do_fork-Forked mm with_space 0x7000 0x6000 8 3 (0x5f ∷ 0x38 ∷ 0 ∷ []) refl space-CanFork
      (omega arith) (omega arith)
