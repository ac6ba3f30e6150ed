-- ===== src/Lifecycle/Wait.antt =====
-- `do_wait` on each of its branches.
use simple_os.Base.{
  ℕ, suc, ◌+◌, ◌-◌, ◌^◌, ◌<◌, ◌≡◌, refl, ap, ◌∙◌, arith, true, false, bit_or, some, Option,
}
use simple_os.Kernel.{
  Kernel, Message, Cmd, ok, update, in_table, waiting, no_task, nr_tasks, nr_procs, ◌>>=◌, ◌>>◌,
}
use simple_os.Ipc.{in_bounds}
use simple_os.Ipc.Phase.{IsReady, linear}
use simple_os.Lifecycle.{task_mm_pid, wait_result, do_wait, wait_loop, after_loop, syscall_ret}
use simple_os.Lifecycle.Sent.{Listens, replied, reply-replied, replied-IsReady, replied_message}
use simple_os.Lifecycle.Orphans.{hangs_for, count_children, wait_loop-counts}
use simple_os.Lifecycle.Exit.{requester}

module _ (k : Kernel) (mm_msg local pid : ℕ) (who : requester k mm_msg ≡ pid)
    (hp : pid < nr_tasks + nr_procs) where
  abbrev body : ℕ → Cmd (Unit {0})
  body p = in_bounds p >> (wait_loop (nr_tasks + nr_procs) 0 0 local p >>= after_loop local p)

  do_wait-after_loop :
      (r : Option ℕ) (k' : Kernel)
      → wait_loop (nr_tasks + nr_procs) 0 0 local pid k ≡ ok r k'
      → do_wait mm_msg local k ≡ after_loop local pid r k'
  unfolding do_wait
  do_wait-after_loop r k' found =
      let inside : in_table pid ≡ true = ground (arith, hp) in
      ap (λ p. body p k) who ∙ rw (inside, found) refl

  module _ (quiet : (j : ℕ) → j < nr_tasks + nr_procs → hangs_for k.proc_table pid j ≡ false) where
    do_wait-children :
        (n : ℕ)
        → count_children (nr_tasks + nr_procs) 0 k.proc_table pid ≡ n
        → do_wait mm_msg local k ≡ after_loop local pid (some n) k
    do_wait-children n e = do_wait-after_loop (some n) k (
        wait_loop-counts (nr_tasks + nr_procs) 0 0 local pid k (λ j lo hi. quiet j hi)
        ∙ ap (λ c. ok (some c) k) (omega (arith, e)))

    -- If the caller of `wait` has no children, `do_wait` makes it ready again, and its `wait` returns
    -- -1.
    pub do_wait-childless :
        count_children (nr_tasks + nr_procs) 0 k.proc_table pid ≡ 0
        → Listens k local pid
        → (k' : Kernel) × (status : ℕ) × (do_wait mm_msg local k ≡ ok tt k')
          × IsReady (k'.proc_table pid)
          × (wait_result pid (k.proc_table pid).msg k' ≡ ok (status, 2 ^ 32 - 1) k')
    unfolding after_loop wait_result
    do_wait-childless e h =
        let f = λ (m : Message). record m { type = syscall_ret; m3i2 = no_task } in
        let k' = replied k local pid f in
        let space : (k'.proc_table pid).ldt_data ≡ (k.proc_table pid).ldt_data = ground arith in
        (
          k',
          (k.mem (linear k task_mm_pid local)).m3i1,
          do_wait-children 0 e ∙ reply-replied k local pid f h,
          replied-IsReady k local pid f h,
          rw space (rw (replied_message k local pid f h) refl),
        )

    -- If the caller of `wait` has children, none of them hanging, `do_wait` marks it as waiting and
    -- changes nothing else.
    pub do_wait-waiting :
        (n : ℕ)
        → count_children (nr_tasks + nr_procs) 0 k.proc_table pid ≡ suc n
        → do_wait mm_msg local k
          ≡ ok tt (record k {
            proc_table =
                update k.proc_table pid (record (k.proc_table pid) {
                  p_flags = bit_or (k.proc_table pid).p_flags waiting;
                });
          })
    unfolding after_loop
    do_wait-waiting n e = do_wait-children (suc n) e
