-- ===== src/Lifecycle/Orphans.antt =====
-- The loops over the process table in `do_exit` and `do_wait`.
use simple_os.Base.{
  ℕ, zero, suc, ◌+◌, ◌<◌, ◌≤◌, ◌≡◌, refl, ap, ◌∙◌, arith, Bool, false, ◌&&◌, ◌==◌, if◌then◌else◌,
  Bool-cases, inl, inr, some,
}
use simple_os.Kernel.{Kernel, ProcTable, ok, has, waiting, hanging}
use simple_os.Lifecycle.{adopt, adopt_loop, wait_loop, init_pid}

-- The exit of `pid` wakes nobody because of process `i`: it is no child, or INIT does not wait, or
-- it does not hang.
abbrev pub Unclaimed : ProcTable → ℕ → ℕ → Type 0
Unclaimed t pid i =
    (((t i).p_parent == pid) && (has (t init_pid).p_flags waiting && has (t i).p_flags hanging))
    ≡ false

pub adopt_loop-idle :
    (rounds i local pid : ℕ) (k : Kernel)
    → ((j : ℕ) → j < i + rounds → Unclaimed k.proc_table pid j)
    → adopt_loop rounds i local pid k ≡ ok tt k
unfolding adopt_loop adopt
adopt_loop-idle zero i local pid k h = refl
adopt_loop-idle (suc rounds) i local pid k h =
    rw (h i (omega arith)) (adopt_loop-idle rounds (i + 1) local pid k (λ j lt. h j (omega arith)))

-- A child of `pid` that hangs.
abbrev pub hangs_for : ProcTable → ℕ → ℕ → Bool
hangs_for t pid i = ((t i).p_parent == pid) && has (t i).p_flags hanging

-- The number of children of `pid` among `rounds` processes from `i` on.
unfoldable pub count_children : ℕ → ℕ → ProcTable → ℕ → ℕ
count_children zero i t pid = 0
count_children (suc rounds) i t pid =
    let rest = count_children rounds (i + 1) t pid in
    if (t i).p_parent == pid then suc rest else rest

pub wait_loop-counts :
    (rounds i children local pid : ℕ) (k : Kernel)
    → ((j : ℕ) → i ≤ j → j < i + rounds → hangs_for k.proc_table pid j ≡ false)
    → wait_loop rounds i children local pid k
      ≡ ok (some (children + count_children rounds i k.proc_table pid)) k
unfolding wait_loop count_children
wait_loop-counts zero i children local pid k h =
    let same : children + 0 ≡ children = omega arith in rw same refl
wait_loop-counts (suc rounds) i children local pid k h =
    let none_here = h i (omega arith) (omega arith) in
    let rest = λ (c : ℕ).
      wait_loop-counts rounds (i + 1) c local pid k (λ j lo hi. h j (omega arith) (omega arith)) in
    rw none_here (elim (Bool-cases ((k.proc_table i).p_parent == pid)) [
      | inl y ↦
          let more : children + 1 + count_children rounds (i + 1) k.proc_table pid
              ≡ children + suc (count_children rounds (i + 1) k.proc_table pid) =
            omega arith in
          rw y (rest (children + 1) ∙ ap (λ c. ok (some c) k) more)
      | inr n ↦ rw n (rest children)
    ])
