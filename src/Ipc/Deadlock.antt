-- ===== src/Ipc/Deadlock.antt =====
-- `deadlock` decides whether a chain of blocked senders leads back, and 35 rounds are enough for it
-- as long as no such chain is a cycle.
use simple_os.Base.{
  ℕ, zero, suc, ◌+◌, ◌-◌, ◌<◌, ◌≤◌, ◌≡◌, ◌≢◌, refl, Bool, true, false, Option, none, some, ◌==◌,
  arith, ◌⊎◌, inl, inr, ==_iff, Bool-cases, ◌↔◌,
}
use simple_os.Base.Pigeonhole.{pigeonhole}
use simple_os.Kernel.{ProcTable, has, sending, nr_tasks, nr_procs}
use simple_os.Ipc.{deadlock_loop}

-- Process `p` is blocked on a message to someone.
abbrev pub Blocked : ProcTable → ℕ → Type 0
Blocked t p = has (t p).p_flags sending ≡ true

-- The chain of blocked senders from `p` leads to `src`.
pub data Reaches (t : ProcTable) (src : ℕ) : ℕ → Type 0 where
  now : (p : ℕ) → Blocked t p → (t p).p_sendto ≡ src → Reaches t src p
  later : (p : ℕ) → Blocked t p → Reaches t src (t p).p_sendto → Reaches t src p

-- The chain of blocked senders from `p` ends after `n` steps at a process that is not blocked.
pub data Ends (t : ProcTable) : ℕ → ℕ → Type 0 where
  free : (p : ℕ) → has (t p).p_flags sending ≡ false → Ends t zero p
  step : {n : ℕ} (p : ℕ) → Blocked t p → Ends t n (t p).p_sendto → Ends t (suc n) p

-- Blocked processes of the table wait for processes of the table, and no chain is a cycle.
pub record IsAcyclic (t : ProcTable) : Type 0 where
  pub inside :
      (p : ℕ) → p < nr_tasks + nr_procs → Blocked t p → (t p).p_sendto < nr_tasks + nr_procs
  pub ends : (p : ℕ) → p < nr_tasks + nr_procs → (n : ℕ) × Ends t n p

module _ {t : ProcTable} where
  Ends-unique : {n m : ℕ} {p : ℕ} → Ends t n p → Ends t m p → n ≡ m
  Ends-unique (free p e) (free _ f) = refl
  Ends-unique (free p e) (step _ b r) = absurd (ground arith)
  Ends-unique (step p b r) (free _ f) = absurd (ground arith)
  Ends-unique (step p b r) (step _ c s) = omega (arith, Ends-unique r s)

-- The process that `n` steps lead to.
abbrev follow : ProcTable → ℕ → ℕ → ℕ
follow t zero p = p
follow t (suc n) p = follow t n (t p).p_sendto

module _ {t : ProcTable} (a : IsAcyclic t) where
  follow-inside :
      (i : ℕ) {n p : ℕ}
      → Ends t n p
      → i ≤ n
      → p < nr_tasks + nr_procs
      → follow t i p < nr_tasks + nr_procs
  follow-inside zero e h hp = hp
  follow-inside (suc i) (free p e) h hp = absurd (omega arith)
  follow-inside (suc i) (step p b e) h hp = follow-inside i e (omega arith) (a.inside p hp b)

follow-Ends : {t : ProcTable} (i k : ℕ) {n p : ℕ} → Ends t n p → i + k ≡ n → Ends t k (follow t i p)
follow-Ends {t} zero k {p} e h = let h' : k ≡ _ = omega arith in rw h' e
follow-Ends (suc i) k (free p e) h = absurd (omega arith)
follow-Ends (suc i) k (step p b e) h = follow-Ends i k e (omega arith)

-- Without cycles a chain visits each process of the table at most once.
chain-lt :
    {t : ProcTable} {n p : ℕ}
    → IsAcyclic t
    → Ends t n p
    → p < nr_tasks + nr_procs
    → n < nr_tasks + nr_procs
chain-lt {t} {n} {p} a e hp =
    pigeonhole (nr_tasks + nr_procs) (suc n) (λ i. follow t i p)
      (λ i h. follow-inside a i e (omega arith) hp)
      (λ i j h k same. omega (
        arith,
        Ends-unique {m = n - j} (follow-Ends i (n - i) e (omega arith))
            (rw same (follow-Ends j (n - j) e (omega arith))),
      ))

-- What the loop of `deadlock` may answer.
abbrev pub Decides : ProcTable → ℕ → ℕ → Option Bool → Type 0
Decides t src p none = ⊥
Decides t src p (some true) = Reaches t src p
Decides t src p (some false) = ¬ Reaches t src p

not-Reaches_free :
    {t : ProcTable} {src p : ℕ} → has (t p).p_flags sending ≡ false → ¬ Reaches t src p
not-Reaches_free e (now p b to) = ground arith
not-Reaches_free e (later p b r) = ground arith

Reaches-inv :
    {t : ProcTable} {src p : ℕ}
    → Reaches t src p
    → ((t p).p_sendto ≡ src) ⊎ Reaches t src (t p).p_sendto
Reaches-inv (now p b to) = inl to
Reaches-inv (later p b r) = inr r

pub deadlock_loop-Decides :
    (rounds : ℕ) {t : ProcTable} (src : ℕ) {n p : ℕ}
    → Ends t n p
    → n < rounds
    → Decides t src p (deadlock_loop rounds t src p)
unfolding deadlock_loop
deadlock_loop-Decides zero src e h = absurd (omega arith)
deadlock_loop-Decides (suc k) {t} src (free p e) h = rw e (not-Reaches_free e)
deadlock_loop-Decides (suc k) {t} src (step p b e) h = elim (Bool-cases ((t p).p_sendto == src)) [
  | inl hit ↦ rw (b, hit) (now p b ((==_iff _ _).0 hit))
  | inr miss ↦
      rw (b, miss)
        (pass (λ to. ground arith) (deadlock_loop k t src (t p).p_sendto)
          (deadlock_loop-Decides k src e (omega arith)))
]
  where
    off : (t p).p_sendto ≢ src → ¬ Reaches t src (t p).p_sendto → ¬ Reaches t src p
    off ne none_further r = elim (Reaches-inv r) [ inl to ↦ ne to | inr q ↦ none_further q ]

    pass :
        (t p).p_sendto ≢ src
        → (r : Option Bool) → Decides t src (t p).p_sendto r
        → Decides t src p r
    pass ne none d = d
    pass ne (some true) d = later p b d
    pass ne (some false) d = off ne d

-- With the waiting chains free of cycles, 35 rounds of the loop of `deadlock` are enough, and it
-- answers 1 exactly when the chain of blocked senders from `dest` leads to `src`.
pub deadlock_loop-total :
    (t : ProcTable) (src dest : ℕ)
    → IsAcyclic t
    → dest < nr_tasks + nr_procs
    → (answer : Bool) × (deadlock_loop (nr_tasks + nr_procs) t src dest ≡ some answer)
      × ((answer ≡ true) ↔ Reaches t src dest)
deadlock_loop-total t src dest a hd =
    let (n, e) = a.ends dest hd in
    read (deadlock_loop (nr_tasks + nr_procs) t src dest)
      (deadlock_loop-Decides (nr_tasks + nr_procs) src e (chain-lt a e hd))
  where
    read :
        (r : Option Bool)
        → Decides t src dest r
        → (answer : Bool) × (r ≡ some answer) × ((answer ≡ true) ↔ Reaches t src dest)
    read none d = absurd d
    read (some true) d = (true, refl, ((λ _. d), (λ _. refl)))
    read (some false) d = (false, refl, ((λ e. absurd (cc)), (λ r. absurd (d r))))
