-- ===== src/Ipc/Acyclic.antt =====
-- How the waiting chains change when a process is blocked on a message or is let go.
use simple_os.Base.{ℕ, suc, ◌+◌, ◌<◌, ◌≡◌, ◌≢◌, ◌==◌, arith, inl, inr, ==_iff, Bool-cases}
use simple_os.Kernel.{ProcTable, has, sending, nr_tasks, nr_procs}
use simple_os.Ipc.Deadlock.{Blocked, Reaches, now, later, Ends, free, step, IsAcyclic}

-- The tables agree on whom each process but `s` is blocked on.
abbrev pub AgreeOff : ℕ → ProcTable → ProcTable → Type 0
AgreeOff s t t' =
    (q : ℕ)
    → q ≢ s
    → (has (t' q).p_flags sending ≡ has (t q).p_flags sending) × ((t' q).p_sendto ≡ (t q).p_sendto)

-- A blocked process of the second table is blocked in the first one, on the same process.
abbrev pub Fewer : ProcTable → ProcTable → Type 0
Fewer t t' = (q : ℕ) → Blocked t' q → Blocked t q × ((t' q).p_sendto ≡ (t q).p_sendto)

module _ {t t' : ProcTable} where
  -- A chain that does not come past `s` stays as it is.
  Ends-off : {s n p : ℕ} → AgreeOff s t t' → p ≢ s → ¬ Reaches t s p → Ends t n p → Ends t' n p
  Ends-off agree ne not (free p e) = free p (rw (agree p ne).0 e)
  Ends-off {s} agree ne not (step p b e) =
      step p (rw (agree p ne).0 b)
        (rw (agree p ne).1 (Ends-off agree (λ to. not (now p b to)) (λ r. not (later p b r)) e))

  Ends-Fewer : {n p : ℕ} → Fewer t t' → Ends t n p → (m : ℕ) × Ends t' m p
  Ends-Fewer fewer (free p e) = elim (Bool-cases (has (t' p).p_flags sending)) [
    | inl blocked ↦ let old = (fewer p blocked).0 in absurd (ground arith)
    | inr ready ↦ (0, free p ready)
  ]
  Ends-Fewer fewer (step p b e) = elim (Bool-cases (has (t' p).p_flags sending)) [
    | inl blocked ↦
        let (m, e') = Ends-Fewer fewer e in (suc m, step p blocked (rw (fewer p blocked).1 e'))
    | inr ready ↦ (0, free p ready)
  ]

  -- Letting processes go creates no cycle.
  pub IsAcyclic-Fewer : Fewer t t' → IsAcyclic t → IsAcyclic t'
  IsAcyclic-Fewer fewer a = record {
    inside = λ p h b. let (old, same) = fewer p b in rw same (a.inside p h old);
    ends = λ p h. let (n, e) = a.ends p h in Ends-Fewer fewer e;
  }

  module _ {s d : ℕ} (agree : AgreeOff s t t') (new : Blocked t' s) (to : (t' s).p_sendto ≡ d)
      (ne : d ≢ s) (safe : ¬ Reaches t s d) where
    at_source : {n p : ℕ} → Ends t n d → p ≡ s → Ends t' (suc n) p
    at_source ed e = rw e (step s new (rw to (Ends-off agree ne safe ed)))

    through : {n m p : ℕ} → Ends t n d → Ends t m p → (k : ℕ) × Ends t' k p
    through {n} ed (free p f) = elim (Bool-cases (p == s)) [
      | inl here ↦ (suc n, at_source ed ((==_iff p s).0 here))
      | inr off ↦ (0, free p (rw (agree p (ground arith)).0 f))
    ]
    through {n} ed (step p b e) = elim (Bool-cases (p == s)) [
      | inl here ↦ (suc n, at_source ed ((==_iff p s).0 here))
      | inr off ↦
          let same = agree p (ground arith) in
          let (k, e') = through ed e in (suc k, step p (rw same.0 b) (rw same.1 e'))
    ]

    -- Blocking `s` on `d` creates no cycle if no chain from `d` leads to `s`.
    pub IsAcyclic-block : d < nr_tasks + nr_procs → IsAcyclic t → IsAcyclic t'
    IsAcyclic-block hd a = record {
      inside = λ p h b. elim (Bool-cases (p == s)) [
        | inl here ↦ rw ((==_iff p s).0 here, to) hd
        | inr off ↦ let same = agree p (ground arith) in rw same.1 (a.inside p h (rw same.0 at b))
      ];
      ends = λ p h. through (a.ends d hd).1 (a.ends p h).1;
    }
