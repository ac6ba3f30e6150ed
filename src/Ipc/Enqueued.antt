-- ===== src/Ipc/Enqueued.antt =====
-- Blocking a sender on a receiver keeps the invariant of message passing.
use simple_os.Base.{
  ℕ, ◌+◌, ◌<◌, ◌≡◌, ◌≢◌, refl, true, false, inl, inr, arith, ==_iff, Bool-cases, List, [], ◌∷◌,
  ◌++◌, ◌==◌, sym,
}
use simple_os.Kernel.{Kernel, ProcTable, nr_tasks, nr_procs}
use simple_os.Ipc.Phase.{IsReady, IsSending, SameCall}
use simple_os.Ipc.Deadlock.{Blocked, Reaches}
use simple_os.Ipc.Acyclic.{IsAcyclic-block}
use simple_os.Ipc.Queue.{mem, mem-append, mem-last, Links-frame}
use simple_os.Ipc.Consistent.{IsQueue, IsConsistent}
use simple_os.Ipc.Send.{queued, queued-SameCall, queued-IsSending, queued-Links}

-- A process that is not blocked is in no queue.
not-mem_of_ready :
    {t : ProcTable} {d : ℕ} {xs : List ℕ} (s : ℕ)
    → IsQueue t d xs
    → IsReady (t s)
    → mem s xs ≡ false
not-mem_of_ready {xs} s q r = elim (Bool-cases (mem s xs)) [
  | inl inside ↦ absurd (ground (arith, q.blocked s inside, r.flags))
  | inr outside ↦ outside
]

queued-next :
    (t : ProcTable) (s d m : ℕ) (xs : List ℕ) (x : ℕ)
    → x ≢ s
    → mem x xs ≡ false
    → (queued t s d m xs x).next_sending ≡ (t x).next_sending
queued-next t s d m [] x ne out = ground arith
queued-next t s d m (y ∷ ys) x ne out = ground (arith, mem-last y ys)

queued-head :
    (t : ProcTable) (s d m : ℕ) (xs : List ℕ) (e : ℕ)
    → e ≢ d
    → (queued t s d m xs e).q_sending ≡ (t e).q_sending
queued-head t s d m [] e ne = ground arith
queued-head t s d m (y ∷ ys) e ne = ground arith

module _ (k : Kernel) (s d m : ℕ) (xs : List ℕ) (ready : IsReady (k.proc_table s)) (ne : s ≢ d)
    (hm : m ≢ 0) (hs : s < nr_tasks + nr_procs) (queue : IsQueue k.proc_table d xs) where
  pub sender_outside : mem s xs ≡ false
  sender_outside = not-mem_of_ready s queue ready

  pub sender_sends : IsSending (queued k.proc_table s d m xs s) d
  sender_sends = queued-IsSending k s d m xs ready ne sender_outside hm

  pub others_same : (q : ℕ) → q ≢ s → SameCall (k.proc_table q) (queued k.proc_table s d m xs q)
  others_same = queued-SameCall k s d m xs ready ne sender_outside

  sender-Blocked : Blocked (queued k.proc_table s d m xs) s
  sender-Blocked = rw sender_sends.flags refl

  pub IsQueue-dest : IsQueue (queued k.proc_table s d m xs) d (xs ++ (s ∷ []))
  IsQueue-dest = record {
    links = queued-Links k s d m xs ready ne sender_outside queue.links;
    inside = λ x i. ground (arith, mem-append x xs (s ∷ []), queue.inside x);
    blocked = λ x i. elim (Bool-cases (x == s)) [
      | inl here ↦ rw ((==_iff x s).0 here) (sender-Blocked, sender_sends.to)
      | inr off ↦
          let same = others_same x (ground arith) in
          let (b, to) = queue.blocked x (ground (arith, mem-append x xs (s ∷ []))) in
          (rw same.flags b, rw same.to to)
    ];
    all = λ x h b to. elim (Bool-cases (x == s)) [
      | inl here ↦ ground (arith, mem-append x xs (s ∷ []))
      | inr off ↦
          let same = others_same x (ground arith) in
          let b' : Blocked k.proc_table x = rw same.flags at b in
          ground (arith, mem-append x xs (s ∷ []), queue.all x h b' (rw same.to at to))
    ];
  }

  IsQueue-other :
      (e : ℕ) (ys : List ℕ)
      → e ≢ d
      → IsQueue k.proc_table e ys
      → IsQueue (queued k.proc_table s d m xs) e ys
  IsQueue-other e ys off q = record {
    links =
        rw (queued-head k.proc_table s d m xs e off) (
          Links-frame (λ x i. queued-next k.proc_table s d m xs x (not_s x i) (apart x i)) q.links);
    inside = q.inside;
    blocked = λ x i.
        let same = others_same x (not_s x i) in
        let (b, to) = q.blocked x i in (rw same.flags b, rw same.to to);
    all = λ x h b to. elim (Bool-cases (x == s)) [
      | inl here ↦ absurd (ground (arith, sender_sends.to))
      | inr away ↦
          let same = others_same x (ground arith) in
          let b' : Blocked k.proc_table x = rw same.flags at b in q.all x h b' (rw same.to at to)
    ];
  }
    where
      not_s : (x : ℕ) → mem x ys ≡ true → x ≢ s
      not_s x i = ground (arith, not-mem_of_ready s q ready)

      apart : (x : ℕ) → mem x ys ≡ true → mem x xs ≡ false
      apart x i = elim (Bool-cases (mem x xs)) [
        | inl both ↦ absurd (ground (arith, (q.blocked x i).1, (queue.blocked x both).1))
        | inr out ↦ out
      ]

  pub queued-IsConsistent :
      d < nr_tasks + nr_procs
      → ¬ Reaches k.proc_table s d
      → IsConsistent k.proc_table
      → IsConsistent (queued k.proc_table s d m xs)
  queued-IsConsistent hd safe c = record {
    acyclic =
        IsAcyclic-block (λ q off. let same = others_same q off in (rw same.flags, same.to))
          sender-Blocked sender_sends.to (λ e. ne (sym e)) safe hd c.acyclic;
    queues = λ e he. elim (Bool-cases (e == d)) [
      | inl here ↦ (xs ++ (s ∷ []), rw ((==_iff e d).0 here) IsQueue-dest)
      | inr off ↦ let (ys, q) = c.queues e he in (ys, IsQueue-other e ys (ground arith) q)
    ];
  }
