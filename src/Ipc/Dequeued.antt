-- ===== src/Ipc/Dequeued.antt =====
-- Taking a message from a queue keeps the invariant of message passing.
use simple_os.Base.{
  ℕ, ◌≡◌, ◌≢◌, refl, true, false, Option, none, some, List, [], ◌∷◌, ◌==◌, arith, inl, inr, ==_iff,
  Bool-cases, if◌then◌else◌, ◌∙◌, sym, ==_ne, ==_self,
}
use simple_os.Kernel.{ProcTable, no_task}
use simple_os.Ipc.Phase.{IsReady, IsSending, SameCall}
use simple_os.Ipc.Deadlock.{Blocked}
use simple_os.Ipc.Acyclic.{IsAcyclic-Fewer}
use simple_os.Ipc.Queue.{mem, Links, nil, cons, Links-frame}
use simple_os.Ipc.Unlink.{erase, before, mem-erase, before-ne, mem-before, Links-erase}
use simple_os.Ipc.Consistent.{IsQueue, IsConsistent}
use simple_os.Ipc.Receive.{taken}

-- What stands before `src` in a queue, if anything does.
abbrev pub previous : ℕ → List ℕ → Option ℕ
previous src [] = none
previous src (x ∷ xs) = if x == src then none else some (before src x xs)

module _ (t : ProcTable) (me src : ℕ) where
  pub taken-SameCall : (prev : Option ℕ) (q : ℕ) → q ≢ src → SameCall (t q) (taken t me src prev q)
  taken-SameCall none q ne = ground arith
  taken-SameCall (some p) q ne = ground arith

  -- But for the links of the queues, no other process changes.
  pub taken-links :
      (prev : Option ℕ) (q : ℕ)
      → q ≢ src
      → taken t me src prev q ≡ record (t q) {
        q_sending = (taken t me src prev q).q_sending;
        next_sending = (taken t me src prev q).next_sending;
      }
  taken-links none q ne = elim (Bool-cases (me == q)) [
    | inl here ↦ rw ((==_iff me q).0 here, ==_ne src q (λ e. ne (sym e)), ==_self q) refl
    | inr off ↦ rw (off, ==_ne src q (λ e. ne (sym e))) refl
  ]
  taken-links (some p) q ne = elim (Bool-cases (p == q)) [
    | inl here ↦ rw ((==_iff p q).0 here, ==_ne src q (λ e. ne (sym e)), ==_self q) refl
    | inr off ↦ rw (off, ==_ne src q (λ e. ne (sym e))) refl
  ]

  -- What the sender becomes.
  pub taken-sender :
      (prev : Option ℕ)
      → me ≢ src
      → taken t me src prev src
        ≡ record (t src) { msg = 0; p_sendto = no_task; p_flags = 0; next_sending = none }
  taken-sender none ne = rw (==_self src, ==_ne me src ne) refl
  taken-sender (some p) ne = elim (Bool-cases (p == src)) [
    | inl here ↦ rw (==_self src, here, (==_iff p src).0 here) refl
    | inr off ↦ rw (==_self src, off) refl
  ]

  pub taken-IsReady : (prev : Option ℕ) → IsSending (t src) me → IsReady (taken t me src prev src)
  taken-IsReady none s = ground arith
  taken-IsReady (some p) s = ground arith

  moved_to : (p : ℕ) → p ≢ src → (taken t me src (some p) p).next_sending ≡ (t src).next_sending
  moved_to p ne = ground arith

  unmoved :
      (p y : ℕ) → y ≢ p → y ≢ src → (taken t me src (some p) y).next_sending ≡ (t y).next_sending
  unmoved p y ne off = ground arith

  unmoved_head : (y : ℕ) → y ≢ src → (taken t me src none y).next_sending ≡ (t y).next_sending
  unmoved_head y off = ground arith

  head_same :
      (prev : Option ℕ) (e : ℕ) → e ≢ me → (taken t me src prev e).q_sending ≡ (t e).q_sending
  head_same none e ne = ground arith
  head_same (some p) e ne = ground arith

  Links-taken :
      {h : Option ℕ} {xs : List ℕ}
      → Links t h xs
      → (t me).q_sending ≡ h
      → mem src xs ≡ true
      → me ≢ src
      → let t' = taken t me src (previous src xs) in Links t' (t' me).q_sending (erase src xs)
  Links-taken nil e i ne = cc
  Links-taken (cons {p = x} {xs} out l) e i ne = elim (Bool-cases (x == src)) [
    | inl here ↦
        let head : (taken t me src none me).q_sending ≡ (t x).next_sending = ground arith in
        rw (here, head) (Links-frame (λ y m. unmoved_head y (ground arith)) l)
    | inr on ↦
        let p = before src x xs in
        let head : (taken t me src (some p) me).q_sending ≡ some x = ground arith in
        rw (on, head)
          (cons (ground (arith, mem-erase src x l)) (
            Links-erase src x l refl out (ground arith) (ground arith)
              (moved_to p (before-ne src x xs (ground arith))) (unmoved p)))
  ]

module _ (t : ProcTable) (me src : ℕ) (xs : List ℕ) (queue : IsQueue t me xs)
    (i : mem src xs ≡ true) (ne : me ≢ src) (sends : IsSending (t src) me) where
  -- The process that `src` becomes is not blocked, and the others are what they were.
  left_over :
      (q : ℕ)
      → Blocked (taken t me src (previous src xs)) q
      → (q ≢ src) × Blocked t q × ((taken t me src (previous src xs) q).p_sendto ≡ (t q).p_sendto)
  left_over q b = elim (Bool-cases (q == src)) [
    | inl here ↦
        let r = taken-IsReady t me src (previous src xs) sends in absurd (ground (arith, r.flags))
    | inr off ↦
        let same = taken-SameCall t me src (previous src xs) q (ground arith) in
        (ground arith, ground arith, same.to)
  ]

  stays-Blocked :
      (q : ℕ)
      → q ≢ src
      → Blocked t q
      → Blocked (taken t me src (previous src xs)) q
        × ((taken t me src (previous src xs) q).p_sendto ≡ (t q).p_sendto)
  stays-Blocked q off b =
      let same = taken-SameCall t me src (previous src xs) q off in (rw same.flags b, same.to)

  pub IsQueue-erase : IsQueue (taken t me src (previous src xs)) me (erase src xs)
  IsQueue-erase = record {
    links = Links-taken t me src queue.links refl i ne;
    inside = λ x m. queue.inside x (ground (arith, mem-erase src x queue.links));
    blocked = λ x m.
        let (b, to) = queue.blocked x (ground (arith, mem-erase src x queue.links)) in
        let (b', to') = stays-Blocked x (ground (arith, mem-erase src x queue.links)) b in
        (b', to' ∙ to);
    all = λ x h b to.
        let (off, b', to') = left_over x b in
        let old = queue.all x h b' (sym to' ∙ to) in ground (arith, mem-erase src x queue.links);
  }

  -- A member of the queue of `e` is not in the queue of `me`.
  apart : (e y : ℕ) {ys : List ℕ} → e ≢ me → IsQueue t e ys → mem y ys ≡ true → mem y xs ≡ false
  apart e y off q m = elim (Bool-cases (mem y xs)) [
    | inl both ↦ absurd (ground (arith, (q.blocked y m).1, (queue.blocked y both).1))
    | inr out ↦ out
  ]

  next_same :
      (y : ℕ)
      → mem y xs ≡ false
      → (taken t me src (previous src xs) y).next_sending ≡ (t y).next_sending
  next_same y out = cases xs i out
    where
      cases :
          (xs : List ℕ)
          → mem src xs ≡ true
          → mem y xs ≡ false
          → (taken t me src (previous src xs) y).next_sending ≡ (t y).next_sending
      cases [] i out = absurd (cc)
      cases (x ∷ xs) i out = elim (Bool-cases (x == src)) [
        | inl here ↦ rw here (unmoved_head t me src y (ground arith))
        | inr on ↦ rw on (
            unmoved t me src (before src x xs) y (ground (arith, mem-before src x xs))
              (ground arith))
      ]

  IsQueue-apart :
      (e : ℕ) (ys : List ℕ)
      → e ≢ me
      → IsQueue t e ys
      → IsQueue (taken t me src (previous src xs)) e ys
  IsQueue-apart e ys off q = record {
    links =
        rw (head_same t me src (previous src xs) e off)
          (Links-frame (λ y m. next_same y (apart e y off q m)) q.links);
    inside = q.inside;
    blocked = λ y m.
        let (b, to) = q.blocked y m in
        let out = apart e y off q m in
        let (b', to') = stays-Blocked y (ground arith) b in (b', to' ∙ to);
    all = λ y h b to. let (away, b', to') = left_over y b in q.all y h b' (sym to' ∙ to);
  }

  pub taken-IsConsistent : IsConsistent t → IsConsistent (taken t me src (previous src xs))
  taken-IsConsistent c = record {
    acyclic = IsAcyclic-Fewer (λ q b. let (off, b', to) = left_over q b in (b', to)) c.acyclic;
    queues = λ e he. elim (Bool-cases (e == me)) [
      | inl here ↦ (erase src xs, rw ((==_iff e me).0 here) IsQueue-erase)
      | inr off ↦ let (ys, q) = c.queues e he in (ys, IsQueue-apart e ys (ground arith) q)
    ];
  }
