-- ===== src/Ipc/Consistent.antt =====
-- The invariant of message passing: the queue of each process holds exactly the processes that
-- are blocked on a message to it, and no chain of blocked processes is a cycle.
use simple_os.Base.{ℕ, ◌<◌, ◌+◌, ◌≡◌, true, List}
use simple_os.Kernel.{ProcTable, has, sending, nr_tasks, nr_procs}
use simple_os.Ipc.Queue.{mem, Links, Links-frame}
use simple_os.Ipc.Deadlock.{Blocked, IsAcyclic}
use simple_os.Ipc.Acyclic.{IsAcyclic-Fewer}

-- `xs` is the queue of `d`, and its members are the processes that are blocked on `d`.
pub record IsQueue (t : ProcTable) (d : ℕ) (xs : List ℕ) : Type 0 where
  pub links : Links t (t d).q_sending xs
  pub inside : (x : ℕ) → mem x xs ≡ true → x < nr_tasks + nr_procs
  pub blocked : (x : ℕ) → mem x xs ≡ true → Blocked t x × ((t x).p_sendto ≡ d)
  pub all : (x : ℕ) → x < nr_tasks + nr_procs → Blocked t x → (t x).p_sendto ≡ d → mem x xs ≡ true

pub record IsConsistent (t : ProcTable) : Type 0 where
  pub acyclic : IsAcyclic t
  pub queues : (d : ℕ) → d < nr_tasks + nr_procs → (xs : List ℕ) × IsQueue t d xs

-- A change that blocks no one and lets no one go, and keeps the links.
pub record SameWaits (t t' : ProcTable) : Type 0 where
  pub blocked : (q : ℕ) → has (t' q).p_flags sending ≡ has (t q).p_flags sending
  pub to : (q : ℕ) → Blocked t q → (t' q).p_sendto ≡ (t q).p_sendto
  pub head : (q : ℕ) → (t' q).q_sending ≡ (t q).q_sending
  pub next : (q : ℕ) → (t' q).next_sending ≡ (t q).next_sending

module _ {t t' : ProcTable} (w : SameWaits t t') where
  IsQueue-same : {d : ℕ} {xs : List ℕ} → IsQueue t d xs → IsQueue t' d xs
  IsQueue-same {d} q = record {
    links = rw (w.head d) (Links-frame (λ x _. w.next x) q.links);
    inside = q.inside;
    blocked = λ x m. let (b, to) = q.blocked x m in (rw (w.blocked x) b, rw (w.to x b) to);
    all = λ x h b to.
        let b' : Blocked t x = rw (w.blocked x) at b in q.all x h b' (rw (w.to x b') at to);
  }

  pub IsConsistent-same : IsConsistent t → IsConsistent t'
  IsConsistent-same c = record {
    acyclic =
        IsAcyclic-Fewer (λ q b. let b' : Blocked t q = rw (w.blocked q) at b in (b', w.to q b'))
          c.acyclic;
    queues = λ d h. let (xs, q) = c.queues d h in (xs, IsQueue-same q);
  }
