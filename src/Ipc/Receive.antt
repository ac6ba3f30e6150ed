-- ===== src/Ipc/Receive.antt =====
-- The branches of `msg_receive`: taking the message of a blocked sender, waiting for one, and a
-- pending interrupt.
use simple_os.Base.{ℕ, ◌≡◌, ◌≢◌, refl, not, Option, none, some, arith, is_some}
use simple_os.Kernel.{Kernel, ProcTable, ok, update, no_task}
use simple_os.Ipc.{unlink, is_head, take_message, va2la, unblock}
use simple_os.Ipc.Phase.{IsSending, SameCall, linear, Addressable}

-- The table after `src` has been unlinked from the queue of `me`, where `prev` stands before it.
abbrev pub unlinked : ProcTable → ℕ → ℕ → Option ℕ → ProcTable
unlinked t me src none = update t me (record (t me) { q_sending = (t src).next_sending })
unlinked t me src (some q) = update t q (record (t q) { next_sending = (t src).next_sending })

abbrev pub detached : ProcTable → ℕ → ℕ → Option ℕ → ProcTable
detached t me src prev =
    let t' = unlinked t me src prev in update t' src (record (t' src) { next_sending = none })

-- The table and the memory after `me` has taken the message of `src`.
abbrev pub taken : ProcTable → ℕ → ℕ → Option ℕ → ProcTable
taken t me src prev =
    let t' = detached t me src prev in
    update t' src (record (t' src) { msg = 0; p_sendto = no_task; p_flags = 0 })

abbrev pub received : Kernel → ℕ → ℕ → Option ℕ → ℕ → Kernel
received k me src prev m = record k {
  proc_table = taken k.proc_table me src prev;
  mem = update k.mem (linear k me m) (k.mem (linear k src (k.proc_table src).msg));
}

module _ (k : Kernel) (me src : ℕ) (prev : Option ℕ)
    (fits : is_head src (k.proc_table me).q_sending ≡ not (is_some prev)) where
  unlink-detached :
      unlink me src prev k ≡ ok tt (record k { proc_table = detached k.proc_table me src prev })
  unfolding unlink
  unlink-detached = cases prev fits
    where
      cases :
          (prev : Option ℕ)
          → is_head src (k.proc_table me).q_sending ≡ not (is_some prev)
          → unlink me src prev k
            ≡ ok tt (record k { proc_table = detached k.proc_table me src prev })
      cases none fits = rw (fits, unlink) refl
      cases (some q) fits = rw (fits, unlink) refl

  detached-SameCall : (q : ℕ) → SameCall (k.proc_table q) (detached k.proc_table me src prev q)
  detached-SameCall q = cases prev
    where
      cases : (prev : Option ℕ) → SameCall (k.proc_table q) (detached k.proc_table me src prev q)
      cases none = ground arith
      cases (some p) = ground arith

  detached-ldt :
      (q : ℕ) → (detached k.proc_table me src prev q).ldt_data ≡ (k.proc_table q).ldt_data
  detached-ldt q = cases prev
    where
      cases :
          (prev : Option ℕ)
          → (detached k.proc_table me src prev q).ldt_data ≡ (k.proc_table q).ldt_data
      cases none = ground arith
      cases (some p) = ground arith

  detached-va2la :
      (p va : ℕ)
      → Addressable k p va
      → va2la p va (record k { proc_table = detached k.proc_table me src prev })
        ≡ ok (linear k p va) (record k { proc_table = detached k.proc_table me src prev })
  unfolding va2la
  detached-va2la p va a = rw (detached-ldt p, a)

  pub take_message-received :
      (m : ℕ)
      → IsSending (k.proc_table src) me
      → m ≢ 0
      → Addressable k me m
      → Addressable k src (k.proc_table src).msg
      → take_message me src prev m k ≡ ok tt (received k me src prev m)
  unfolding take_message unblock
  take_message-received m s hm av from = rw unlink-detached (
      ground (
        arith,
        detached-SameCall src,
        detached-va2la me m av,
        detached-va2la src (k.proc_table src).msg from,
      ))
