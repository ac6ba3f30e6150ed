-- ===== src/Ipc/Send.antt =====
-- What `msg_send` does: it hands a message to a receiver that waits for it, or blocks the sender
-- at the end of the receiver's queue.
use simple_os.Base.{ℕ, ◌≤◌, ◌≡◌, ◌≢◌, refl, false, arith, List, [], ◌∷◌, ◌++◌, none, some, length}
use simple_os.Kernel.{Kernel, ok, ProcTable, update, sending, no_task}
use simple_os.Ipc.{
  deliver, wait_to_send, mark_sending, append_sender, assert_sent, va2la, unblock, block, schedule,
  schedule_loop,
}
use simple_os.Ipc.Queue.{
  mem, Links, appended, enqueue-appended, Links-appended, Links-frame, appended-SameCall,
}
use simple_os.Ipc.Phase.{IsReady, IsSending, IsReceiving, SameCall, linear, Addressable}

pub va2la_lem : (k : Kernel) (p va : ℕ) → Addressable k p va → va2la p va k ≡ ok (linear k p va) k
unfolding va2la
va2la_lem k p va a = rw a

-- The state after `sender` has handed the message at `m` to `dest`.
abbrev pub delivered : Kernel → ℕ → ℕ → ℕ → Kernel
delivered k sender dest m = record k {
  mem = update k.mem (linear k dest (k.proc_table dest).msg) (k.mem (linear k sender m));
  proc_table =
      update k.proc_table dest
        (record (k.proc_table dest) { msg = 0; p_flags = 0; p_recvfrom = no_task });
}

module _ (k : Kernel) (s d m : ℕ) where
  pub deliver-delivered :
      {src : ℕ}
      → IsReady (k.proc_table s)
      → IsReceiving (k.proc_table d) src
      → m ≢ 0
      → s ≢ d
      → Addressable k s m
      → Addressable k d (k.proc_table d).msg
      → deliver s d m k ≡ ok tt (delivered k s d m)
  unfolding deliver unblock
  deliver-delivered ready r hm ne av ad =
      ground (arith, va2la_lem k s m av, va2la_lem k d (k.proc_table d).msg ad)

-- The table after `s` has been blocked on the message at `m` to `d`, whose queue was `xs`.
abbrev pub asking : ProcTable → ℕ → ℕ → ℕ → ProcTable
asking t s d m =
    update (update t s (record (t s) { p_flags = sending })) s
      (record (record (t s) { p_flags = sending }) { p_sendto = d; msg = m })

abbrev pub queued : ProcTable → ℕ → ℕ → ℕ → List ℕ → ProcTable
queued t s d m xs =
    let t' = appended (asking t s d m) d s xs in update t' s (record (t' s) { next_sending = none })

module _ (k : Kernel) (s d m : ℕ) (xs : List ℕ) (ready : IsReady (k.proc_table s)) (ne : s ≢ d)
    (out : mem s xs ≡ false) where
  pub queued-IsSending : m ≢ 0 → IsSending (queued k.proc_table s d m xs s) d
  queued-IsSending hm = ground (arith, appended-SameCall (asking k.proc_table s d m) d s xs s)

  -- Every other process goes on with what it was doing.
  pub queued-SameCall : (q : ℕ) → q ≢ s → SameCall (k.proc_table q) (queued k.proc_table s d m xs q)
  queued-SameCall q other = ground (arith, appended-SameCall (asking k.proc_table s d m) d s xs q)

  pub queued-msg : (queued k.proc_table s d m xs s).msg ≡ m
  queued-msg = ground (arith, appended-SameCall (asking k.proc_table s d m) d s xs s)

  mark_sending-asking :
      mark_sending s d m k ≡ ok tt (record k { proc_table = asking k.proc_table s d m })
  unfolding mark_sending
  mark_sending-asking = rw ready.flags (ground arith)

  asking-Links :
      Links k.proc_table (k.proc_table d).q_sending xs
      → Links (asking k.proc_table s d m) (asking k.proc_table s d m d).q_sending xs
  asking-Links l =
      let same : (asking k.proc_table s d m d).q_sending ≡ (k.proc_table d).q_sending =
        ground arith in
      rw same (Links-frame (λ x _. ground arith) l)

  pub queued-Links :
      Links k.proc_table (k.proc_table d).q_sending xs
      → Links
          (queued k.proc_table s d m xs)
          (queued k.proc_table s d m xs d).q_sending
          (xs ++ (s ∷ []))
  queued-Links l =
      Links-appended {t = asking k.proc_table s d m} d s xs (asking-Links l) out (ground arith)
        (λ q. ground arith) (λ q other. ground arith)

  append_sender-queued :
      (rounds : ℕ)
      → Links k.proc_table (k.proc_table d).q_sending xs
      → length xs ≤ rounds
      → append_sender rounds s d (record k { proc_table = asking k.proc_table s d m })
        ≡ ok tt (record k { proc_table = queued k.proc_table s d m xs })
  unfolding append_sender
  append_sender-queued rounds l fits = rw (
      enqueue-appended rounds d s (record k { proc_table = asking k.proc_table s d m })
        (asking-Links l) refl fits)

  pub wait_to_send-queued :
      (rounds q : ℕ)
      → m ≢ 0
      → Links k.proc_table (k.proc_table d).q_sending xs
      → length xs ≤ rounds
      → schedule_loop rounds (queued k.proc_table s d m xs) k.ready_process ≡ some q
      → wait_to_send rounds s d m k
        ≡ ok tt (record k { proc_table = queued k.proc_table s d m xs; ready_process = q })
  unfolding wait_to_send assert_sent block schedule
  wait_to_send-queued rounds q hm l fits found =
      let p = queued-IsSending hm in
      rw (mark_sending-asking, append_sender-queued rounds l fits) (ground (arith, p.flags, found))
