-- ===== src/Syscall/Source.antt =====
-- `sys_sendrec`: the kernel writes the number of the caller into the message before it sends it.
use simple_os.Base.{
  ℕ, ◌+◌, ◌<◌, ◌≡◌, ◌≢◌, refl, ap, ◌∙◌, arith, true, ◌⊎◌, ◌==◌, ==_ne, ==_self, if◌then◌else◌,
}
use simple_os.Kernel.{Kernel, ok, update, any, in_table, nr_tasks, nr_procs}
use simple_os.Ipc.{msg_send, msg_receive}
use simple_os.Ipc.Phase.{IsReady, IsReceiving, linear, Addressable}
use simple_os.Ipc.Send.{va2la_lem, delivered}
use simple_os.Ipc.MsgSend.{msg_send-delivered}
use simple_os.Syscall.{sys_sendrec, send, receive}

-- The state when the message at address `a` names `c` as its sender.
abbrev pub stamped : Kernel → ℕ → ℕ → Kernel
stamped k a c = record k { mem = update k.mem a (record (k.mem a) { source = c }) }

module _ (k : Kernel) (c d m : ℕ) (hd : d < nr_tasks + nr_procs) (ne : c ≢ d)
    (av : Addressable k c m) where
  pub sys_sendrec-send :
      sys_sendrec 0 send d m c k ≡ msg_send (nr_tasks + nr_procs) c d m (stamped k (linear k c m) c)
  unfolding sys_sendrec
  sys_sendrec-send =
      let inside : in_table d ≡ true = ground arith in
      rw (inside, va2la_lem k c m av, ==_ne c d ne) refl

  pub sys_sendrec-receive :
      sys_sendrec 0 receive d m c k
      ≡ msg_receive (nr_tasks + nr_procs) c d m (stamped k (linear k c m) c)
  unfolding sys_sendrec
  sys_sendrec-receive =
      let inside : in_table d ≡ true = ground arith in
      rw (inside, va2la_lem k c m av, ==_ne c d ne) refl

  -- If `d` waits for a message from `c` or from anyone, then the call SEND of `c` returns 0, makes
  -- `d` ready and copies the message with `c` as its source, whatever the caller wrote there: a
  -- process cannot pass for another one.
  pub sys_sendrec-delivered :
      (src : ℕ)
      → IsReady (k.proc_table c)
      → IsReceiving (k.proc_table d) src
      → (src ≡ c) ⊎ (src ≡ any)
      → m ≢ 0
      → Addressable k d (k.proc_table d).msg
      → let k' = delivered (stamped k (linear k c m) c) c d m in
        (sys_sendrec 0 send d m c k ≡ ok 0 k')
        × (IsReady (k'.proc_table d)
            × (k'.mem (linear k d (k.proc_table d).msg)
                ≡ record (k.mem (linear k c m)) { source = c }))
  sys_sendrec-delivered src ready r who hm ad = (
    sys_sendrec-send
        ∙ msg_send-delivered (stamped k (linear k c m) c) c d m src ready r who hm ne hd av ad,
    (
      ground arith,
      ap
            (λ b.
              if b
              then (if linear k c m == linear k c m
                  then record (k.mem (linear k c m)) { source = c }
                  else k.mem (linear k c m))
              else update k.mem (linear k c m) (record (k.mem (linear k c m)) { source = c })
                  (linear k d (k.proc_table d).msg))
            (==_self (linear k d (k.proc_table d).msg))
          ∙ ap
              (λ b.
                if b then record (k.mem (linear k c m)) { source = c } else k.mem (linear k c m))
              (==_self (linear k c m)),
    ),
  )
