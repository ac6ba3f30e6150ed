-- ===== src/Syscall/Tests.antt =====
-- A process that asks for the ticks, and one that pretends to be another.
use simple_os.Base.{◌≡◌, refl, arith, inl, inr, ◌==◌, Bool-cases}
use simple_os.Kernel.{ProcTable, Kernel, ok, blocks, reset_msg, update, receiving, any}
use simple_os.Kernel.Samples.{ready}
use simple_os.Kernel.Segment.{seg_linear}
use simple_os.Ipc.Phase.{IsReady, linear}
use simple_os.Ipc.Send.{delivered}
use simple_os.InitProc.Start.{Quiet, Quiet-IsConsistent}
use simple_os.Syscall.{sys_sendrec, send, get_ticks, get_ticks_result, task_sys_reply}
use simple_os.Syscall.Source.{stamped, sys_sendrec-delivered}
use simple_os.Syscall.Ticks.{get_ticks-task_sys}

-- `task_sys` waits for a message at 0x9000.
abbrev table : ProcTable
table = update (λ q. ready) 1 (record ready { p_flags = receiving; msg = 0x9000; p_recvfrom = any })

-- The message of process 3, at 0x8000, names another source.
abbrev state : Kernel
state = record { proc_table = table; mem = λ a. record reset_msg { source = 6 }; ready_process = 3 }

table-Quiet : Quiet table
table-Quiet = record {
  idle = λ q h. elim (Bool-cases (1 == q)) [ inl y ↦ rw y refl | inr n ↦ rw n refl ];
  empty = λ q h. elim (Bool-cases (1 == q)) [ inl y ↦ rw y refl | inr n ↦ rw n refl ];
}

sys_sendrec-delivered_example :
    let k' = delivered (stamped state (linear state 3 0x8000) 3) 3 1 0x8000 in
    (sys_sendrec 0 send 1 0x8000 3 state ≡ ok 0 k')
    × (IsReady (k'.proc_table 1)
        × (k'.mem (linear state 1 0x9000) ≡ record reset_msg { source = 3 }))
unfolding seg_linear
sys_sendrec-delivered_example =
    sys_sendrec-delivered state 3 1 0x8000 (omega arith) (omega arith) refl any (ground arith)
      (ground arith) (inr refl) (omega arith) refl

get_ticks-task_sys_example :
    (k1 : Kernel) × (k2 : Kernel) × (get_ticks 3 0x8000 state ≡ blocks k1)
    × (task_sys_reply 1234 0x9000 k1 ≡ ok 0 k2)
    × IsReady (k2.proc_table 3)
    × (get_ticks_result 3 0x8000 k2 ≡ ok 1234 k2)
unfolding seg_linear
get_ticks-task_sys_example =
    get_ticks-task_sys state 3 0x8000 0x9000 1234
      (record {
        client = ground arith;
        server = ground arith;
        buffer = refl;
        quiet = refl;
        consistent = Quiet-IsConsistent table table-Quiet;
        somewhere = omega arith;
        in_table = omega arith;
        turn = omega arith;
        other = omega arith;
        client_space = refl;
        server_space = refl;
      })
      (omega arith)
