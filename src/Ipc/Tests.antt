-- ===== src/Ipc/Tests.antt =====
-- Small process tables, and the theorems of message passing at them.
use simple_os.Base.{
  ℕ, ==_iff, ◌∷◌, ◌≢◌, ◌≡◌, ◌<◌, ◌≤◌, refl, Bool, true, inl, inr, arith, Bool-cases, [], none, some,
  ◌==◌, ◌↔◌,
}
use simple_os.Kernel.{
  Kernel, has, Process, ProcTable, ok, panic, update, reset_msg, sending, receiving, any, no_task,
}
use simple_os.Kernel.Segment.{seg_linear}
use simple_os.Ipc.{deadlock_loop, schedule_loop, msg_send, msg_receive}
use simple_os.Ipc.Deadlock.{Reaches, now, later, free, step, IsAcyclic, deadlock_loop-total}
use simple_os.Ipc.Schedule.{turns, schedule_loop-total}
use simple_os.Ipc.Queue.{nil, cons}
use simple_os.Ipc.Consistent.{IsQueue, IsConsistent}
use simple_os.Ipc.Send.{delivered}
use simple_os.Ipc.MsgReceive.{msg_receive-Receives, msg_receive-any, Receives}
use simple_os.Ipc.Waiting.{msg_receive-Waits, Waits}
use simple_os.Ipc.MsgSend.{msg_send-delivered, msg_send-deadlock, msg_send-Blocks, Blocks}

-- A process that is ready and whose segments start at address 0.
abbrev idle : Process
idle = record {
  regs = record {
    gs = 0;
    fs = 0;
    es = 0;
    ds = 0;
    edi = 0;
    esi = 0;
    ebp = 0;
    kernel_esp = 0;
    ebx = 0;
    edx = 0;
    ecx = 0;
    eax = 0;
    retaddr = 0;
    eip = 0;
    cs = 0;
    eflags = 0;
    esp = 0;
    ss = 0;
  };
  ldt_sel = 0;
  ldt_code = record {
    limit_low = 0;
    base_low = 0;
    base_mid = 0;
    attr1 = 0;
    limit_high_attr2 = 0;
    base_high = 0;
  };
  ldt_data = record {
    limit_low = 0;
    base_low = 0;
    base_mid = 0;
    attr1 = 0;
    limit_high_attr2 = 0;
    base_high = 0;
  };
  pid = 0;
  tty_index = 0;
  p_flags = 0;
  msg = 0;
  p_recvfrom = no_task;
  p_sendto = no_task;
  has_int_msg = 0;
  p_parent = no_task;
  q_sending = none;
  next_sending = none;
  exit_status = 0;
  name = [];
}

abbrev kernel : ProcTable → Kernel
kernel t = record { proc_table = t; mem = λ a. record reset_msg { source = a }; ready_process = 3 }

-- Everyone is ready; process 1 waits for anyone; process 4 is blocked on process 3.
abbrev all_ready : ProcTable
all_ready q = idle

abbrev one_waits : ProcTable
one_waits = update all_ready 1 (record idle { p_flags = receiving; msg = 700; p_recvfrom = any })

abbrev four_asks_three : ProcTable
four_asks_three =
    update (update all_ready 3 (record idle { q_sending = some 4 })) 4
      (record idle { p_flags = sending; msg = 800; p_sendto = 3 })

four_asks_three-IsAcyclic : IsAcyclic four_asks_three
four_asks_three-IsAcyclic = record {
  inside = λ p h b. ground arith;
  ends = λ p h. elim (Bool-cases (4 == p)) [
    | inl here ↦ (1, step p (ground arith) (free _ (ground arith)))
    | inr off ↦ (0, free p (ground arith))
  ];
}

all_ready-IsQueue : (d : ℕ) → IsQueue all_ready d []
all_ready-IsQueue d = record {
  links = nil;
  inside = λ x i. cc;
  blocked = λ x i. absurd (cc);
  all = λ x h b to. cc;
}

all_ready-IsConsistent : IsConsistent all_ready
all_ready-IsConsistent = record {
  acyclic = record { inside = λ p h b. absurd (cc); ends = λ p h. (0, free p refl) };
  queues = λ d h. ([], all_ready-IsQueue d);
}

not-Reaches-all_ready : ¬ Reaches all_ready 3 1
not-Reaches-all_ready (now p b to) = cc
not-Reaches-all_ready (later p b r) = cc

deadlock_loop-total_example :
    (answer : Bool) × (deadlock_loop 35 four_asks_three 3 4 ≡ some answer)
    × ((answer ≡ true) ↔ Reaches four_asks_three 3 4)
deadlock_loop-total_example =
    deadlock_loop-total four_asks_three 3 4 four_asks_three-IsAcyclic (omega arith)

schedule_loop-total_example :
    (q : ℕ) × (schedule_loop 35 four_asks_three 3 ≡ some q)
    × (q < 35)
    × ((four_asks_three q).p_flags ≡ 0)
    × (turns 3 q ≤ turns 3 5)
schedule_loop-total_example =
    schedule_loop-total four_asks_three 3 5 (omega arith) (omega arith) refl

msg_send-delivered_example :
    msg_send 35 3 1 900 (kernel one_waits) ≡ ok 0 (delivered (kernel one_waits) 3 1 900)
unfolding seg_linear
msg_send-delivered_example =
    msg_send-delivered (kernel one_waits) 3 1 900 any (ground arith) (ground arith) (inr refl)
      (omega arith) (omega arith) (omega arith) refl refl

msg_send-deadlock_example : msg_send 35 3 4 900 (kernel four_asks_three) ≡ panic
msg_send-deadlock_example =
    msg_send-deadlock (kernel four_asks_three) 3 4 900 four_asks_three-IsAcyclic (now 4 refl refl)
      (omega arith) (omega arith)

msg_send-Blocks_example :
    (k' : Kernel) × (msg_send 35 3 1 900 (kernel all_ready) ≡ ok 0 k')
    × Blocks (kernel all_ready) 3 1 900 [] k'
msg_send-Blocks_example =
    msg_send-Blocks (kernel all_ready) 3 1 900 5 (ground arith) refl not-Reaches-all_ready
      all_ready-IsConsistent (all_ready-IsQueue 1) (omega arith) (omega arith) (omega arith)
      (omega arith) (omega arith) (omega arith) (omega arith) refl

-- Process 4 and then process 5 are blocked on process 3.
abbrev five_asks_three : ProcTable
five_asks_three =
    update
      (update (update all_ready 3 (record idle { q_sending = some 4 })) 4
        (record idle { p_flags = sending; msg = 800; p_sendto = 3; next_sending = some 5 }))
      5 (record idle { p_flags = sending; msg = 900; p_sendto = 3 })

five_asks_three-IsQueue : IsQueue five_asks_three 3 (4 ∷ 5 ∷ [])
five_asks_three-IsQueue = record {
  links = cons refl (cons refl nil);
  inside = λ x i. ground arith;
  blocked = λ x i. ground arith;
  all = λ x h b to. ground arith;
}

other-IsQueue : (d : ℕ) → d ≢ 3 → IsQueue five_asks_three d []
other-IsQueue d ne = record {
  links = let none_yet : (five_asks_three d).q_sending ≡ none = ground arith in rw none_yet nil;
  inside = λ x i. absurd (cc);
  blocked = λ x i. absurd (cc);
  all = λ x h b to. absurd (ground arith);
}

five_asks_three-IsConsistent : IsConsistent five_asks_three
five_asks_three-IsConsistent = record {
  acyclic = record {
    inside = λ p h b. ground arith;
    ends = λ p h. elim (Bool-cases (has (five_asks_three p).p_flags sending)) [
      | inl blocked ↦ (1, step p blocked (free _ (ground arith)))
      | inr off ↦ (0, free p off)
    ];
  };
  queues = λ d h. elim (Bool-cases (d == 3)) [
    | inl here ↦ (4 ∷ 5 ∷ [], rw ((==_iff d 3).0 here) five_asks_three-IsQueue)
    | inr off ↦ ([], other-IsQueue d (ground arith))
  ];
}

-- Process 3 asks for the message of process 5 before that of process 4.
msg_receive-Receives_example :
    (k' : Kernel) × (msg_receive 35 3 5 700 (kernel five_asks_three) ≡ ok 0 k')
    × Receives (kernel five_asks_three) 3 5 700 (4 ∷ 5 ∷ []) k'
unfolding seg_linear
msg_receive-Receives_example =
    msg_receive-Receives (kernel five_asks_three) 3 5 700 (ground arith) five_asks_three-IsQueue
      refl (ground arith) five_asks_three-IsConsistent (omega arith) (omega arith) refl refl

-- Process 3 asks for any message and gets that of process 4.
msg_receive-any_example :
    (k' : Kernel) × (msg_receive 35 3 any 700 (kernel five_asks_three) ≡ ok 0 k')
    × Receives (kernel five_asks_three) 3 4 700 (4 ∷ 5 ∷ []) k'
    × IsQueue k'.proc_table 3 (5 ∷ [])
unfolding seg_linear
msg_receive-any_example =
    msg_receive-any (kernel five_asks_three) 3 4 700 (ground arith) refl five_asks_three-IsQueue
      (ground arith) five_asks_three-IsConsistent (omega arith) (omega arith) (omega arith) refl
      refl

msg_receive-Waits_example :
    (k' : Kernel) × (msg_receive 35 3 any 700 (kernel all_ready) ≡ ok 0 k')
    × Waits (kernel all_ready) 3 any 700 k'
msg_receive-Waits_example =
    msg_receive-Waits (kernel all_ready) 3 any 700 6 (ground arith) refl (inl (refl, refl))
      all_ready-IsConsistent (omega arith) (omega arith) (omega arith) (omega arith) (omega arith)
      (omega arith) refl

abbrev interrupted : ProcTable
interrupted = update all_ready 3 (record idle { has_int_msg = 1 })
