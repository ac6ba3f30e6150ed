-- ===== src/Interrupts/Tests.antt =====
-- A table without gates, and handlers at some addresses.
use simple_os.Base.{ℕ, ◌+◌, ◌*◌, ◌%◌, ◌^◌, ◌<◌, ◌≡◌, ◌↔◌, refl, arith, true, [], ◌∷◌}
use simple_os.InitProc.{privilege_user}
use simple_os.Interrupts.{
  Gate, init_idt_by_c, int_vector_irq0, int_vector_sys_call, nr_irq, exceptions, init_timer,
}
use simple_os.Interrupts.Gates.{entry_point, dpl, is_in, init_idt_by_c-gates}

abbrev no_gate : Gate
no_gate = record { offset_low = 0; selector = 0; dcount = 0; attr = 0; offset_high = 0 }

abbrev handler : ℕ → ℕ
handler v = (0x101000 + 16 * v) % 2 ^ 32

-- The divisor is 155, where 11931 is meant.
timer_bytes : init_timer ≡ (0x43, 0x34) ∷ (0x40, 155) ∷ (0x40, 0) ∷ []
timer_bytes = refl

init_idt_by_c-gates_example :
    let idt = init_idt_by_c handler handler 0x102000 (λ v. no_gate) in
    ((v : ℕ) → is_in v exceptions ≡ true → entry_point (idt v) ≡ handler v)
    × ((i : ℕ) → i < nr_irq → entry_point (idt (int_vector_irq0 + i)) ≡ handler i)
    × (entry_point (idt int_vector_sys_call) ≡ 0x102000)
    × ((v : ℕ) → (dpl (idt v) ≡ privilege_user) ↔ (v ≡ int_vector_sys_call))
init_idt_by_c-gates_example =
    init_idt_by_c-gates handler handler 0x102000 (λ v. no_gate) (λ v. omega arith)
      (λ i. omega arith) (omega arith) (λ v. refl)
