-- ===== src/Interrupts.antt =====
-- The interrupt descriptor table of start.c and the devices that it sets up: the interrupt
-- controller and the timer. The addresses of the entry points are arguments.
pub mod Gates
mod Tests
use simple_os.Base.{ℕ, zero, suc, ◌+◌, ◌-◌, ◌*◌, ◌/◌, ◌%◌, ◌^◌, List, [], ◌∷◌, bit_or}
use simple_os.Kernel.{update}
use simple_os.InitProc.{privilege_user}

abbrev pub selector_kernel_cs : ℕ
selector_kernel_cs = 8

abbrev pub da_386_igate : ℕ
da_386_igate = 0x8E

abbrev pub privilege_krnl : ℕ
privilege_krnl = 0

abbrev pub int_vector_irq0 : ℕ
int_vector_irq0 = 0x20

abbrev pub int_vector_irq8 : ℕ
int_vector_irq8 = 0x28

abbrev pub int_vector_sys_call : ℕ
int_vector_sys_call = 0x90

abbrev pub nr_irq : ℕ
nr_irq = 16

pub record Gate : Type 0 where
  pub offset_low : ℕ
  pub selector : ℕ
  pub dcount : ℕ
  pub attr : ℕ
  pub offset_high : ℕ

-- The gate that `init_idt_desc_by_c` writes.
abbrev pub gate : ℕ → ℕ → ℕ → Gate
gate desc_type base privilege = record {
  offset_low = base % 2 ^ 16;
  selector = selector_kernel_cs;
  dcount = 0;
  attr = bit_or desc_type (privilege * 2 ^ 5) % 2 ^ 8;
  offset_high = base / 2 ^ 16 % 2 ^ 16;
}

unfoldable pub init_idt_desc_by_c : ℕ → ℕ → ℕ → ℕ → (ℕ → Gate) → ℕ → Gate
init_idt_desc_by_c vector_no desc_type handler privilege idt =
    update idt vector_no (gate desc_type handler privilege)

-- The vectors of the exceptions, in the order in which they are written.
abbrev pub exceptions : List ℕ
exceptions = 0 ∷ 1 ∷ 2 ∷ 3 ∷ 4 ∷ 5 ∷ 6 ∷ 7 ∷ 8 ∷ 9 ∷ 0xa ∷ 0xb ∷ 0xc ∷ 0xd ∷ 0xe ∷ 0x10 ∷ []

-- Gates for the exceptions. `handler v` is the address of the function, of `divide_error` to
-- `copr_error`, that the source writes beside the vector `v`.
unfoldable pub init_exceptions : (ℕ → ℕ) → List ℕ → (ℕ → Gate) → ℕ → Gate
unfolding init_idt_desc_by_c
init_exceptions handler [] idt = idt
init_exceptions handler (v ∷ vs) idt =
    init_exceptions handler vs (init_idt_desc_by_c v da_386_igate (handler v) privilege_krnl idt)

-- Gates for the requests of devices from number `i` on, whose handlers are `hwint00` to `hwint15`.
unfoldable pub init_hwints : (ℕ → ℕ) → ℕ → ℕ → (ℕ → Gate) → ℕ → Gate
unfolding init_idt_desc_by_c
init_hwints hwint zero i idt = idt
init_hwints hwint (suc n) i idt =
    init_hwints hwint n (i + 1)
      (init_idt_desc_by_c (int_vector_irq0 + i) da_386_igate (hwint i) privilege_krnl idt)

unfoldable pub init_idt_by_c : (ℕ → ℕ) → (ℕ → ℕ) → ℕ → (ℕ → Gate) → ℕ → Gate
unfolding init_exceptions init_hwints init_idt_desc_by_c
init_idt_by_c handler hwint sys_call idt =
    init_idt_desc_by_c int_vector_sys_call da_386_igate sys_call privilege_user
      (init_hwints hwint nr_irq 0 (init_exceptions handler exceptions idt))

-- `init_8259a`: the bytes that go to the ports, in order.
abbrev pub init_8259a : List (ℕ × ℕ)
init_8259a =
    (0x20, 0x11)
    ∷ (0xa0, 0x11)
    ∷ (0x21, int_vector_irq0)
    ∷ (0xa1, int_vector_irq8)
    ∷ (0x21, 0x4)
    ∷ (0xa1, 0x2)
    ∷ (0x21, 0x1)
    ∷ (0xa1, 0x1)
    ∷ (0x21, 0xff)
    ∷ (0xa1, 0xff)
    ∷ []

abbrev pub timer_freq : ℕ
timer_freq = 1193182

abbrev pub hz : ℕ
hz = 100

-- `init_timer`: the cast to `u8` binds tighter than the shift.
abbrev pub init_timer : List (ℕ × ℕ)
init_timer =
    (0x43, 0x34) ∷ (0x40, timer_freq / hz % 2 ^ 8) ∷ (0x40, timer_freq / hz % 2 ^ 8 / 2 ^ 8) ∷ []
