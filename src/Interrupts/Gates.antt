-- ===== src/Interrupts/Gates.antt =====
-- The gates of the interrupt descriptor table: where they lead, and who may use them.
use simple_os.Base.{
  ℕ, zero, suc, ◌+◌, ◌-◌, ◌*◌, ◌/◌, ◌%◌, ◌^◌, ◌<◌, ◌≡◌, ◌↔◌, inl, inr, refl, sym, ap, ◌∙◌, arith,
  Bool, true, false, ◌&&◌, ◌||◌, Bool-cases, List, [], ◌∷◌, ◌==◌, ==_iff, if◌then◌else◌, leb, ltb,
}
use simple_os.Kernel.{update}
use simple_os.InitProc.{privilege_user}
use simple_os.Interrupts.{
  Gate, gate, da_386_igate, privilege_krnl, int_vector_irq0, int_vector_sys_call, nr_irq,
  exceptions, init_exceptions, init_hwints, init_idt_by_c,
}

-- The address that a gate leads to, and the privilege that its user needs.
abbrev pub entry_point : Gate → ℕ
entry_point g = g.offset_low + g.offset_high * 2 ^ 16

abbrev pub dpl : Gate → ℕ
dpl g = g.attr / 2 ^ 5 % 4

abbrev pub is_in : ℕ → List ℕ → Bool
is_in v [] = false
is_in v (x ∷ xs) = (x == v) || is_in v xs

init_exceptions-gate :
    (handler : ℕ → ℕ) (vs : List ℕ) (idt : ℕ → Gate) (v : ℕ)
    → init_exceptions handler vs idt v
      ≡ (if is_in v vs then gate da_386_igate (handler v) privilege_krnl else idt v)
unfolding init_exceptions
init_exceptions-gate handler [] idt v = refl
init_exceptions-gate handler (x ∷ vs) idt v =
    init_exceptions-gate handler vs (update idt x (gate da_386_igate (handler x) privilege_krnl)) v
    ∙ elim (Bool-cases (x == v)) [
      | inl y ↦ let e : x ≡ v = (==_iff x v).0 y in rw (y, sym e) (ground arith)
      | inr n ↦ rw n refl
    ]

init_hwints-gate :
    (hwint : ℕ → ℕ) (n i : ℕ) (idt : ℕ → Gate) (v : ℕ)
    → init_hwints hwint n i idt v ≡ (
        if leb (int_vector_irq0 + i) v && ltb v (int_vector_irq0 + i + n)
        then gate da_386_igate (hwint (v - int_vector_irq0)) privilege_krnl
        else idt v)
unfolding init_hwints
init_hwints-gate hwint zero i idt v = ground arith
init_hwints-gate hwint (suc n) i idt v =
    let here = gate da_386_igate (hwint i) privilege_krnl in
    init_hwints-gate hwint n (i + 1) (update idt (int_vector_irq0 + i) here) v
    ∙ elim (Bool-cases (int_vector_irq0 + i == v)) [
      | inl y ↦
          let e : int_vector_irq0 + i ≡ v = (==_iff (int_vector_irq0 + i) v).0 y in
          let at : v - int_vector_irq0 ≡ i = omega arith in rw at (ground (arith, y))
      | inr m ↦ ground (arith, m)
    ]

-- The gate for each vector.
installed : (ℕ → ℕ) → (ℕ → ℕ) → ℕ → (ℕ → Gate) → ℕ → Gate
installed handler hwint sys_call idt v =
    if int_vector_sys_call == v
    then gate da_386_igate sys_call privilege_user
    else if leb int_vector_irq0 v && ltb v (int_vector_irq0 + nr_irq)
    then gate da_386_igate (hwint (v - int_vector_irq0)) privilege_krnl
    else if is_in v exceptions
    then gate da_386_igate (handler v) privilege_krnl
    else idt v

init_idt_by_c-installed :
    (handler hwint : ℕ → ℕ) (sys_call : ℕ) (idt : ℕ → Gate) (v : ℕ)
    → init_idt_by_c handler hwint sys_call idt v ≡ installed handler hwint sys_call idt v
unfolding init_idt_by_c installed
init_idt_by_c-installed handler hwint sys_call idt v =
    ap (λ g. if int_vector_sys_call == v then gate da_386_igate sys_call privilege_user else g)
      (init_hwints-gate hwint nr_irq 0 (init_exceptions handler exceptions idt) v
        ∙ ap
            (λ g.
              if leb int_vector_irq0 v && ltb v (int_vector_irq0 + nr_irq)
              then gate da_386_igate (hwint (v - int_vector_irq0)) privilege_krnl
              else g)
            (init_exceptions-gate handler exceptions idt v))

entry_point-gate :
    (desc_type base privilege : ℕ)
    → base < 2 ^ 32
    → entry_point (gate desc_type base privilege) ≡ base
entry_point-gate desc_type base privilege h = omega arith

all_below : ℕ → List ℕ → Bool
all_below b [] = true
all_below b (x ∷ xs) = ltb x b && all_below b xs

is_in-all_below : (v b : ℕ) (xs : List ℕ) → all_below b xs ≡ true → is_in v xs ≡ true → v < b
unfolding all_below
is_in-all_below v b [] below h = ground (arith, h)
is_in-all_below v b (x ∷ xs) below h = elim (Bool-cases (x == v)) [
  | inl y ↦ ground (arith, y, below)
  | inr n ↦ is_in-all_below v b xs (ground (arith, below)) (ground (arith, n, h))
]

exceptions_low : (v : ℕ) → is_in v exceptions ≡ true → v < int_vector_irq0
unfolding all_below
exceptions_low v h = is_in-all_below v int_vector_irq0 exceptions refl h

module _ (handler hwint : ℕ → ℕ) (sys_call : ℕ) (idt : ℕ → Gate) where
  installed-exception :
      (v : ℕ)
      → is_in v exceptions ≡ true
      → installed handler hwint sys_call idt v ≡ gate da_386_igate (handler v) privilege_krnl
  unfolding installed
  installed-exception v h =
      let low = exceptions_low v h in
      let not_call : (int_vector_sys_call == v) ≡ false = ground (arith, low) in
      let not_device : leb int_vector_irq0 v ≡ false = ground (arith, low) in
      rw (not_call, not_device, h) refl

  installed-hwint :
      (i : ℕ)
      → i < nr_irq
      → installed handler hwint sys_call idt (int_vector_irq0 + i)
        ≡ gate da_386_igate (hwint i) privilege_krnl
  unfolding installed
  installed-hwint i h =
      let not_call : (int_vector_sys_call == int_vector_irq0 + i) ≡ false = ground (arith, h) in
      let low : leb int_vector_irq0 (int_vector_irq0 + i) ≡ true = ground arith in
      let high : ltb (int_vector_irq0 + i) (int_vector_irq0 + nr_irq) ≡ true = ground (arith, h) in
      let at : int_vector_irq0 + i - int_vector_irq0 ≡ i = omega arith in
      rw (not_call, low, high, at) refl

  installed-closed :
      (v : ℕ)
      → (int_vector_sys_call == v) ≡ false
      → dpl (idt v) ≡ 0
      → dpl (installed handler hwint sys_call idt v) ≡ 0
  unfolding installed
  installed-closed v n closed =
      rw n (elim (Bool-cases (leb int_vector_irq0 v && ltb v (int_vector_irq0 + nr_irq))) [
        | inl y ↦ rw y refl
        | inr m ↦ rw m (exception (is_in v exceptions))
      ])
    where
      exception :
          (b : Bool) → dpl (if b then gate da_386_igate (handler v) privilege_krnl else idt v) ≡ 0
      exception true = refl
      exception false = closed

  abbrev after : ℕ → Gate
  after = init_idt_by_c handler hwint sys_call idt

  open_gate :
      (v : ℕ)
      → dpl (idt v) ≡ 0
      → (dpl (installed handler hwint sys_call idt v) ≡ privilege_user) ↔ (v ≡ int_vector_sys_call)
  unfolding installed
  open_gate v closed = elim (Bool-cases (int_vector_sys_call == v)) [
    | inl y ↦
        let e : int_vector_sys_call ≡ v = (==_iff int_vector_sys_call v).0 y in
        rw (sym e) ((λ _. refl), (λ _. refl))
    | inr n ↦
        let shut : dpl (installed handler hwint sys_call idt v) ≡ 0 = installed-closed v n closed in
        ((λ user. absurd (omega (arith, shut, user))), (λ e. absurd (ground (arith, n, e))))
  ]

  -- `init_idt_by_c` makes the gate of each exception, of each device and of the system call lead to
  -- its handler, if the addresses have 32 bits; and if no gate was open to user programs before, just
  -- that of the system call is open to them then.
  pub init_idt_by_c-gates :
      ((v : ℕ) → handler v < 2 ^ 32)
      → ((i : ℕ) → hwint i < 2 ^ 32)
      → sys_call < 2 ^ 32
      → ((v : ℕ) → dpl (idt v) ≡ 0)
      → ((v : ℕ) → is_in v exceptions ≡ true → entry_point (after v) ≡ handler v)
        × ((i : ℕ) → i < nr_irq → entry_point (after (int_vector_irq0 + i)) ≡ hwint i)
        × (entry_point (after int_vector_sys_call) ≡ sys_call)
        × ((v : ℕ) → (dpl (after v) ≡ privilege_user) ↔ (v ≡ int_vector_sys_call))
  unfolding installed
  init_idt_by_c-gates hv hi hs closed = (
    (λ v exception.
        ap entry_point (init_idt_by_c-installed handler hwint sys_call idt v)
        ∙ ap entry_point (installed-exception v exception)
        ∙ entry_point-gate da_386_igate (handler v) privilege_krnl (hv v)),
    (λ i lt.
        ap entry_point (init_idt_by_c-installed handler hwint sys_call idt (int_vector_irq0 + i))
        ∙ ap entry_point (installed-hwint i lt)
        ∙ entry_point-gate da_386_igate (hwint i) privilege_krnl (hi i)),
    ap entry_point (init_idt_by_c-installed handler hwint sys_call idt int_vector_sys_call)
        ∙ entry_point-gate da_386_igate sys_call privilege_user hs,
    (λ v. rw (init_idt_by_c-installed handler hwint sys_call idt v) (open_gate v (closed v))),
  )
