-- ===== src/Elf/Info.antt =====
-- What `get_kernel_info` of k_stdlib.c says of the sections of the kernel's ELF file.
use simple_os.Base.{
  ℕ, zero, suc, ◌+◌, ◌-◌, ◌%◌, ◌^◌, ◌<◌, ◌≤◌, ◌≡◌, ◌⊎◌, inl, inr, refl, sym, ap, ◌∙◌, arith, true,
  false, ◌==◌, ==_iff, ltb, Bool-cases, some, Bool,
}
use simple_os.Loader.{Bytes}
use simple_os.Elf.{ehdr_at, u32_at}
use simple_os.Elf.Sections.{
  s_memcmp, elfmag, kernel_info, is_alloc, section_header, top_of, lower, upper, section_loop,
  get_kernel_info,
}

-- The bounds `b'` and `t'` that the loop finds from `b` and `t`: they take in every allocated section
-- from `i` to before `n`, and each is an old one or that of such a section.
record Bounds (memory : Bytes) (i n b t b' t' : ℕ) : Type 0 where
  pub low : b' ≤ b
  pub high : t ≤ t'
  pub within :
      (j : ℕ)
      → i ≤ j
      → j < n
      → is_alloc (section_header memory j) ≡ true
      → (b' ≤ (section_header memory j).sh_addr) × (top_of (section_header memory j) ≤ t')
  pub b_met :
      (b' ≡ b)
      ⊎ ((j : ℕ) × (j < n)
          × (is_alloc (section_header memory j) ≡ true)
          × (b' ≡ (section_header memory j).sh_addr))
  pub t_met :
      (t' ≡ t)
      ⊎ ((j : ℕ) × (j < n)
          × (is_alloc (section_header memory j) ≡ true)
          × (t' ≡ top_of (section_header memory j)))

lower-cases :
    (alloc : Bool) (bottom b : ℕ)
    → (lower alloc bottom b ≤ b)
      × (alloc ≡ true → lower alloc bottom b ≤ bottom)
      × ((lower alloc bottom b ≡ b) ⊎ ((alloc ≡ true) × (lower alloc bottom b ≡ bottom)))
unfolding lower
lower-cases false bottom b = (omega arith, (λ e. ground (arith, e)), inl refl)
lower-cases true bottom b = elim (Bool-cases (ltb bottom b)) [
  | inl less ↦ rw (less) (ground (arith, less), (λ e. omega arith), inr (refl, refl))
  | inr more ↦ rw (more) (omega arith, (λ e. ground (arith, more)), inl refl)
]

upper-cases :
    (alloc : Bool) (top t : ℕ)
    → (t ≤ upper alloc top t)
      × (alloc ≡ true → top ≤ upper alloc top t)
      × ((upper alloc top t ≡ t) ⊎ ((alloc ≡ true) × (upper alloc top t ≡ top)))
unfolding upper
upper-cases false top t = (omega arith, (λ e. ground (arith, e)), inl refl)
upper-cases true top t = elim (Bool-cases (ltb t top)) [
  | inl less ↦ rw (less) (ground (arith, less), (λ e. omega arith), inr (refl, refl))
  | inr more ↦ rw (more) (omega arith, (λ e. ground (arith, more)), inl refl)
]

Bounds-cons :
    (memory : Bytes) (i n b t b' t' : ℕ)
    → i < n
    → Bounds memory
        (i + 1)
        n
        (lower (is_alloc (section_header memory i)) (section_header memory i).sh_addr b)
        (upper (is_alloc (section_header memory i)) (top_of (section_header memory i)) t)
        b'
        t'
    → Bounds memory i n b t b' t'
Bounds-cons memory i n b t b' t' e others =
    let header = section_header memory i in
    let (less, in_b, b_case) = lower-cases (is_alloc header) header.sh_addr b in
    let (more, in_t, t_case) = upper-cases (is_alloc header) (top_of header) t in
    record {
      low = omega (arith, others.low, less);
      high = omega (arith, others.high, more);
      within = λ j from below alloc. elim (Bool-cases (j == i)) [
        | inl here ↦
            let at = (==_iff j i).0 here in
            let alloc_i : is_alloc header ≡ true =
              ap (λ (k : ℕ). is_alloc (section_header memory k)) (sym at) ∙ alloc in
            rw (at)
              (omega (arith, others.low, in_b alloc_i), omega (arith, others.high, in_t alloc_i))
        | inr later ↦ others.within j (ground (arith, later)) below alloc
      ];
      b_met = elim others.b_met [
        | inr met ↦ inr met
        | inl same ↦ elim b_case [
          | inl old ↦ inl (same ∙ old)
          | inr (alloc, new) ↦ inr (i, omega (arith, e), alloc, same ∙ new)
        ]
      ];
      t_met = elim others.t_met [
        | inr met ↦ inr met
        | inl same ↦ elim t_case [
          | inl old ↦ inl (same ∙ old)
          | inr (alloc, new) ↦ inr (i, omega (arith, e), alloc, same ∙ new)
        ]
      ];
    }

section_loop-Bounds :
    (memory : Bytes) (left i n b t : ℕ)
    → n ≡ i + left
    → Bounds memory i n b t (section_loop memory left i b t).0 (section_loop memory left i b t).1
unfolding section_loop u32_at lower upper
section_loop-Bounds memory zero i n b t e = record {
  low = omega arith;
  high = omega arith;
  within = λ j from below alloc. absurd (omega (arith, e));
  b_met = inl refl;
  t_met = inl refl;
}
section_loop-Bounds memory (suc left) i n b t e =
    let header = section_header memory i in
    let b1 = lower (is_alloc header) header.sh_addr b in
    let t1 = upper (is_alloc header) (top_of header) t in
    Bounds-cons memory i n b t (section_loop memory left (i + 1) b1 t1).0
      (section_loop memory left (i + 1) b1 t1).1 (omega (arith, e))
      (section_loop-Bounds memory left (i + 1) n b1 t1 (omega (arith, e)))

last_byte :
    (addr size b t : ℕ)
    → b ≤ addr
    → (addr + size) % 2 ^ 32 ≤ t
    → t < 2 ^ 32
    → 0 < size
    → addr + size < 2 ^ 32
    → addr + size ≤ b + (t + 2 ^ 33 - b - 1) % 2 ^ 32 + 1
last_byte addr size b t h1 h2 h3 h4 h5 = omega arith

whole_run :
    (b t addr size : ℕ)
    → b ≤ addr
    → (addr + size) % 2 ^ 32 ≤ t
    → t < 2 ^ 32
    → 0 < size
    → addr + size < 2 ^ 32
    → b + (t + 2 ^ 33 - b - 1) % 2 ^ 32 + 1 ≡ t
whole_run b t addr size h1 h2 h3 h4 h5 = omega arith

-- If the file starts with the magic number, its section headers give the bounds `b` and `l`: every
-- allocated section with at least one byte, below 4 GB, is in the `l + 1` bytes from `b` on. If there
-- is one, then `b` is the address of an allocated section of the `e_shnum` ones, and `b + l + 1` is
-- where one of these ends (its end as a 32-bit word).
pub get_kernel_info-covers :
    (memory : Bytes)
    → s_memcmp (λ i. memory (kernel_info + i)) elfmag 4 ≡ 0
    → (j : ℕ) → j < (ehdr_at memory kernel_info).e_shnum
    → is_alloc (section_header memory j) ≡ true
    → 0 < (section_header memory j).sh_size
    → (section_header memory j).sh_addr + (section_header memory j).sh_size < 2 ^ 32
    → (b : ℕ) × (l : ℕ) × (get_kernel_info memory ≡ some (b, l))
      × (b ≤ (section_header memory j).sh_addr)
      × ((section_header memory j).sh_addr + (section_header memory j).sh_size ≤ b + l + 1)
      × ((k : ℕ) × (k < (ehdr_at memory kernel_info).e_shnum)
          × (is_alloc (section_header memory k) ≡ true)
          × (b ≡ (section_header memory k).sh_addr))
      × ((k : ℕ) × (k < (ehdr_at memory kernel_info).e_shnum)
          × (is_alloc (section_header memory k) ≡ true)
          × (b + l + 1 ≡ top_of (section_header memory k)))
unfolding get_kernel_info
get_kernel_info-covers memory magic j h alloc some_byte fits =
    let n = (ehdr_at memory kernel_info).e_shnum in
    let (b, t) = section_loop memory n 0 (2 ^ 32 - 1) 0 in
    let bounds = section_loop-Bounds memory n 0 n (2 ^ 32 - 1) 0 (omega arith) in
    let (low, high) = bounds.within j (omega arith) h alloc in
    let header = section_header memory j in
    let t_fits : t < 2 ^ 32 = elim bounds.t_met [
      | inl same ↦ omega (arith, same)
      | inr (k, hk, used, at) ↦ omega (arith, at)
    ] in
    (
      b,
      (t + 2 ^ 33 - b - 1) % 2 ^ 32,
      rw (magic) refl,
      low,
      last_byte header.sh_addr header.sh_size b t low high t_fits some_byte fits,
      elim bounds.b_met [
        | inl same ↦ absurd (omega (arith, same, low))
        | inr (k, hk, used, at) ↦ (k, hk, used, at)
      ],
      elim bounds.t_met [
        | inl same ↦ absurd (omega (arith, same, high, low, some_byte, fits))
        | inr (k, hk, used, at) ↦ (
          k,
          hk,
          used,
          whole_run b t (section_header memory j).sh_addr (section_header memory j).sh_size low high
                t_fits some_byte fits
              ∙ at,
        )
      ],
    )
