-- ===== src/Stdio/Swaps.antt =====
-- The loop that turns a text round by exchanging its ends.
use simple_os.Base.{
  ℕ, zero, suc, ◌+◌, ◌-◌, ◌*◌, ◌<◌, ◌≤◌, ◌≡◌, ◌≢◌, refl, sym, ap, ◌∙◌, arith, false, ◌&&◌,
  Bool-cases, inl, inr, some, List, ◌==◌, ==_iff, ==_ne, if◌then◌else◌, ltb, leb, get_or, set,
  length, length-set, get_or-set_self, get_or-set_ne,
}
use simple_os.Stdio.{minus, swap_bytes, swap_loop}

get_or-set :
    (xs : List ℕ) (i j v : ℕ)
    → i < length xs
    → get_or (set xs i v) j 0 ≡ (if i == j then v else get_or xs j 0)
get_or-set xs i j v h = elim (Bool-cases (i == j)) [
  | inl y ↦ let e : i ≡ j = (==_iff i j).0 y in rw y (rw (sym e) (get_or-set_self xs i v 0 h))
  | inr n ↦ rw n (get_or-set_ne xs i j v 0 (ground (arith, n)))
]

-- Between `head` and `p` no minus stands where the loop looks for one.
pub record Clean (head p : ℕ) (buf : List ℕ) : Type 0 where
  pub inside : (j : ℕ) → head < j → j < p → get_or buf j 0 ≢ minus
  pub at_head : p ≡ head + 1 → get_or buf head 0 ≢ minus

exchanged : ℕ → ℕ → List ℕ → List ℕ
exchanged head p buf = set (set buf head (get_or buf p 0)) p (get_or buf head 0)

swap_bytes-exchanged :
    (head p : ℕ) (buf : List ℕ)
    → head < p
    → Clean head p buf
    → swap_bytes head p buf ≡ exchanged head p buf
unfolding exchanged
swap_bytes-exchanged head p buf h clean =
    let no_minus : get_or buf (p - 1) 0 ≢ minus = λ e. elim (Bool-cases (p == head + 1)) [
      | inl y ↦
          let q : p ≡ head + 1 = (==_iff p (head + 1)).0 y in
          let here : p - 1 ≡ head = omega arith in clean.at_head q (rw here at e)
      | inr n ↦ clean.inside (p - 1) (ground (arith, n)) (omega arith) e
    ] in
    rw (==_ne (get_or buf (p - 1) 0) minus no_minus) refl

get_or-exchanged :
    (head p j : ℕ) (buf : List ℕ)
    → head < p
    → p < length buf
    → get_or (exchanged head p buf) j 0
      ≡ (if p == j then get_or buf head 0 else if head == j then get_or buf p 0 else get_or buf j 0)
unfolding exchanged
get_or-exchanged head p j buf h hp =
    get_or-set (set buf head (get_or buf p 0)) p j (get_or buf head 0)
      (rw (length-set buf head (get_or buf p 0)) hp)
    ∙ ap (λ x. if p == j then get_or buf head 0 else x)
        (get_or-set buf head j (get_or buf p 0) (omega arith))

length-exchanged : (head p : ℕ) (buf : List ℕ) → length (exchanged head p buf) ≡ length buf
unfolding exchanged
length-exchanged head p buf =
    length-set (set buf head (get_or buf p 0)) p (get_or buf head 0)
    ∙ length-set buf head (get_or buf p 0)

exchanged-Clean :
    (head p : ℕ) (buf : List ℕ)
    → head < p
    → p < length buf
    → Clean head p buf
    → Clean (head + 1) (p - 1) (exchanged head p buf)
exchanged-Clean head p buf h hp clean = record {
  inside = λ j lo hi e.
      clean.inside j (omega arith) (omega arith)
        (ground (arith, get_or-exchanged head p j buf h hp, e));
  at_head = λ q e.
      clean.inside (head + 1) (omega arith) (omega arith)
        (ground (arith, get_or-exchanged head p (head + 1) buf h hp, e));
}

-- The bytes from `head` to `p` are turned round, and the others stay.
pub record Turned (head p : ℕ) (buf out : List ℕ) : Type 0 where
  pub size : length out ≡ length buf
  pub bytes :
      (j : ℕ)
      → get_or out j 0
        ≡ (if leb head j && leb j p then get_or buf (head + p - j) 0 else get_or buf j 0)

-- An exchange of the ends, and then everything between them turned round.
turned_index :
    (g : ℕ → ℕ) (head p j : ℕ)
    → head < p
    → (if leb (head + 1) j && leb j (p - 1)
        then g (head + 1 + (p - 1) - j)
        else (if p == j then g head else if head == j then g p else g j))
      ≡ (if leb head j && leb j p then g (head + p - j) else g j)
turned_index g head p j h =
    let same : head + 1 + (p - 1) - j ≡ head + p - j = omega arith in
    rw same (elim (Bool-cases (p == j)) [
      | inl y ↦
          let e : p ≡ j = (==_iff p j).0 y in
          let there : head + p - j ≡ head = omega arith in rw there (ground (arith, y))
      | inr n ↦ elim (Bool-cases (head == j)) [
        | inl y ↦
            let e : head ≡ j = (==_iff head j).0 y in
            let there : head + p - j ≡ p = omega arith in rw there (ground (arith, y, n))
        | inr m ↦ ground (arith, n, m)
      ]
    ])

inner_index :
    (head p j : ℕ) (buf : List ℕ)
    → head < p
    → p < length buf
    → (if leb (head + 1) j && leb j (p - 1)
        then get_or (exchanged head p buf) (head + 1 + (p - 1) - j) 0
        else get_or (exchanged head p buf) j 0)
      ≡ (if leb (head + 1) j && leb j (p - 1)
          then get_or buf (head + 1 + (p - 1) - j) 0
          else (if p == j
              then get_or buf head 0
              else if head == j
              then get_or buf p 0
              else get_or buf j 0))
inner_index head p j buf h hp = ground (
  arith,
  get_or-exchanged head p (head + 1 + (p - 1) - j) buf h hp,
  get_or-exchanged head p j buf h hp,
)

exchanged-Turned :
    (head p : ℕ) (buf out : List ℕ)
    → head < p
    → p < length buf
    → Turned (head + 1) (p - 1) (exchanged head p buf) out
    → Turned head p buf out
exchanged-Turned head p buf out h hp t = record {
  size = t.size ∙ length-exchanged head p buf;
  bytes = λ j.
      t.bytes j ∙ inner_index head p j buf h hp ∙ turned_index (λ x. get_or buf x 0) head p j h;
}

unturned :
    (head p j : ℕ) (buf : List ℕ)
    → p ≤ head
    → get_or buf j 0
      ≡ (if leb head j && leb j p then get_or buf (head + p - j) 0 else get_or buf j 0)
unturned head p j buf h = elim (Bool-cases (leb head j && leb j p)) [
  | inl y ↦ let there : head + p - j ≡ j = ground (arith, y) in rw y (rw there refl)
  | inr n ↦ rw n refl
]

-- The loop turns the bytes round, if the rounds are enough.
pub swap_loop-Turned :
    (rounds head p : ℕ) (buf : List ℕ)
    → p < length buf
    → p ≤ head + 2 * rounds
    → Clean head p buf
    → (out : List ℕ) × (swap_loop rounds head p buf ≡ some out) × Turned head p buf out
unfolding swap_loop
swap_loop-Turned zero head p buf hp enough clean =
    let stop : ltb head p ≡ false = ground arith in
    (buf, rw stop refl, record { size = refl; bytes = λ j. unturned head p j buf (omega arith) })
swap_loop-Turned (suc rounds) head p buf hp enough clean = elim (Bool-cases (ltb head p)) [
  | inr stop ↦ (
    buf,
    rw stop refl,
    record { size = refl; bytes = λ j. unturned head p j buf (ground (arith, stop)) },
  )
  | inl on ↦
      let h : head < p = ground (arith, on) in
      let e = swap_bytes-exchanged head p buf h clean in
      let (out, found, turned) =
        swap_loop-Turned rounds (head + 1) (p - 1) (exchanged head p buf)
          (rw (length-exchanged head p buf) (omega arith)) (omega arith)
          (exchanged-Clean head p buf h hp clean) in
      (
        out,
        rw on (ap (swap_loop rounds (head + 1) (p - 1)) e ∙ found),
        exchanged-Turned head p buf out h hp turned,
      )
]
