-- ===== src/Stdio/Itoa.antt =====
-- The text of a number: reading it gives the number back.
use simple_os.Base.{
  ℕ, zero, suc, ◌+◌, ◌-◌, ◌*◌, ◌^◌, ◌<◌, ◌≤◌, ◌≡◌, ◌≢◌, refl, sym, ap, ◌∙◌, arith, true, false,
  ◌&&◌, Bool-cases, inl, inr, some, List, [], ◌∷◌, ◌++◌, ◌==◌, ==_iff, ==_ne, if◌then◌else◌, ltb,
  leb, get_or, length, length-append,
}
use simple_os.Stdio.{
  minus, digit_loop, swap_loop, itoa_rounds, from_digits, itoa_from, s32_itoa, s32_itoa_s,
}
use simple_os.Stdio.Digits.{digit_value, value, power, Unsigned, next, Digits, digit_loop-Digits}
use simple_os.Stdio.Swaps.{Clean, Turned, swap_loop-Turned}

-- The bytes in the other order.
pub turned : List ℕ → List ℕ
turned [] = []
turned (c ∷ ds) = turned ds ++ (c ∷ [])

-- The number that a text stands for, the first digit first, after the number `n`.
pub number_of : ℕ → ℕ → List ℕ → ℕ
number_of radix n [] = n
number_of radix n (c ∷ s) = number_of radix (n * radix + digit_value c) s

number_of-append :
    (radix n c : ℕ) (s : List ℕ)
    → number_of radix n (s ++ (c ∷ [])) ≡ number_of radix n s * radix + digit_value c
unfolding number_of
number_of-append radix n c [] = refl
number_of-append radix n c (b ∷ s) = number_of-append radix (n * radix + digit_value b) c s

number_of-turned : (radix : ℕ) (ds : List ℕ) → number_of radix 0 (turned ds) ≡ value radix ds
unfolding number_of turned
number_of-turned radix [] = refl
number_of-turned radix (c ∷ ds) =
    number_of-append radix 0 c (turned ds)
    ∙ ap (λ x. x * radix + digit_value c) (number_of-turned radix ds)
    ∙ grind arith

length-turned : (ds : List ℕ) → length (turned ds) ≡ length ds
unfolding turned
length-turned [] = refl
length-turned (c ∷ ds) = omega (arith, length-append (turned ds) (c ∷ []), length-turned ds)

get_or-append :
    (xs ys : List ℕ) (j : ℕ)
    → get_or (xs ++ ys) j 0
      ≡ (if ltb j (length xs) then get_or xs j 0 else get_or ys (j - length xs) 0)
get_or-append [] ys j = ground arith
get_or-append (x ∷ xs) ys zero = ground arith
get_or-append (x ∷ xs) ys (suc j) = get_or-append xs ys j ∙ ground arith

get_or-turned :
    (ds : List ℕ) (j : ℕ) → j < length ds → get_or (turned ds) j 0 ≡ get_or ds (length ds - 1 - j) 0
unfolding turned
get_or-turned [] j h = absurd (omega arith)
get_or-turned (c ∷ ds) j h =
    let size = length-turned ds in
    get_or-append (turned ds) (c ∷ []) j
    ∙ rw size (elim (Bool-cases (ltb j (length ds))) [
      | inl y ↦
          let lt : j < length ds = ground (arith, y) in
          let at : length ds - j ≡ suc (length ds - 1 - j) = omega arith in
          let at' : suc (length ds) - 1 - j ≡ length ds - j = omega arith in
          rw y (rw at' (rw at (get_or-turned ds j lt)))
      | inr n ↦
          let here : j - length ds ≡ 0 = omega arith in
          let there : suc (length ds) - 1 - j ≡ 0 = ground (arith, n, h) in
          rw n (rw (here, there) refl)
    ])

same_bytes :
    (xs ys : List ℕ)
    → length xs ≡ length ys
    → ((j : ℕ) → j < length ys → get_or xs j 0 ≡ get_or ys j 0)
    → xs ≡ ys
same_bytes [] [] e h = refl
same_bytes [] (y ∷ ys) e h = absurd (omega arith)
same_bytes (x ∷ xs) [] e h = absurd (omega arith)
same_bytes (x ∷ xs) (y ∷ ys) e h =
    let rest = same_bytes xs ys (omega arith) (λ j lt. h (suc j) (omega arith)) in
    let first : x ≡ y = h 0 (omega arith) in rw (first, rest) refl

-- A buffer that has been turned round from end to end.
Turned-turned : (buf out : List ℕ) → Turned 0 (length buf - 1) buf out → out ≡ turned buf
Turned-turned buf out t = same_bytes out (turned buf) (t.size ∙ sym (length-turned buf)) (λ j h.
    let size = length-turned buf in
    let lt : j < length buf = omega arith in t.bytes j ∙ inside j lt ∙ sym (get_or-turned buf j lt))
  where
    inside :
        (j : ℕ)
        → j < length buf
        → (if leb 0 j && leb j (length buf - 1)
            then get_or buf (0 + (length buf - 1) - j) 0
            else get_or buf j 0)
          ≡ get_or buf (length buf - 1 - j) 0
    inside j lt =
        let low : leb 0 j ≡ true = ground arith in
        let high : leb j (length buf - 1) ≡ true = ground arith in
        let index : 0 + (length buf - 1) - j ≡ length buf - 1 - j = omega arith in
        rw (low, high, index) refl

Unsigned-get : (ds : List ℕ) (j : ℕ) → Unsigned ds → get_or ds j 0 ≢ minus
Unsigned-get [] j u e = absurd (omega arith)
Unsigned-get (c ∷ ds) zero (next h u) e = h e
Unsigned-get (c ∷ ds) (suc j) (next h u) e = Unsigned-get ds j u e

-- The rounds of the loop are enough for 64 bytes.
swap_loop-turned :
    (buf : List ℕ)
    → 0 < length buf
    → length buf ≤ 64
    → Clean 0 (length buf - 1) buf
    → swap_loop itoa_rounds 0 (length buf - 1) buf ≡ some (turned buf)
swap_loop-turned buf pos fits clean =
    let (out, found, t) =
      swap_loop-Turned itoa_rounds 0 (length buf - 1) buf (omega arith) (omega arith) clean in
    found ∙ ap some (Turned-turned buf out t)

two_32 : (n : ℕ) → n < 2 ^ 32 → n < power 2 itoa_rounds
unfolding power
two_32 n h = omega arith

ten_10 : (n : ℕ) → n < 2 ^ 32 → n < power 10 10
unfolding power
ten_10 n h = omega arith

Digits-length : (n radix : ℕ) (ds : List ℕ) → n ≢ 0 → Digits n radix ds → 0 < length ds
Digits-length n radix [] pos d = absurd (pos (sym d.same))
Digits-length n radix (c ∷ ds) pos d = omega arith

-- What `digit_loop` finds for a 32-bit number, turned round.
record Text (n radix : ℕ) (text : List ℕ) : Type 0 where
  result : s32_itoa n radix ≡ some text
  reads : number_of radix 0 text ≡ n
  short : 10 ≤ radix → length text ≤ 10

itoa_zero : (n radix : ℕ) → n ≡ 0 → Text n radix (0x30 ∷ [])
unfolding s32_itoa number_of
itoa_zero n radix e = record {
  result = rw e refl;
  reads = ground (arith, e);
  short = λ _. omega arith;
}

itoa_from-turned :
    (sign ds : List ℕ) (n radix : ℕ)
    → digit_loop itoa_rounds n radix ≡ some ds
    → 0 < length (sign ++ ds)
    → length (sign ++ ds) ≤ 64
    → Clean 0 (length (sign ++ ds) - 1) (sign ++ ds)
    → itoa_from sign n radix ≡ some (turned (sign ++ ds))
unfolding itoa_from
itoa_from-turned sign ds n radix found pos fits clean =
    ap (from_digits sign) found ∙ swap_loop-turned (sign ++ ds) pos fits clean

itoa_pos :
    (n radix : ℕ)
    → n < 2 ^ 32
    → 2 ≤ radix
    → radix ≤ 36
    → n ≢ 0
    → (ds : List ℕ) → digit_loop itoa_rounds n radix ≡ some ds
    → Digits n radix ds
    → Text n radix (turned ds)
unfolding s32_itoa
itoa_pos n radix h lo hi pos ds found digits =
    let fits = digits.few 2 itoa_rounds (omega arith) lo (two_32 n h) in
    let clean : Clean 0 (length ds - 1) ds = record {
      inside = λ j l u. Unsigned-get ds j digits.unsigned;
      at_head = λ _. Unsigned-get ds 0 digits.unsigned;
    } in
    record {
      result = rw (==_ne n 0 pos) (
          itoa_from-turned [] ds n radix found (Digits-length n radix ds pos digits) (omega arith)
            clean);
      reads = number_of-turned radix ds ∙ digits.same;
      short = λ ten.
          let few = digits.few 10 10 (omega arith) ten (ten_10 n h) in rw (length-turned ds) few;
    }

-- `s32_itoa` ends within its rounds, and the text reads as the number: for every 32-bit number and
-- every radix from 2 to 36. With radix 10 or more the text has at most 10 bytes, so that it fits
-- into the 12 bytes that the callers provide for it.
pub number_of-s32_itoa :
    (n radix : ℕ)
    → n < 2 ^ 32
    → 2 ≤ radix
    → radix ≤ 36
    → (text : List ℕ) × (s32_itoa n radix ≡ some text)
      × (number_of radix 0 text ≡ n)
      × (10 ≤ radix → length text ≤ 10)
number_of-s32_itoa n radix h lo hi = elim (Bool-cases (n == 0)) [
  | inl z ↦ let t = itoa_zero n radix ((==_iff n 0).0 z) in (0x30 ∷ [], t.result, t.reads, t.short)
  | inr p ↦
      let (ds, found, digits) = digit_loop-Digits itoa_rounds n radix lo hi (two_32 n h) in
      let t = itoa_pos n radix h lo hi (ground (arith, p)) ds found digits in
      (turned ds, t.result, t.reads, t.short)
]

Digits-length_two : (n : ℕ) (ds : List ℕ) → 10 ≤ n → Digits n 10 ds → 2 ≤ length ds
unfolding power
Digits-length_two n [] h d = absurd (ground (arith, d.same))
Digits-length_two n (c ∷ []) h d = absurd (ground (arith, d.enough))
Digits-length_two n (c ∷ b ∷ ds) h d = omega arith

-- `s32_itoa_s` puts the sign of a negative number of two digits or more behind the digits: for -n it
-- makes the digits of n, which read as n, and then the minus.
pub s32_itoa_s-minus :
    (n : ℕ)
    → 10 ≤ n
    → n < 2 ^ 31
    → (text : List ℕ) × (s32_itoa_s true n 10 ≡ some (text ++ (minus ∷ [])))
      × (number_of 10 0 text ≡ n)
unfolding s32_itoa_s turned
s32_itoa_s-minus n lo h =
    let (ds, found, digits) =
      digit_loop-Digits itoa_rounds n 10 (omega arith) (omega arith) (two_32 n (omega arith)) in
    let small : leb (2 ^ 31) n ≡ false = ground arith in
    let many = Digits-length_two n ds lo digits in
    let fits = digits.few 2 itoa_rounds (omega arith) (omega arith) (two_32 n (omega arith)) in
    let clean : Clean 0 (length (minus ∷ ds) - 1) (minus ∷ ds) = record {
      inside = λ j l u e.
          let at : j ≡ suc (j - 1) = omega arith in
          Unsigned-get ds (j - 1) digits.unsigned (rw at at e);
      at_head = λ one. absurd (omega arith);
    } in
    (
      turned ds,
      rw (==_ne n 0 (ground arith), small)
          (itoa_from-turned (minus ∷ []) ds n 10 found (omega arith) (omega arith) clean),
      number_of-turned 10 ds ∙ digits.same,
    )
