-- ===== src/Stdio/Digits.antt =====
-- The digits of a number in a radix from 2 to 36, and the number that they stand for.
use simple_os.Base.{
  ℕ, zero, suc, ◌+◌, ◌-◌, ◌*◌, ◌/◌, ◌%◌, ◌<◌, ◌≤◌, ◌≡◌, ◌≢◌, refl, sym, ap, arith, Bool, true, ◌&&◌,
  not, Bool-cases, inl, inr, some, List, [], ◌∷◌, ◌==◌, ==_iff, if◌then◌else◌, ltb, get_or, length,
}
use simple_os.Base.Bits.{holds_below, holds_below-true}
use native.Mathlib.Nat.{div-lt_iff_lt-mul, div-add-mod, mod-lt}
use simple_os.Stdio.{digit_table, digit_loop, minus}

-- The digit that a byte stands for.
abbrev pub digit_value : ℕ → ℕ
digit_value c = if ltb c 0x3a then c - 0x30 else c - 0x41 + 10

-- The number whose digits these are, the last one first.
abbrev pub value : ℕ → List ℕ → ℕ
value radix [] = 0
value radix (c ∷ ds) = digit_value c + radix * value radix ds

abbrev is_digit : ℕ → ℕ → Bool
is_digit d c = (digit_value c == d) && not (c == minus)

digit_row : ℕ → Bool
digit_row d = is_digit d (get_or digit_table d 0)

digit_rows : holds_below 36 digit_row ≡ true
unfolding holds_below digit_row digit_table
digit_rows = refl

digit_table-digit :
    (d : ℕ) → d < 36 → (digit_value (get_or digit_table d 0) ≡ d) × (get_or digit_table d 0 ≢ minus)
unfolding digit_row
digit_table-digit d h = ground (arith, holds_below-true 36 digit_row d digit_rows h)

-- No byte is a minus.
pub data Unsigned : List ℕ → Type 0 where
  nothing : Unsigned []
  next : {c : ℕ} → {ds : List ℕ} → c ≢ minus → Unsigned ds → Unsigned (c ∷ ds)

-- A power, in the form that the recursion on its exponent meets.
unfoldable pub power : ℕ → ℕ → ℕ
power base zero = 1
power base (suc m) = base * power base m

fewer_digits :
    (base m n radix : ℕ)
    → 2 ≤ base
    → base ≤ radix
    → n < power base (suc m)
    → n / radix < power base m
unfolding power
fewer_digits base m n radix hb hr h =
    (div-lt_iff_lt-mul {k = radix} {x = n} {y = power base m} (omega arith)).1 (grind arith)

below_one : (base n : ℕ) → n < power base zero → n ≡ 0
unfolding power
below_one base n h = omega arith

-- What the loop finds for `n`: digits that stand for it, no more of them than a power of some
-- smaller base tells, and no minus.
pub record Digits (n radix : ℕ) (ds : List ℕ) : Type 0 where
  pub same : value radix ds ≡ n
  pub few : (base m : ℕ) → 2 ≤ base → base ≤ radix → n < power base m → length ds ≤ m
  pub enough : n < power radix (length ds)
  pub unsigned : Unsigned ds

Digits-nil : (n radix : ℕ) → n ≡ 0 → Digits n radix []
unfolding power
Digits-nil n radix e = record {
  same = sym e;
  few = λ base m hb hr h. omega arith;
  enough = omega arith;
  unsigned = nothing;
}

more_digits : (n radix m : ℕ) → 0 < radix → n / radix < power radix m → n < power radix (suc m)
unfolding power
more_digits n radix m hr h =
    let below = (div-lt_iff_lt-mul {k = radix} {x = n} {y = power radix m} hr).0 h in grind arith

add_digit-Digits :
    (n radix : ℕ) (ds : List ℕ)
    → 2 ≤ radix
    → radix ≤ 36
    → n ≢ 0
    → Digits (n / radix) radix ds
    → Digits n radix (get_or digit_table (n % radix) 0 ∷ ds)
add_digit-Digits n radix ds lo hi pos rest =
    let below : n % radix < radix = mod-lt n {m = radix} (omega arith) in
    let (digit, no_minus) = digit_table-digit (n % radix) (omega arith) in
    record {
      same = omega (arith, digit, ap (λ x. radix * x) rest.same, div-add-mod n radix);
      few = λ base m hb hr h. fewer base m hb hr h;
      enough = more_digits n radix (length ds) (omega arith) rest.enough;
      unsigned = next no_minus rest.unsigned;
    }
  where
    fewer : (base m : ℕ) → 2 ≤ base → base ≤ radix → n < power base m → suc (length ds) ≤ m
    fewer base zero hb hr h = absurd (pos (below_one base n h))
    fewer base (suc m) hb hr h =
        let shorter = rest.few base m hb hr (fewer_digits base m n radix hb hr h) in omega arith

pub digit_loop-Digits :
    (rounds n radix : ℕ)
    → 2 ≤ radix
    → radix ≤ 36
    → n < power 2 rounds
    → (ds : List ℕ) × (digit_loop rounds n radix ≡ some ds) × Digits n radix ds
unfolding digit_loop
digit_loop-Digits zero n radix lo hi h =
    let e = below_one 2 n h in ([], rw e refl, Digits-nil n radix e)
digit_loop-Digits (suc rounds) n radix lo hi h = elim (Bool-cases (n == 0)) [
  | inl end ↦ ([], rw end refl, Digits-nil n radix ((==_iff n 0).0 end))
  | inr more ↦
      let (ds, found, digits) =
        digit_loop-Digits rounds (n / radix) radix lo hi
          (fewer_digits 2 rounds n radix (omega arith) lo h) in
      (
        get_or digit_table (n % radix) 0 ∷ ds,
        rw (more, found) refl,
        add_digit-Digits n radix ds lo hi (ground (arith, more)) digits,
      )
]
