-- ===== src/Base/Bits.antt =====
-- Single bits of words: `x >> i`, and what `|`, `&` and `^` do to each bit. The native operations
-- compute only at numerals, so their laws are derived here from the recursion on digits.
use Prim.Native.Nat.{
  ℕ, zero, suc, ◌+◌, ◌-◌, ◌*◌, ◌/◌, ◌%◌, ◌^◌, ◌≤◌, ◌<◌, min, max, bit_and, bit_or, bit_xor, digits,
  bitwise, differ, bit_and-bitwise, bit_or-bitwise, bit_xor-bitwise,
}
use mathlib.Core.Path.{◌≡◌, refl, sym, ap, ◌∙◌}
use mathlib.Core.Bool.{Bool, true, false}
use native.Mathlib.Nat.{two-pow-succ}
use native.Mathlib.Omega.{arith}
use simple_os.Base.Tests.{◌==◌, if◌then◌else◌, ==_iff}

-- `x >> i`
abbrev pub shr : ℕ → ℕ → ℕ
shr x zero = x
shr x (suc i) = shr (x / 2) i

-- `(x >> i) & 1`, as a number
abbrev pub bit : ℕ → ℕ → ℕ
bit x i = shr x i % 2

-- The native operations take their digits on fuel; any that reaches the first word will do.
module _ (ends : ℕ → ℕ) (pick : ℕ → ℕ → ℕ) where
  digits-enough :
      (x y fuel more : ℕ)
      → x ≤ more
      → x ≤ fuel
      → digits ends pick fuel x y ≡ digits ends pick more x y
  digits-enough zero y zero zero hm hf = refl
  digits-enough zero y zero (suc more) hm hf = refl
  digits-enough zero y (suc fuel) zero hm hf = refl
  digits-enough zero y (suc fuel) (suc more) hm hf = refl
  digits-enough (suc x) y zero more hm hf = absurd (omega arith)
  digits-enough (suc x) y (suc fuel) zero hm hf = absurd (omega arith)
  digits-enough (suc x) y (suc fuel) (suc more) hm hf =
      let below : suc x / 2 ≤ more = omega arith in
      rw (digits-enough (suc x / 2) (y / 2) fuel more below (omega arith))

  bitwise-suc :
      (x y : ℕ)
      → bitwise ends pick (suc x) y
        ≡ pick (suc x % 2) (y % 2) + 2 * bitwise ends pick (suc x / 2) (y / 2)
  bitwise-suc x y =
      let half : suc x / 2 ≤ x = omega arith in
      let same = digits-enough (suc x / 2) (y / 2) x (suc x / 2) (omega arith) half in
      omega (arith, same)

and_step : (a b : ℕ) → bit_and a b ≡ min (a % 2) (b % 2) + 2 * bit_and (a / 2) (b / 2)
and_step zero b = simp bit_and-bitwise (omega arith)
and_step (suc a) b = simp bit_and-bitwise (bitwise-suc (λ rest. 0) min a b)

or_step : (a b : ℕ) → bit_or a b ≡ max (a % 2) (b % 2) + 2 * bit_or (a / 2) (b / 2)
or_step zero b = simp bit_or-bitwise (omega arith)
or_step (suc a) b = simp bit_or-bitwise (bitwise-suc (λ rest. rest) max a b)

-- `|` on words sets a bit that either has.
pub bit-or : (i a b : ℕ) → bit (bit_or a b) i ≡ max (bit a i) (bit b i)
bit-or zero a b = omega (arith, or_step a b)
bit-or (suc i) a b =
    ap (λ (t : ℕ). bit t i) {x = bit_or a b / 2} {y = bit_or (a / 2) (b / 2)}
      (omega (arith, or_step a b))
    ∙ bit-or i (a / 2) (b / 2)

-- `&` on words keeps a bit that both have.
pub bit-and : (i a b : ℕ) → bit (bit_and a b) i ≡ min (bit a i) (bit b i)
bit-and zero a b = omega (arith, and_step a b)
bit-and (suc i) a b =
    ap (λ (t : ℕ). bit t i) {x = bit_and a b / 2} {y = bit_and (a / 2) (b / 2)}
      (omega (arith, and_step a b))
    ∙ bit-and i (a / 2) (b / 2)

xor_step : (a b : ℕ) → bit_xor a b ≡ differ (a % 2) (b % 2) + 2 * bit_xor (a / 2) (b / 2)
xor_step zero b = simp bit_xor-bitwise (omega arith)
xor_step (suc a) b = simp bit_xor-bitwise (bitwise-suc (λ rest. rest) differ a b)

differ_bit : (a b : ℕ) → a < 2 → b < 2 → differ a b ≡ (if a == b then 0 else 1)
differ_bit zero zero ha hb = refl
differ_bit zero (suc b) ha hb = ground arith
differ_bit (suc a) zero ha hb = ground arith
differ_bit (suc a) (suc b) ha hb = ground arith

-- The lowest bit of `a ^ b`, and the bits above it.
xor_low : (a b : ℕ) → bit_xor a b % 2 ≡ (if a % 2 == b % 2 then 0 else 1)
xor_low a b = ground (arith, xor_step a b, differ_bit (a % 2) (b % 2) (omega arith) (omega arith))

xor_high : (a b : ℕ) → bit_xor a b / 2 ≡ bit_xor (a / 2) (b / 2)
xor_high a b = ground (arith, xor_step a b, differ_bit (a % 2) (b % 2) (omega arith) (omega arith))

halves : (a b : ℕ) → a % 2 ≡ b % 2 → a / 2 ≡ b / 2 → a ≡ b
halves a b low high = omega arith

half-lt : (k a : ℕ) → a < 2 ^ suc k → a / 2 < 2 ^ k
half-lt k a h = omega (arith, two-pow-succ k)

pub bit_xor-lt : (k a b : ℕ) → a < 2 ^ k → b < 2 ^ k → bit_xor a b < 2 ^ k
bit_xor-lt zero a b ha hb =
    let ea : a ≡ 0 = omega arith in let eb : b ≡ 0 = omega arith in rw (ea, eb) (omega arith)
bit_xor-lt (suc k) a b ha hb =
    let high = bit_xor-lt k (a / 2) (b / 2) (half-lt k a ha) (half-lt k b hb) in
    omega (arith, two-pow-succ k, xor_high a b, high)

pub xor_comm : (k a b : ℕ) → a < 2 ^ k → b < 2 ^ k → bit_xor a b ≡ bit_xor b a
xor_comm zero a b ha hb =
    let ea : a ≡ 0 = omega arith in let eb : b ≡ 0 = omega arith in rw (ea, eb) refl
xor_comm (suc k) a b ha hb =
    let high = xor_comm k (a / 2) (b / 2) (half-lt k a ha) (half-lt k b hb) in
    halves (bit_xor a b) (bit_xor b a) (ground (arith, xor_low a b, xor_low b a))
      (xor_high a b ∙ high ∙ sym (xor_high b a))

-- `^` with the same word twice changes nothing.
pub xor_cancel : (k a b : ℕ) → a < 2 ^ k → b < 2 ^ k → bit_xor b (bit_xor a b) ≡ a
xor_cancel zero a b ha hb =
    let ea : a ≡ 0 = omega arith in let eb : b ≡ 0 = omega arith in rw (ea, eb) refl
xor_cancel (suc k) a b ha hb =
    let x = bit_xor a b in
    let high = xor_cancel k (a / 2) (b / 2) (half-lt k a ha) (half-lt k b hb) in
    halves (bit_xor b x) a (ground (arith, xor_low a b, xor_low b x))
      (xor_high b x ∙ ap (bit_xor (b / 2)) (xor_high a b) ∙ high)

bit-zero : (i : ℕ) → bit 0 i ≡ 0
bit-zero zero = refl
bit-zero (suc i) = bit-zero i

-- `1 << i` has only its own bit.
pub bit-two_pow : (i j : ℕ) → bit (2 ^ i) j ≡ (if i == j then 1 else 0)
bit-two_pow zero zero = refl
bit-two_pow zero (suc j) = ground (arith, bit-zero j)
bit-two_pow (suc i) zero = ground (arith, two-pow-succ i)
bit-two_pow (suc i) (suc j) =
    ap (λ (t : ℕ). bit t j) {x = 2 ^ suc i / 2} {y = 2 ^ i} (omega (arith, two-pow-succ i))
    ∙ ground (arith, bit-two_pow i j)

-- Every value below a bound, checked by evaluation.
unfoldable pub holds_below : (bound : ℕ) → (test : ℕ → Bool) → Bool
holds_below zero test = true
holds_below (suc bound) test =
    let others = holds_below bound test in if test bound then others else false

pub holds_below-true :
    (bound : ℕ) (test : ℕ → Bool) (x : ℕ)
    → holds_below bound test ≡ true
    → x < bound
    → test x ≡ true
unfolding holds_below
holds_below-true zero test x all small = absurd (omega arith)
holds_below-true (suc bound) test x all small = ground (arith, holds_below-true bound test x)

-- `~x` on an unsigned 32-bit word.
abbrev pub not32 : ℕ → ℕ
not32 x = 2 ^ 32 - 1 - x

bit-not32_row : ℕ → Bool
unfolding holds_below
bit-not32_row i = holds_below 32 (λ j. bit (not32 (2 ^ i)) j == (if i == j then 0 else 1))

bit-not32_table : holds_below 32 bit-not32_row ≡ true
unfolding bit-not32_row holds_below
bit-not32_table = refl

-- `~(1 << i)` has every bit but its own.
pub bit-not32 : (i j : ℕ) → i < 32 → j < 32 → bit (not32 (2 ^ i)) j ≡ (if i == j then 0 else 1)
unfolding bit-not32_row
bit-not32 i j hi hj = (==_iff _ _).0 (
    holds_below-true 32 (λ x. bit (not32 (2 ^ i)) x == (if i == x then 0 else 1)) j
      (holds_below-true 32 bit-not32_row i bit-not32_table hi) hj)

-- A word of `k` bits stays one under `|` and `&`.
pub bit_or-lt : (k a b : ℕ) → a < 2 ^ k → b < 2 ^ k → bit_or a b < 2 ^ k
bit_or-lt zero a b ha hb = ground (arith, or_step a b)
bit_or-lt (suc k) a b ha hb =
    let half : bit_or (a / 2) (b / 2) < 2 ^ k =
      bit_or-lt k (a / 2) (b / 2) (omega (arith, two-pow-succ k)) (omega (arith, two-pow-succ k)) in
    omega (arith, two-pow-succ k, or_step a b)

-- `&` never exceeds its left operand.
pub bit_and-le : (k a b : ℕ) → a ≤ k → bit_and a b ≤ a
bit_and-le zero zero b h = omega (arith, bit_and-bitwise 0 b)
bit_and-le zero (suc a) b h = absurd (omega arith)
bit_and-le (suc k) a b h = omega (arith, and_step a b, bit_and-le k (a / 2) (b / 2) (omega arith))

or-zero : (k a : ℕ) → a ≤ k → bit_or a 0 ≡ a
or-zero zero zero h = refl
or-zero zero (suc a) h = absurd (omega arith)
or-zero (suc k) a h = omega (arith, or_step a 0, or-zero k (a / 2) (omega arith))

mul-two_pow-suc : (q k : ℕ) → q * 2 ^ suc k ≡ 2 * (q * 2 ^ k)
mul-two_pow-suc q k = omega (arith, ap (λ (t : ℕ). q * t) (two-pow-succ k))

-- `(q << k) | r` is a sum if `r` fits into the `k` bits below.
pub bit_or-fields : (k q r : ℕ) → r < 2 ^ k → bit_or (q * 2 ^ k) r ≡ q * 2 ^ k + r
bit_or-fields zero q r h = ground (arith, or-zero q q)
bit_or-fields (suc k) q r h = ground (
  arith,
  or_step (q * 2 ^ suc k) r,
  mul-two_pow-suc q k,
  two-pow-succ k,
  bit_or-fields k q (r / 2),
)

and-zero : (k a : ℕ) → a ≤ k → bit_and a 0 ≡ 0
and-zero zero zero h = refl
and-zero zero (suc a) h = absurd (omega arith)
and-zero (suc k) a h = omega (arith, and_step a 0, and-zero k (a / 2) (omega arith))

-- `x & 0xf` and `x & 0xf0`: the two digits of a byte.
pub bit_and-low_digit : (a : ℕ) → bit_and a 0xf ≡ a % 16
bit_and-low_digit a = omega (
  arith,
  and_step a 0xf,
  and_step (a / 2) 7,
  and_step (a / 2 / 2) 3,
  and_step (a / 2 / 2 / 2) 1,
  and-zero (a / 2 / 2 / 2 / 2) (a / 2 / 2 / 2 / 2),
)

pub bit_and-high_digit : (a : ℕ) → bit_and a 0xf0 ≡ a / 16 % 16 * 16
bit_and-high_digit a = omega (
  arith,
  and_step a 0xf0,
  and_step (a / 2) 0x78,
  and_step (a / 2 / 2) 0x3c,
  and_step (a / 2 / 2 / 2) 0x1e,
  bit_and-low_digit (a / 2 / 2 / 2 / 2),
)

pub zero-bit_or : (a : ℕ) → bit_or 0 a ≡ a
zero-bit_or a = bit_or-bitwise 0 a

pub fields-bit_or : (k q r : ℕ) → r < 2 ^ k → bit_or r (q * 2 ^ k) ≡ q * 2 ^ k + r
fields-bit_or zero q r h = ground (arith, zero-bit_or q)
fields-bit_or (suc k) q r h = ground (
  arith,
  or_step r (q * 2 ^ suc k),
  mul-two_pow-suc q k,
  two-pow-succ k,
  fields-bit_or k q (r / 2),
)
