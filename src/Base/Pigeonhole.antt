-- ===== src/Base/Pigeonhole.antt =====
-- A function that is injective below `n`, with values below `bound`, shows that `n ≤ bound`.
use Prim.Native.Nat.{ℕ, zero, suc, ◌≤◌, ◌<◌}
use mathlib.Core.Logic.{◌≢◌}
use native.Mathlib.Omega.{arith}
use simple_os.Base.Tests.{◌==◌, if◌then◌else◌}

-- The value `bound` is replaced by `v`.
abbrev redirect : ℕ → ℕ → (ℕ → ℕ) → ℕ → ℕ
redirect bound v f i = if f i == bound then v else f i

pub pigeonhole :
    (bound n : ℕ) (f : ℕ → ℕ)
    → ((i : ℕ) → i < n → f i < bound)
    → ((i j : ℕ) → i < j → j < n → f i ≢ f j)
    → n ≤ bound
pigeonhole bound zero f fits distinct = omega arith
pigeonhole zero (suc n) f fits distinct = absurd (omega (arith, fits 0 (omega arith)))
pigeonhole (suc bound) (suc n) f fits distinct = omega (
  arith,
  pigeonhole bound n (redirect bound (f n) f) (λ i h. ground (arith, fits i, fits n, distinct i n))
      (λ i j h k. ground (arith, distinct i j, distinct i n, distinct j n)),
)
