-- ===== src/Loader/Sample.antt =====
-- Memory for the tests, most of it zero.
use simple_os.Base.{ℕ, ◌%◌, ◌^◌, ◌<◌, ◌==◌, if◌then◌else◌, arith, List, [], ◌∷◌}

-- The byte at an address, from the bytes that are not zero.
abbrev pub written : List (ℕ × ℕ) → ℕ → ℕ
written [] a = 0
written ((at, value) ∷ others) a = if a == at then value % 2 ^ 8 else written others a

pub written-lt : (bytes : List (ℕ × ℕ)) (a : ℕ) → written bytes a < 256
written-lt [] a = omega arith
written-lt ((at, value) ∷ others) a = ground (arith, written-lt others a)
