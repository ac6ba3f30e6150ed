-- ===== src/Allocator/FreeArea.antt =====
-- What `find_free_area` finds: the first clear bit, which it sets, and -1 when there is none.
use simple_os.Base.{
  ℕ, zero, suc, ◌+◌, ◌^◌, ◌≤◌, ◌<◌, ◌≡◌, refl, Option, none, some, ◌==◌, if◌then◌else◌, arith,
  bit_or, inl, inr, Bool-cases,
}
use simple_os.Base.Bits.{bit, bit-or, bit-two_pow}
use simple_os.Allocator.{find_from, find_free_area}

-- A word and the same word with bit `i` set.
abbrev pub Sets : ℕ → ℕ → ℕ → Type 0
Sets i used used' = (j : ℕ) → bit used' j ≡ (if i == j then 1 else bit used j)

-- What a search that starts at bit `i` may answer.
abbrev pub Found : ℕ → ℕ → ℕ → Option ℕ × ℕ → Type 0
Found last i used (none, used') = (used' ≡ used) × ((j : ℕ) → i ≤ j → j < last → bit used j ≡ 1)
Found last i used (some k, used') =
    (i ≤ k)
    × (k < last)
    × (bit used k ≡ 0)
    × ((j : ℕ) → i ≤ j → j < k → bit used j ≡ 1)
    × Sets k used used'

Sets-or : (i used : ℕ) → Sets i used (bit_or used (2 ^ i))
Sets-or i used j = ground (arith, bit-or j used (2 ^ i), bit-two_pow i j)

find_from-Found : (n i used last : ℕ) → i + n ≡ last → Found last i used (find_from n i used)
unfolding find_from
find_from-Found zero i used last e = (refl, λ j lo hi. absurd (omega arith))
find_from-Found (suc n) i used last e = elim (Bool-cases (bit used i == 0)) [
  | inl clear ↦
      rw clear
        (omega arith, omega arith, ground arith, λ j lo hi. absurd (omega arith), Sets-or i used)
  | inr taken ↦ rw taken (
      skip (find_from n (suc i) used) (ground arith)
        (find_from-Found n (suc i) used last (omega arith)))
]
  where
    skip : (r : Option ℕ × ℕ) → bit used i ≡ 1 → Found last (suc i) used r → Found last i used r
    skip (none, used') one (same, all) = (same, λ j lo hi. ground (arith, all j))
    skip (some k, used') one (lo', hi', clear, all, sets) =
        (omega arith, hi', clear, λ j lo hi. ground (arith, all j), sets)

-- If any of the 32 blocks is free, `find_free_area` returns the first free one and sets its bit
-- alone.
pub find_free_area-least :
    (used j : ℕ)
    → j < 32
    → bit used j ≡ 0
    → (k : ℕ) × ((find_free_area used).0 ≡ some k)
      × (k ≤ j)
      × (bit used k ≡ 0)
      × Sets k used (find_free_area used).1
unfolding find_free_area
find_free_area-least used j hj free =
    choose (find_free_area used) (find_from-Found 32 0 used 32 refl)
  where
    choose :
        (r : Option ℕ × ℕ)
        → Found 32 0 used r
        → (k : ℕ) × (r.0 ≡ some k) × (k ≤ j) × (bit used k ≡ 0) × Sets k used r.1
    choose (none, used') (same, all) = absurd (ground (arith, all j))
    choose (some k, used') (lo, hi, clear, all, sets) =
        (k, refl, ground (arith, all j), clear, sets)

-- If all 32 blocks are taken, `find_free_area` returns -1 and leaves the map as it was.
pub find_free_area-none :
    (used : ℕ) → ((j : ℕ) → j < 32 → bit used j ≡ 1) → find_free_area used ≡ (none, used)
unfolding find_free_area
find_free_area-none used full = choose (find_free_area used) (find_from-Found 32 0 used 32 refl)
  where
    choose : (r : Option ℕ × ℕ) → Found 32 0 used r → r ≡ (none, used)
    choose (none, used') (same, all) = cc
    choose (some k, used') (lo, hi, clear, all, sets) = absurd (ground (arith, full k))

-- A block that is found is one of the 32, was free, and its bit is the only one to change.
pub find_free_area-some :
    (used k : ℕ)
    → (find_free_area used).0 ≡ some k
    → (k < 32) × (bit used k ≡ 0) × Sets k used (find_free_area used).1
unfolding find_free_area
find_free_area-some used k = choose (find_free_area used) (find_from-Found 32 0 used 32 refl)
  where
    choose :
        (r : Option ℕ × ℕ)
        → Found 32 0 used r
        → r.0 ≡ some k
        → (k < 32) × (bit used k ≡ 0) × Sets k used r.1
    choose (none, used') f e = absurd (cc)
    choose (some i, used') (lo, hi, clear, all, sets) e =
        (ground arith, ground arith, λ j. ground (arith, sets j))
