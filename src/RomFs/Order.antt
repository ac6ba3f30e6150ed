-- ===== src/RomFs/Order.antt =====
-- The byte order: what `be32tole32` makes of the bytes of a word.
use simple_os.Base.{ℕ, ◌/◌, ◌%◌, ◌^◌, ◌<◌, ◌≡◌, ap, ◌∙◌, arith, bit_xor}
use simple_os.Base.Bits.{bit_xor-lt, xor_comm, xor_cancel}
use simple_os.RomFs.{U, swap, bytes_of, word_of, swapped, be32tole32}

-- Three exclusive ors exchange two bytes.
swap_first : (a b : ℕ) → a < 2 ^ 8 → b < 2 ^ 8 → (swap a b).0 ≡ b
swap_first a b ha hb =
    let x = bit_xor a b in
    ap (bit_xor x) (xor_cancel 8 a b ha hb)
    ∙ xor_comm 8 x a (bit_xor-lt 8 a b ha hb) ha
    ∙ ap (bit_xor a) (xor_comm 8 a b ha hb)
    ∙ xor_cancel 8 b a hb ha

-- Each byte of a word is a byte.
pub record IsWord (u : U) : Type 0 where
  pub c0 : u.c0 < 2 ^ 8
  pub c1 : u.c1 < 2 ^ 8
  pub c2 : u.c2 < 2 ^ 8
  pub c3 : u.c3 < 2 ^ 8

-- The same bytes in the other order.
abbrev pub other_order : U → U
other_order u = record { c0 = u.c3; c1 = u.c2; c2 = u.c1; c3 = u.c0 }

same_word :
    (u v : U) → u.c0 ≡ v.c0 → u.c1 ≡ v.c1 → u.c2 ≡ v.c2 → u.c3 ≡ v.c3 → word_of u ≡ word_of v
same_word u v e0 e1 e2 e3 = omega (arith, e0, e1, e2, e3)

swapped-word : (u : U) → IsWord u → word_of (swapped u) ≡ word_of (other_order u)
swapped-word u w =
    same_word (swapped u) (other_order u) (swap_first u.c0 u.c3 w.c0 w.c3)
      (swap_first u.c1 u.c2 w.c1 w.c2) (xor_cancel 8 u.c1 u.c2 w.c1 w.c2)
      (xor_cancel 8 u.c0 u.c3 w.c0 w.c3)

bytes_of-IsWord : (x : ℕ) → IsWord (bytes_of x)
bytes_of-IsWord x = record {
  c0 = omega arith;
  c1 = omega arith;
  c2 = omega arith;
  c3 = omega arith;
}

pub be32tole32-bytes : (x : ℕ) → be32tole32 x ≡ word_of (other_order (bytes_of x))
unfolding be32tole32
be32tole32-bytes x = swapped-word (bytes_of x) (bytes_of-IsWord x)

-- `be32tole32` reads the four bytes of a word in memory as the number that they are in the order of
-- the image, the highest byte first.
pub be32tole32-word_of : (u : U) → IsWord u → be32tole32 (word_of u) ≡ word_of (other_order u)
be32tole32-word_of u w =
    be32tole32-bytes (word_of u)
    ∙ same_word (other_order (bytes_of (word_of u))) (other_order u) (top u w) (third u w)
        (second u w) (low u w)
  where
    low : (u : U) → IsWord u → word_of u % 2 ^ 8 ≡ u.c0
    low u w = omega (arith, w.c0)

    second : (u : U) → IsWord u → word_of u / 2 ^ 8 % 2 ^ 8 ≡ u.c1
    second u w = omega (arith, w.c0, w.c1)

    third : (u : U) → IsWord u → word_of u / 2 ^ 16 % 2 ^ 8 ≡ u.c2
    third u w = omega (arith, w.c0, w.c1, w.c2)

    top : (u : U) → IsWord u → word_of u / 2 ^ 24 % 2 ^ 8 ≡ u.c3
    top u w = omega (arith, w.c0, w.c1, w.c2, w.c3)

-- Turning the byte order of a 32-bit word twice gives the word back.
pub be32tole32-be32tole32 : (x : ℕ) → x < 2 ^ 32 → be32tole32 (be32tole32 x) ≡ x
be32tole32-be32tole32 x h =
    let w = bytes_of-IsWord x in
    let turned : IsWord (other_order (bytes_of x)) = record {
      c0 = w.c3;
      c1 = w.c2;
      c2 = w.c1;
      c3 = w.c0;
    } in
    ap be32tole32 (be32tole32-bytes x)
    ∙ be32tole32-word_of (other_order (bytes_of x)) turned
    ∙ omega arith
