-- ===== src/Stdio/Format.antt =====
-- What `s32_vsprintf` and `s32_sprintf` of io/k_stdio.c print.
use simple_os.Base.{
  ℕ, suc, ◌+◌, ◌-◌, ◌%◌, ◌^◌, ◌<◌, ◌≤◌, ◌≡◌, ◌≢◌, refl, ap, arith, Bool, true, false, ◌&&◌, not,
  Bool-cases, inl, inr, some, List, [], ◌∷◌, ◌++◌, ◌==◌, ==_iff, if◌then◌else◌, length,
}
use simple_os.Stdio.{
  percent, convert, vconvert, format_loop, counted, s32_vsprintf, s32_sprintf, s32_itoa,
}
use simple_os.Stdio.Itoa.{number_of, number_of-s32_itoa}

-- A percent sign is followed by a byte.
unfoldable pub is_format : List ℕ → Bool
is_format [] = true
is_format (c ∷ []) = not (c == percent)
is_format (c ∷ d ∷ fmt) =
    let here = is_format fmt in let on = is_format (d ∷ fmt) in if c == percent then here else on

-- What a format stands for, at argument `i`.
pub data Prints (string : ℕ → List ℕ) (args : ℕ → ℕ) : ℕ → List ℕ → List ℕ → Type 0 where
  end : {i : ℕ} → Prints string args i [] []
  byte :
      {i c : ℕ} {fmt out : List ℕ}
      → c ≢ percent
      → Prints string args i fmt out
      → Prints string args i (c ∷ fmt) (c ∷ out)
  char :
      {i : ℕ} {fmt out : List ℕ}
      → Prints string args (suc i) fmt out
      → Prints string args i (percent ∷ 0x63 ∷ fmt) ((args i % 2 ^ 8) ∷ out)
  decimal :
      (text : List ℕ) {i : ℕ} {fmt out : List ℕ}
      → number_of 10 0 text ≡ args i
      → length text ≤ 10
      → Prints string args (suc i) fmt out
      → Prints string args i (percent ∷ 0x64 ∷ fmt) (text ++ out)
  hexadecimal :
      (text : List ℕ) {i : ℕ} {fmt out : List ℕ}
      → number_of 16 0 text ≡ args i
      → length text ≤ 10
      → Prints string args (suc i) fmt out
      → Prints string args i (percent ∷ 0x78 ∷ fmt) (text ++ out)
  stored :
      {i : ℕ} {fmt out : List ℕ}
      → Prints string args (suc i) fmt out
      → Prints string args i (percent ∷ 0x73 ∷ fmt) (string (args i) ++ out)
  other :
      {i d : ℕ} {fmt out : List ℕ}
      → d ≢ 0x63
      → d ≢ 0x64
      → d ≢ 0x78
      → d ≢ 0x73
      → Prints string args (suc i) fmt out
      → Prints string args i (percent ∷ d ∷ fmt) out

module _ (string : ℕ → List ℕ) (args : ℕ → ℕ) (words : (i : ℕ) → args i < 2 ^ 32) where
  number_text :
      (i radix : ℕ)
      → 10 ≤ radix
      → radix ≤ 36
      → (text : List ℕ) × (s32_itoa (args i) radix ≡ some text)
        × (number_of radix 0 text ≡ args i)
        × (length text ≤ 10)
  number_text i radix lo hi =
      let (text, found, reads, short) =
        number_of-s32_itoa (args i) radix (words i) (omega arith) hi in
      (text, found, reads, short lo)

  decimal_text :
      (i : ℕ)
      → (text : List ℕ) × (s32_itoa (args i) 10 ≡ some text)
        × (number_of 10 0 text ≡ args i)
        × (length text ≤ 10)
  decimal_text i = number_text i 10 (omega arith) (omega arith)

  hex_text :
      (i : ℕ)
      → (text : List ℕ) × (s32_itoa (args i) 16 ≡ some text)
        × (number_of 16 0 text ≡ args i)
        × (length text ≤ 10)
  hex_text i = number_text i 16 (omega arith) (omega arith)

  -- What the conversion at `d` appends, before a rest that the format stands for.
  abbrev Converted : ℕ → ℕ → List ℕ → Type 0
  Converted i d text =
      (fmt out : List ℕ)
      → Prints string args (suc i) fmt out
      → Prints string args i (percent ∷ d ∷ fmt) (text ++ out)

  vconvert-Converted :
      (i d : ℕ) → (text : List ℕ) × (vconvert string d (args i) ≡ some text) × Converted i d text
  unfolding vconvert convert
  vconvert-Converted i d = elim (Bool-cases (d == 0x63)) [
    | inl y ↦
        let e : d ≡ 0x63 = (==_iff d 0x63).0 y in
        ((args i % 2 ^ 8) ∷ [], rw y refl, rw e (λ fmt out p. char p))
    | inr n1 ↦ elim (Bool-cases (d == 0x64)) [
      | inl y ↦
          let e : d ≡ 0x64 = (==_iff d 0x64).0 y in
          let (text, found, reads, short) = decimal_text i in
          (text, rw (n1, y) found, rw e (λ fmt out p. decimal text reads short p))
      | inr n2 ↦ elim (Bool-cases (d == 0x78)) [
        | inl y ↦
            let e : d ≡ 0x78 = (==_iff d 0x78).0 y in
            let (text, found, reads, short) = hex_text i in
            (text, rw (n1, n2, y) found, rw e (λ fmt out p. hexadecimal text reads short p))
        | inr n3 ↦ elim (Bool-cases (d == 0x73)) [
          | inl y ↦
              let e : d ≡ 0x73 = (==_iff d 0x73).0 y in
              (string (args i), rw (n1, n2, n3, y) refl, rw e (λ fmt out p. stored p))
          | inr n4 ↦ (
            [],
            rw (n1, n2, n3, n4) refl,
            λ fmt out p.
                other (ground (arith, n1)) (ground (arith, n2)) (ground (arith, n3))
                  (ground (arith, n4)) p,
          )
        ]
      ]
    ]
  ]

  format_loop-Prints :
      (i : ℕ) (fmt : List ℕ)
      → is_format fmt ≡ true
      → (out : List ℕ) × (format_loop (vconvert string) args i fmt ≡ some out)
        × Prints string args i fmt out
  unfolding format_loop is_format
  format_loop-Prints i [] h = ([], refl, end)
  format_loop-Prints i (c ∷ []) h =
      let n : (c == percent) ≡ false = ground (arith, h) in
      (c ∷ [], rw n refl, byte (ground (arith, n)) end)
  format_loop-Prints i (c ∷ d ∷ fmt) h = elim (Bool-cases (c == percent)) [
    | inl y ↦
        let e : c ≡ percent = (==_iff c percent).0 y in
        let (text, converted, prints) = vconvert-Converted i d in
        let (out, found, rest) = format_loop-Prints (suc i) fmt (rw y at h) in
        (text ++ out, rw (y, converted, found) refl, rw e (prints fmt out rest))
    | inr n ↦
        let (out, found, rest) = format_loop-Prints i (d ∷ fmt) (rw n at h) in
        (c ∷ out, rw (n, found) refl, byte (ground (arith, n)) rest)
  ]

  -- If each percent sign of a format is followed by a byte, `s32_vsprintf` ends and prints what the
  -- format stands for, each number so that reading it gives the argument back. It returns one less
  -- than the number of bytes.
  pub s32_vsprintf-Prints :
      (fmt : List ℕ)
      → is_format fmt ≡ true
      → (out : List ℕ) × (s32_vsprintf string args fmt
          ≡ some (out, (length out + 2 ^ 32 - 1) % 2 ^ 32))
        × Prints string args 0 fmt out
  unfolding s32_vsprintf
  s32_vsprintf-Prints fmt h =
      let (out, found, prints) = format_loop-Prints 0 fmt h in (out, ap counted found, prints)

-- `%c` stands nowhere.
unfoldable pub no_char : List ℕ → Bool
no_char [] = true
no_char (c ∷ []) = true
no_char (c ∷ d ∷ fmt) = not ((c == percent) && (d == 0x63)) && (no_char (d ∷ fmt) && no_char fmt)

and_true : (a b : Bool) → (a && b) ≡ true → (a ≡ true) × (b ≡ true)
and_true a b h = ground (arith, h)

not-and-true : (a b : Bool) → a ≡ true → not (a && b) ≡ true → b ≡ false
not-and-true a b y h = ground (arith, y, h)

no_char-next :
    (c d : ℕ) (fmt : List ℕ)
    → no_char (c ∷ d ∷ fmt) ≡ true
    → (not ((c == percent) && (d == 0x63)) ≡ true)
      × ((no_char (d ∷ fmt) ≡ true) × (no_char fmt ≡ true))
unfolding no_char
no_char-next c d fmt h =
    let (here, rest) =
      and_true (not ((c == percent) && (d == 0x63))) (no_char (d ∷ fmt) && no_char fmt) h in
    (here, and_true (no_char (d ∷ fmt)) (no_char fmt) rest)

convert-vconvert :
    (string : ℕ → List ℕ) (d arg : ℕ)
    → (d == 0x63) ≡ false
    → convert string d arg ≡ vconvert string d arg
unfolding vconvert
convert-vconvert string d arg n = rw n refl

format_loop-no_char :
    (string : ℕ → List ℕ) (args : ℕ → ℕ) (i : ℕ) (fmt : List ℕ)
    → no_char fmt ≡ true
    → format_loop (convert string) args i fmt ≡ format_loop (vconvert string) args i fmt
unfolding format_loop
format_loop-no_char string args i [] h = refl
format_loop-no_char string args i (c ∷ []) h = refl
format_loop-no_char string args i (c ∷ d ∷ fmt) h = elim (Bool-cases (c == percent)) [
  | inl y ↦
      let (here, (on, after)) = no_char-next c d fmt h in
      let n : (d == 0x63) ≡ false = not-and-true (c == percent) (d == 0x63) y here in
      let rest = format_loop-no_char string args (suc i) fmt after in
      rw (y, convert-vconvert string d (args i) n, rest) refl
  | inr n ↦
      let (here, (on, after)) = no_char-next c d fmt h in
      let rest = format_loop-no_char string args i (d ∷ fmt) on in rw (n, rest) refl
]

-- On a format without `%c` the functions `s32_sprintf` and `s32_vsprintf` do the same.
pub s32_sprintf-s32_vsprintf :
    (string : ℕ → List ℕ) (args : ℕ → ℕ) (fmt : List ℕ)
    → no_char fmt ≡ true
    → s32_sprintf string args fmt ≡ s32_vsprintf string args fmt
unfolding s32_sprintf s32_vsprintf
s32_sprintf-s32_vsprintf string args fmt h = ap counted (format_loop-no_char string args 0 fmt h)
