-- ===== src/Stdio.antt =====
-- Formatted output of io/k_stdio.c: numbers as text, and the formats of `s32_vsprintf` and
-- `s32_sprintf`. A buffer is the list of its bytes, without the 0 that ends the text.
pub mod Digits
pub mod Swaps
pub mod Itoa
pub mod Format
pub mod Screen
mod Tests
use simple_os.Base.{
  ℕ, zero, suc, ◌+◌, ◌-◌, ◌*◌, ◌/◌, ◌%◌, ◌^◌, Bool, true, false, ◌&&◌, ◌||◌, not, Option, none,
  some, List, [], ◌∷◌, ◌++◌, ◌==◌, if◌then◌else◌, ltb, leb, get_or, set, length,
}

abbrev pub minus : ℕ
minus = 0x2d

-- `digit[]`
unfoldable pub digit_table : List ℕ
digit_table =
    0x30 ∷ 0x31 ∷ 0x32 ∷ 0x33 ∷ 0x34 ∷ 0x35 ∷ 0x36 ∷ 0x37 ∷ 0x38 ∷ 0x39 ∷ 0x41 ∷ 0x42 ∷ 0x43 ∷ 0x44
    ∷ 0x45 ∷ 0x46 ∷ 0x47 ∷ 0x48 ∷ 0x49 ∷ 0x4a ∷ 0x4b ∷ 0x4c ∷ 0x4d ∷ 0x4e ∷ 0x4f ∷ 0x50 ∷ 0x51
    ∷ 0x52 ∷ 0x53 ∷ 0x54 ∷ 0x55 ∷ 0x56 ∷ 0x57 ∷ 0x58 ∷ 0x59 ∷ 0x5a ∷ []

-- `*p++=digit[n%radix]`
abbrev pub add_digit : ℕ → Option (List ℕ) → Option (List ℕ)
add_digit c none = none
add_digit c (some rest) = some (c ∷ rest)

-- `while(n)`: the digits, the last one first. `none`: the rounds are used up.
unfoldable pub digit_loop : ℕ → ℕ → ℕ → Option (List ℕ)
unfolding digit_table
digit_loop zero n radix = if n == 0 then some [] else none
digit_loop (suc rounds) n radix =
    let more = add_digit (get_or digit_table (n % radix) 0) (digit_loop rounds (n / radix) radix) in
    if n == 0 then some [] else more

-- The bytes at `head` and `p` change places, unless a minus stands before `p`.
abbrev pub swap_bytes : ℕ → ℕ → List ℕ → List ℕ
swap_bytes head p buf =
    if get_or buf (p - 1) 0 == minus
    then buf
    else set (set buf head (get_or buf p 0)) p (get_or buf head 0)

-- The `for` loop that turns the digits round.
unfoldable pub swap_loop : ℕ → ℕ → ℕ → List ℕ → Option (List ℕ)
swap_loop zero head p buf = if ltb head p then none else some buf
swap_loop (suc rounds) head p buf =
    let rest = swap_loop rounds (head + 1) (p - 1) (swap_bytes head p buf) in
    if ltb head p then rest else some buf

-- 32 rounds are enough for the digits of a 32-bit number in any radix.
abbrev pub itoa_rounds : ℕ
itoa_rounds = 32

-- The sign and the digits, turned round: the loop starts at the last byte.
abbrev pub from_digits : List ℕ → Option (List ℕ) → Option (List ℕ)
from_digits sign none = none
from_digits sign (some digits) =
    let buf = sign ++ digits in swap_loop itoa_rounds 0 (length buf - 1) buf

-- The text of a number other than 0: a sign or none, and the digits.
unfoldable pub itoa_from : List ℕ → ℕ → ℕ → Option (List ℕ)
itoa_from sign n radix = from_digits sign (digit_loop itoa_rounds n radix)

-- `n` is a `u32`, so that it is never negative.
unfoldable pub s32_itoa : ℕ → ℕ → Option (List ℕ)
s32_itoa n radix = if n == 0 then some (0x30 ∷ []) else itoa_from [] n radix

-- An `int` is given by whether it is negative and by its magnitude. For a negative number in
-- another radix than 10, and for the least number, whose negation is itself, the remainders are
-- negative, so that the code reads outside `digit`: `none`.
unfoldable pub s32_itoa_s : Bool → ℕ → ℕ → Option (List ℕ)
s32_itoa_s negative n radix =
    if n == 0
    then some (0x30 ∷ [])
    else (if negative && (not (radix == 10) || leb (2 ^ 31) n)
        then none
        else itoa_from (if (radix == 10) && negative then minus ∷ [] else []) n radix)

-- One hexadecimal digit of `h2c`; the code writes upper case first and then lower case over it.
abbrev pub hex_digit : ℕ → ℕ
hex_digit l = if leb l 9 then l + 0x30 else l + 0x61 - 0xa

unfoldable pub h2c : ℕ → ℕ × ℕ
h2c hex = (hex_digit (hex / 2 ^ 4), hex_digit (hex % 16))

abbrev pub percent : ℕ
percent = 0x25

-- `*p++` for each byte of a text, and then the rest of the output.
abbrev pub join : Option (List ℕ) → Option (List ℕ) → Option (List ℕ)
join none rest = none
join (some text) none = none
join (some text) (some rest) = some (text ++ rest)

-- The `switch` of `s32_sprintf` at the byte `d` after a percent sign: what it appends for the
-- argument `arg`. `string` gives the text that stands at an address.
unfoldable pub convert : (ℕ → List ℕ) → ℕ → ℕ → Option (List ℕ)
convert string d arg =
    if d == 0x64
    then s32_itoa arg 10
    else if d == 0x78
    then s32_itoa arg 16
    else if d == 0x73
    then some (string arg)
    else some []

-- The `switch` of `s32_vsprintf`, which knows `%c` too.
unfoldable pub vconvert : (ℕ → List ℕ) → ℕ → ℕ → Option (List ℕ)
vconvert string d arg = if d == 0x63 then some ((arg % 2 ^ 8) ∷ []) else convert string d arg

-- The `for` loop over a format, which both functions have: `args` are the words where the
-- arguments stand and `i` counts those that are used up. After a percent sign at the end the loop
-- goes on behind the format: `none`.
unfoldable pub format_loop : (ℕ → ℕ → Option (List ℕ)) → (ℕ → ℕ) → ℕ → List ℕ → Option (List ℕ)
format_loop switch args i [] = some []
format_loop switch args i (c ∷ []) = if c == percent then none else some (c ∷ [])
format_loop switch args i (c ∷ d ∷ fmt) =
    let here = join (switch d (args i)) (format_loop switch args (suc i) fmt) in
    let on = join (some (c ∷ [])) (format_loop switch args i (d ∷ fmt)) in
    if c == percent then here else on

-- `return p-str_buf - 1;`, an `int` as a 32-bit pattern, with the text.
abbrev pub counted : Option (List ℕ) → Option (List ℕ × ℕ)
counted none = none
counted (some out) = some (out, (length out + 2 ^ 32 - 1) % 2 ^ 32)

unfoldable pub s32_vsprintf : (ℕ → List ℕ) → (ℕ → ℕ) → List ℕ → Option (List ℕ × ℕ)
s32_vsprintf string args fmt = counted (format_loop (vconvert string) args 0 fmt)

unfoldable pub s32_sprintf : (ℕ → List ℕ) → (ℕ → ℕ) → List ℕ → Option (List ℕ × ℕ)
s32_sprintf string args fmt = counted (format_loop (convert string) args 0 fmt)
