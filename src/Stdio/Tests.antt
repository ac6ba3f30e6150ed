-- ===== src/Stdio/Tests.antt =====
-- Numbers and formats that are printed.
use simple_os.Base.{ℕ, ◌+◌, ◌-◌, ◌%◌, ◌^◌, ◌≤◌, ◌≡◌, refl, arith, true, some, List, [], ◌∷◌, length}
use simple_os.Stdio.{
  digit_table, digit_loop, swap_loop, itoa_from, s32_itoa, s32_itoa_s, minus, convert, vconvert,
  format_loop, s32_vsprintf, h2c,
}
use simple_os.Stdio.Itoa.{number_of, number_of-s32_itoa}
use simple_os.Stdio.Format.{is_format, Prints, s32_vsprintf-Prints}

-- "255" in radix 10, "FF" in radix 16
decimal_text : s32_itoa 255 10 ≡ some (0x32 ∷ 0x35 ∷ 0x35 ∷ [])
unfolding s32_itoa itoa_from digit_loop digit_table swap_loop
decimal_text = refl

hex_text : s32_itoa 255 16 ≡ some (0x46 ∷ 0x46 ∷ [])
unfolding s32_itoa itoa_from digit_loop digit_table swap_loop
hex_text = refl

-- -12 is printed as "12-", and -7 as "-7".
negative_text : s32_itoa_s true 12 10 ≡ some (0x31 ∷ 0x32 ∷ minus ∷ [])
unfolding s32_itoa_s itoa_from digit_loop digit_table swap_loop
negative_text = refl

short_negative_text : s32_itoa_s true 7 10 ≡ some (minus ∷ 0x37 ∷ [])
unfolding s32_itoa_s itoa_from digit_loop digit_table swap_loop
short_negative_text = refl

byte_text : h2c 0x4e ≡ (0x34, 0x65)
unfolding h2c
byte_text = refl

-- "%d!"
abbrev fmt : List ℕ
fmt = 0x25 ∷ 0x64 ∷ 0x21 ∷ []

abbrev name : ℕ → List ℕ
name a = 0x61 ∷ []

printed : s32_vsprintf name (λ i. 40 + i) fmt ≡ some (0x34 ∷ 0x30 ∷ 0x21 ∷ [], 2)
unfolding s32_vsprintf format_loop vconvert convert s32_itoa itoa_from digit_loop digit_table
    swap_loop
printed = refl

number_of-s32_itoa_example :
    (text : List ℕ) × (s32_itoa 4000000000 16 ≡ some text)
    × (number_of 16 0 text ≡ 4000000000)
    × (10 ≤ 16 → length text ≤ 10)
number_of-s32_itoa_example =
    number_of-s32_itoa 4000000000 16 (omega arith) (omega arith) (omega arith)

s32_vsprintf-Prints_example :
    (out : List ℕ) × (s32_vsprintf name (λ i. 40) fmt
      ≡ some (out, (length out + 2 ^ 32 - 1) % 2 ^ 32))
    × Prints name (λ i. 40) 0 fmt out
unfolding is_format
s32_vsprintf-Prints_example = s32_vsprintf-Prints name (λ i. 40) (λ i. omega arith) fmt refl
