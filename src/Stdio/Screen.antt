-- ===== src/Stdio/Screen.antt =====
-- Text that io/k_stdio.c writes straight into the memory of the screen: `s32_put_char`, `s32_print`,
-- `s32_print_int` and `clear_line`. The variable `cur_vb`, which `s32_print` leaves for others, is
-- left out.
use simple_os.Base.{
  ℕ, zero, suc, ◌+◌, ◌*◌, ◌%◌, ◌^◌, ◌<◌, ◌≤◌, ◌≡◌, ◌⊎◌, refl, ap, ◌∙◌, arith, List, [], ◌∷◌, Option,
  none, some, ==_ne, length,
}
use simple_os.Kernel.{update}
use simple_os.Stdio.{s32_itoa}
use simple_os.Stdio.Itoa.{number_of-s32_itoa}

abbrev pub white : ℕ
white = 7

-- Where the text memory of the card is.
abbrev pub screen : ℕ
screen = 0xb8000

abbrev pub s32_put_char : ℕ → ℕ → (ℕ → ℕ) → ℕ → ℕ
s32_put_char ch vb memory = update memory vb (ch % 256)

-- The list has the bytes of the string before its 0.
unfoldable pub s32_print : List ℕ → ℕ → (ℕ → ℕ) → ℕ → ℕ
s32_print [] vb memory = memory
s32_print (ch ∷ s) vb memory = s32_print s (vb + 2) (s32_put_char ch vb memory)

-- `none` does not occur for the radixes from 2 to 36.
abbrev pub text_or_empty : Option (List ℕ) → List ℕ
text_or_empty none = []
text_or_empty (some text) = text

-- The `int` becomes the `u32` that `s32_itoa` takes.
unfoldable pub s32_print_int : ℕ → ℕ → ℕ → (ℕ → ℕ) → ℕ → ℕ
unfolding s32_itoa
s32_print_int i vb radix memory = s32_print (text_or_empty (s32_itoa (i % 2 ^ 32) radix)) vb memory

-- The loop over the cells of a line, `left` of them.
unfoldable pub clear_cells : ℕ → ℕ → (ℕ → ℕ) → ℕ → ℕ
clear_cells zero vb memory = memory
clear_cells (suc left) vb memory =
    clear_cells left (vb + 2) (update (update memory vb 0x20) (vb + 1) white)

unfoldable pub clear_line : ℕ → (ℕ → ℕ) → ℕ → ℕ
clear_line line_no memory = clear_cells 80 (screen + 160 * (line_no % 256)) memory

pub s32_print-outside :
    (text : List ℕ) (vb : ℕ) (memory : ℕ → ℕ) (a : ℕ)
    → (a < vb) ⊎ (vb + 2 * length text ≤ a)
    → s32_print text vb memory a ≡ memory a
unfolding s32_print
s32_print-outside [] vb memory a out = refl
s32_print-outside (ch ∷ text) vb memory a out =
    s32_print-outside text (vb + 2) (s32_put_char ch vb memory) a (ground (arith, out))
    ∙ rw (==_ne vb a (λ e. ground (arith, out, e))) refl

clear_cells-outside :
    (left vb : ℕ) (memory : ℕ → ℕ) (a : ℕ)
    → (a < vb) ⊎ (vb + 2 * left ≤ a)
    → clear_cells left vb memory a ≡ memory a
unfolding clear_cells
clear_cells-outside zero vb memory a out = refl
clear_cells-outside (suc left) vb memory a out =
    clear_cells-outside left (vb + 2) (update (update memory vb 0x20) (vb + 1) white) a
      (ground (arith, out))
    ∙ rw (==_ne vb a (λ e. ground (arith, out, e)), ==_ne (vb + 1) a (λ e. ground (arith, out, e)))
        refl

pub clear_line-outside :
    (line : ℕ) (memory : ℕ → ℕ) (a : ℕ)
    → line < 256
    → (a < screen + 160 * line) ⊎ (screen + 160 * line + 160 ≤ a)
    → clear_line line memory a ≡ memory a
unfolding clear_line
clear_line-outside line memory a h out =
    let e : line % 256 ≡ line = omega arith in
    rw (e) (clear_cells-outside 80 (screen + 160 * line) memory a (ground (arith, out)))

-- The text of a number has at most ten bytes.
pub s32_print_int-outside :
    (i vb radix : ℕ) (memory : ℕ → ℕ) (a : ℕ)
    → 10 ≤ radix
    → radix ≤ 36
    → (a < vb) ⊎ (vb + 20 ≤ a)
    → s32_print_int i vb radix memory a ≡ memory a
unfolding s32_print_int
s32_print_int-outside i vb radix memory a lo hi out =
    let (text, result, reads, short) =
      number_of-s32_itoa (i % 2 ^ 32) radix (omega arith) (omega arith) hi in
    let few = short lo in
    ap (λ t. s32_print (text_or_empty t) vb memory a) result
    ∙ s32_print-outside text vb memory a (ground (arith, out, few))
