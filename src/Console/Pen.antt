-- ===== src/Console/Pen.antt =====
-- What a text console shows, as a pen that writes on the lines of its window.
use simple_os.Base.{
  ◌++◌, Bool, ltb, ◌&&◌, ℕ, ◌+◌, ◌*◌, ◌%◌, ◌^◌, ◌<◌, ◌≡◌, refl, sym, ap, ◌∙◌, arith, true, false,
  List, [], ◌∷◌, ◌==◌, leb, Bool-cases, inl, inr, if◌then◌else◌,
}
use simple_os.Kernel.{update}
use simple_os.Console.{
  Console, Video, step_right, store_char, switch_char, show_cursor, print_text, is_printable,
  s32_console_print_str,
}
use simple_os.Console.Window.{Fits, window_start, show_cursor-vram, print_text-Fits}
use simple_os.Console.Printing.{store_char-vram, print_str-suc}

-- The column and the line of the pen, and the memory of the screen.
pub record Page : Type 0 where
  pub x : ℕ
  pub y : ℕ
  pub vram : ℕ → ℕ

-- A character goes into the cell of the pen, in a window that starts at `start`, and the pen goes on,
-- over the end of a line.
abbrev pub put_glyph : ℕ → ℕ → Page → Page
put_glyph start ch p =
    let a = start + (p.x + p.y * 80) * 2 in
    let vram = update (update p.vram a ch) (a + 1) 7 in
    if p.x == 79
    then record { x = 0; y = p.y + 1; vram = vram }
    else record { x = p.x + 1; y = p.y; vram = vram }

-- One byte on one of the 50 lines: a carriage return, a line feed, a character, or nothing.
unfoldable pub pen_byte : ℕ → ℕ → Page → Page
pen_byte start ch p =
    if leb 50 p.y
    then p
    else if ch == 0xd
    then record p { x = 0 }
    else if ch == 0xa
    then record p { y = p.y + 1 }
    else if is_printable ch
    then put_glyph start ch p
    else p

-- The page of a console.
abbrev pub page : Console → Video → Page
page console v = record { x = console.cur_x; y = console.cur_y; vram = v.vram }

abbrev on_page : ℕ → ℕ → (ℕ → ℕ) → Page
on_page x y vram = record { x = x; y = y; vram = vram }

page_eq :
    {x x' y y' : ℕ} {m m' : ℕ → ℕ} → x ≡ x' → y ≡ y' → m ≡ m' → on_page x y m ≡ on_page x' y' m'
page_eq {x} {x'} {y} {y'} {m} {m'} ex ey em =
    ap (λ a. on_page a y m) ex ∙ ap (λ a. on_page x' a m) ey ∙ ap (λ a. on_page x' y' a) em

show_cursor-cur_x :
    (console : Console) (v : Video) → (show_cursor console v).0.cur_x ≡ console.cur_x
unfolding show_cursor
show_cursor-cur_x console v = refl

show_cursor-cur_y :
    (console : Console) (v : Video) → (show_cursor console v).0.cur_y ≡ console.cur_y
unfolding show_cursor
show_cursor-cur_y console v = refl

show_cursor-page :
    (console : Console) (v : Video)
    → page (show_cursor console v).0 (show_cursor console v).1 ≡ page console v
show_cursor-page console v =
    page_eq (show_cursor-cur_x console v) (show_cursor-cur_y console v) (show_cursor-vram console v)

module _ (i : ℕ) (console : Console) (ch : ℕ) (v : Video) (f : Fits i console)
    (h : console.cur_y < 50) where
  step_right-glyph :
      page (step_right console) (store_char console ch v)
      ≡ put_glyph (window_start i) ch (page console v)
  step_right-glyph =
      let screen = store_char-vram i console ch v f h in
      let ex : (console.cur_x + 1) % 2 ^ 32 ≡ console.cur_x + 1 = omega (arith, f.column) in
      let ey : (console.cur_y + 1) % 2 ^ 32 ≡ console.cur_y + 1 = omega arith in
      let place : console.vm_start ≡ window_start i = f.start in
      elim (Bool-cases (console.cur_x == 79)) [
        | inl last ↦
            let over : leb 80 (console.cur_x + 1) ≡ true = ground (arith, last) in
            rw (screen, ex, ey, over, last, place) refl
        | inr on ↦
            let inside : leb 80 (console.cur_x + 1) ≡ false = ground (arith, on, f.column) in
            rw (screen, ex, inside, on, place) refl
      ]

  switch_char-page :
      page (switch_char console ch v).0 (switch_char console ch v).1
      ≡ pen_byte (window_start i) ch (page console v)
  unfolding switch_char pen_byte
  switch_char-page =
      let room : leb 50 console.cur_y ≡ false = ground arith in
      let ey : (console.cur_y + 1) % 2 ^ 32 ≡ console.cur_y + 1 = omega arith in
      elim (Bool-cases (ch == 0xd)) [
        | inl cr ↦ rw (room, cr) refl
        | inr not_cr ↦ elim (Bool-cases (ch == 0xa)) [
          | inl lf ↦ rw (room, not_cr, lf, ey) refl
          | inr not_lf ↦ elim (Bool-cases (is_printable ch)) [
            | inl shown ↦ rw (room, not_cr, not_lf, shown) step_right-glyph
            | inr dark ↦ rw (room, not_cr, not_lf, dark) refl
          ]
        ]
      ]

pub pen_byte-below : (start ch : ℕ) (p : Page) → leb 50 p.y ≡ true → pen_byte start ch p ≡ p
unfolding pen_byte
pen_byte-below start ch p low = rw (low) refl

-- A byte on a text console is a byte of the pen.
pub print_text-page :
    (i : ℕ) (console : Console) (ch : ℕ) (v : Video)
    → Fits i console
    → page (print_text console ch v).0 (print_text console ch v).1
      ≡ pen_byte (window_start i) ch (page console v)
unfolding print_text
print_text-page i console ch v f = elim (Bool-cases (leb 50 console.cur_y)) [
  | inl low ↦ rw (low) (sym (pen_byte-below (window_start i) ch (page console v) low))
  | inr inside ↦
      let (console', v') = switch_char console ch v in
      rw (inside)
        (show_cursor-page console' v' ∙ switch_char-page i console ch v f (ground (arith, inside)))
]

-- A text, from the first byte to the last.
unfoldable pub pen_text : ℕ → List ℕ → Page → Page
pen_text start [] p = p
pen_text start (ch ∷ text) p = pen_text start text (pen_byte start ch p)

pub pen_text-append :
    (start : ℕ) (one two : List ℕ) (p : Page)
    → pen_text start two (pen_text start one p) ≡ pen_text start (one ++ two) p
unfolding pen_text
pen_text-append start [] two p = refl
pen_text-append start (ch ∷ one) two p = pen_text-append start one two (pen_byte start ch p)

-- No byte of a text is 0.
abbrev pub no_zero : List ℕ → Bool
no_zero [] = true
no_zero (ch ∷ text) = ltb 0 ch && no_zero text

module _ (draw_char : Console → ℕ → Video → Video) where
  -- A string on a text console is a text of the pen.
  pub print_str-page :
      (i : ℕ) (str : List ℕ) (console : Console) (v : Video)
      → no_zero str ≡ true
      → Fits i console
      → let (console', v') = s32_console_print_str draw_char console str v in
        Fits i console' × (page console' v' ≡ pen_text (window_start i) str (page console v))
  unfolding s32_console_print_str pen_text
  print_str-page i [] console v all f = (f, refl)
  print_str-page i (ch ∷ str) console v all f =
      let (console', v') = print_text console ch v in
      let (kept, rest) =
        print_str-page i str console' v' (ground (arith, all)) (print_text-Fits i console ch v f) in
      rw (print_str-suc draw_char console ch str v i (ground (arith, all)) f)
        (kept, rest ∙ ap (pen_text (window_start i) str) (print_text-page i console ch v f))
