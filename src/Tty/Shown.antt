-- ===== src/Tty/Shown.antt =====
-- What is printed on the console of a terminal, as a page that the pen writes.
use simple_os.Base.{ℕ, ◌≡◌, ◌≢◌, ap, ◌∙◌, true, List, ==_self, ==_ne, Bool, if◌then◌else◌}
use simple_os.Console.{Console, Video, print_text, s32_console_print_str}
use simple_os.Console.Window.{Fits, window_start, print_text-Fits, s32_console_print_char-text}
use simple_os.Console.Pen.{Page, page, pen_byte, pen_text, no_zero, print_text-page, print_str-page}
use simple_os.Tty.{Terminals, print_char_on, print_str_on}

-- Console `i` fits its window and shows the page `p`, and the others are those of `before`.
pub record Shows (i : ℕ) (before after : ℕ → Console) (v : Video) (p : Page) : Type 0 where
  pub fits : Fits i (after i)
  pub shown : page (after i) v ≡ p
  pub others : (j : ℕ) → i ≢ j → after j ≡ before j

module _ (draw_char : Console → ℕ → Video → Video) where
  pub print_char_on-Shows :
      (i ch : ℕ) (before : ℕ → Console) (s : Terminals) (p : Page)
      → Shows i before s.console_table s.video p
      → let s' = print_char_on draw_char i ch s in
        Shows i before s'.console_table s'.video (pen_byte (window_start i) ch p)
  print_char_on-Shows i ch before s p h =
      let console = s.console_table i in
      let e = s32_console_print_char-text draw_char console ch s.video h.fits.kind in
      let (console', v') = print_text console ch s.video in
      rw (e) (record {
        fits = rw (==_self i) (print_text-Fits i console ch s.video h.fits);
        shown =
            ap (λ (b : Bool). page (if b then console' else console) v') (==_self i)
            ∙ print_text-page i console ch s.video h.fits
            ∙ ap (pen_byte (window_start i) ch) h.shown;
        others = λ j ne.
            ap (λ (b : Bool). if b then console' else s.console_table j) (==_ne i j ne)
            ∙ h.others j ne;
      })

  pub print_str_on-Shows :
      (i : ℕ) (str : List ℕ) (before : ℕ → Console) (s : Terminals) (p : Page)
      → no_zero str ≡ true
      → Shows i before s.console_table s.video p
      → let s' = print_str_on draw_char i str s in
        Shows i before s'.console_table s'.video (pen_text (window_start i) str p)
  print_str_on-Shows i str before s p all h =
      let console = s.console_table i in
      let (console', v') = s32_console_print_str draw_char console str s.video in
      let (kept, shown) = print_str-page draw_char i str console s.video all h.fits in
      record {
        fits = rw (==_self i) kept;
        shown =
            ap (λ (b : Bool). page (if b then console' else console) v') (==_self i)
            ∙ shown
            ∙ ap (pen_text (window_start i) str) h.shown;
        others = λ j ne.
            ap (λ (b : Bool). if b then console' else s.console_table j) (==_ne i j ne)
            ∙ h.others j ne;
      }
