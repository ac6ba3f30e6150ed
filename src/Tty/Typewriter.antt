-- ===== src/Tty/Typewriter.antt =====
-- The echo of the keys, as a typewriter on the page of the console that is shown.
use simple_os.Base.{
  true, false, ℕ, ◌+◌, ◌%◌, ◌≡◌, refl, ◌∙◌, List, [], ◌∷◌, length, ◌==◌, leb, Bool-cases, inl, inr,
  if◌then◌else◌,
}
use simple_os.Ring.Window.{IsValid, contents}
use simple_os.Keyboard.Keymap.{key_enter}
use simple_os.Console.{Console, Video}
use simple_os.Console.Window.{Fits, window_start}
use simple_os.Console.Pen.{Page, page, pen_byte}
use simple_os.Tty.{Terminals, tty_in_bytes_num, cur_console, echo_key, print_char_on}
use simple_os.Tty.Shown.{Shows, print_char_on-Shows}
use simple_os.Tty.Echo.{inbuf_of, echo_all, write_rounds, write_rounds-echo_all}

-- The enter key starts a new line, while there is one. Another key is written by its low byte.
unfoldable pub pen_key : ℕ → ℕ → Page → Page
pen_key start key p =
    if key == key_enter
    then (if leb 50 p.y then p else record p { x = 0; y = p.y + 1 })
    else pen_byte start (key % 256) p

unfoldable pub typewrite : ℕ → List ℕ → Page → Page
typewrite start [] p = p
typewrite start (key ∷ keys) p = typewrite start keys (pen_key start key p)

pen_enter :
    (start : ℕ) (p : Page) → pen_byte start 0xa (pen_byte start 0xd p) ≡ pen_key start key_enter p
unfolding pen_byte pen_key
pen_enter start p = elim (Bool-cases (leb 50 p.y)) [
  | inl low ↦ rw (low) (rw (low) refl)
  | inr inside ↦ rw (inside) (rw (inside) refl)
]

pen_other :
    (start key : ℕ) (p : Page)
    → (key == key_enter) ≡ false
    → pen_byte start (key % 256) p ≡ pen_key start key p
unfolding pen_key
pen_other start key p other = rw (other) refl

pen_same :
    (start key : ℕ) (p : Page)
    → (key == key_enter) ≡ true
    → pen_key start key_enter p ≡ pen_key start key p
unfolding pen_key
pen_same start key p enter = rw (enter) refl

module _ (draw_char : Console → ℕ → Video → Video) where
  echo_key-Shows :
      (i key : ℕ) (before : ℕ → Console) (s : Terminals) (p : Page)
      → cur_console s ≡ i
      → Shows i before s.console_table s.video p
      → let s' = echo_key draw_char key s in
        Shows i before s'.console_table s'.video (pen_key (window_start i) key p)
        × (cur_console s' ≡ i)
  unfolding echo_key
  echo_key-Shows i key before s p here h =
      let start = window_start i in
      elim (Bool-cases (key == key_enter)) [
        | inl enter ↦
            let s1 = print_char_on draw_char i 0xd s in
            let one = print_char_on-Shows draw_char i 0xd before s p h in
            let two = print_char_on-Shows draw_char i 0xa before s1 (pen_byte start 0xd p) one in
            let e = pen_enter start p ∙ pen_same start key p enter in
            rw (enter, here)
              (record { fits = two.fits; shown = two.shown ∙ e; others = two.others }, refl)
        | inr other ↦
            let one = print_char_on-Shows draw_char i (key % 256) before s p h in
            rw (other, here)
              (
                record {
                  fits = one.fits;
                  shown = one.shown ∙ pen_other start key p other;
                  others = one.others;
                },
                refl,
              )
      ]

  echo_all-Shows :
      (keys : List ℕ) (i : ℕ) (before : ℕ → Console) (s : Terminals) (p : Page)
      → cur_console s ≡ i
      → Shows i before s.console_table s.video p
      → let s' = echo_all draw_char keys s in
        Shows i before s'.console_table s'.video (typewrite (window_start i) keys p)
  unfolding echo_all typewrite
  echo_all-Shows [] i before s p here h = h
  echo_all-Shows (key ∷ keys) i before s p here h =
      let (one, still) = echo_key-Shows i key before s p here h in
      echo_all-Shows keys i before (echo_key draw_char key s) (pen_key (window_start i) key p) still
        one

  -- If `q` are the keys that wait, in a ring that is in order, for the echo of terminal `t`, and
  -- the terminal that is shown has a text console that fits its window, then as many rounds of the
  -- write of `t` type exactly these keys, in their order, at the cursor of that console: the enter
  -- key starts a new line, any other key writes its low byte (a printable one into the cell of the
  -- cursor, over the end of a line), and below line 49 nothing is written. The cursor and every
  -- byte of the screen are those of the typed page, the other consoles are as they were, and no
  -- key waits any more.
  pub write_rounds-typewrite :
      (t : ℕ) (q : List ℕ) (s : Terminals)
      → IsValid tty_in_bytes_num (inbuf_of t s)
      → contents tty_in_bytes_num (inbuf_of t s) ≡ q
      → Fits (cur_console s) (s.console_table (cur_console s))
      → let i = cur_console s in
        let s' = write_rounds draw_char t (length q) s in
        Shows i s.console_table s'.console_table s'.video
          (typewrite (window_start i) q (page (s.console_table i) s.video))
        × (contents tty_in_bytes_num (inbuf_of t s') ≡ [])
  write_rounds-typewrite t q s valid waiting f =
      let i = cur_console s in
      let p = page (s.console_table i) s.video in
      let ((consoles, video), gone) = write_rounds-echo_all draw_char t q s valid waiting in
      let typed =
        echo_all-Shows q i s.console_table s p refl
          (record { fits = f; shown = refl; others = λ j ne. refl }) in
      (rw (consoles, video) typed, gone)
