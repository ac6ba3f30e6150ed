-- ===== src/Tty/Switching.antt =====
-- The left alt key and a function key choose the terminal that is shown.
use simple_os.Base.{
  ℕ, zero, suc, ◌+◌, ◌-◌, ◌<◌, ◌≡◌, refl, ap, ◌∙◌, arith, true, ◌&&◌, List, ◌∷◌, ◌==◌, ==_iff, ltb,
  leb, Bool-cases, inl, inr,
}
use simple_os.Ring.{fetch}
use simple_os.Ring.Window.{contents}
use simple_os.Keyboard.{kb_num, press, KeyStatus, decode}
use simple_os.Keyboard.Keymap.{key_f1, key_alt_l}
use simple_os.Console.{Console, Video, console_num}
use simple_os.Tty.{Terminals, tty_num, select_tty, refresh, print_banner, show_console}
use simple_os.Tty.Input.{
  Desk, keyboard_read, switch_key, let_alt, select, switch_mode, clear_consoles, text_mode,
}
use simple_os.Tty.Reading.{first_code, keyboard_read-first, reads_of}

module _ (draw_char : Console → ℕ → Video → Video) (set_mode : ℕ → Video → Video)
    (picture : Video → Video) where
  clear_consoles-cur_tty_index :
      (left i : ℕ) (s : Terminals)
      → (clear_consoles draw_char set_mode picture left i s).cur_tty_index ≡ s.cur_tty_index
  unfolding clear_consoles
  clear_consoles-cur_tty_index zero i s = refl
  clear_consoles-cur_tty_index (suc left) i s = clear_consoles-cur_tty_index left (i + 1) _

  switch_mode-text :
      (s : Desk)
      → ((switch_mode draw_char set_mode picture text_mode s).vga_mode ≡ text_mode)
        × ((switch_mode draw_char set_mode picture text_mode s).terminals.cur_tty_index
            ≡ s.terminals.cur_tty_index)
        × ((switch_mode draw_char set_mode picture text_mode s).kb_buf ≡ s.kb_buf)
  unfolding switch_mode
  switch_mode-text s = elim (Bool-cases (s.vga_mode == text_mode)) [
    | inl text ↦ rw (text) ((==_iff s.vga_mode text_mode).0 text, refl, refl)
    | inr graphic ↦ rw (graphic) (refl, clear_consoles-cur_tty_index (console_num - 1) 0 _, refl)
  ]

  select_tty-cur_tty_index :
      (t : ℕ) (s : Terminals)
      → s.cur_tty_index < tty_num
      → (select_tty draw_char t s).1.cur_tty_index ≡ t
  unfolding select_tty refresh print_banner show_console
  select_tty-cur_tty_index t s h =
      let inside : ltb s.cur_tty_index tty_num ≡ true = ground arith in
      elim (Bool-cases (ltb t 3)) [ inl y ↦ rw (inside, y) refl | inr n ↦ rw (inside, n) refl ]

  -- A function key from F1 to F3 while alt is held.
  switch_key-function :
      (i t : ℕ) (status : KeyStatus) (s : Desk)
      → s.alt_l ≡ 1
      → status.press ≡ press
      → status.key ≡ key_f1 + t
      → t < 3
      → switch_key draw_char set_mode picture i status s
        ≡ let_alt 0 (
            select draw_char set_mode picture t
              (switch_mode draw_char set_mode picture text_mode s))
  unfolding switch_key
  switch_key-function i t status s alt down key h =
      let in_range : (leb key_f1 status.key && ltb status.key (key_f1 + 3)) ≡ true =
        ground (arith, key) in
      let at : status.key - key_f1 ≡ t = omega (arith, key) in rw (in_range, alt, down, at) refl

  switch_key-alt :
      (i : ℕ) (status : KeyStatus) (s : Desk)
      → status.key ≡ key_alt_l
      → switch_key draw_char set_mode picture i status s ≡ let_alt 1 s
  unfolding switch_key
  switch_key-alt i status s key = rw (key) refl

  -- Two reads of a code of the left alt key, be it a press or a release, and a press of F1, F2 or F3
  -- show terminal 0, 1 or 2 in text mode, if one of the terminals was shown before; alt is then taken
  -- to be up, and the codes behind these two are left.
  pub reads_of-select :
      (i t a f : ℕ)
      → (rest : List ℕ) → (s : Desk) → contents kb_num s.kb_buf ≡ a ∷ f ∷ rest
      → (decode 0 a).key ≡ key_alt_l
      → (decode 0 f).press ≡ press
      → (decode 0 f).key ≡ key_f1 + t
      → t < 3
      → s.terminals.cur_tty_index < tty_num
      → let s' = reads_of draw_char set_mode picture i 2 s in
        (s'.terminals.cur_tty_index ≡ t)
        × (s'.vga_mode ≡ text_mode)
        × (s'.alt_l ≡ 0)
        × (contents kb_num s'.kb_buf ≡ rest)
  unfolding reads_of
  reads_of-select i t a f rest s e alt down key h shown =
      let (some, head, tail) = first_code s.kb_buf a (f ∷ rest) e in
      let s1 = let_alt 1 (record s { kb_buf = (fetch kb_num s.kb_buf).1 }) in
      let read1 : keyboard_read draw_char set_mode picture i s ≡ s1 =
        keyboard_read-first draw_char set_mode picture i s a (f ∷ rest) e
        ∙ switch_key-alt i (decode 0 a) (record s { kb_buf = (fetch kb_num s.kb_buf).1 }) alt in
      let (some1, head1, tail1) = first_code s1.kb_buf f rest tail in
      let s2 = record s1 { kb_buf = (fetch kb_num s1.kb_buf).1 } in
      let read2 =
        keyboard_read-first draw_char set_mode picture i s1 f rest tail
        ∙ switch_key-function i t (decode 0 f) s2 refl down key h in
      let (text, same, codes) = switch_mode-text s2 in
      rw (read1, read2)
        (
          select_tty-cur_tty_index t (switch_mode draw_char set_mode picture text_mode s2).terminals
              (omega (arith, same)),
          text,
          refl,
          ap (contents kb_num) codes ∙ tail1,
        )
