-- ===== src/Tty/Select.antt =====
-- `select_tty` shows another terminal, and writes its banner on the first lines of its console.
use simple_os.Base.{
  ℕ, ◌+◌, ◌-◌, ◌*◌, ◌/◌, ◌%◌, ◌^◌, ◌<◌, ◌≤◌, ◌≡◌, ◌≢◌, refl, ap, ◌∙◌, arith, true, List, [], ◌∷◌,
  ◌++◌, inl, inr, Bool, Bool-cases, ==_self, ==_ne, if◌then◌else◌, ltb,
}
use simple_os.Console.{Console, Video, set_xy, set_cursor, set_video_start_addr}
use simple_os.Console.Window.{Fits, window_start}
use simple_os.Console.Pen.{Page, page, pen_text, pen_text-append}
use simple_os.Tty.{
  Terminals, cur_console, print_str_on, print_number, print_banner, refresh, select_tty, title,
  login, set_xy_on, show_console,
}
use simple_os.Tty.Shown.{Shows, print_char_on-Shows, print_str_on-Shows}

-- The text of the banner of terminal `index`: "simple os tty ", its number if it has one, and behind a
-- line break "fake login: ".
abbrev pub number : ℕ → List ℕ
number index = if ltb index 3 then (0x31 + index) ∷ [] else []

abbrev breaks : List ℕ
breaks = 0xd ∷ 0xa ∷ 0xd ∷ 0xa ∷ []

abbrev pub banner : ℕ → List ℕ
banner index = title ++ (number index ++ (login ++ breaks))

-- The pen in the first cell of a window.
abbrev pub top : Video → Page
top v = record { x = 0; y = 0; vram = v.vram }

-- What the registers of the card must be told to show the window of text console `i`, with the cursor
-- in column `x` of line `y`: the first cell of the screen and the cell of the cursor, high byte
-- first, each behind the index of its register.
abbrev pub registers : ℕ → ℕ → ℕ → List (ℕ × ℕ)
registers i x y =
    let first = i * 5461 in
    let cursor = first + x + y * 80 in
    (0x3d4, 0xc)
    ∷ (0x3d5, first / 256)
    ∷ (0x3d4, 0xd)
    ∷ (0x3d5, first % 256)
    ∷ (0x3d4, 0xe)
    ∷ (0x3d5, cursor / 256)
    ∷ (0x3d4, 0xf)
    ∷ (0x3d5, cursor % 256)
    ∷ []

-- Terminal `index` with the text console `i` is shown, by the last registers that were written. The
-- banner stands from the first cell of the window on, and that is all that has changed on the screen;
-- the cursor is where it was, and the other consoles are as they were.
pub record Refreshed (i index : ℕ) (s s' : Terminals) : Type 0 where
  pub shown : cur_console s' ≡ i
  pub fits : Fits i (s'.console_table i)
  pub screen : s'.video.vram ≡ (pen_text (window_start i) (banner index) (top s.video)).vram
  pub card :
      (earlier : List (ℕ × ℕ)) × (s'.video.ports
        ≡ earlier ++ registers i (s.console_table i).cur_x (s.console_table i).cur_y)
  pub same_x : (s'.console_table i).cur_x ≡ (s.console_table i).cur_x
  pub same_y : (s'.console_table i).cur_y ≡ (s.console_table i).cur_y
  pub others : (j : ℕ) → i ≢ j → s'.console_table j ≡ s.console_table j

-- Eight writes to ports, one after the other.
eight_writes :
    (ports : List (ℕ × ℕ)) (a b c d e f g h : ℕ × ℕ)
    → (((((((ports ++ (a ∷ [])) ++ (b ∷ [])) ++ (c ∷ [])) ++ (d ∷ [])) ++ (e ∷ [])) ++ (f ∷ []))
          ++ (g ∷ []))
        ++ (h ∷ [])
      ≡ ports ++ (a ∷ b ∷ c ∷ d ∷ e ∷ f ∷ g ∷ h ∷ [])
eight_writes [] a b c d e f g h = refl
eight_writes (x ∷ ports) a b c d e f g h = ap (λ l. x ∷ l) (eight_writes ports a b c d e f g h)

show_console-video :
    (i x y : ℕ) (s : Terminals)
    → Fits i (s.console_table i)
    → x < 80
    → y ≤ 50
    → ((show_console i x y s).video.vram ≡ s.video.vram)
      × ((show_console i x y s).video.ports ≡ s.video.ports ++ registers i x y)
unfolding show_console set_cursor set_video_start_addr
show_console-video i x y s f hx hy =
    let place : (s.console_table i).vm_start ≡ window_start i = f.start in
    let few = f.index in
    let first : ((s.console_table i).vm_start + 2 ^ 32 - 0xb8000) % 2 ^ 32 / 2 % 2 ^ 16 ≡ i * 5461 =
      omega (arith, place, few) in
    let w1 : (i * 5461) % 2 ^ 16 ≡ i * 5461 = omega (arith, few) in
    let w2 : (i * 5461 + x + y * 80) % 2 ^ 16 ≡ i * 5461 + x + y * 80 = omega (arith, few) in
    let b1 : i * 5461 / 256 % 256 ≡ i * 5461 / 256 = omega (arith, few) in
    let b2 : (i * 5461 + x + y * 80) / 256 % 256 ≡ (i * 5461 + x + y * 80) / 256 =
      omega (arith, few) in
    (refl, rw (first, w1, w2, b1, b2) (eight_writes s.video.ports _ _ _ _ _ _ _ _))

module _ (draw_char : Console → ℕ → Video → Video) where
  set_xy_on-Shows :
      (i x y : ℕ) (before : ℕ → Console) (s : Terminals) (p : Page)
      → x < 80
      → y ≤ 50
      → Shows i before s.console_table s.video p
      → let s' = set_xy_on i x y s in
        Shows i before s'.console_table s'.video (record { x = x; y = y; vram = p.vram })
  set_xy_on-Shows i x y before s p hx hy h =
      let console = set_xy (s.console_table i) x y in
      let f = h.fits in
      let kept : Fits i console = record {
        index = f.index;
        start = f.start;
        column = hx;
        row = hy;
        kind = f.kind;
      } in
      record {
        fits = rw (==_self i) kept;
        shown =
            ap (λ (b : Bool). page (if b then console else s.console_table i) s.video) (==_self i)
            ∙ ap (λ (m : ℕ → ℕ). record { x = x; y = y; vram = m }) (ap (λ q. q.vram) h.shown);
        others = λ j ne.
            ap (λ (b : Bool). if b then console else s.console_table j) (==_ne i j ne)
            ∙ h.others j ne;
      }

  print_number-Shows :
      (i index : ℕ) (before : ℕ → Console) (s : Terminals) (p : Page)
      → Shows i before s.console_table s.video p
      → let s' = print_number draw_char i index s in
        Shows i before s'.console_table s'.video (pen_text (window_start i) (number index) p)
  unfolding pen_text
  print_number-Shows i index before s p h = elim (Bool-cases (ltb index 3)) [
    | inl y ↦ rw (y) (print_char_on-Shows draw_char i (0x31 + index) before s p h)
    | inr n ↦ rw (n) h
  ]

  print_banner-Shows :
      (i index : ℕ) (s : Terminals)
      → Fits i (s.console_table i)
      → let s' = print_banner draw_char i index s in
        Shows i s.console_table s'.console_table s'.video
          (pen_text (window_start i) (banner index) (top s.video))
  unfolding print_banner
  print_banner-Shows i index s f =
      let start = window_start i in
      let before = s.console_table in
      let s0 = set_xy_on i 0 0 s in
      let h0 =
        set_xy_on-Shows i 0 0 before s (page (before i) s.video) (omega arith) (omega arith)
          (record { fits = f; shown = refl; others = λ j ne. refl }) in
      let s1 = print_str_on draw_char i title s0 in
      let p0 = top s.video in
      let h1 = print_str_on-Shows draw_char i title before s0 p0 refl h0 in
      let p1 = pen_text start title p0 in
      let s2 = print_number draw_char i index s1 in
      let h2 = print_number-Shows i index before s1 p1 h1 in
      let p2 = pen_text start (number index) p1 in
      let s3 = print_str_on draw_char i login s2 in
      let h3 = print_str_on-Shows draw_char i login before s2 p2 refl h2 in
      let h4 = print_str_on-Shows draw_char i breaks before s3 (pen_text start login p2) refl h3 in
      record {
        fits = h4.fits;
        shown =
            h4.shown
            ∙ pen_text-append start login breaks p2
            ∙ pen_text-append start (number index) (login ++ breaks) p1
            ∙ pen_text-append start title (number index ++ (login ++ breaks)) p0;
        others = h4.others;
      }

  print_banner-cur_console :
      (i index : ℕ) (s : Terminals) → cur_console (print_banner draw_char i index s) ≡ cur_console s
  unfolding print_banner
  print_banner-cur_console i index s = elim (Bool-cases (ltb index 3)) [
    | inl y ↦ rw y refl
    | inr n ↦ rw n refl
  ]

  refresh-Refreshed :
      (s : Terminals)
      → Fits (cur_console s) (s.console_table (cur_console s))
      → Refreshed (cur_console s) s.cur_tty_index s (refresh draw_char s)
  unfolding refresh show_console set_cursor set_video_start_addr
  refresh-Refreshed s f =
      let i = cur_console s in
      let x = (s.console_table i).cur_x in
      let y = (s.console_table i).cur_y in
      let p = pen_text (window_start i) (banner s.cur_tty_index) (top s.video) in
      let s1 = print_banner draw_char i s.cur_tty_index s in
      let s2 = set_xy_on i x y s1 in
      let h =
        set_xy_on-Shows i x y s.console_table s1 p f.column f.row
          (print_banner-Shows i s.cur_tty_index s f) in
      let (screen, ports) = show_console-video i x y s2 h.fits f.column f.row in
      record {
        shown = print_banner-cur_console i s.cur_tty_index s;
        fits = h.fits;
        screen = screen ∙ ap (λ q. q.vram) h.shown;
        card = (s2.video.ports, ports);
        same_x = ap (λ q. q.x) h.shown;
        same_y = ap (λ q. q.y) h.shown;
        others = h.others;
      }

  -- When one of the terminals is shown and the console of terminal `tty_index` is a text console that
  -- fits its window, then `select_tty` accepts and writes the terminal's banner, from the first cell of
  -- that window on: its title, its number, and "fake login: " on the next line. The last registers
  -- that it writes make the card show that window, with the cursor where it was. No other byte of
  -- the screen and no other console changes.
  pub select_tty-Refreshed :
      (tty_index : ℕ) (s : Terminals)
      → let i = (s.tty_table tty_index).console in
        s.cur_tty_index < 4
        → Fits i (s.console_table i)
        → let (accepted, s') = select_tty draw_char tty_index s in
          (accepted ≡ true) × Refreshed i tty_index s s'
  unfolding select_tty
  select_tty-Refreshed tty_index s h f =
      let inside : ltb s.cur_tty_index 4 ≡ true = ground arith in
      let shown : Terminals = record s { cur_tty_index = tty_index } in
      let r = refresh-Refreshed shown f in
      rw inside (
        refl,
        record {
          shown = r.shown;
          fits = r.fits;
          screen = r.screen;
          card = r.card;
          same_x = r.same_x;
          same_y = r.same_y;
          others = r.others;
        },
      )
