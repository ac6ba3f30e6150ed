-- ===== src/Tty.antt =====
-- The terminals of tty/tty.c: each has a ring of 256 keys that wait for their echo, and a console.
pub mod Echo
pub mod Shown
pub mod Typewriter
pub mod Select
pub mod Input
pub mod Stored
pub mod Reading
pub mod Switching
mod Tests
use simple_os.Base.{
  ℕ, get_or, zero, suc, ◌+◌, ◌-◌, ◌*◌, ◌/◌, ◌%◌, ◌^◌, Bool, true, false, List, [], ◌∷◌, Option,
  none, some, ◌==◌, if◌then◌else◌, ltb,
}
use simple_os.Kernel.{update}
use simple_os.Ring.{Ring, put, fetch}
use simple_os.Keyboard.Keymap.{key_enter}
use simple_os.Stdio.Screen.{screen, s32_put_char}
use simple_os.Console.{
  Console, Video, set_xy, set_cursor, set_video_start_addr, s32_console_print_char,
  s32_console_print_str,
}

abbrev pub tty_in_bytes_num : ℕ
tty_in_bytes_num = 256

abbrev pub tty_num : ℕ
tty_num = 4

-- `console` is an index of `console_table`.
pub record Tty : Type 0 where
  pub inbuf : Ring
  pub ready : ℕ
  pub console : ℕ

-- `tty_table`, `cur_tty_index`, `console_table` and the video card.
pub record Terminals : Type 0 where
  pub tty_table : ℕ → Tty
  pub cur_tty_index : ℕ
  pub console_table : ℕ → Console
  pub video : Video

-- The buffer and console of terminal `tty_index`.
unfoldable pub init_tty : ℕ → Terminals → Terminals
init_tty tty_index s =
    let tty = s.tty_table tty_index in
    let inbuf : Ring = record tty.inbuf { head = 0; tail = 0; count = 0 } in
    record s {
      tty_table =
          update s.tty_table tty_index (record { inbuf = inbuf; ready = 1; console = tty_index });
    }

-- Where `put_key` shows the key on the screen.
abbrev pub key_cell : ℕ
key_cell = screen + 160 * 20

-- For terminal `i`.
unfoldable pub put_key : ℕ → ℕ → Terminals → Terminals
unfolding put
put_key i key s =
    let tty = s.tty_table i in
    if ltb tty.inbuf.count tty_in_bytes_num
    then record s {
      video = record (s.video) { vram = s32_put_char key key_cell s.video.vram };
      tty_table = update s.tty_table i (record tty { inbuf = put tty_in_bytes_num tty.inbuf key });
    }
    else s

-- Takes a byte out, but leaves `inbuf_tail` where it is. `none` stands for -1.
unfoldable pub get_data_from_tty_buf : Ring → Option ℕ × Ring
get_data_from_tty_buf inbuf = if inbuf.count == 0 then (none, inbuf) else (
  some (get_or inbuf.buf inbuf.tail 0 % 256),
  record inbuf {
    tail = if inbuf.tail == tty_in_bytes_num then 0 else inbuf.tail;
    count = inbuf.count - 1;
  },
)

-- The console of the terminal that is shown.
abbrev pub cur_console : Terminals → ℕ
cur_console s = (s.tty_table s.cur_tty_index).console

-- "simple os tty "
abbrev pub title : List ℕ
title =
    0x73 ∷ 0x69 ∷ 0x6d ∷ 0x70 ∷ 0x6c ∷ 0x65 ∷ 0x20 ∷ 0x6f ∷ 0x73 ∷ 0x20 ∷ 0x74 ∷ 0x74 ∷ 0x79 ∷ 0x20
    ∷ []

-- "\r\nfake login: "
abbrev pub login : List ℕ
login =
    0xd ∷ 0xa ∷ 0x66 ∷ 0x61 ∷ 0x6b ∷ 0x65 ∷ 0x20 ∷ 0x6c ∷ 0x6f ∷ 0x67 ∷ 0x69 ∷ 0x6e ∷ 0x3a ∷ 0x20
    ∷ []

abbrev pub set_xy_on : ℕ → ℕ → ℕ → Terminals → Terminals
set_xy_on i x y s = record s {
  console_table = update s.console_table i (set_xy (s.console_table i) x y);
}

-- The last lines: the card shows the window of console `i`, and the cursor of the text.
unfoldable pub show_console : ℕ → ℕ → ℕ → Terminals → Terminals
unfolding set_cursor set_video_start_addr
show_console i x y s =
    let start = ((s.console_table i).vm_start + 2 ^ 32 - 0xb8000) % 2 ^ 32 / 2 % 2 ^ 16 in
    record s { video = set_cursor (start + x + y * 80) (set_video_start_addr start s.video) }

module _ (draw_char : Console → ℕ → Video → Video) where
  abbrev pub print_char_on : ℕ → ℕ → Terminals → Terminals
  print_char_on i ch s =
      let (console, video) = s32_console_print_char draw_char (s.console_table i) ch s.video in
      record s { console_table = update s.console_table i console; video = video }

  abbrev pub print_str_on : ℕ → List ℕ → Terminals → Terminals
  print_str_on i str s =
      let (console, video) = s32_console_print_str draw_char (s.console_table i) str s.video in
      record s { console_table = update s.console_table i console; video = video }

  -- `switch (ch)`: a key is narrowed to the `u8` that is printed.
  unfoldable pub echo_key : ℕ → Terminals → Terminals
  echo_key ch s =
      if ch == key_enter
      then print_char_on (cur_console s) 0xa (print_char_on (cur_console s) 0xd s)
      else print_char_on (cur_console s) (ch % 256) s

  unfoldable pub tty_do_write : ℕ → Terminals → Terminals
  unfolding fetch echo_key
  tty_do_write i s =
      let tty = s.tty_table i in
      if tty.inbuf.count == 0
      then s
      else (let (ch, inbuf) = fetch tty_in_bytes_num tty.inbuf in
          echo_key ch
            (record s { tty_table = update s.tty_table i (record tty { inbuf = inbuf }) }))

  -- `tty_write`, with the bytes of the buffer as a list.
  unfoldable pub tty_write : ℕ → List ℕ → Terminals → Terminals
  tty_write i [] s = s
  tty_write i (ch ∷ buf) s =
      let tty = s.tty_table i in
      tty_write i buf (if tty.ready == 1 then print_char_on tty.console ch s else s)

  -- The number of the terminal: '1', '2', '3', or nothing.
  abbrev pub print_number : ℕ → ℕ → Terminals → Terminals
  print_number i index s = if ltb index 3 then print_char_on i (0x31 + index) s else s

  -- What `select_tty` writes on console `i`, which is that of terminal `index`.
  unfoldable pub print_banner : ℕ → ℕ → Terminals → Terminals
  print_banner i index s =
      print_str_on i (0xd ∷ 0xa ∷ 0xd ∷ 0xa ∷ [])
        (print_str_on i login (print_number i index (print_str_on i title (set_xy_on i 0 0 s))))

  -- `select_tty` after its first test.
  unfoldable pub refresh : Terminals → Terminals
  unfolding print_banner show_console
  refresh s =
      let i = cur_console s in
      let x = (s.console_table i).cur_x in
      let y = (s.console_table i).cur_y in
      show_console i x y (set_xy_on i x y (print_banner i s.cur_tty_index s))

  -- The first component is whether 0 is returned, and not -1. The test is on the terminal that was
  -- shown before.
  unfoldable pub select_tty : ℕ → Terminals → Bool × Terminals
  unfolding refresh
  select_tty tty_index s =
      let accepted = ltb s.cur_tty_index tty_num in
      (accepted, refresh (if accepted then record s { cur_tty_index = tty_index } else s))
