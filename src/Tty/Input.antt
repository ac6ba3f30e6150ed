-- ===== src/Tty/Input.antt =====
-- What the terminal task does with the keyboard: `keyboard_read` and `switch_mode` of tty/keyboard.c,
-- and `tty_do_read` and `task_tty` of tty/tty.c. Arguments of the functions are what the VGA card
-- does when its mode is set, the picture that is drawn on the graphic screen, and the drawing of a
-- character there.
use simple_os.Base.{
  ℕ, zero, suc, ◌+◌, ◌-◌, ◌*◌, ◌%◌, ◌^◌, ◌&&◌, ◌||◌, ◌==◌, if◌then◌else◌, ltb, leb, Option, none,
  some,
}
use simple_os.Kernel.{update}
use simple_os.Ring.{Ring, fetch}
use simple_os.Stdio.Screen.{screen, s32_print_int}
use simple_os.Keyboard.{kb_num, press, KeyStatus, decode}
use simple_os.Keyboard.Keymap.{key_f1, key_f6, key_alt_l}
use simple_os.Console.{Console, Video, console_num, init_console}
use simple_os.Console.Clear.{clear_console}
use simple_os.Tty.{
  Terminals, tty_num, get_data_from_tty_buf, init_tty, put_key, select_tty, tty_do_write,
}

abbrev pub text_mode : ℕ
text_mode = 0

abbrev pub vga_320x200x256 : ℕ
vga_320x200x256 = 1

-- The variables that the task works on: the ring of scan codes, whether alt is held, the mode of the
-- card, the rounds of the task so far, which are its variable `i`, and the terminals.
pub record Desk : Type 0 where
  pub kb_buf : Ring
  pub alt_l : ℕ
  pub vga_mode : ℕ
  pub rounds : ℕ
  pub terminals : Terminals

abbrev pub store_key : ℕ → ℕ → Desk → Desk
store_key i key s = record s { terminals = put_key i key s.terminals }

abbrev pub let_alt : ℕ → Desk → Desk
let_alt alt s = record s { alt_l = alt }

module _ (draw_char : Console → ℕ → Video → Video) (set_mode : ℕ → Video → Video)
    (picture : Video → Video) where
  -- The loop of `switch_mode` over the text consoles from `i` on, `left` of them.
  unfoldable pub clear_consoles : ℕ → ℕ → Terminals → Terminals
  clear_consoles zero i s = s
  clear_consoles (suc left) i s =
      let (console, video) = clear_console draw_char (s.console_table i) s.video in
      clear_consoles left (i + 1)
        (record s { console_table = update s.console_table i console; video = video })

  abbrev pub set_card : ℕ → Desk → Desk
  set_card mode s = record s {
    vga_mode = mode;
    terminals = record (s.terminals) { video = set_mode mode s.terminals.video };
  }

  unfoldable pub switch_mode : ℕ → Desk → Desk
  switch_mode mode s =
      if mode == text_mode
      then (if s.vga_mode == text_mode
          then s
          else (let s1 = set_card text_mode s in
              record s1 { terminals = clear_consoles (console_num - 1) 0 s1.terminals }))
      else if mode == vga_320x200x256
      then (if s.vga_mode == vga_320x200x256 then s else set_card vga_320x200x256 s)
      else s

  abbrev pub select : ℕ → Desk → Desk
  select tty_index s = record s { terminals = (select_tty draw_char tty_index s.terminals).1 }

  -- `switch (key_status.key)`, for terminal `i`. The two last cases do the same.
  unfoldable pub switch_key : ℕ → KeyStatus → Desk → Desk
  switch_key i status s =
      let pressed = status.press == press in
      let alt = s.alt_l == 1 && pressed in
      if leb key_f1 status.key && ltb status.key (key_f1 + 3)
      then let_alt 0 (if alt then select (status.key - key_f1) (switch_mode text_mode s) else s)
      else if status.key == key_f6
      then let_alt 0 (
          if alt
          then (let s1 = switch_mode vga_320x200x256 (select 3 s) in
              record s1 {
                terminals = record (s1.terminals) { video = picture s1.terminals.video };
              })
          else s)
      else if status.key == key_alt_l
      then let_alt 1 s
      else let_alt 0 (if pressed then store_key i status.key s else s)

  -- The column of the key map is always 0 here.
  unfoldable pub keyboard_read : ℕ → Desk → Desk
  keyboard_read i s =
      if ltb 0 s.kb_buf.count
      then (let (scan_code, kb_buf) = fetch kb_num s.kb_buf in
          switch_key i (decode 0 scan_code) (record s { kb_buf = kb_buf }))
      else s

  unfoldable pub tty_do_read : ℕ → Desk → Desk
  tty_do_read i s = if i == s.terminals.cur_tty_index then keyboard_read i s else s

  abbrev pub write_echo : ℕ → Desk → Desk
  write_echo i s = record s { terminals = tty_do_write draw_char i s.terminals }

  -- The loop over the terminals from `i` on, `left` of them.
  unfoldable pub turn_loop : ℕ → ℕ → Desk → Desk
  turn_loop zero i s = s
  turn_loop (suc left) i s =
      turn_loop left (i + 1)
        (if (s.terminals.tty_table i).ready == 1 then write_echo i (tty_do_read i s) else s)

  -- The number of the round, on line 23 of the screen.
  abbrev pub count_round : Desk → Desk
  count_round s =
      let terminals = s.terminals in
      let video = terminals.video in
      record s {
        rounds = (s.rounds + 1) % 2 ^ 32;
        terminals = record terminals {
          video = record video { vram = s32_print_int s.rounds (screen + 160 * 23) 10 video.vram };
        };
      }

  -- One round of the `while` of `task_tty`.
  unfoldable pub task_tty : Desk → Desk
  unfolding s32_print_int
  task_tty s = turn_loop tty_num 0 (count_round s)

  -- What `task_tty` does before.
  unfoldable pub init_ttys : ℕ → ℕ → Terminals → Terminals
  init_ttys zero i s = s
  init_ttys (suc left) i s = init_ttys left (i + 1) (init_tty i s)

  unfoldable pub task_tty_start : Terminals → Terminals
  task_tty_start s =
      (select_tty draw_char 0 (
        init_ttys tty_num 0
          (record s { console_table = λ i. init_console i (s.console_table i) }))).1

-- `scan_code`, with the word of -1 when the terminal has none.
abbrev pub code_word : Option ℕ → ℕ
code_word none = 2 ^ 32 - 1
code_word (some code) = code

-- `parse_key`, for the ring of the terminal: the ring then and `*key_status`.
unfoldable pub parse_key : Ring → KeyStatus → Ring × KeyStatus
parse_key inbuf status =
    let (scan_code, inbuf1) = get_data_from_tty_buf inbuf in
    let code = code_word scan_code in
    if code == 2 ^ 32 - 1 || code == 0xe1
    then (inbuf1, status)
    else if code == 0xe0
    then (let (second, inbuf2) = get_data_from_tty_buf inbuf1 in
        (inbuf2, decode 0 (code_word second)))
    else (inbuf1, decode 0 code)
