-- ===== src/Tty/Tests.antt =====
-- The terminals on concrete keys.
use simple_os.Base.{ℕ, ◌+◌, ◌≡◌, refl, arith, List, [], ◌∷◌, length, replicate, set}
use simple_os.Ring.{Ring}
use simple_os.Ring.Window.{contents}
use simple_os.Console.{Console, Video, init_console}
use simple_os.Tty.{Terminals, tty_in_bytes_num, select_tty}
use simple_os.Tty.Select.{Refreshed, select_tty-Refreshed}
use simple_os.Console.Window.{init_console-Fits, window_start}
use simple_os.Base.{true, inl}
use simple_os.Keyboard.{kb_num}
use simple_os.Keyboard.Keymap.{lookup_key, keymap}
use simple_os.Tty.Input.{Desk, text_mode}
use simple_os.Tty.Reading.{AllPlain, Typed, reads_of, reads_of-Typed}
use simple_os.Tty.Stored.{typed}
use simple_os.Tty.Switching.{reads_of-select}
use simple_os.Tty.Echo.{inbuf_of, write_rounds}
use simple_os.Tty.Shown.{Shows}
use simple_os.Tty.Typewriter.{typewrite, pen_key, write_rounds-typewrite}
use simple_os.Console.Pen.{page, pen_byte}

abbrev no_drawing : Console → ℕ → Video → Video
no_drawing console ch v = v

-- 'h', 'i' and the enter key wait.
abbrev typed_buf : Ring
typed_buf = record {
  buf = set (set (set (replicate 256 0) 0 0x68) 1 0x69) 2 0x1000005;
  head = 3;
  tail = 0;
  count = 3;
}

abbrev waiting : Terminals
waiting = record {
  tty_table = λ i. record { inbuf = typed_buf; ready = 1; console = i };
  cur_tty_index = 0;
  console_table =
      λ i. init_console i (record { vm_start = 0; cur_vm = 0; cur_x = 0; cur_y = 0; type = 0 });
  video = record { vram = λ a. 0; ports = [] };
}

abbrev keys : List ℕ
keys = 0x68 ∷ 0x69 ∷ 0x1000005 ∷ []

write_rounds-typewrite_example :
    let s' = write_rounds no_drawing 2 (length keys) waiting in
    Shows 0 waiting.console_table s'.console_table s'.video
      (typewrite (window_start 0) keys (page (waiting.console_table 0) waiting.video))
    × (contents tty_in_bytes_num (inbuf_of 2 s') ≡ [])
write_rounds-typewrite_example =
    write_rounds-typewrite no_drawing 2 keys waiting
      (record { storage = refl; tail_in = omega arith; count_in = omega arith; head_at = refl })
      refl
      (init_console-Fits 0 (record { vm_start = 0; cur_vm = 0; cur_x = 0; cur_y = 0; type = 0 })
        (omega arith))

-- "hi" stands in the first cells of line 2, and the cursor in the first of line 3.
two_letters_and_enter :
    let p = typewrite 0xb8000 keys (record { x = 0; y = 2; vram = λ a. 0 }) in
    (p.x ≡ 0)
    × (p.y ≡ 3)
    × (p.vram (0xb8000 + 320) ≡ 0x68)
    × (p.vram (0xb8000 + 322) ≡ 0x69)
    × (p.vram (0xb8000 + 324) ≡ 0)
unfolding typewrite pen_key pen_byte
two_letters_and_enter = (refl, refl, refl, refl, refl)

select_tty-Refreshed_example :
    let (accepted, s') = select_tty no_drawing 1 waiting in
    (accepted ≡ true) × Refreshed 1 1 waiting s'
select_tty-Refreshed_example = select_tty-Refreshed no_drawing 1 waiting (omega arith) (
    init_console-Fits 1 (record { vm_start = 0; cur_vm = 0; cur_x = 0; cur_y = 0; type = 0 })
      (omega arith))

abbrev empty_buf : Ring
empty_buf = record { buf = replicate 256 0; head = 0; tail = 0; count = 0 }

abbrev code_buf : ℕ → ℕ → ℕ → Ring
code_buf c0 c1 c2 = record {
  buf = set (set (set (replicate 32 0) 0 c0) 1 c1) 2 c2;
  head = 3;
  tail = 0;
  count = 3;
}

abbrev desk : Ring → Desk
desk codes = record {
  kb_buf = codes;
  alt_l = 0;
  vga_mode = 0;
  rounds = 0;
  terminals = record waiting {
    tty_table = λ i. record { inbuf = empty_buf; ready = 1; console = i };
  };
}

abbrev no_mode : ℕ → Video → Video
no_mode mode v = v

abbrev no_picture : Video → Video
no_picture v = v

-- "a" is pressed and released, then "s" is pressed.
a_and_s : AllPlain (0x1e ∷ 0x9e ∷ 0x1f ∷ [])
unfolding lookup_key keymap
a_and_s =
    AllPlain.plain (inl (omega arith), (λ e. omega arith), (λ e. omega arith))
      (AllPlain.plain (inl (omega arith), (λ e. omega arith), (λ e. omega arith))
        (AllPlain.plain (inl (omega arith), (λ e. omega arith), (λ e. omega arith))
          AllPlain.none_left))

reads_of-Typed_example :
    let s = desk (code_buf 0x1e 0x9e 0x1f) in
    Typed 0 (0x1e ∷ 0x9e ∷ 0x1f ∷ []) s (reads_of no_drawing no_mode no_picture 0 3 s)
unfolding lookup_key keymap typed
reads_of-Typed_example =
    reads_of-Typed no_drawing no_mode no_picture 0 (0x1e ∷ 0x9e ∷ 0x1f ∷ [])
      (desk (code_buf 0x1e 0x9e 0x1f)) a_and_s
      (record { storage = refl; tail_in = omega arith; count_in = omega arith; head_at = refl })
      refl
      (record { storage = refl; tail_in = omega arith; count_in = omega arith; head_at = refl })
      (omega arith)

-- Alt and F2.
reads_of-select_example :
    let s' = reads_of no_drawing no_mode no_picture 0 2 (desk (code_buf 0x38 0x3c 0xbc)) in
    (s'.terminals.cur_tty_index ≡ 1)
    × (s'.vga_mode ≡ text_mode)
    × (s'.alt_l ≡ 0)
    × (contents kb_num s'.kb_buf ≡ 0xbc ∷ [])
unfolding lookup_key keymap
reads_of-select_example =
    reads_of-select no_drawing no_mode no_picture 0 1 0x38 0x3c (0xbc ∷ [])
      (desk (code_buf 0x38 0x3c 0xbc)) refl refl refl refl (omega arith) (omega arith)
