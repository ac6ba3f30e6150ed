-- ===== src/Console/Tests.antt =====
-- The consoles on concrete strings.
use simple_os.Base.{ℕ, ◌+◌, ◌*◌, ◌≡◌, arith, List, [], ◌∷◌, length}
use simple_os.Console.{Console, Video, init_console, cell, s32_console_print_str}
use simple_os.Console.Window.{Fits, init_console-Fits, Outside, s32_console_print_str-Outside}
use simple_os.Console.Clear.{clear_console, Blanked, clear_console-Blanked}
use simple_os.Console.Printing.{nothing, next, paint, s32_console_print_str-paint}

abbrev blank : Video
blank = record { vram = λ a. 0; ports = [] }

abbrev unset : Console
unset = record { vm_start = 0; cur_vm = 0; cur_x = 0; cur_y = 0; type = 0 }

abbrev second : Console
second = init_console 1 unset

abbrev no_drawing : Console → ℕ → Video → Video
no_drawing console ch v = v

abbrev text : List ℕ
text = 0x4f ∷ 0x4b ∷ 0xd ∷ 0xa ∷ []

abbrev ok : List ℕ
ok = 0x4f ∷ 0x4b ∷ []

second-Fits : Fits 1 second
second-Fits = init_console-Fits 1 unset (omega arith)

s32_console_print_str-Outside_example :
    let (console', v') = s32_console_print_str no_drawing second text blank in
    Fits 1 console' × ((a : ℕ) → Outside 1 a → v'.vram a ≡ blank.vram a)
s32_console_print_str-Outside_example =
    s32_console_print_str-Outside no_drawing 1 text second blank second-Fits

s32_console_print_str-paint_example :
    let (console', v') = s32_console_print_str no_drawing second ok blank in
    Fits 1 console'
    × ((cell console' ≡ cell second + length ok)
        × (v'.vram ≡ paint (second.vm_start + cell second * 2) ok blank.vram))
unfolding init_console
s32_console_print_str-paint_example =
    s32_console_print_str-paint no_drawing 1 ok second blank
      (next (omega arith) (omega arith) (next (omega arith) (omega arith) nothing)) second-Fits
      (ground arith)

clear_console-Blanked_example :
    Fits 1 (clear_console no_drawing second blank).0
    × ((clear_console no_drawing second blank).0.cur_x ≡ 0)
    × ((clear_console no_drawing second blank).0.cur_y ≡ 2)
    × Blanked 1 0 4000 blank (clear_console no_drawing second blank).1
clear_console-Blanked_example = clear_console-Blanked no_drawing 1 second blank second-Fits
