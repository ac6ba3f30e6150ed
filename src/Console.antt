-- ===== src/Console.antt =====
-- The consoles of tty/console.c: three windows of 80 columns in the text memory of the video card,
-- and a fourth on its graphic memory. What the drawing functions of vga/draw_func.c do to the screen
-- is an argument.
pub mod Window
pub mod Printing
pub mod Pen
pub mod Clear
mod Tests
use simple_os.Base.{
  ℕ, zero, suc, ◌+◌, ◌-◌, ◌*◌, ◌/◌, ◌%◌, ◌^◌, Bool, ◌&&◌, List, [], ◌∷◌, ◌++◌, ◌==◌, if◌then◌else◌,
  ltb, leb,
}
use simple_os.Kernel.{update}

abbrev pub con_w : ℕ
con_w = 80

abbrev pub console_num : ℕ
console_num = 4

-- (0xc0000-0xb8000) / (CONSOLE_NUM-1)
abbrev pub video_ram_size : ℕ
video_ram_size = (0xc0000 - 0xb8000) / 3

abbrev pub text_console : ℕ
text_console = 0

abbrev pub graphic_console : ℕ
graphic_console = 1

-- The field `vm_end` of the source is left out: nothing reads or writes it.
pub record Console : Type 0 where
  pub vm_start : ℕ
  pub cur_vm : ℕ
  pub cur_x : ℕ
  pub cur_y : ℕ
  pub type : ℕ

-- The memory at each address, and the bytes that went to the ports, in order.
pub record Video : Type 0 where
  pub vram : ℕ → ℕ
  pub ports : List (ℕ × ℕ)

-- Entry `i` of `console_table` after `init_console`, given what stood there before.
unfoldable pub init_console : ℕ → Console → Console
init_console i console =
    if ltb i (console_num - 1)
    then (let vm_start = 0xb8000 + i * video_ram_size in
        record {
          vm_start = vm_start;
          cur_vm = vm_start;
          cur_x = 0;
          cur_y = 2;
          type = text_console;
        })
    else record console { type = graphic_console; cur_vm = 0xa0000; vm_start = 0xa0000 }

abbrev pub io_out8 : ℕ → ℕ → Video → Video
io_out8 port byte v = record v { ports = v.ports ++ ((port, byte) ∷ []) }

-- The index of a register of the card goes to port 0x3d4, and its value to 0x3d5.
abbrev pub crtc_pair : ℕ → ℕ → ℕ → Video → Video
crtc_pair high low word v =
    io_out8 0x3d5 (word % 256)
      (io_out8 0x3d4 low (io_out8 0x3d5 (word / 256 % 256) (io_out8 0x3d4 high v)))

-- The arguments of both are `u16`.
unfoldable pub set_cursor : ℕ → Video → Video
set_cursor pos v = crtc_pair 0xe 0xf (pos % 2 ^ 16) v

unfoldable pub set_video_start_addr : ℕ → Video → Video
set_video_start_addr addr v = crtc_pair 0xc 0xd (addr % 2 ^ 16) v

abbrev pub set_xy : Console → ℕ → ℕ → Console
set_xy console x y = record console { cur_x = x; cur_y = y }

abbrev pub is_printable : ℕ → Bool
is_printable ch = leb 0x20 ch && leb ch 0x7e

-- The cell of the cursor, counted from the start of the window.
abbrev pub cell : Console → ℕ
cell console = console.cur_x + console.cur_y * 80

-- The address of the cursor's cell.
abbrev pub cell_address : Console → ℕ
cell_address console = (console.vm_start + cell console * 2) % 2 ^ 32

-- `++cur_x`, and on to the next line at the end of this one.
abbrev pub step_right : Console → Console
step_right console =
    let x = (console.cur_x + 1) % 2 ^ 32 in
    if leb 80 x
    then record console { cur_x = 0; cur_y = (console.cur_y + 1) % 2 ^ 32 }
    else record console { cur_x = x }

-- Both bytes of the cursor's cell.
unfoldable pub store_char : Console → ℕ → Video → Video
store_char console ch v =
    let a = cell_address console in
    record v { vram = update (update v.vram a ch) ((a + 1) % 2 ^ 32) 7 }

-- `switch (ch)`
unfoldable pub switch_char : Console → ℕ → Video → Console × Video
unfolding store_char
switch_char console ch v =
    if ch == 0xd
    then (record console { cur_x = 0 }, v)
    else (if ch == 0xa
        then (record console { cur_y = (console.cur_y + 1) % 2 ^ 32 }, v)
        else (if is_printable ch
            then (step_right console, store_char console ch v)
            else (console, v)))

-- What follows the switch: the registers of the card and `cur_vm`.
unfoldable pub show_cursor : Console → Video → Console × Video
unfolding set_cursor set_video_start_addr
show_cursor console v =
    let scrolled =
      if leb 25 console.cur_y then set_video_start_addr (80 * (console.cur_y - 24)) v else v in
    let base = (console.vm_start + 2 ^ 32 - 0xb8000) % 2 ^ 32 / 2 in
    (record console { cur_vm = cell_address console }, set_cursor (base + cell console) scrolled)

-- The text part of `s32_console_print_char`.
unfoldable pub print_text : Console → ℕ → Video → Console × Video
unfolding switch_char show_cursor
print_text console ch v =
    if leb 50 console.cur_y
    then (console, v)
    else (let (console', v') = switch_char console ch v in show_cursor console' v')

module _ (draw_char : Console → ℕ → Video → Video) where
  -- `ch` is a `u8`.
  unfoldable pub s32_console_print_char : Console → ℕ → Video → Console × Video
  unfolding print_text
  s32_console_print_char console ch v =
      if console.type == graphic_console
      then (let x = (console.cur_x + 8) % 2 ^ 32 in
          (
            if leb 320 x
                then record console { cur_x = 0; cur_y = (console.cur_y + 16) % 2 ^ 32 }
                else record console { cur_x = x },
            draw_char console ch v,
          ))
      else print_text console ch v

  -- The list holds the bytes of the string; the first 0, or the end of the list, ends it.
  unfoldable pub s32_console_print_str : Console → List ℕ → Video → Console × Video
  s32_console_print_str console [] v = (console, v)
  s32_console_print_str console (ch ∷ str) v =
      let (console', v') = s32_console_print_char console ch v in
      let rest = s32_console_print_str console' str v' in if ch == 0 then (console, v) else rest
