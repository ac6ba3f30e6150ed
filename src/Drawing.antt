-- ===== src/Drawing.antt =====
-- The drawing functions of vga/draw_func.c, on the graphic screen of 320x200 pixels. The screen is
-- the memory at each address; images and fonts are functions from an index to a byte.
pub mod Glyph
mod Tests
use simple_os.Base.{ℕ, zero, suc, ◌+◌, ◌-◌, ◌*◌, ◌%◌, ◌^◌, List, [], ◌∷◌, ◌++◌, ◌==◌, if◌then◌else◌}
use simple_os.Base.Bits.{bit}
use simple_os.Kernel.{update}

abbrev pub y_res : ℕ
y_res = 320

abbrev pub point_address : ℕ → ℕ → ℕ
point_address x y = (0xa0000 + x + y * y_res) % 2 ^ 32

unfoldable pub draw_point : ℕ → ℕ → ℕ → (ℕ → ℕ) → ℕ → ℕ
draw_point x y c vm = update vm (point_address x y) c

-- The loop over the bits of a byte of an image, from bit `i - 1` down; `x` is where the next bit
-- goes.
unfoldable pub draw_bits : ℕ → ℕ → ℕ → ℕ → ℕ → (ℕ → ℕ) → ℕ → ℕ
unfolding draw_point
draw_bits zero c x y color vm = vm
draw_bits (suc i) c x y color vm =
    draw_bits i c (x + 1) y color (if bit c i == 1 then draw_point x y color vm else vm)

-- The rows of a glyph of 8 pixels in width, of which `n` are left; `image_addr` is the index of the
-- next byte.
unfoldable pub draw_rows : ℕ → (ℕ → ℕ) → ℕ → ℕ → ℕ → ℕ → (ℕ → ℕ) → ℕ → ℕ
unfolding draw_bits
draw_rows zero font image_addr ox y color vm = vm
draw_rows (suc n) font image_addr ox y color vm =
    draw_rows n font (image_addr + 1) ox (y + 1) color (draw_bits 8 (font image_addr) ox y color vm)

unfoldable pub draw_8x16_ch : (ℕ → ℕ) → ℕ → ℕ → ℕ → ℕ → (ℕ → ℕ) → ℕ → ℕ
unfolding draw_rows
draw_8x16_ch font ox oy ch color vm = draw_rows 16 font (ch * 16) ox oy color vm

-- One row of `w` points with one colour, from `x` on.
unfoldable pub draw_line : ℕ → ℕ → ℕ → ℕ → (ℕ → ℕ) → ℕ → ℕ
unfolding draw_point
draw_line zero x y c vm = vm
draw_line (suc w) x y c vm = draw_line w (x + 1) y c (draw_point x y c vm)

-- `h` rows of 20 points.
unfoldable pub draw_grid_rows : ℕ → ℕ → ℕ → ℕ → (ℕ → ℕ) → ℕ → ℕ
unfolding draw_line
draw_grid_rows zero x y c vm = vm
draw_grid_rows (suc h) x y c vm = draw_grid_rows h x (y + 1) c (draw_line 20 x y c vm)

unfoldable pub draw_20x12_grid : ℕ → ℕ → ℕ → (ℕ → ℕ) → ℕ → ℕ
unfolding draw_grid_rows
draw_20x12_grid x y c vm = draw_grid_rows 12 x y c vm

-- The bytes that `set_palette` writes to the ports, in order.
abbrev pub set_palette : ℕ → ℕ → ℕ → ℕ → List (ℕ × ℕ)
set_palette index r g b =
    (0x3c6, 0xff) ∷ (0x3c8, index % 2 ^ 8) ∷ (0x3c9, r) ∷ (0x3c9, g) ∷ (0x3c9, b) ∷ []

-- The palette loop of `draw_bg`, with `n` colours left from number `i` on.
unfoldable pub palette_loop : ℕ → ℕ → (ℕ → ℕ) → List (ℕ × ℕ)
palette_loop zero i palette = []
palette_loop (suc n) i palette =
    set_palette i (palette (3 * i)) (palette (3 * i + 1)) (palette (3 * i + 2))
    ++ palette_loop n (i + 1) palette

-- The rows of a picture: `w` points of a row, and `h` rows.
unfoldable pub draw_picture_row : ℕ → (ℕ → ℕ) → ℕ → ℕ → ℕ → (ℕ → ℕ) → ℕ → ℕ
unfolding draw_point
draw_picture_row zero pic image_addr x y vm = vm
draw_picture_row (suc w) pic image_addr x y vm =
    draw_picture_row w pic (image_addr + 1) (x + 1) y (draw_point x y (pic image_addr) vm)

unfoldable pub draw_picture : ℕ → (ℕ → ℕ) → ℕ → ℕ → ℕ → ℕ → (ℕ → ℕ) → ℕ → ℕ
unfolding draw_picture_row
draw_picture zero pic image_addr w ox y vm = vm
draw_picture (suc h) pic image_addr w ox y vm =
    draw_picture h pic (image_addr + w) w ox (y + 1) (draw_picture_row w pic image_addr ox y vm)

-- `draw_bg`: the bytes for the ports, and the screen. The argument `oy` is not used.
unfoldable pub draw_bg : ℕ → ℕ → (ℕ → ℕ) → ℕ → ℕ → (ℕ → ℕ) → (ℕ → ℕ) → List (ℕ × ℕ) × (ℕ → ℕ)
unfolding palette_loop draw_picture
draw_bg ox oy pic_raw_data w h palette vm =
    (palette_loop 256 0 palette, draw_picture h pic_raw_data 0 w ox 0 vm)

-- `n` points below one another.
unfoldable pub draw_column : ℕ → ℕ → ℕ → ℕ → (ℕ → ℕ) → ℕ → ℕ
unfolding draw_point
draw_column zero x y c vm = vm
draw_column (suc n) x y c vm = draw_column n x (y + 1) c (draw_point x y c vm)

-- `w` columns of `h` points, from the left.
unfoldable pub draw_columns : ℕ → ℕ → ℕ → ℕ → ℕ → (ℕ → ℕ) → ℕ → ℕ
unfolding draw_column
draw_columns zero h x y c vm = vm
draw_columns (suc w) h x y c vm = draw_columns w h (x + 1) y c (draw_column h x y c vm)

unfoldable pub draw_box : (ℕ → ℕ) → ℕ → ℕ
unfolding draw_columns
draw_box vm = draw_columns 320 200 0 0 1 vm

unfoldable pub draw_box_1 : ℕ → ℕ → ℕ → (ℕ → ℕ) → ℕ → ℕ
unfolding draw_columns
draw_box_1 draw_x draw_y c vm = draw_columns 40 40 draw_x draw_y (c % 2 ^ 8) vm

-- The grids of one row of `draw_256_grid`, with `n` left; `c` counts the colours.
unfoldable pub draw_grids : ℕ → ℕ → ℕ → ℕ → (ℕ → ℕ) → ℕ → ℕ
unfolding draw_20x12_grid
draw_grids zero x y c vm = vm
draw_grids (suc n) x y c vm = draw_grids n (x + 20) y ((c + 1) % 2 ^ 8) (draw_20x12_grid x y c vm)

-- The rows of grids; each has 16 of them.
unfoldable pub draw_grid_table : ℕ → ℕ → ℕ → (ℕ → ℕ) → ℕ → ℕ
unfolding draw_grids
draw_grid_table zero y c vm = vm
draw_grid_table (suc n) y c vm =
    draw_grid_table n (y + 12) ((c + 16) % 2 ^ 8) (draw_grids 16 0 y c vm)

-- The loop over y goes on to 192.
unfoldable pub draw_256_grid : (ℕ → ℕ) → ℕ → ℕ
unfolding draw_grid_table
draw_256_grid vm = draw_grid_table 17 0 0 vm

-- A row of `wb` bytes of an image of one bit for each pixel, and `hb` rows.
unfoldable pub draw_str_row : ℕ → (ℕ → ℕ) → ℕ → ℕ → ℕ → ℕ → (ℕ → ℕ) → ℕ → ℕ
unfolding draw_bits
draw_str_row zero str image_addr x y color vm = vm
draw_str_row (suc wb) str image_addr x y color vm =
    draw_str_row wb str (image_addr + 1) (x + 8) y color (draw_bits 8 (str image_addr) x y color vm)

unfoldable pub draw_str_rows : ℕ → ℕ → (ℕ → ℕ) → ℕ → ℕ → ℕ → ℕ → (ℕ → ℕ) → ℕ → ℕ
unfolding draw_str_row
draw_str_rows zero wb str image_addr ox y color vm = vm
draw_str_rows (suc hb) wb str image_addr ox y color vm =
    draw_str_rows hb wb str (image_addr + wb) ox (y + 1) color
      (draw_str_row wb str image_addr ox y color vm)

-- `draw_str`, given the image `str` with its size in bytes and rows.
unfoldable pub draw_str : (ℕ → ℕ) → ℕ → ℕ → ℕ → ℕ → ℕ → (ℕ → ℕ) → ℕ → ℕ
unfolding draw_str_rows
draw_str str wb hb ox oy color vm = draw_str_rows hb wb str 0 ox oy color vm
