-- ===== src/Drawing/Tests.antt =====
-- A glyph with one bit set in each row, on a black screen.
use simple_os.Base.{ℕ, ◌*◌, ◌≡◌, refl, arith, if◌then◌else◌}
use simple_os.Drawing.{
  draw_point, draw_bits, draw_rows, draw_8x16_ch, draw_line, draw_grid_rows, draw_20x12_grid,
}
use simple_os.Drawing.Glyph.{pixel, in_glyph, draw_8x16_ch-pixel}

abbrev font : ℕ → ℕ
font i = 0x80

abbrev black : ℕ → ℕ
black a = 0

drawn : pixel (draw_8x16_ch font 10 20 65 7 black) 10 35 ≡ 7
unfolding draw_8x16_ch draw_rows draw_bits draw_point
drawn = refl

-- The grid reaches one row less than the next one is away.
grid_end : pixel (draw_20x12_grid 0 0 3 black) 19 11 ≡ 3
unfolding draw_20x12_grid draw_grid_rows draw_line draw_point
grid_end = refl

draw_8x16_ch-pixel_example :
    pixel (draw_8x16_ch font 10 20 65 7 black) 10 21
    ≡ (if in_glyph 16 font (65 * 16) 10 20 10 21 then 7 else pixel black 10 21)
draw_8x16_ch-pixel_example =
    draw_8x16_ch-pixel font 10 20 65 7 10 21 black (omega arith) (omega arith) (omega arith)
      (omega arith)
