-- ===== src/Drawing/Glyph.antt =====
-- What a glyph of 8x16 pixels leaves on the screen.
use simple_os.Base.{
  ℕ, zero, suc, ◌+◌, ◌-◌, ◌*◌, ◌<◌, ◌≤◌, ◌≡◌, refl, ap, ◌∙◌, arith, Bool, true, false, ◌&&◌,
  Bool-cases, inl, inr, ◌==◌, ==_iff, if◌then◌else◌, leb, ltb,
}
use simple_os.Base.Bits.{bit}
use simple_os.Drawing.{point_address, draw_point, draw_bits, draw_rows, draw_8x16_ch}

-- The pixel in column `x` and row `y` of a screen.
abbrev pub pixel : (ℕ → ℕ) → ℕ → ℕ → ℕ
pixel vm x y = vm (point_address x y)

-- Points of the screen have addresses of their own.
same_point :
    (x y px py : ℕ)
    → x < 320
    → y < 200
    → px < 320
    → py < 200
    → (point_address x y == point_address px py) ≡ ((x == px) && (y == py))
same_point x y px py hx hy hpx hpy = ground arith

draw_point-pixel :
    (x y c px py : ℕ) (vm : ℕ → ℕ)
    → x < 320
    → y < 200
    → px < 320
    → py < 200
    → pixel (draw_point x y c vm) px py ≡ (if (x == px) && (y == py) then c else pixel vm px py)
unfolding draw_point
draw_point-pixel x y c px py vm hx hy hpx hpy =
    ap (λ b. if b then c else pixel vm px py) (same_point x y px py hx hy hpx hpy)

-- Is the pixel one of the bits of this row that are set?
abbrev pub in_row : ℕ → ℕ → ℕ → ℕ → ℕ → Bool
in_row i c x px py = leb x px && (ltb px (x + i) && (bit c (x + i - 1 - px) == 1))

draw_bits-pixel :
    (i c x y color px py : ℕ) (vm : ℕ → ℕ)
    → x + i ≤ 320
    → y < 200
    → px < 320
    → py < 200
    → pixel (draw_bits i c x y color vm) px py
      ≡ (if (y == py) && in_row i c x px py then color else pixel vm px py)
unfolding draw_bits
draw_bits-pixel zero c x y color px py vm hx hy hpx hpy = ground arith
draw_bits-pixel (suc i) c x y color px py vm hx hy hpx hpy =
    let vm' = if bit c i == 1 then draw_point x y color vm else vm in
    draw_bits-pixel i c (x + 1) y color px py vm' (omega arith) hy hpx hpy ∙ next_bit
  where
    -- The pixel of the first bit, and then the others.
    first :
        pixel (if bit c i == 1 then draw_point x y color vm else vm) px py
        ≡ (if (bit c i == 1) && ((x == px) && (y == py)) then color else pixel vm px py)
    first = elim (Bool-cases (bit c i == 1)) [
      | inl on ↦ rw on (draw_point-pixel x y color px py vm (omega arith) hy hpx hpy)
      | inr off ↦ rw off refl
    ]

    same_index : x + 1 + i - 1 - px ≡ x + suc i - 1 - px
    same_index = omega arith

    next_bit :
        (if (y == py) && in_row i c (x + 1) px py
          then color
          else pixel (if bit c i == 1 then draw_point x y color vm else vm) px py)
        ≡ (if (y == py) && in_row (suc i) c x px py then color else pixel vm px py)
    next_bit =
        ap (λ old. if (y == py) && in_row i c (x + 1) px py then color else old) first
        ∙ elim (Bool-cases (x == px)) [
          | inl here ↦
              let e : x ≡ px = (==_iff x px).0 here in
              let past : leb (x + 1) px ≡ false = ground (arith, e) in
              let left : leb x px ≡ true = ground (arith, e) in
              let right : ltb px (x + suc i) ≡ true = ground (arith, e) in
              let index : x + suc i - 1 - px ≡ i = omega arith in
              rw (here, past, left, right, index) (bits (y == py) (bit c i == 1))
          | inr there ↦
              let left : leb (x + 1) px ≡ leb x px = ground (arith, there) in
              let right : ltb px (x + 1 + i) ≡ ltb px (x + suc i) = ground arith in
              rw (there, left, right, same_index) (others (bit c i == 1))
        ]
      where
        bits :
            (row on : Bool)
            → (if row && false
                then color
                else if on && (true && row)
                then color
                else pixel vm px py)
              ≡ (if row && (true && (true && on)) then color else pixel vm px py)
        bits true true = refl
        bits true false = refl
        bits false true = refl
        bits false false = refl

        others :
            (on : Bool)
            → (if (y == py)
                  && (leb x px && (ltb px (x + suc i) && (bit c (x + suc i - 1 - px) == 1)))
                then color
                else if on && (false && (y == py))
                then color
                else pixel vm px py)
              ≡ (if (y == py)
                    && (leb x px && (ltb px (x + suc i) && (bit c (x + suc i - 1 - px) == 1)))
                  then color
                  else pixel vm px py)
        others true = refl
        others false = refl

-- Is the pixel one that the glyph sets?
abbrev pub in_glyph : ℕ → (ℕ → ℕ) → ℕ → ℕ → ℕ → ℕ → ℕ → Bool
in_glyph n font image_addr x y px py =
    leb y py && (ltb py (y + n) && in_row 8 (font (image_addr + (py - y))) x px py)

draw_rows-pixel :
    (n : ℕ) (font : ℕ → ℕ) (image_addr x y color px py : ℕ) (vm : ℕ → ℕ)
    → x + 8 ≤ 320
    → y + n ≤ 200
    → px < 320
    → py < 200
    → pixel (draw_rows n font image_addr x y color vm) px py
      ≡ (if in_glyph n font image_addr x y px py then color else pixel vm px py)
unfolding draw_rows
draw_rows-pixel zero font image_addr x y color px py vm hx hy hpx hpy = ground arith
draw_rows-pixel (suc n) font image_addr x y color px py vm hx hy hpx hpy =
    draw_rows-pixel n font (image_addr + 1) x (y + 1) color px py
      (draw_bits 8 (font image_addr) x y color vm) hx (omega arith) hpx hpy
    ∙ ap (λ old. if in_glyph n font (image_addr + 1) x (y + 1) px py then color else old)
        (draw_bits-pixel 8 (font image_addr) x y color px py vm hx (omega arith) hpx hpy)
    ∙ elim (Bool-cases (y == py)) [
      | inl here ↦
          let e : y ≡ py = (==_iff y py).0 here in
          let past : leb (y + 1) py ≡ false = ground (arith, e) in
          let low : leb y py ≡ true = ground (arith, e) in
          let high : ltb py (y + suc n) ≡ true = ground (arith, e) in
          let index : image_addr + (py - y) ≡ image_addr = omega arith in
          rw (here, past, low, high, index) refl
      | inr there ↦ elim (Bool-cases (leb y py)) [
        | inr above ↦
            let above' : leb (y + 1) py ≡ false = ground (arith, above) in
            rw (there, above, above') refl
        | inl low ↦
            let low' : leb (y + 1) py ≡ true = ground (arith, there, low) in
            let high : ltb py (y + 1 + n) ≡ ltb py (y + suc n) = ground arith in
            let index : image_addr + 1 + (py - (y + 1)) ≡ image_addr + (py - y) =
              ground (arith, there, low) in
            rw (there, low, low', high, index) refl
      ]
    ]

-- If a glyph lies on the screen, `draw_8x16_ch` gives its colour to just the pixels whose bit is set
-- in the font, the highest bit of a byte on the left and the first byte on top, and changes no other
-- pixel of the screen.
pub draw_8x16_ch-pixel :
    (font : ℕ → ℕ) (ox oy ch color px py : ℕ) (vm : ℕ → ℕ)
    → ox + 8 ≤ 320
    → oy + 16 ≤ 200
    → px < 320
    → py < 200
    → pixel (draw_8x16_ch font ox oy ch color vm) px py
      ≡ (if in_glyph 16 font (ch * 16) ox oy px py then color else pixel vm px py)
unfolding draw_8x16_ch
draw_8x16_ch-pixel font ox oy ch color px py vm hx hy hpx hpy =
    draw_rows-pixel 16 font (ch * 16) ox oy color px py vm hx hy hpx hpy
