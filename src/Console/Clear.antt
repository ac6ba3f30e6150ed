-- ===== src/Console/Clear.antt =====
-- Printing at a place, and `clear_console` (include/console.h), which prints a blank in each of the
-- 4000 cells of a console.
use simple_os.Base.{
  ℕ, zero, suc, ◌+◌, ◌*◌, ◌%◌, ◌^◌, ◌<◌, ◌≤◌, ◌≡◌, ◌⊎◌, inl, inr, refl, ap, ◌∙◌, arith, false, List,
  [], ◌∷◌, ◌==◌, if◌then◌else◌, ltb, leb, Bool-cases,
}
use simple_os.Console.{
  Console, Video, set_xy, s32_console_print_char, print_text, switch_char, store_char, cell,
  cell_address, step_right,
}
use simple_os.Console.Window.{
  print_text-Fits, Fits, window_start, cell_address-eq, show_cursor-vram,
  s32_console_print_char-text,
}

module _ (draw_char : Console → ℕ → Video → Video) where
  unfoldable pub s32_console_print_char_xy : Console → ℕ → ℕ → ℕ → Video → Console × Video
  s32_console_print_char_xy console ch x y v =
      s32_console_print_char draw_char (set_xy console x y) ch v

  -- `x` grows with each byte of the string.
  unfoldable pub s32_console_print_str_xy : Console → List ℕ → ℕ → ℕ → Video → Console × Video
  s32_console_print_str_xy console [] x y v = (console, v)
  s32_console_print_str_xy console (ch ∷ str) x y v =
      let (console1, v1) = s32_console_print_char_xy console ch x y v in
      let rest = s32_console_print_str_xy console1 str (x + 1) y v1 in
      if ch == 0 then (console, v) else rest

  -- The inner loop from column `x`, `left` columns.
  unfoldable pub clear_row : ℕ → ℕ → ℕ → Console × Video → Console × Video
  clear_row zero x y (console, v) = (console, v)
  clear_row (suc left) x y (console, v) =
      clear_row left (x + 1) y (s32_console_print_char_xy console 0x20 x y v)

  -- The outer loop from row `y`, `left` rows.
  unfoldable pub clear_rows : ℕ → ℕ → Console × Video → Console × Video
  clear_rows zero y s = s
  clear_rows (suc left) y s = clear_rows left (y + 1) (clear_row 80 0 y s)

  unfoldable pub clear_console : Console → Video → Console × Video
  clear_console console v =
      let (console1, v1) = clear_rows 50 0 (console, v) in (set_xy console1 0 2, v1)

-- The cells from `lo` to before `hi` of console `i` are blank in `after`, and the rest of the memory is
-- as in `before`.
pub record Blanked (i lo hi : ℕ) (before after : Video) : Type 0 where
  pub blank :
      (c : ℕ)
      → lo ≤ c
      → c < hi
      → (after.vram (window_start i + 2 * c) ≡ 0x20) × (after.vram (window_start i + 2 * c + 1) ≡ 7)
  pub rest :
      (a : ℕ)
      → (a < window_start i + 2 * lo) ⊎ (window_start i + 2 * hi ≤ a)
      → after.vram a ≡ before.vram a

Blanked-none : (i lo : ℕ) (v : Video) → Blanked i lo lo v v
Blanked-none i lo v = record { blank = λ c low high. absurd (omega arith); rest = λ a out. refl }

Blanked-append :
    (i lo mid from hi till : ℕ) (v v1 v2 : Video)
    → lo ≤ mid
    → mid ≤ hi
    → from ≡ mid
    → till ≡ hi
    → Blanked i lo mid v v1
    → Blanked i from till v1 v2
    → Blanked i lo hi v v2
Blanked-append i lo mid from hi till v v1 v2 h1 h2 e1 e2 first second = record {
  blank = λ c low high. elim (Bool-cases (ltb c mid)) [
    | inl early ↦
        let h : c < mid = ground (arith, early) in
        let (ch, color) = first.blank c low h in
        (
          second.rest (window_start i + 2 * c) (inl (omega arith)) ∙ ch,
          second.rest (window_start i + 2 * c + 1) (inl (omega arith)) ∙ color,
        )
    | inr late ↦ second.blank c (ground (arith, late, e1)) (omega (arith, e2))
  ];
  rest = λ a out. second.rest a (omega (arith, out)) ∙ first.rest a (omega (arith, out));
}

-- A blank goes to the cell of the cursor.
print_text-vram :
    (console : Console) (v : Video)
    → console.cur_y < 50
    → (print_text console 0x20 v).1.vram ≡ (store_char console 0x20 v).vram
unfolding print_text switch_char
print_text-vram console v h =
    let room : leb 50 console.cur_y ≡ false = ground arith in
    rw (room) (show_cursor-vram (step_right console) (store_char console 0x20 v))

store_char-vram :
    (i c : ℕ) (console : Console) (v : Video) (a : ℕ)
    → Fits i console
    → console.cur_y < 50
    → cell console ≡ c
    → (store_char console 0x20 v).vram a ≡ (
        if window_start i + 2 * c + 1 == a
        then 7
        else if window_start i + 2 * c == a
        then 0x20
        else v.vram a)
unfolding store_char
store_char-vram i c console v a f h e =
    let at : cell_address console ≡ window_start i + 2 * c =
      cell_address-eq i console f h ∙ omega (arith, f.start, e) in
    let next : (window_start i + 2 * c + 1) % 2 ^ 32 ≡ window_start i + 2 * c + 1 =
      omega (arith, f.index, f.column, e) in
    rw (at, next) refl

print_text-Blanked :
    (i c : ℕ) (console : Console) (v : Video)
    → Fits i console
    → console.cur_y < 50
    → cell console ≡ c
    → Blanked i c (suc c) v (print_text console 0x20 v).1
print_text-Blanked i c console v f h e =
    let written = λ (a : ℕ).
      ap (λ (m : ℕ → ℕ). m a) (print_text-vram console v h)
      ∙ store_char-vram i c console v a f h e in
    record {
      blank = λ d low high.
          let here : d ≡ c = omega arith in
          rw (here) (
            written (window_start i + 2 * c) ∙ ground arith,
            written (window_start i + 2 * c + 1) ∙ ground arith,
          );
      rest = λ a out. written a ∙ ground (arith, out);
    }

module _ (draw_char : Console → ℕ → Video → Video) (i : ℕ) where
  print_blank :
      (console : Console) (x y : ℕ) (v : Video)
      → Fits i console
      → x < 80
      → y < 50
      → Fits i (s32_console_print_char_xy draw_char console 0x20 x y v).0
        × Blanked i
            (x + y * 80)
            (suc (x + y * 80))
            v
            (s32_console_print_char_xy draw_char console 0x20 x y v).1
  unfolding s32_console_print_char_xy
  print_blank console x y v f hx hy =
      let at = set_xy console x y in
      let fits : Fits i at = record {
        index = f.index;
        start = f.start;
        column = hx;
        row = omega arith;
        kind = f.kind;
      } in
      let e = s32_console_print_char-text draw_char at 0x20 v f.kind in
      rw (e) (print_text-Fits i at 0x20 v fits, print_text-Blanked i (x + y * 80) at v fits hy refl)

  row_blank :
      (left x y : ℕ) (console : Console) (v : Video)
      → Fits i console
      → x + left ≤ 80
      → y < 50
      → Fits i (clear_row draw_char left x y (console, v)).0
        × Blanked i (x + y * 80) (x + left + y * 80) v (clear_row draw_char left x y (console, v)).1
  unfolding clear_row
  row_blank zero x y console v f hx hy =
      let e : x + zero + y * 80 ≡ x + y * 80 = omega arith in
      rw (e) (f, Blanked-none i (x + y * 80) v)
  row_blank (suc left) x y console v f hx hy =
      let (f1, first) = print_blank console x y v f (omega arith) hy in
      let (console1, v1) = s32_console_print_char_xy draw_char console 0x20 x y v in
      let (f2, others) = row_blank left (x + 1) y console1 v1 f1 (omega arith) hy in
      (
        f2,
        Blanked-append i (x + y * 80) (suc (x + y * 80)) (x + 1 + y * 80) (x + suc left + y * 80)
            (x + 1 + left + y * 80) v v1 (clear_row draw_char left (x + 1) y (console1, v1)).1
            (omega arith) (omega arith) (omega arith) (omega arith) first others,
      )

  rows_blank :
      (left y : ℕ) (console : Console) (v : Video)
      → Fits i console
      → y + left ≤ 50
      → Fits i (clear_rows draw_char left y (console, v)).0
        × Blanked i (y * 80) ((y + left) * 80) v (clear_rows draw_char left y (console, v)).1
  unfolding clear_rows
  rows_blank zero y console v f h =
      let e : (y + zero) * 80 ≡ y * 80 = omega arith in rw (e) (f, Blanked-none i (y * 80) v)
  rows_blank (suc left) y console v f h =
      let (f1, first) = row_blank 80 0 y console v f (omega arith) (omega arith) in
      let (console1, v1) = clear_row draw_char 80 0 y (console, v) in
      let (f2, others) = rows_blank left (y + 1) console1 v1 f1 (omega arith) in
      let low : 0 + y * 80 ≡ y * 80 = omega arith in
      let first1 =
        Blanked-append i (y * 80) (y * 80) (0 + y * 80) (0 + 80 + y * 80) (0 + 80 + y * 80) v v v1
          (omega arith) (omega arith) low refl (Blanked-none i (y * 80) v) first in
      (
        f2,
        Blanked-append i (y * 80) (0 + 80 + y * 80) ((y + 1) * 80) ((y + suc left) * 80)
            ((y + 1 + left) * 80) v v1 (clear_rows draw_char left (y + 1) (console1, v1)).1
            (omega arith) (omega arith) (omega arith) (omega arith) first1 others,
      )

  -- `clear_console` on a text console that fits its window shows blanks in all of its 50 lines of 80 cells, changes nothing
  -- outside of them, and puts the cursor to the start of the third line.
  pub clear_console-Blanked :
      (console : Console)
      → (v : Video) → Fits i console
      → Fits i (clear_console draw_char console v).0
        × ((clear_console draw_char console v).0.cur_x ≡ 0)
        × ((clear_console draw_char console v).0.cur_y ≡ 2)
        × Blanked i 0 4000 v (clear_console draw_char console v).1
  unfolding clear_console
  clear_console-Blanked console v f =
      let (f1, blanks) = rows_blank 50 0 console v f (omega arith) in
      (
        record {
          index = f1.index;
          start = f1.start;
          column = omega arith;
          row = omega arith;
          kind = f1.kind;
        },
        refl,
        refl,
        blanks,
      )
