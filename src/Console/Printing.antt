-- ===== src/Console/Printing.antt =====
-- What a text console shows after a string of printable characters.
use simple_os.Base.{
  ℕ, ◌+◌, ◌*◌, ◌%◌, ◌^◌, ◌<◌, ◌≤◌, ◌≡◌, refl, sym, ap, ◌∙◌, arith, true, false, List, [], ◌∷◌, leb,
  ==_ne, length,
}
use simple_os.Kernel.{update}
use simple_os.Console.{
  Console, Video, cell, cell_address, step_right, store_char, switch_char, show_cursor, print_text,
  s32_console_print_str, is_printable,
}
use simple_os.Console.Window.{
  Fits, cell_address-eq, show_cursor-vram, show_cursor-Fits, step_right-Fits,
  s32_console_print_char-text,
}

pub data AllPrintable : List ℕ → Type 0 where
  nothing : AllPrintable []
  next : {c : ℕ} → {cs : List ℕ} → 0x20 ≤ c → c ≤ 0x7e → AllPrintable cs → AllPrintable (c ∷ cs)

-- The specification: characters stand one after the other from address `a` on, each followed by
-- the attribute 7.
unfoldable pub paint : ℕ → List ℕ → (ℕ → ℕ) → ℕ → ℕ
paint a [] vram = vram
paint a (c ∷ cs) vram = paint (a + 2) cs (update (update vram a c) (a + 1) 7)

record Printed (i : ℕ) (console : Console) (c : ℕ) (v : Video) : Type 0 where
  fits : Fits i (print_text console c v).0
  on : cell (print_text console c v).0 ≡ cell console + 1
  stored :
      (print_text console c v).1.vram
      ≡ update
          (update v.vram (console.vm_start + cell console * 2) c)
          (console.vm_start + cell console * 2 + 1)
          7

print_text-switch :
    (console : Console) (c : ℕ) (v : Video)
    → 0x20 ≤ c
    → c ≤ 0x7e
    → console.cur_y < 50
    → print_text console c v ≡ show_cursor (step_right console) (store_char console c v)
unfolding print_text switch_char
print_text-switch console c v lo hi h =
    let inside : leb 50 console.cur_y ≡ false = ground arith in
    let printable : is_printable c ≡ true = ground arith in
    rw (inside, ==_ne c 0xd (omega arith), ==_ne c 0xa (omega arith), printable) refl

pub store_char-vram :
    (i : ℕ) (console : Console) (c : ℕ) (v : Video)
    → Fits i console
    → console.cur_y < 50
    → let a = console.vm_start + cell console * 2 in
      (store_char console c v).vram ≡ update (update v.vram a c) (a + 1) 7
unfolding store_char
store_char-vram i console c v f h =
    let e = cell_address-eq i console f h in
    let next_byte : (cell_address console + 1) % 2 ^ 32 ≡ console.vm_start + cell console * 2 + 1 =
      omega arith in
    rw (next_byte, e) refl

step_right-cell :
    (i : ℕ) (console : Console)
    → Fits i console
    → console.cur_y < 50
    → cell (step_right console) ≡ cell console + 1
step_right-cell i console f h = ground arith

show_cursor-cell : (console : Console) (v : Video) → cell (show_cursor console v).0 ≡ cell console
unfolding show_cursor
show_cursor-cell console v = refl

print_text-Printed :
    (i : ℕ) (console : Console) (c : ℕ) (v : Video)
    → 0x20 ≤ c
    → c ≤ 0x7e
    → Fits i console
    → console.cur_y < 50
    → Printed i console c v
print_text-Printed i console c v lo hi f h =
    let v' = store_char console c v in
    let k' = step_right console in
    let e = print_text-switch console c v lo hi h in
    record {
      fits = rw e (show_cursor-Fits i k' v' (step_right-Fits i console f h));
      on = ap (λ r. cell r.0) e ∙ show_cursor-cell k' v' ∙ step_right-cell i console f h;
      stored = ap (λ r. r.1.vram) e ∙ show_cursor-vram k' v' ∙ store_char-vram i console c v f h;
    }

painted_next :
    (a a' c : ℕ) (cs : List ℕ) (vram vram' : ℕ → ℕ)
    → a' ≡ a + 2
    → vram' ≡ update (update vram a c) (a + 1) 7
    → paint a' cs vram' ≡ paint a (c ∷ cs) vram
unfolding paint
painted_next a a' c cs vram vram' ha hv = rw (ha, hv) refl

module _ (draw_char : Console → ℕ → Video → Video) where
  pub print_str-suc :
      (console : Console) (c : ℕ) (str : List ℕ) (v : Video) (i : ℕ)
      → 0 < c
      → Fits i console
      → let (console', v') = print_text console c v in
        s32_console_print_str draw_char console (c ∷ str) v
        ≡ s32_console_print_str draw_char console' str v'
  unfolding s32_console_print_str
  print_str-suc console c str v i h f =
      rw (==_ne c 0 (omega arith), s32_console_print_char-text draw_char console c v f.kind) refl

  -- Printing a string of printable characters on a text console, with room for it in the 50 lines of
  -- the window, paints the characters from the cursor's cell on, one cell each and over the end of a
  -- line, changes no other byte, and moves the cursor on by the length of the string.
  pub s32_console_print_str-paint :
      (i : ℕ) (str : List ℕ) (console : Console) (v : Video)
      → AllPrintable str
      → Fits i console
      → cell console + length str ≤ 4000
      → let (console', v') = s32_console_print_str draw_char console str v in
        Fits i console'
        × ((cell console' ≡ cell console + length str)
            × (v'.vram ≡ paint (console.vm_start + cell console * 2) str v.vram))
  unfolding s32_console_print_str paint
  s32_console_print_str-paint i [] console v p f h = (f, (omega arith, refl))
  s32_console_print_str-paint i (c ∷ str) console v (next lo hi p) f h =
      let (console', v') = print_text console c v in
      let one = print_text-Printed i console c v lo hi f (omega arith) in
      let on : cell console' ≡ cell console + 1 = one.on in
      let (kept, (count, vram)) =
        s32_console_print_str-paint i str console' v' p one.fits (omega arith) in
      let a = console.vm_start + cell console * 2 in
      let a' = console'.vm_start + cell console' * 2 in
      let same : console'.vm_start ≡ console.vm_start = one.fits.start ∙ sym f.start in
      let ha : a' ≡ a + 2 = omega arith in
      rw (print_str-suc console c str v i (omega arith) f)
        (kept, (omega arith, vram ∙ painted_next a a' c str v.vram v'.vram ha one.stored))
