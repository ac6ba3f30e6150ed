-- ===== src/Console/Window.antt =====
-- What a text console writes stays in its window: the 8000 bytes from `vm_start` on.
use simple_os.Base.{
  ℕ, ◌+◌, ◌*◌, ◌%◌, ◌^◌, ◌<◌, ◌≤◌, ◌≡◌, ◌≢◌, refl, ap, ◌∙◌, arith, ◌⊎◌, inl, inr, List, [], ◌∷◌,
  ◌==◌, leb, Bool-cases, ==_ne,
}
use simple_os.Console.{
  Console, Video, init_console, video_ram_size, text_console, cell, cell_address, step_right,
  store_char, switch_char, show_cursor, print_text, s32_console_print_char, s32_console_print_str,
  set_cursor, set_video_start_addr,
}

-- Where the window of console `i` starts.
abbrev pub window_start : ℕ → ℕ
window_start i = 0xb8000 + i * video_ram_size

-- Console `i` is a text console on its window, and its cursor stands in a column.
pub record Fits (i : ℕ) (console : Console) : Type 0 where
  pub index : i < 3
  pub start : console.vm_start ≡ window_start i
  pub column : console.cur_x < 80
  pub row : console.cur_y ≤ 50
  pub kind : console.type ≡ text_console

pub init_console-Fits : (i : ℕ) (console : Console) → i < 3 → Fits i (init_console i console)
unfolding init_console
init_console-Fits i console h = ground arith

abbrev pub Outside : ℕ → ℕ → Type 0
Outside i a = (a < window_start i) ⊎ (window_start i + 8000 ≤ a)

pub cell_address-eq :
    (i : ℕ) (console : Console)
    → Fits i console
    → console.cur_y < 50
    → cell_address console ≡ console.vm_start + cell console * 2
cell_address-eq i console f h = omega arith

-- The registers are not in the memory, and the cursor stays where it is.
pub show_cursor-vram : (console : Console) (v : Video) → (show_cursor console v).1.vram ≡ v.vram
unfolding show_cursor set_cursor set_video_start_addr
show_cursor-vram console v = ground arith

pub show_cursor-Fits :
    (i : ℕ) (console : Console) (v : Video) → Fits i console → Fits i (show_cursor console v).0
unfolding show_cursor
show_cursor-Fits i console v f = record {
  index = f.index;
  start = f.start;
  column = f.column;
  row = f.row;
  kind = f.kind;
}

pub step_right-Fits :
    (i : ℕ) (console : Console) → Fits i console → console.cur_y < 50 → Fits i (step_right console)
step_right-Fits i console f h = ground arith

switch_char-Fits :
    (i : ℕ) (console : Console) (ch : ℕ) (v : Video)
    → Fits i console
    → console.cur_y < 50
    → Fits i (switch_char console ch v).0
unfolding switch_char
switch_char-Fits i console ch v f h = ground (arith, step_right-Fits i console f h)

store_char-Outside :
    (i : ℕ) (console : Console) (ch : ℕ) (v : Video) (a : ℕ)
    → Fits i console
    → console.cur_y < 50
    → Outside i a
    → (store_char console ch v).vram a ≡ v.vram a
unfolding store_char
store_char-Outside i console ch v a f h o =
    let e = cell_address-eq i console f h in
    let one = ==_ne (cell_address console) a (ground arith) in
    let two = ==_ne ((cell_address console + 1) % 2 ^ 32) a (ground arith) in rw (one, two) refl

switch_char-Outside :
    (i : ℕ) (console : Console) (ch : ℕ) (v : Video) (a : ℕ)
    → Fits i console
    → console.cur_y < 50
    → Outside i a
    → (switch_char console ch v).1.vram a ≡ v.vram a
unfolding switch_char
switch_char-Outside i console ch v a f h o =
    ground (arith, store_char-Outside i console ch v a f h o)

pub print_text-Fits :
    (i : ℕ) (console : Console) (ch : ℕ) (v : Video)
    → Fits i console
    → Fits i (print_text console ch v).0
unfolding print_text
print_text-Fits i console ch v f = elim (Bool-cases (leb 50 console.cur_y)) [
  | inl low ↦ rw low f
  | inr inside ↦
      let (console', v') = switch_char console ch v in
      rw inside (show_cursor-Fits i console' v' (switch_char-Fits i console ch v f (ground arith)))
]

print_text-Outside :
    (i : ℕ) (console : Console) (ch : ℕ) (v : Video) (a : ℕ)
    → Fits i console
    → Outside i a
    → (print_text console ch v).1.vram a ≡ v.vram a
unfolding print_text
print_text-Outside i console ch v a f o = elim (Bool-cases (leb 50 console.cur_y)) [
  | inl low ↦ rw low refl
  | inr inside ↦
      let (console', v') = switch_char console ch v in
      rw inside (
        ap (λ m. m a) (show_cursor-vram console' v')
        ∙ switch_char-Outside i console ch v a f (ground arith) o)
]

-- The windows of two text consoles do not meet.
windows_apart :
    (i j a : ℕ)
    → i < 3
    → j < 3
    → i ≢ j
    → window_start j ≤ a
    → a < window_start j + 8000
    → Outside i a
windows_apart i j a hi hj ne lo up = ground arith

module _ (draw_char : Console → ℕ → Video → Video) where
  pub s32_console_print_char-text :
      (console : Console) (ch : ℕ) (v : Video)
      → console.type ≡ text_console
      → s32_console_print_char draw_char console ch v ≡ print_text console ch v
  unfolding s32_console_print_char
  s32_console_print_char-text console ch v e = rw e refl

  -- Printing a string on text console `i` leaves every byte outside its window as it was: the 8000
  -- bytes from the address that `init_console` gave it. The console keeps its window, and its
  -- cursor a column below 80 and a line of at most 50, so that this holds of any number of strings.
  pub s32_console_print_str-Outside :
      (i : ℕ) (str : List ℕ) (console : Console) (v : Video)
      → Fits i console
      → let (console', v') = s32_console_print_str draw_char console str v in
        Fits i console' × ((a : ℕ) → Outside i a → v'.vram a ≡ v.vram a)
  unfolding s32_console_print_str
  s32_console_print_str-Outside i [] console v f = (f, λ a o. refl)
  s32_console_print_str-Outside i (ch ∷ str) console v f = elim (Bool-cases (ch == 0)) [
    | inl end ↦ rw end (f, λ a o. refl)
    | inr more ↦
        let (console', v') = print_text console ch v in
        let f' = print_text-Fits i console ch v f in
        let (kept, same) = s32_console_print_str-Outside i str console' v' f' in
        rw (more, s32_console_print_char-text console ch v f.kind)
          (kept, λ a o. same a o ∙ print_text-Outside i console ch v a f o)
  ]

  -- Printing on a text console does not change what another one shows: every byte of the window of
  -- console `j` stays as it was, when a string is printed on console `i`.
  pub s32_console_print_str-isolated :
      (i j : ℕ) (str : List ℕ) (console : Console) (v : Video) (a : ℕ)
      → Fits i console
      → j < 3
      → i ≢ j
      → window_start j ≤ a
      → a < window_start j + 8000
      → (s32_console_print_str draw_char console str v).1.vram a ≡ v.vram a
  s32_console_print_str-isolated i j str console v a f hj ne lo hi =
      (s32_console_print_str-Outside i str console v f).1 a
        (windows_apart i j a f.index hj ne lo hi)
