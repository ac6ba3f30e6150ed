-- ===== src/Tty/Reading.antt =====
-- Scan codes become keys of the terminal that is shown, or choose another one.
use simple_os.Base.{
  ℕ, zero, suc, ◌+◌, ◌<◌, ◌≤◌, ◌≡◌, ◌≢◌, ◌⊎◌, refl, sym, ap, ◌∙◌, arith, true, false, ◌&&◌, List,
  [], ◌∷◌, append_assoc, ◌++◌, ◌==◌, ==_ne, if◌then◌else◌, ltb, leb, length, length-append, get_or,
  drop, Bool, Bool-cases, inl, inr,
}
use mathlib.Core.Path.{subst}
use simple_os.Ring.{Ring, fetch}
use simple_os.Ring.Window.{IsValid, contents, contents-fetch, fetch-IsValid, length-window}
use simple_os.Keyboard.{kb_num, press, KeyStatus, decode}
use simple_os.Keyboard.Keymap.{key_f1, key_f6, key_alt_l}
use simple_os.Console.{Console, Video}
use simple_os.Tty.{Terminals, tty_in_bytes_num, key_cell}
use simple_os.Tty.Echo.{inbuf_of}
use simple_os.Tty.Stored.{
  typed, shown_key, Stores, put_key-Stores, nothing_typed, typed-press, typed-release,
  shown_key-typed, shown_nothing,
}
use simple_os.Tty.Input.{Desk, keyboard_read, switch_key, store_key, let_alt}

-- A key that `keyboard_read` passes on: not F1 to F3, F6 or the left alt key.
abbrev pub IsPlain : ℕ → Type 0
IsPlain key = ((key < key_f1) ⊎ (key_f1 + 3 ≤ key)) × (key ≢ key_f6) × (key ≢ key_alt_l)

pub data AllPlain : List ℕ → Type 0 where
  none_left : AllPlain []
  plain :
      {c : ℕ} {codes : List ℕ} → IsPlain (decode 0 c).key → AllPlain codes → AllPlain (c ∷ codes)

-- A ring with something in it gives its first element.
pub first_code :
    (r : Ring) (c : ℕ) (rest : List ℕ)
    → contents kb_num r ≡ c ∷ rest
    → (0 < r.count) × ((fetch kb_num r).0 ≡ c) × (contents kb_num (fetch kb_num r).1 ≡ rest)
first_code r c rest e =
    let len = sym (length-window kb_num r.buf r.tail r.count) ∙ ap length e in
    let some : 0 < r.count = omega (arith, len) in
    let split = sym (contents-fetch kb_num r some) ∙ e in
    (some, ap (λ (l : List ℕ). get_or l 0 0) split, ap (λ (l : List ℕ). drop 1 l) split)

module _ (draw_char : Console → ℕ → Video → Video) (set_mode : ℕ → Video → Video)
    (picture : Video → Video) where
  switch_key-plain :
      (i : ℕ) (status : KeyStatus) (s : Desk)
      → IsPlain status.key
      → switch_key draw_char set_mode picture i status s
        ≡ let_alt 0 (if status.press == press then store_key i status.key s else s)
  unfolding switch_key
  switch_key-plain i status s (away, not_f6, not_alt) =
      let off : (leb key_f1 status.key && ltb status.key (key_f1 + 3)) ≡ false =
        ground (arith, away) in
      rw (off, ==_ne status.key key_f6 not_f6, ==_ne status.key key_alt_l not_alt) refl

  -- A read takes the first code.
  pub keyboard_read-first :
      (i : ℕ) (s : Desk) (c : ℕ) (rest : List ℕ)
      → contents kb_num s.kb_buf ≡ c ∷ rest
      → keyboard_read draw_char set_mode picture i s
        ≡ switch_key draw_char set_mode picture i
            (decode 0 c)
            (record s { kb_buf = (fetch kb_num s.kb_buf).1 })
  unfolding keyboard_read
  keyboard_read-first i s c rest e =
      let (some, head, tail) = first_code s.kb_buf c rest e in
      let nonempty : ltb 0 s.kb_buf.count ≡ true = ground arith in rw (nonempty, head) refl

  -- So many reads for terminal `i`.
  unfoldable pub reads_of : ℕ → ℕ → Desk → Desk
  reads_of i zero s = s
  reads_of i (suc n) s = reads_of i n (keyboard_read draw_char set_mode picture i s)

-- What plain codes do to a desk: the codes are gone, their keys wait in the terminal, the last of them
-- is in its cell of the screen, and the rest of the screen, the other terminals and the consoles are
-- as they were.
pub record Typed (i : ℕ) (codes : List ℕ) (s s' : Desk) : Type 0 where
  pub used : contents kb_num s'.kb_buf ≡ []
  pub waiting :
      contents tty_in_bytes_num (inbuf_of i s'.terminals)
      ≡ contents tty_in_bytes_num (inbuf_of i s.terminals) ++ typed codes
  pub others : (j : ℕ) → i ≢ j → s'.terminals.tty_table j ≡ s.terminals.tty_table j
  pub same_consoles : s'.terminals.console_table ≡ s.terminals.console_table
  pub screen : (a : ℕ) → a ≢ key_cell → s'.terminals.video.vram a ≡ s.terminals.video.vram a
  pub shows :
      s'.terminals.video.vram key_cell ≡ shown_key (typed codes) (s.terminals.video.vram key_cell)
  pub ports : s'.terminals.video.ports ≡ s.terminals.video.ports
  pub same_shown : s'.terminals.cur_tty_index ≡ s.terminals.cur_tty_index

-- One code read, and what comes after it.
module _ (i : ℕ) (s s1 s' : Desk) (rest : List ℕ) (after : Typed i rest s1 s') where
  Typed-stored :
      (c : ℕ)
      → ((decode 0 c).press == press) ≡ true
      → Stores i (decode 0 c).key s.terminals s1.terminals
      → Typed i (c ∷ rest) s s'
  Typed-stored c down now =
      let before = contents tty_in_bytes_num (inbuf_of i s.terminals) in
      let key = (decode 0 c).key in
      let old = s.terminals.video.vram key_cell in
      record {
        used = after.used;
        waiting =
            after.waiting
            ∙ ap (λ (q : List ℕ). q ++ typed rest) now.waits
            ∙ append_assoc before (key ∷ []) (typed rest)
            ∙ ap (λ (q : List ℕ). before ++ q) (sym (typed-press c rest down));
        others = λ j ne. after.others j ne ∙ now.others j ne;
        same_consoles = after.same_consoles ∙ now.same_consoles;
        screen = λ a ne. after.screen a ne ∙ now.screen a ne;
        shows =
            after.shows
            ∙ shown_key-typed key rest (typed (c ∷ rest)) old (s1.terminals.video.vram key_cell)
                (typed-press c rest down) now.shows;
        ports = after.ports ∙ now.ports;
        same_shown = after.same_shown ∙ now.same_shown;
      }

  -- A release changes nothing but the ring of codes.
  Typed-released :
      (c : ℕ)
      → ((decode 0 c).press == press) ≡ false
      → s1.terminals ≡ s.terminals
      → Typed i (c ∷ rest) s s'
  Typed-released c up same =
      let before = contents tty_in_bytes_num (inbuf_of i s.terminals) in
      record {
        used = after.used;
        waiting =
            after.waiting
            ∙ ap (λ (t : Terminals). contents tty_in_bytes_num (inbuf_of i t) ++ typed rest) same
            ∙ ap (λ (q : List ℕ). before ++ q) (sym (typed-release c rest up));
        others = λ j ne. after.others j ne ∙ ap (λ (t : Terminals). t.tty_table j) same;
        same_consoles = after.same_consoles ∙ ap (λ (t : Terminals). t.console_table) same;
        screen = λ a ne. after.screen a ne ∙ ap (λ (t : Terminals). t.video.vram a) same;
        shows =
            after.shows
            ∙ ap (λ (t : Terminals). shown_key (typed rest) (t.video.vram key_cell)) same
            ∙ ap (λ (l : List ℕ). shown_key l (s.terminals.video.vram key_cell))
                (sym (typed-release c rest up));
        ports = after.ports ∙ ap (λ (t : Terminals). t.video.ports) same;
        same_shown = after.same_shown ∙ ap (λ (t : Terminals). t.cur_tty_index) same;
      }

module _ (draw_char : Console → ℕ → Video → Video) (set_mode : ℕ → Video → Video)
    (picture : Video → Video) where
  -- When only plain codes wait, in rings that are in order, and the terminal has room for their keys,
  -- then as many reads take all of the codes, and the keys that are pressed wait behind those of the
  -- terminal, in this order. The other terminals and the consoles are as they were, and so is the
  -- screen, but for the first cell of line 20, which shows the low byte of the last key pressed.
  pub reads_of-Typed :
      (i : ℕ) (codes : List ℕ) (s : Desk)
      → AllPlain codes
      → IsValid kb_num s.kb_buf
      → contents kb_num s.kb_buf ≡ codes
      → IsValid tty_in_bytes_num (inbuf_of i s.terminals)
      → length (contents tty_in_bytes_num (inbuf_of i s.terminals)) + length (typed codes)
        ≤ tty_in_bytes_num
      → Typed i codes s (reads_of draw_char set_mode picture i (length codes) s)
  unfolding reads_of
  reads_of-Typed i [] s all valid e keys room = record {
    used = e;
    waiting = nothing_typed (contents tty_in_bytes_num (inbuf_of i s.terminals));
    others = λ j ne. refl;
    same_consoles = refl;
    screen = λ a ne. refl;
    shows = shown_nothing (s.terminals.video.vram key_cell);
    ports = refl;
    same_shown = refl;
  }
  reads_of-Typed i (c ∷ codes) s (AllPlain.plain p all) valid e keys room =
      let status = decode 0 c in
      let (some, head, tail) = first_code s.kb_buf c codes e in
      let r = (fetch kb_num s.kb_buf).1 in
      let valid1 = fetch-IsValid kb_num s.kb_buf valid some in
      let read =
        keyboard_read-first draw_char set_mode picture i s c codes e
        ∙ switch_key-plain draw_char set_mode picture i status (record s { kb_buf = r }) p in
      let s0 = record s { kb_buf = r } in
      let before = contents tty_in_bytes_num (inbuf_of i s.terminals) in
      let full =
        length-window tty_in_bytes_num (inbuf_of i s.terminals).buf (inbuf_of i s.terminals).tail
          (inbuf_of i s.terminals).count in
      let reads = reads_of draw_char set_mode picture i (length codes) in
      elim (Bool-cases (status.press == press)) [
        | inl down ↦
            let s1 = let_alt 0 (store_key i status.key s0) in
            let now : keyboard_read draw_char set_mode picture i s ≡ s1 =
              read
              ∙ ap (λ (b : Bool). let_alt 0 (if b then store_key i status.key s0 else s0)) down in
            let more = ap length (typed-press c codes down) in
            let stored = put_key-Stores i status.key s.terminals keys (omega (arith, full, more)) in
            let grown = ap length stored.waits ∙ length-append before (status.key ∷ []) in
            let after =
              reads_of-Typed i codes s1 all valid1 tail stored.valid (omega (arith, grown, more)) in
            subst (λ (d : Desk). Typed i (c ∷ codes) s (reads d)) (sym now)
              (Typed-stored i s s1 (reads s1) codes after c down stored)
        | inr up ↦
            let s1 = let_alt 0 s0 in
            let now : keyboard_read draw_char set_mode picture i s ≡ s1 =
              read
              ∙ ap (λ (b : Bool). let_alt 0 (if b then store_key i status.key s0 else s0)) up in
            let same = ap length (typed-release c codes up) in
            let after = reads_of-Typed i codes s1 all valid1 tail keys (omega (arith, same)) in
            subst (λ (d : Desk). Typed i (c ∷ codes) s (reads d)) (sym now)
              (Typed-released i s s1 (reads s1) codes after c up refl)
      ]
