-- ===== src/Tty/Echo.antt =====
-- What is typed is echoed on the console that is shown.
use simple_os.Base.{
  ℕ, zero, suc, ◌<◌, ◌≡◌, refl, sym, ap, ◌∙◌, arith, List, [], ◌∷◌, inl, inr, Bool-cases, ◌==◌,
  ==_iff, ==_self, ==_ne, if◌then◌else◌, length, get_or, drop,
}
use simple_os.Kernel.{update}
use simple_os.Ring.{Ring, fetch}
use simple_os.Ring.Window.{IsValid, contents, length-window, contents-fetch, fetch-IsValid}
use simple_os.Keyboard.Keymap.{key_enter}
use simple_os.Console.{Console, Video}
use simple_os.Tty.{Tty, Terminals, tty_in_bytes_num, cur_console, echo_key, tty_do_write}

abbrev pub inbuf_of : ℕ → Terminals → Ring
inbuf_of i s = (s.tty_table i).inbuf

abbrev with_inbuf : ℕ → Ring → Terminals → Terminals
with_inbuf i r s = record s {
  tty_table = update s.tty_table i (record (s.tty_table i) { inbuf = r });
}

-- A change that keeps the console of entry `i` keeps the console of every entry.
update-console :
    (table : ℕ → Tty) (i j : ℕ) (tty : Tty)
    → tty.console ≡ (table i).console
    → (update table i tty j).console ≡ (table j).console
update-console table i j tty same = elim (Bool-cases (i == j)) [
  | inl y ↦
      ap (λ b. (if b then tty else table j).console) y
      ∙ same
      ∙ ap (λ k. (table k).console) ((==_iff i j).0 y)
  | inr n ↦ ap (λ b. (if b then tty else table j).console) n
]

cur_console-with_inbuf :
    (i : ℕ) (r : Ring) (s : Terminals) → cur_console (with_inbuf i r s) ≡ cur_console s
cur_console-with_inbuf i r s =
    update-console s.tty_table i s.cur_tty_index (record (s.tty_table i) { inbuf = r }) refl

module _ (draw_char : Console → ℕ → Video → Video) where
  -- The specification: keys are echoed one after the other.
  unfoldable pub echo_all : List ℕ → Terminals → Terminals
  echo_all [] s = s
  echo_all (ch ∷ q) s = echo_all q (echo_key draw_char ch s)

  -- So many rounds of the terminal's task write for terminal `i`.
  unfoldable pub write_rounds : ℕ → ℕ → Terminals → Terminals
  write_rounds i zero s = s
  write_rounds i (suc n) s = write_rounds i n (tty_do_write draw_char i s)

  echo_key-with_inbuf :
      (ch i : ℕ) (r : Ring) (s : Terminals)
      → echo_key draw_char ch (with_inbuf i r s) ≡ with_inbuf i r (echo_key draw_char ch s)
  unfolding echo_key
  echo_key-with_inbuf ch i r s =
      let e = cur_console-with_inbuf i r s in
      elim (Bool-cases (ch == key_enter)) [ inl y ↦ rw (y, e) refl | inr n ↦ rw (n, e) refl ]

  echo_all-with_inbuf :
      (q : List ℕ) (i : ℕ) (r : Ring) (s : Terminals)
      → echo_all q (with_inbuf i r s) ≡ with_inbuf i r (echo_all q s)
  unfolding echo_all
  echo_all-with_inbuf [] i r s = refl
  echo_all-with_inbuf (ch ∷ q) i r s =
      ap (echo_all q) (echo_key-with_inbuf ch i r s)
      ∙ echo_all-with_inbuf q i r (echo_key draw_char ch s)

  tty_do_write-some :
      (i : ℕ) (s : Terminals)
      → 0 < (inbuf_of i s).count
      → let (ch, r) = fetch tty_in_bytes_num (inbuf_of i s) in
        tty_do_write draw_char i s ≡ with_inbuf i r (echo_key draw_char ch s)
  unfolding tty_do_write
  tty_do_write-some i s h =
      let (ch, r) = fetch tty_in_bytes_num (inbuf_of i s) in
      rw (==_ne (inbuf_of i s).count 0 (omega arith)) (echo_key-with_inbuf ch i r s)

  inbuf_of-with_inbuf : (i : ℕ) (r : Ring) (s : Terminals) → inbuf_of i (with_inbuf i r s) ≡ r
  inbuf_of-with_inbuf i r s =
      ap (λ b. (if b then record (s.tty_table i) { inbuf = r } else s.tty_table i).inbuf)
        (==_self i)

  -- If `q` are the keys that wait for the echo of terminal `i`, then as many rounds of its write
  -- echo exactly these keys, in their order, on the console of the terminal that is shown, and none
  -- waits any more: consoles and screen are as if the keys had been echoed one after the other.
  pub write_rounds-echo_all :
      (i : ℕ) (q : List ℕ) (s : Terminals)
      → IsValid tty_in_bytes_num (inbuf_of i s)
      → contents tty_in_bytes_num (inbuf_of i s) ≡ q
      → let s' = write_rounds i (length q) s in
        ((s'.console_table ≡ (echo_all q s).console_table) × (s'.video ≡ (echo_all q s).video))
        × (contents tty_in_bytes_num (inbuf_of i s') ≡ [])
  unfolding write_rounds echo_all
  write_rounds-echo_all i [] s v h = ((refl, refl), h)
  write_rounds-echo_all i (key ∷ q) s v h =
      let r = inbuf_of i s in
      let (ch, r') = fetch tty_in_bytes_num r in
      let size = length-window tty_in_bytes_num r.buf r.tail r.count in
      let some_wait : 0 < r.count = rw (sym size, h) (omega arith) in
      let split : ch ∷ contents tty_in_bytes_num r' ≡ key ∷ q =
        sym (contents-fetch tty_in_bytes_num r some_wait) ∙ h in
      let this : ch ≡ key = ap (λ xs. get_or xs 0 0) split in
      let others : contents tty_in_bytes_num r' ≡ q = ap (drop 1) split in
      let t = echo_key draw_char key s in
      let s1 = with_inbuf i r' t in
      let step : tty_do_write draw_char i s ≡ s1 =
        tty_do_write-some i s some_wait ∙ ap (λ c. with_inbuf i r' (echo_key draw_char c s)) this in
      let at : inbuf_of i s1 ≡ r' = inbuf_of-with_inbuf i r' t in
      let ((consoles, screen), gone) =
        write_rounds-echo_all i q s1 (rw at (fetch-IsValid tty_in_bytes_num r v some_wait))
          (rw at others) in
      let moved = echo_all-with_inbuf q i r' t in
      let first = ap (write_rounds i (length q)) step in
      (
        (
          ap (λ x. x.console_table) first ∙ consoles ∙ ap (λ x. x.console_table) moved,
          ap (λ x. x.video) first ∙ screen ∙ ap (λ x. x.video) moved,
        ),
        ap (λ x. contents tty_in_bytes_num (inbuf_of i x)) first ∙ gone,
      )
