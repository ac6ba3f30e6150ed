-- ===== src/Tty/Stored.antt =====
-- The keys that scan codes press, and a key that `put_key` stores and shows on the screen.
use simple_os.Base.{
  ℕ, ◌%◌, ◌<◌, ◌≡◌, ◌≢◌, refl, sym, ap, ◌∙◌, arith, true, false, List, [], ◌∷◌, append-nil, ◌++◌,
  ◌==◌, ==_self, ==_ne, if◌then◌else◌, ltb, Bool,
}
use mathlib.Core.Path.{subst}
use simple_os.Ring.{Ring, put}
use simple_os.Ring.Window.{IsValid, contents, contents-put, put-IsValid}
use simple_os.Keyboard.{press, decode}
use simple_os.Tty.{Terminals, tty_in_bytes_num, put_key, key_cell}
use simple_os.Tty.Echo.{inbuf_of}

-- The keys that scan codes press, in this order.
unfoldable pub typed : List ℕ → List ℕ
typed [] = []
typed (c ∷ codes) =
    let status = decode 0 c in
    let rest = typed codes in if status.press == press then status.key ∷ rest else rest

-- What the cell of the screen shows after keys were stored, where `old` stood.
unfoldable pub shown_key : List ℕ → ℕ → ℕ
shown_key [] old = old
shown_key (key ∷ keys) old = shown_key keys (key % 256)

-- A key that is stored in terminal `i`.
pub record Stores (i key : ℕ) (s s' : Terminals) : Type 0 where
  pub waits :
      contents tty_in_bytes_num (inbuf_of i s')
      ≡ contents tty_in_bytes_num (inbuf_of i s) ++ (key ∷ [])
  pub valid : IsValid tty_in_bytes_num (inbuf_of i s')
  pub others : (j : ℕ) → i ≢ j → s'.tty_table j ≡ s.tty_table j
  pub same_consoles : s'.console_table ≡ s.console_table
  pub screen : (a : ℕ) → a ≢ key_cell → s'.video.vram a ≡ s.video.vram a
  pub shows : s'.video.vram key_cell ≡ key % 256
  pub ports : s'.video.ports ≡ s.video.ports
  pub same_shown : s'.cur_tty_index ≡ s.cur_tty_index

pub put_key-Stores :
    (i key : ℕ) (s : Terminals)
    → IsValid tty_in_bytes_num (inbuf_of i s)
    → (inbuf_of i s).count < tty_in_bytes_num
    → Stores i key s (put_key i key s)
unfolding put_key
put_key-Stores i key s v room =
    let r = inbuf_of i s in
    let free : ltb r.count tty_in_bytes_num ≡ true = ground arith in
    let tty = s.tty_table i in
    let at =
      ap
        (λ (b : Bool). (if b then record tty { inbuf = put tty_in_bytes_num r key } else tty).inbuf)
        (==_self i) in
    rw (free) (record {
      waits = ap (contents tty_in_bytes_num) at ∙ contents-put tty_in_bytes_num r key v room;
      valid =
          subst (λ (b : Ring). IsValid tty_in_bytes_num b) (sym at)
            (put-IsValid tty_in_bytes_num r key v room);
      others = λ j ne. rw (==_ne i j ne) refl;
      same_consoles = refl;
      screen = λ a ne. rw (==_ne key_cell a (λ e. ne (sym e))) refl;
      shows = refl;
      ports = refl;
      same_shown = refl;
    })

pub nothing_typed : (q : List ℕ) → q ≡ q ++ typed []
unfolding typed
nothing_typed q = sym (append-nil q)

pub typed-press :
    (c : ℕ) (codes : List ℕ)
    → ((decode 0 c).press == press) ≡ true
    → typed (c ∷ codes) ≡ (decode 0 c).key ∷ typed codes
unfolding typed
typed-press c codes down =
    ap (λ (b : Bool). if b then (decode 0 c).key ∷ typed codes else typed codes) down

pub typed-release :
    (c : ℕ) (codes : List ℕ)
    → ((decode 0 c).press == press) ≡ false
    → typed (c ∷ codes) ≡ typed codes
unfolding typed
typed-release c codes up =
    ap (λ (b : Bool). if b then (decode 0 c).key ∷ typed codes else typed codes) up

pub shown_key-typed :
    (key : ℕ) (codes keys : List ℕ) (old now : ℕ)
    → keys ≡ key ∷ typed codes
    → now ≡ key % 256
    → shown_key (typed codes) now ≡ shown_key keys old
unfolding shown_key
shown_key-typed key codes keys old now e here =
    ap (shown_key (typed codes)) here ∙ sym (ap (λ (l : List ℕ). shown_key l old) e)

pub shown_nothing : (old : ℕ) → old ≡ shown_key (typed []) old
unfolding typed shown_key
shown_nothing old = refl
