-- ===== src/Keyboard/Typing.antt =====
-- What `parse_scan_code` makes of a sequence of scan codes, each parsed as it arrives.
use simple_os.Base.{
  ℕ, ◌%◌, ◌<◌, ◌≡◌, ◌≢◌, refl, ap, ◌∙◌, arith, Bool, true, false, not, ◌||◌, ==_ne, if◌then◌else◌,
  ltb, get_or-set_self, none, some, List, [], ◌∷◌,
}
use simple_os.Ring.{Ring, put, fetch}
use simple_os.Ring.Window.{IsValid, put-IsValid, fetch-IsValid}
use simple_os.Keyboard.{
  kb_num, ascii_mode, Keyboard, KeyStatus, keyboard_handler, parse_scan_code, switch_scan_code,
  ordinary_code, follow_key, decode, column, press, release,
}
use simple_os.Keyboard.Keymap.{lookup_key}
use simple_os.Keyboard.Modifiers.{
  Modifiers, follow, Shows, follow_key-Shows, low_bits, high_bit, column-lt,
}

-- A byte of the keyboard that is neither of the two prefixes.
pub record IsOrdinary (c : ℕ) : Type 0 where
  pub byte : c < 256
  pub not_e0 : c ≢ 0xe0
  pub not_e1 : c ≢ 0xe1

pub data AllOrdinary : List ℕ → Type 0 where
  nothing : AllOrdinary []
  next : {c : ℕ} → {cs : List ℕ} → IsOrdinary c → AllOrdinary cs → AllOrdinary (c ∷ cs)

-- The code `c` arrives and is parsed.
abbrev arrive : Keyboard → ℕ → Keyboard
arrive kb c = record kb { kb_buf = keyboard_handler kb.kb_buf c }

-- The keys that are reported, in ASCII mode.
unfoldable pub type_keys : Keyboard → KeyStatus → List ℕ → List KeyStatus
type_keys kb status [] = []
type_keys kb status (c ∷ cs) = elim (parse_scan_code (arrive kb c) status ascii_mode) [
  | none ↦ []
  | some (ret, (kb', status')) ↦ status' ∷ type_keys kb' status' cs
]

-- The specification: the column of a key is caps lock or else shift, as the codes before it left
-- them.
upper : Modifiers → Bool
upper m = if m.caps then not (m.left || m.right) else m.left || m.right

pub shown : Modifiers → ℕ → KeyStatus
shown m c = record {
  key = lookup_key (c % 128) (if upper m then 1 else 0);
  press = if ltb c 128 then press else release;
}

pub typed : Modifiers → List ℕ → List KeyStatus
typed m [] = []
typed m (c ∷ cs) = shown m c ∷ typed (follow c m) cs

pick :
    (l r c : Bool)
    → ◌≡◌ {A = ℕ}
        (if not c then (if r || l then 1 else 0) else (if r || l then 0 else 1))
        (if (if c then not (l || r) else l || r) then 1 else 0)
pick false false false = refl
pick false false true = refl
pick false true false = refl
pick false true true = refl
pick true false false = refl
pick true false true = refl
pick true true false = refl
pick true true true = refl

decode-shown :
    (kb : Keyboard) (m : Modifiers) (c : ℕ)
    → c < 256
    → Shows kb m
    → decode (column kb) c ≡ shown m c
unfolding shown upper
decode-shown kb m c h v =
    rw (high_bit c h, low_bits c h, v.left, v.right, v.caps, pick m.left m.right m.caps) refl

-- Nothing waits in the buffer.
pub record Idle (kb : Keyboard) : Type 0 where
  pub valid : IsValid kb_num kb.kb_buf
  pub empty : kb.kb_buf.count ≡ 0

switch_scan_code-ordinary :
    (c : ℕ) (kb : Keyboard) (status : KeyStatus)
    → IsOrdinary c
    → switch_scan_code c kb status ascii_mode ≡ some (ordinary_code c kb status ascii_mode)
unfolding switch_scan_code
switch_scan_code-ordinary c kb status o = rw (==_ne c 0xe1 o.not_e1, ==_ne c 0xe0 o.not_e0) refl

-- The state when `c` has been put into an empty buffer and taken out again.
gone : Keyboard → ℕ → Keyboard
gone kb c = record kb { kb_buf = (fetch kb_num (put kb_num kb.kb_buf c)).1 }

parse_scan_code-switch :
    (kb : Keyboard) (status : KeyStatus)
    → 0 < kb.kb_buf.count
    → let (c, buf) = fetch kb_num kb.kb_buf in
      IsOrdinary c
      → parse_scan_code kb status ascii_mode
        ≡ some (0, ordinary_code c (record kb { kb_buf = buf }) status ascii_mode)
unfolding parse_scan_code
parse_scan_code-switch kb status h o =
    let (c, buf) = fetch kb_num kb.kb_buf in
    let there : ltb 0 kb.kb_buf.count ≡ true = ground arith in
    rw (there, switch_scan_code-ordinary c (record kb { kb_buf = buf }) status o) refl

fetch-put :
    (r : Ring) (c : ℕ) → IsValid kb_num r → r.count ≡ 0 → (fetch kb_num (put kb_num r c)).0 ≡ c
unfolding put fetch
fetch-put r c v e =
    let same : r.head ≡ r.tail = ground arith in
    rw same (get_or-set_self r.buf r.tail c 0 (ground arith))

arrive-put :
    (kb : Keyboard) (c : ℕ) → Idle kb → arrive kb c ≡ record kb { kb_buf = put kb_num kb.kb_buf c }
unfolding keyboard_handler
arrive-put kb c idle = let room : ltb kb.kb_buf.count kb_num ≡ true = ground arith in rw room refl

put-pos : (r : Ring) (c : ℕ) → 0 < (put kb_num r c).count
unfolding put
put-pos r c = omega arith

gone-empty : (kb : Keyboard) (c : ℕ) → kb.kb_buf.count ≡ 0 → (gone kb c).kb_buf.count ≡ 0
unfolding gone put fetch
gone-empty kb c e = omega arith

gone-Idle : (kb : Keyboard) (c : ℕ) → Idle kb → Idle (gone kb c)
unfolding gone
gone-Idle kb c idle = record {
  valid =
      fetch-IsValid kb_num (put kb_num kb.kb_buf c)
        (put-IsValid kb_num kb.kb_buf c idle.valid (ground arith)) (put-pos kb.kb_buf c);
  empty = gone-empty kb c idle.empty;
}

parse_scan_code-arrive :
    (kb : Keyboard) (status : KeyStatus) (c : ℕ)
    → IsOrdinary c
    → Idle kb
    → parse_scan_code (arrive kb c) status ascii_mode
      ≡ some (0, ordinary_code c (gone kb c) status ascii_mode)
unfolding gone
parse_scan_code-arrive kb status c o idle =
    let kb' : Keyboard = record kb { kb_buf = put kb_num kb.kb_buf c } in
    let e = fetch-put kb.kb_buf c idle.valid idle.empty in
    ap (λ k. parse_scan_code k status ascii_mode) (arrive-put kb c idle)
    ∙ parse_scan_code-switch kb' status (put-pos kb.kb_buf c) (rw e o)
    ∙ ap (λ x. some (0, ordinary_code x (gone kb c) status ascii_mode)) e

follow_key-kb_buf : (status : KeyStatus) (kb : Keyboard) → (follow_key status kb).kb_buf ≡ kb.kb_buf
unfolding follow_key
follow_key-kb_buf status kb = ground arith

-- The state after an ordinary code.
after : Keyboard → KeyStatus → ℕ → Keyboard
after kb status c = (ordinary_code c (gone kb c) status ascii_mode).0

after-Idle : (kb : Keyboard) (status : KeyStatus) (c : ℕ) → Idle kb → Idle (after kb status c)
unfolding after ordinary_code
after-Idle kb status c idle =
    let h = gone-Idle kb c idle in
    let same = follow_key-kb_buf status (gone kb c) in
    record { valid = rw same h.valid; empty = rw same h.empty }

gone-Shows : (kb : Keyboard) (c : ℕ) (m : Modifiers) → Shows kb m → Shows (gone kb c) m
unfolding gone
gone-Shows kb c m v = record { left = v.left; right = v.right; caps = v.caps }

after-Shows :
    (kb : Keyboard) (c c' col : ℕ) (m : Modifiers)
    → c < 256
    → col < 2
    → Shows kb m
    → Shows (after kb (decode col c) c') (follow c m)
unfolding after ordinary_code
after-Shows kb c c' col m h hc v =
    let w = follow_key-Shows c col (gone kb c') m h hc (gone-Shows kb c' m v) in
    record { left = w.left; right = w.right; caps = w.caps }

type_keys-step :
    (kb : Keyboard) (status : KeyStatus) (c : ℕ) (cs : List ℕ)
    → IsOrdinary c
    → Idle kb
    → let (kb', status') = ordinary_code c (gone kb c) status ascii_mode in
      type_keys kb status (c ∷ cs) ≡ status' ∷ type_keys kb' status' cs
unfolding type_keys
type_keys-step kb status c cs o idle =
    ap
      (λ r. elim r as (λ _. List KeyStatus) [
        | none ↦ []
        | some (ret, (kb', status')) ↦ status' ∷ type_keys kb' status' cs
      ])
      (parse_scan_code-arrive kb status c o idle)

type_keys-typed_from :
    (cs : List ℕ) (kb : Keyboard) (c col : ℕ) (m : Modifiers)
    → AllOrdinary cs
    → c < 256
    → col < 2
    → Idle kb
    → Shows kb m
    → type_keys kb (decode col c) cs ≡ typed (follow c m) cs
unfolding type_keys typed ordinary_code after
type_keys-typed_from [] kb c col m os h hc idle v = refl
type_keys-typed_from (c' ∷ cs) kb c col m (next o os) h hc idle v =
    let status = decode col c in
    let kb2 = follow_key status (gone kb c') in
    let m' = follow c m in
    let w = follow_key-Shows c col (gone kb c') m h hc (gone-Shows kb c' m v) in
    let kb' = after kb status c' in
    let rest =
      type_keys-typed_from cs kb' c' (column kb2) m' os o.byte (column-lt kb2)
        (after-Idle kb status c' idle) (after-Shows kb c c' col m h hc v) in
    type_keys-step kb status c' cs o idle
    ∙ ap (λ x. x ∷ type_keys kb' (decode (column kb2) c') cs) (decode-shown kb2 m' c' o.byte w)
    ∙ ap (λ xs. shown m' c' ∷ xs) rest

-- From an idle keyboard whose flags show the modifiers `m`, with no key reported yet, the scan
-- codes `cs`, each parsed in ASCII mode when it arrives and none of them a prefix 0xe0 or 0xe1, are
-- reported as the specification says: a key is pressed or released, and stands in the column of the
-- key map that caps lock and shift select as the codes before it left them.
pub type_keys-typed :
    (cs : List ℕ) (kb : Keyboard) (m : Modifiers)
    → AllOrdinary cs
    → Idle kb
    → Shows kb m
    → type_keys kb (record { key = 0; press = 0 }) cs ≡ typed m cs
unfolding lookup_key
type_keys-typed cs kb m os idle v =
    type_keys-typed_from cs kb 0 0 m os (omega arith) (omega arith) idle v
