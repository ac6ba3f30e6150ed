-- ===== src/Keyboard/Modifiers.antt =====
-- The modifier keys that the key map names, and what a key press or release does to them.
use simple_os.Base.{
  ℕ, zero, suc, ◌+◌, ◌%◌, ◌<◌, ◌≡◌, refl, ◌∙◌, sym, arith, Bool, true, false, not, ◌&&◌, Bool-cases,
  inl, inr, ◌==◌, if◌then◌else◌, ltb, bit_and, ==_iff, ==_ne, ◌≤◌,
}
use simple_os.Base.Bits.{holds_below, holds_below-true}
use simple_os.Keyboard.{Keyboard, follow_key, decode, press, release, column}
use simple_os.Keyboard.Keymap.{lookup_key, key_shift_l, key_shift_r, key_capslock}

-- The keys that are held, or switched on, as an observer of the scan codes sees them.
pub record Modifiers : Type 0 where
  pub left : Bool
  pub right : Bool
  pub caps : Bool

abbrev pub follow : ℕ → Modifiers → Modifiers
follow c m =
    if c == 0x2a
    then record m { left = true }
    else (if c == 0xaa
        then record m { left = false }
        else (if c == 0x36
            then record m { right = true }
            else (if c == 0xb6
                then record m { right = false }
                else (if c == 0xba then record m { caps = not m.caps } else m))))

-- The flags of the code say the same.
pub record Shows (kb : Keyboard) (m : Modifiers) : Type 0 where
  pub left : (kb.shift_l == 1) ≡ m.left
  pub right : (kb.shift_r == 1) ≡ m.right
  pub caps : (kb.capslock == 0) ≡ not m.caps

abbrev iff : Bool → Bool → Bool
iff true b = b
iff false b = not b

iff_sound : (a b : Bool) → iff a b ≡ true → a ≡ b
iff_sound true b h = sym h
iff_sound false true h = h
iff_sound false false h = refl

row_bits : ℕ → Bool
row_bits c = (bit_and c 0x7f == c % 128) && iff (bit_and c 0x80 == 0) (ltb c 128)

table_bits : holds_below 256 row_bits ≡ true
unfolding holds_below row_bits
table_bits = refl

row_keys : ℕ → ℕ → ℕ → ℕ → Bool
row_keys col key code c = iff (lookup_key c col == key) (c == code)

and_left : (a b : Bool) → (a && b) ≡ true → a ≡ true
and_left true b h = refl
and_left false b h = h

and_right : (a b : Bool) → (a && b) ≡ true → b ≡ true
and_right true b h = h
and_right false b h = absurd (ground arith)

pub low_bits : (c : ℕ) → c < 256 → bit_and c 0x7f ≡ c % 128
unfolding row_bits
low_bits c h = (==_iff (bit_and c 0x7f) (c % 128)).0 (
    and_left (bit_and c 0x7f == c % 128) (iff (bit_and c 0x80 == 0) (ltb c 128))
      (holds_below-true 256 row_bits c table_bits h))

pub high_bit : (c : ℕ) → c < 256 → (bit_and c 0x80 == 0) ≡ ltb c 128
unfolding row_bits
high_bit c h = iff_sound (bit_and c 0x80 == 0) (ltb c 128) (
    and_right (bit_and c 0x7f == c % 128) (iff (bit_and c 0x80 == 0) (ltb c 128))
      (holds_below-true 256 row_bits c table_bits h))

-- A key stands in the table for one scan code only, in either column.
lookup_key-one :
    (key code : ℕ)
    → holds_below 128 (row_keys 0 key code) ≡ true
    → holds_below 128 (row_keys 1 key code) ≡ true
    → (c col : ℕ) → c < 128
    → col < 2
    → (lookup_key c col == key) ≡ (c == code)
unfolding row_keys
lookup_key-one key code t0 t1 c zero h hc =
    iff_sound (lookup_key c 0 == key) (c == code)
      (holds_below-true 128 (row_keys 0 key code) c t0 h)
lookup_key-one key code t0 t1 c (suc zero) h hc =
    iff_sound (lookup_key c 1 == key) (c == code)
      (holds_below-true 128 (row_keys 1 key code) c t1 h)
lookup_key-one key code t0 t1 c (suc (suc col)) h hc = absurd (omega arith)

lookup_key-shift_l :
    (c col : ℕ) → c < 128 → col < 2 → (lookup_key c col == key_shift_l) ≡ (c == 0x2a)
unfolding holds_below row_keys lookup_key
lookup_key-shift_l = lookup_key-one key_shift_l 0x2a refl refl

lookup_key-shift_r :
    (c col : ℕ) → c < 128 → col < 2 → (lookup_key c col == key_shift_r) ≡ (c == 0x36)
unfolding holds_below row_keys lookup_key
lookup_key-shift_r = lookup_key-one key_shift_r 0x36 refl refl

lookup_key-capslock :
    (c col : ℕ) → c < 128 → col < 2 → (lookup_key c col == key_capslock) ≡ (c == 0x3a)
unfolding holds_below row_keys lookup_key
lookup_key-capslock = lookup_key-one key_capslock 0x3a refl refl

pub column-lt : (kb : Keyboard) → column kb < 2
column-lt kb = ground arith

flip-Shows : (n : ℕ) (b : Bool) → (n == 0) ≡ not b → ((if n == 0 then 1 else 0) == 0) ≡ not (not b)
flip-Shows n b h = ground arith

pressed-Shows :
    (c key : ℕ) (kb : Keyboard) (m : Modifiers)
    → c < 128
    → (key == key_shift_l) ≡ (c == 0x2a)
    → (key == key_shift_r) ≡ (c == 0x36)
    → Shows kb m
    → Shows (follow_key (record { key = key; press = press }) kb) (follow c m)
unfolding follow_key
pressed-Shows c key kb m h l r v =
    rw (l, r, ==_ne c 0xaa (omega arith), ==_ne c 0xb6 (omega arith), ==_ne c 0xba (omega arith))
      (elim (Bool-cases (c == 0x2a)) [
        | inl y ↦
            let e : c ≡ 0x2a = (==_iff c 0x2a).0 y in
            rw e (record { left = refl; right = v.right; caps = v.caps })
        | inr n ↦ rw n (elim (Bool-cases (c == 0x36)) [
          | inl y ↦ rw y (record { left = v.left; right = refl; caps = v.caps })
          | inr n ↦ rw n v
        ])
      ])

released-Shows :
    (c key : ℕ) (kb : Keyboard) (m : Modifiers)
    → 128 ≤ c
    → (key == key_shift_l) ≡ (c == 0xaa)
    → (key == key_shift_r) ≡ (c == 0xb6)
    → (key == key_capslock) ≡ (c == 0xba)
    → Shows kb m
    → Shows (follow_key (record { key = key; press = release }) kb) (follow c m)
unfolding follow_key
released-Shows c key kb m h l r k v =
    rw (l, r, k, ==_ne c 0x2a (omega arith), ==_ne c 0x36 (omega arith))
      (elim (Bool-cases (c == 0xaa)) [
        | inl y ↦
            let e : c ≡ 0xaa = (==_iff c 0xaa).0 y in
            rw e (record { left = refl; right = v.right; caps = v.caps })
        | inr n ↦ rw n (elim (Bool-cases (c == 0xb6)) [
          | inl y ↦
              let e : c ≡ 0xb6 = (==_iff c 0xb6).0 y in
              rw e (record { left = v.left; right = refl; caps = v.caps })
          | inr n ↦ rw n (elim (Bool-cases (c == 0xba)) [
            | inl y ↦ rw y (record {
              left = v.left;
              right = v.right;
              caps = flip-Shows kb.capslock m.caps v.caps;
            })
            | inr n ↦ rw n v
          ])
        ])
      ])

high_code : (c k : ℕ) → 128 ≤ c → c < 256 → k < 128 → (c % 128 == k) ≡ (c == k + 128)
high_code c k hl hu hk = ground arith

-- What the previous key does to the flags is what its scan code does to the modifiers.
pub follow_key-Shows :
    (c col : ℕ) (kb : Keyboard) (m : Modifiers)
    → c < 256
    → col < 2
    → Shows kb m
    → Shows (follow_key (decode col c) kb) (follow c m)
unfolding follow_key
follow_key-Shows c col kb m h hc v =
    rw (high_bit c h, low_bits c h)
      (elim (Bool-cases (ltb c 128)) [
        | inl low ↦
            let small : c < 128 = ground arith in
            let same : c % 128 ≡ c = omega arith in
            rw (low, same)
              (pressed-Shows c (lookup_key c col) kb m small (lookup_key-shift_l c col small hc)
                (lookup_key-shift_r c col small hc) v)
        | inr high ↦
            let large : 128 ≤ c = ground arith in
            let d : c % 128 < 128 = omega arith in
            rw high (
              released-Shows c (lookup_key (c % 128) col) kb m large
                (lookup_key-shift_l (c % 128) col d hc ∙ high_code c 0x2a large h (omega arith))
                (lookup_key-shift_r (c % 128) col d hc ∙ high_code c 0x36 large h (omega arith))
                (lookup_key-capslock (c % 128) col d hc ∙ high_code c 0x3a large h (omega arith)) v)
      ])
