-- ===== src/Keyboard.antt =====
-- The keyboard of tty/keyboard.c: scan codes arrive in a ring of 32 bytes, and `parse_scan_code`
-- turns them into keys, following shift and caps lock.
pub mod Keymap
pub mod Buffer
pub mod Modifiers
pub mod Typing
pub mod Tests
use simple_os.Base.{
  ℕ, ◌+◌, ◌-◌, ◌%◌, Bool, true, false, ◌&&◌, ◌||◌, Option, none, some, ◌==◌, if◌then◌else◌, ltb,
  leb,
}
use simple_os.Ring.{Ring, put, fetch}
use simple_os.Keyboard.Keymap.{lookup_key, key_shift_l, key_shift_r, key_capslock}
use simple_os.Base.{bit_and}

abbrev pub kb_num : ℕ
kb_num = 32

abbrev pub press : ℕ
press = 0

abbrev pub release : ℕ
release = 1

abbrev pub ascii_mode : ℕ
ascii_mode = 2

pub record KeyStatus : Type 0 where
  pub key : ℕ
  pub press : ℕ

-- The static variables of the file that `parse_scan_code` works on.
pub record Keyboard : Type 0 where
  pub kb_buf : Ring
  pub capslock : ℕ
  pub shift_r : ℕ
  pub shift_l : ℕ
  pub keymap_col : ℕ

-- The interrupt handler, given the byte that it reads from port 0x60. What it prints is not
-- modelled.
unfoldable pub keyboard_handler : Ring → ℕ → Ring
unfolding put
keyboard_handler kb_buf scan_code =
    if ltb kb_buf.count kb_num then put kb_num kb_buf scan_code else kb_buf

-- `none`: the loop at the start waits until the handler has stored a byte.
unfoldable pub get_byte_from_kb_buf : Ring → Option (ℕ × Ring)
unfolding fetch
get_byte_from_kb_buf kb_buf = if kb_buf.count == 0 then none else some (fetch kb_num kb_buf)

-- `shift_r==1 || shift_l==1`
abbrev pub shifted : Keyboard → Bool
shifted kb = (kb.shift_r == 1) || (kb.shift_l == 1)

-- `keymap_col` after the two tests of `capslock`.
abbrev pub column : Keyboard → ℕ
column kb =
    if kb.capslock == 0 then (if shifted kb then 1 else 0) else (if shifted kb then 0 else 1)

-- The two `switch (key_status->key)`: the key of the previous call moves shift and caps lock.
unfoldable pub follow_key : KeyStatus → Keyboard → Keyboard
follow_key status kb =
    if status.press == press
    then (if status.key == key_shift_r
        then record kb { shift_r = 1 }
        else (if status.key == key_shift_l then record kb { shift_l = 1 } else kb))
    else (if status.press == release
        then (if status.key == key_shift_r
            then record kb { shift_r = 0 }
            else (if status.key == key_shift_l
                then record kb { shift_l = 0 }
                else (if status.key == key_capslock
                    then record kb { capslock = if kb.capslock == 0 then 1 else 0 }
                    else kb)))
        else kb)

-- `lookup_key(scan_code & 0x7f, keymap_col)` and `(scan_code & 0x80) ? RELEASE : PRESS`
abbrev pub decode : ℕ → ℕ → KeyStatus
decode col scan_code = record {
  key = lookup_key (bit_and scan_code 0x7f) col;
  press = if bit_and scan_code 0x80 == 0 then press else release;
}

-- The `default` case of the scan code.
unfoldable pub ordinary_code : ℕ → Keyboard → KeyStatus → ℕ → Keyboard × KeyStatus
ordinary_code scan_code kb status mode =
    let kb' = if mode == ascii_mode then follow_key status kb else kb in
    (record kb' { keymap_col = column kb' }, decode (column kb') scan_code)

-- `case 0xe0`: the second byte of the code. `none`: it is not there yet, and `get_byte_from_kb_buf`
-- waits.
unfoldable pub extended_code : Keyboard → Option (Keyboard × KeyStatus)
extended_code kb = elim (get_byte_from_kb_buf kb.kb_buf) [
  | none ↦ none
  | some (scan_code, kb_buf) ↦ some (record kb { kb_buf = kb_buf }, decode kb.keymap_col scan_code)
]

-- `switch (scan_code)`
unfoldable pub switch_scan_code : ℕ → Keyboard → KeyStatus → ℕ → Option (Keyboard × KeyStatus)
switch_scan_code scan_code kb status mode =
    if scan_code == 0xe1
    then some (kb, status)
    else (if scan_code == 0xe0
        then extended_code kb
        else some (ordinary_code scan_code kb status mode))

-- The return value, the file's variables and `*key_status`.
unfoldable pub parse_scan_code : Keyboard → KeyStatus → ℕ → Option (ℕ × (Keyboard × KeyStatus))
parse_scan_code kb status mode =
    if ltb 0 kb.kb_buf.count
    then (let (scan_code, kb_buf) = fetch kb_num kb.kb_buf in
        elim (switch_scan_code scan_code (record kb { kb_buf = kb_buf }) status mode) [
          | none ↦ none
          | some result ↦ some (0, result)
        ])
    else some (1, (kb, status))
