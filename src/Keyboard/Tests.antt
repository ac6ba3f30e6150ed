-- ===== src/Keyboard/Tests.antt =====
-- The keyboard on concrete bytes.
use simple_os.Base.{ℕ, ◌≡◌, refl, arith, ◌<◌, List, [], ◌∷◌, none, some, replicate, false}
use simple_os.Ring.{Ring, put, fetch}
use simple_os.Ring.Window.{IsValid}
use simple_os.Keyboard.{
  Keyboard, kb_num, parse_scan_code, switch_scan_code, ordinary_code, follow_key,
  get_byte_from_kb_buf, keyboard_handler,
}
use simple_os.Keyboard.Keymap.{lookup_key}
use simple_os.Keyboard.Buffer.{Event, arrives, read, run, run_queue, run-run_queue}
use simple_os.Keyboard.Modifiers.{Modifiers}
use simple_os.Keyboard.Typing.{
  IsOrdinary, AllOrdinary, nothing, next, type_keys, typed, type_keys-typed,
}

-- The buffer after `init_keyboard`.
abbrev empty_buf : Ring
empty_buf = record { buf = replicate 32 0; head = 0; tail = 0; count = 0 }

abbrev idle_keyboard : Keyboard
idle_keyboard = record {
  kb_buf = empty_buf;
  capslock = 0;
  shift_r = 0;
  shift_l = 0;
  keymap_col = 0;
}

empty_buf-IsValid : IsValid kb_num empty_buf
empty_buf-IsValid = record {
  storage = refl;
  tail_in = omega arith;
  count_in = omega arith;
  head_at = refl;
}

abbrev events : List Event
events = arrives 0x1e ∷ read ∷ read ∷ arrives 0x9e ∷ arrives 0x2a ∷ read ∷ []

run-run_queue_example : run empty_buf events ≡ run_queue [] events
run-run_queue_example = run-run_queue events empty_buf empty_buf-IsValid

run-events : run empty_buf events ≡ some 0x1e ∷ none ∷ some 0x9e ∷ []
unfolding run get_byte_from_kb_buf keyboard_handler
run-events = refl

-- Shift down, a down, a up, shift up, a down.
abbrev codes : List ℕ
codes = 0x2a ∷ 0x1e ∷ 0x9e ∷ 0xaa ∷ 0x1e ∷ []

ordinary : (c : ℕ) → c < 0xe0 → IsOrdinary c
ordinary c h = record { byte = omega arith; not_e0 = omega arith; not_e1 = omega arith }

codes-AllOrdinary : AllOrdinary codes
codes-AllOrdinary = next (ordinary 0x2a (omega arith)) (
    next (ordinary 0x1e (omega arith)) (
      next (ordinary 0x9e (omega arith))
        (next (ordinary 0xaa (omega arith)) (next (ordinary 0x1e (omega arith)) nothing))))

abbrev none_held : Modifiers
none_held = record { left = false; right = false; caps = false }

type_keys-typed_example :
    type_keys idle_keyboard (record { key = 0; press = 0 }) codes ≡ typed none_held codes
type_keys-typed_example =
    type_keys-typed codes idle_keyboard none_held codes-AllOrdinary
      (record { valid = empty_buf-IsValid; empty = refl })
      (record { left = refl; right = refl; caps = refl })

-- The keys: shift, `A`, `A`, shift, and `a`.
type_codes :
    type_keys idle_keyboard (record { key = 0; press = 0 }) codes
    ≡ record { key = 0x1000020; press = 0 }
      ∷ record { key = 0x41; press = 0 }
      ∷ record { key = 0x41; press = 1 }
      ∷ record { key = 0x1000020; press = 1 }
      ∷ record { key = 0x61; press = 0 }
      ∷ []
unfolding type_keys parse_scan_code switch_scan_code ordinary_code follow_key lookup_key
    get_byte_from_kb_buf keyboard_handler put fetch
type_codes = refl
