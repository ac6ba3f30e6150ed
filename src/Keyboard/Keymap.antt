-- ===== src/Keyboard/Keymap.antt =====
-- The key map of tty/keyboard.c: two columns for each scan code, without and with shift.
use simple_os.Base.{ℕ, ◌+◌, ◌*◌, ◌<◌, ◌≡◌, refl, arith, List, [], ◌∷◌, get_or, length}

-- The keys of include/keyboard.h that the code tests for. The others stand in the table by value.
abbrev pub key_alt_l : ℕ
key_alt_l = 0x1000023

abbrev pub key_shift_l : ℕ
key_shift_l = 0x1000020

abbrev pub key_shift_r : ℕ
key_shift_r = 0x1000220

abbrev pub key_capslock : ℕ
key_capslock = 0x1000024

abbrev pub key_f1 : ℕ
key_f1 = 0x1000030

abbrev pub key_f6 : ℕ
key_f6 = 0x1000035

abbrev pub key_enter : ℕ
key_enter = 0x1000005

-- `keymap[NR_SCAN_CODES*KEYMAP_COLS]`
unfoldable pub keymap : List ℕ
keymap =
    0 ∷ 0 ∷ 0x1000000 ∷ 0x1000000 ∷ 0x31 ∷ 0x21 ∷ 0x32 ∷ 0x40 ∷ 0x33 ∷ 0x23 ∷ 0x34 ∷ 0x24 ∷ 0x35
    ∷ 0x25 ∷ 0x36 ∷ 0x5e ∷ 0x37 ∷ 0x26 ∷ 0x38 ∷ 0x2a ∷ 0x39 ∷ 0x28 ∷ 0x30 ∷ 0x29 ∷ 0x2d ∷ 0x5f
    ∷ 0x3d ∷ 0x2b ∷ 0x1000003 ∷ 0x1000003 ∷ 0x1000001 ∷ 0x1000001 ∷ 0x71 ∷ 0x51 ∷ 0x77 ∷ 0x57 ∷ 0x65
    ∷ 0x45 ∷ 0x72 ∷ 0x52 ∷ 0x74 ∷ 0x54 ∷ 0x79 ∷ 0x59 ∷ 0x75 ∷ 0x55 ∷ 0x69 ∷ 0x49 ∷ 0x6f ∷ 0x4f
    ∷ 0x70 ∷ 0x50 ∷ 0x5b ∷ 0x7b ∷ 0x5d ∷ 0x7d ∷ 0x1000005 ∷ 0x1000005 ∷ 0x1000021 ∷ 0x1000021 ∷ 0x61
    ∷ 0x41 ∷ 0x73 ∷ 0x53 ∷ 0x64 ∷ 0x44 ∷ 0x66 ∷ 0x46 ∷ 0x67 ∷ 0x47 ∷ 0x68 ∷ 0x48 ∷ 0x6a ∷ 0x4a
    ∷ 0x6b ∷ 0x4b ∷ 0x6c ∷ 0x4c ∷ 0x3b ∷ 0x3a ∷ 0x27 ∷ 0x22 ∷ 0x60 ∷ 0x7e ∷ 0x1000020 ∷ 0x1000020
    ∷ 0x5c ∷ 0x7c ∷ 0x7a ∷ 0x5a ∷ 0x78 ∷ 0x58 ∷ 0x63 ∷ 0x43 ∷ 0x76 ∷ 0x56 ∷ 0x62 ∷ 0x42 ∷ 0x6e
    ∷ 0x4e ∷ 0x6d ∷ 0x4d ∷ 0x2c ∷ 0x3c ∷ 0x2e ∷ 0x3e ∷ 0x2f ∷ 0x3f ∷ 0x1000220 ∷ 0x1000220 ∷ 0x2a
    ∷ 0x2a ∷ 0x1000023 ∷ 0x1000023 ∷ 0x20 ∷ 0x20 ∷ 0x1000024 ∷ 0x1000024 ∷ 0x1000030 ∷ 0x1000030
    ∷ 0x1000031 ∷ 0x1000031 ∷ 0x1000032 ∷ 0x1000032 ∷ 0x1000033 ∷ 0x1000033 ∷ 0x1000034 ∷ 0x1000034
    ∷ 0x1000035 ∷ 0x1000035 ∷ 0x1000036 ∷ 0x1000036 ∷ 0x1000037 ∷ 0x1000037 ∷ 0x1000038 ∷ 0x1000038
    ∷ 0x1000039 ∷ 0x1000039 ∷ 0x1000025 ∷ 0x1000025 ∷ 0x1000026 ∷ 0x1000026 ∷ 0x1000010 ∷ 0x1000010
    ∷ 0x1000013 ∷ 0x1000013 ∷ 0x1000016 ∷ 0x1000016 ∷ 0x1000160 ∷ 0x1000160 ∷ 0x1000012 ∷ 0x1000012
    ∷ 0x1000161 ∷ 0x1000161 ∷ 0x1000014 ∷ 0x1000014 ∷ 0x1000162 ∷ 0x1000162 ∷ 0x1000011 ∷ 0x1000011
    ∷ 0x1000015 ∷ 0x1000015 ∷ 0x1000017 ∷ 0x1000017 ∷ 0x1000006 ∷ 0x1000006 ∷ 0x1000163 ∷ 0x1000163
    ∷ 0 ∷ 0 ∷ 0 ∷ 0 ∷ 0 ∷ 0 ∷ 0x100003a ∷ 0x100003a ∷ 0x100003b ∷ 0x100003b ∷ 0 ∷ 0 ∷ 0 ∷ 0 ∷ 0 ∷ 0
    ∷ 0 ∷ 0 ∷ 0 ∷ 0 ∷ 0 ∷ 0 ∷ 0 ∷ 0 ∷ 0 ∷ 0 ∷ 0 ∷ 0 ∷ 0 ∷ 0 ∷ 0 ∷ 0 ∷ 0 ∷ 0 ∷ 0 ∷ 0 ∷ 0 ∷ 0 ∷ 0 ∷ 0
    ∷ 0 ∷ 0 ∷ 0 ∷ 0 ∷ 0 ∷ 0 ∷ 0 ∷ 0 ∷ 0 ∷ 0 ∷ 0 ∷ 0 ∷ 0 ∷ 0 ∷ 0 ∷ 0 ∷ 0 ∷ 0 ∷ 0 ∷ 0 ∷ 0 ∷ 0 ∷ 0 ∷ 0
    ∷ 0 ∷ 0 ∷ 0 ∷ 0 ∷ 0 ∷ 0 ∷ 0 ∷ 0 ∷ 0 ∷ 0 ∷ 0 ∷ 0 ∷ 0 ∷ 0 ∷ 0 ∷ 0 ∷ 0 ∷ 0 ∷ 0 ∷ 0 ∷ 0 ∷ 0 ∷ 0 ∷ 0
    ∷ []

-- `keymap[scan_code*KEYMAP_COLS+col]`; a read past the end of the table would give 0 here.
unfoldable pub lookup_key : ℕ → ℕ → ℕ
unfolding keymap
lookup_key scan_code col = get_or keymap (scan_code * 2 + col) 0

length-keymap : length keymap ≡ 256
unfolding keymap
length-keymap = refl

-- With a scan code of seven bits and one of the two columns the index lies in the table.
pub keymap_index :
    (scan_code col : ℕ) → scan_code < 128 → col < 2 → scan_code * 2 + col < length keymap
keymap_index scan_code col h k = rw length-keymap (omega arith)
