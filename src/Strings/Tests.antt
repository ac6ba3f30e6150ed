-- ===== src/Strings/Tests.antt =====
-- The string functions on concrete strings.
use simple_os.Base.{ℕ, ◌≡◌, ◌↔◌, arith, List, [], ◌∷◌}
use simple_os.Strings.{s_strcmp}
use simple_os.Strings.Laws.{text_of, AllBytes, nothing, next, s_strcmp-text_of}

-- "rom", and the bytes that happen to follow it.
abbrev rom : List ℕ
rom = 0x72 ∷ 0x6f ∷ 0x6d ∷ 0 ∷ 0x31 ∷ []

abbrev root : List ℕ
root = 0x72 ∷ 0x6f ∷ 0x6f ∷ 0x74 ∷ 0 ∷ []

rom-AllBytes : AllBytes rom
rom-AllBytes =
    next (omega arith)
      (next (omega arith) (next (omega arith) (next (omega arith) (next (omega arith) nothing))))

root-AllBytes : AllBytes root
root-AllBytes =
    next (omega arith)
      (next (omega arith) (next (omega arith) (next (omega arith) (next (omega arith) nothing))))

s_strcmp-text_of_example : (s_strcmp rom root ≡ 0) ↔ (text_of rom ≡ text_of root)
s_strcmp-text_of_example = s_strcmp-text_of rom root rom-AllBytes root-AllBytes
