-- ===== src/Strings.antt =====
-- The strings of include/k_string.h. A string is the list of its bytes; the first 0, or the end of
-- the list, ends it. Characters of both signs are given by their bytes.
pub mod Laws
mod Tests
use simple_os.Base.{ℕ, ◌+◌, ◌-◌, ◌%◌, Bool, ◌&&◌, List, [], ◌∷◌, ◌==◌, if◌then◌else◌, leb, get_or}

-- The `while` of `s_strlen`; `len` is a `u8`.
unfoldable pub strlen_loop : List ℕ → ℕ → ℕ
strlen_loop [] len = len
strlen_loop (c ∷ s) len = let rest = strlen_loop s ((len + 1) % 256) in if c == 0 then len else rest

unfoldable pub s_strlen : List ℕ → ℕ
unfolding strlen_loop
s_strlen s = strlen_loop s 0

-- The character that a pointer to a string points to.
abbrev pub first_char : List ℕ → ℕ
first_char [] = 0
first_char (c ∷ s) = c

-- The string behind the first character.
abbrev pub behind : List ℕ → List ℕ
behind [] = []
behind (c ∷ s) = s

-- `res = *s1 - *s2`, as the byte of an `s8`.
abbrev pub char_difference : ℕ → ℕ → ℕ
char_difference a b = (a + 256 - b) % 256

-- The comparison stops at a difference, or where both strings end.
unfoldable pub s_strcmp : List ℕ → List ℕ → ℕ
s_strcmp [] s2 = char_difference 0 (first_char s2)
s_strcmp (c ∷ s1) s2 =
    let res = char_difference c (first_char s2) in
    let rest = s_strcmp s1 (behind s2) in if res == 0 then if c == 0 then res else rest else res

-- The bytes that `s_strcpy` writes: those before the end, and the 0 that ends them.
unfoldable pub s_strcpy : List ℕ → List ℕ
s_strcpy [] = 0 ∷ []
s_strcpy (c ∷ src) = let rest = s_strcpy src in if c == 0 then 0 ∷ [] else c ∷ rest
