-- ===== src/Strings/Laws.antt =====
-- The string functions against the bytes that stand before the end of a string.
use simple_os.Base.{
  ℕ, ◌+◌, ◌%◌, ◌<◌, ◌≡◌, ◌≢◌, ◌↔◌, refl, sym, ap, ◌∙◌, arith, List, [], ◌∷◌, ◌++◌, inl, inr,
  Bool-cases, ◌==◌, ==_iff, ==_ne, if◌then◌else◌, length, drop,
}
use simple_os.Strings.{
  strlen_loop, s_strlen, first_char, behind, char_difference, s_strcmp, s_strcpy,
}

-- The bytes before the end.
unfoldable pub text_of : List ℕ → List ℕ
text_of [] = []
text_of (c ∷ s) = let rest = text_of s in if c == 0 then [] else c ∷ rest

pub data AllBytes : List ℕ → Type 0 where
  nothing : AllBytes []
  next : {c : ℕ} → {cs : List ℕ} → c < 256 → AllBytes cs → AllBytes (c ∷ cs)

strlen_loop-length :
    (s : List ℕ) (len : ℕ) → len < 256 → strlen_loop s len ≡ (len + length (text_of s)) % 256
unfolding strlen_loop text_of
strlen_loop-length [] len h = omega arith
strlen_loop-length (c ∷ s) len h = elim (Bool-cases (c == 0)) [
  | inl end ↦ rw end (omega arith)
  | inr more ↦
      let rest = strlen_loop-length s ((len + 1) % 256) (omega arith) in
      rw (more, rest) (omega arith)
]

-- `s_strlen` returns the length of the text modulo 256: strings of 256 bytes and more seem shorter
-- than they are.
pub s_strlen-length : (s : List ℕ) → s_strlen s ≡ length (text_of s) % 256
unfolding s_strlen
s_strlen-length s = strlen_loop-length s 0 (omega arith) ∙ omega arith

-- `s_strcpy` copies the text and ends it.
pub s_strcpy-text_of : (src : List ℕ) → s_strcpy src ≡ text_of src ++ (0 ∷ [])
unfolding s_strcpy text_of
s_strcpy-text_of [] = refl
s_strcpy-text_of (c ∷ src) = elim (Bool-cases (c == 0)) [
  | inl end ↦ rw end refl
  | inr more ↦ rw (more, s_strcpy-text_of src) refl
]

text_of-split : (s : List ℕ) → first_char s ≢ 0 → text_of s ≡ first_char s ∷ text_of (behind s)
unfolding text_of
text_of-split [] h = absurd (h refl)
text_of-split (c ∷ s) h = rw (==_ne c 0 h) refl

text_of-ends : (s : List ℕ) → first_char s ≡ 0 → text_of s ≡ []
unfolding text_of
text_of-ends [] h = refl
text_of-ends (c ∷ s) h = rw ((==_iff c 0).1 h) refl

AllBytes-first : (s : List ℕ) → AllBytes s → first_char s < 256
AllBytes-first [] b = omega arith
AllBytes-first (c ∷ s) (next h b) = h

AllBytes-behind : (s : List ℕ) → AllBytes s → AllBytes (behind s)
AllBytes-behind [] b = b
AllBytes-behind (c ∷ s) (next h b) = b

difference_zero : (a b : ℕ) → a < 256 → b < 256 → char_difference a b ≡ 0 → a ≡ b
difference_zero a b ha hb e = omega arith

difference_self : (a : ℕ) → a < 256 → char_difference a a ≡ 0
difference_self a h = omega arith

s_strcmp-differ :
    (c : ℕ) (s t : List ℕ)
    → c < 256
    → first_char t < 256
    → c ≢ first_char t
    → s_strcmp (c ∷ s) t ≢ 0
unfolding s_strcmp
s_strcmp-differ c s t hc ht ne e =
    let off =
      ==_ne (char_difference c (first_char t)) 0
        (λ z. ne (difference_zero c (first_char t) hc ht z)) in
    ne (difference_zero c (first_char t) hc ht (rw off at e))

s_strcmp-more :
    (c : ℕ) (s t : List ℕ)
    → c < 256
    → c ≡ first_char t
    → c ≢ 0
    → s_strcmp (c ∷ s) t ≡ s_strcmp s (behind t)
unfolding s_strcmp
s_strcmp-more c s t h e ne =
    let same : char_difference c (first_char t) ≡ 0 = rw (sym e) (difference_self c h) in
    rw (same, ==_ne c 0 ne) refl

s_strcmp-end : (c : ℕ) (s t : List ℕ) → c ≡ first_char t → c ≡ 0 → s_strcmp (c ∷ s) t ≡ 0
unfolding s_strcmp
s_strcmp-end c s t e z =
    let same : char_difference c (first_char t) ≡ 0 = omega arith in
    rw (same, (==_iff c 0).1 z) refl

equal_texts : (s t : List ℕ) → AllBytes s → AllBytes t → s_strcmp s t ≡ 0 → text_of s ≡ text_of t
unfolding s_strcmp
equal_texts [] t bs bt e =
    let ended : first_char t ≡ 0 =
      sym (difference_zero 0 (first_char t) (omega arith) (AllBytes-first t bt) e) in
    text_of-ends [] refl ∙ sym (text_of-ends t ended)
equal_texts (c ∷ s) t (next h bs) bt e = elim (Bool-cases (c == first_char t)) [
  | inr n ↦ absurd (s_strcmp-differ c s t h (AllBytes-first t bt) (λ z. ground (arith, n, z)) e)
  | inl y ↦
      let same : c ≡ first_char t = (==_iff c (first_char t)).0 y in
      elim (Bool-cases (c == 0)) [
        | inl z ↦
            let ended : c ≡ 0 = (==_iff c 0).0 z in
            text_of-ends (c ∷ s) ended ∙ sym (text_of-ends t (sym same ∙ ended))
        | inr n ↦
            let going : c ≢ 0 = λ z. ground (arith, n, z) in
            let rest =
              equal_texts s (behind t) bs (AllBytes-behind t bt)
                (sym (s_strcmp-more c s t h same going) ∙ e) in
            text_of-split (c ∷ s) going
            ∙ ap (λ xs. c ∷ xs) rest
            ∙ ap (λ x. x ∷ text_of (behind t)) same
            ∙ sym (text_of-split t (λ z. going (same ∙ z)))
      ]
]

-- A difference between the strings shows in their texts.
first_text : List ℕ → ℕ
first_text [] = 0
first_text (c ∷ xs) = c

first_text-text_of : (s : List ℕ) → first_text (text_of s) ≡ first_char s
unfolding first_text text_of
first_text-text_of [] = refl
first_text-text_of (c ∷ s) = elim (Bool-cases (c == 0)) [
  | inl y ↦ rw y (sym ((==_iff c 0).0 y))
  | inr n ↦ rw n refl
]

no_difference : (s t : List ℕ) → AllBytes s → text_of s ≡ text_of t → s_strcmp s t ≡ 0
unfolding s_strcmp
no_difference [] t bs e =
    let ended : first_char t ≡ 0 =
      sym (first_text-text_of t) ∙ ap first_text (sym e) ∙ first_text-text_of [] in
    rw ended refl
no_difference (c ∷ s) t (next h bs) e =
    let same : c ≡ first_char t =
      sym (first_text-text_of (c ∷ s)) ∙ ap first_text e ∙ first_text-text_of t in
    elim (Bool-cases (c == 0)) [
      | inl z ↦ s_strcmp-end c s t same ((==_iff c 0).0 z)
      | inr n ↦
          let going : c ≢ 0 = λ z. ground (arith, n, z) in
          let rest : text_of s ≡ text_of (behind t) =
            ap (drop 1)
              (sym (text_of-split (c ∷ s) going) ∙ e ∙ text_of-split t (λ z. going (same ∙ z))) in
          s_strcmp-more c s t h same going ∙ no_difference s (behind t) bs rest
    ]

-- Strings of bytes compare as 0 if and only if they have the same text.
pub s_strcmp-text_of :
    (s t : List ℕ) → AllBytes s → AllBytes t → (s_strcmp s t ≡ 0) ↔ (text_of s ≡ text_of t)
s_strcmp-text_of s t bs bt = (equal_texts s t bs bt, no_difference s t bs)
