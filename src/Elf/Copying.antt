-- ===== src/Elf/Copying.antt =====
-- What the loading of an ELF image needs of a function that copies bytes, and that `s32_memcpy` of
-- kernel_loader/protected_code.c has it.
use simple_os.Base.{
  ℕ, zero, suc, ◌+◌, ◌%◌, ◌^◌, ◌≤◌, ◌<◌, ◌≡◌, ◌≢◌, ◌⊎◌, inl, refl, ◌∙◌, ◌==◌, ==_ne, ==_self,
  if◌then◌else◌, arith,
}
use simple_os.Loader.{Bytes}
use simple_os.Elf.{Memcpy, s32_memcpy}

-- Two runs of bytes, each given by its start and its length, have none in common.
abbrev pub Apart : ℕ → ℕ → ℕ → ℕ → Type 0
Apart a n b m = (a + n ≤ b) ⊎ (b + m ≤ a)

pub record CopyLaws (memcpy : Memcpy) : Type 0 where
  pub inside :
      (memory : Bytes) (dest src n i : ℕ)
      → dest + n < 2 ^ 32
      → src + n < 2 ^ 32
      → Apart dest n src n
      → i < n
      → memcpy memory dest src n (dest + i) ≡ memory (src + i)
  pub outside :
      (memory : Bytes) (dest src n a : ℕ)
      → dest + n < 2 ^ 32
      → (a < dest) ⊎ (dest + n ≤ a)
      → memcpy memory dest src n a ≡ memory a

s32_memcpy-outside :
    (memory : Bytes) (dest src n a : ℕ)
    → dest + n < 2 ^ 32
    → (a < dest) ⊎ (dest + n ≤ a)
    → s32_memcpy memory dest src n a ≡ memory a
unfolding s32_memcpy
s32_memcpy-outside memory dest src zero a fits out = refl
s32_memcpy-outside memory dest src (suc n) a fits out =
    let e : (dest + 1) % 2 ^ 32 ≡ dest + 1 = omega arith in
    let away : a ≢ dest = λ same. ground (arith, out, same) in
    rw (e) (
      s32_memcpy-outside (λ b. if b == dest then memory src else memory b) (dest + 1)
        ((src + 1) % 2 ^ 32) n a (omega arith) (omega (arith, out))
      ∙ rw (==_ne a dest away) refl)

s32_memcpy-inside :
    (memory : Bytes) (dest src n i : ℕ)
    → dest + n < 2 ^ 32
    → src + n < 2 ^ 32
    → Apart dest n src n
    → i < n
    → s32_memcpy memory dest src n (dest + i) ≡ memory (src + i)
unfolding s32_memcpy
s32_memcpy-inside memory dest src zero i fits from apart h = absurd (omega arith)
s32_memcpy-inside memory dest src (suc n) zero fits from apart h =
    let e : (dest + 1) % 2 ^ 32 ≡ dest + 1 = omega arith in
    let at : dest + 0 ≡ dest = omega arith in
    let source : src + 0 ≡ src = omega arith in
    rw (e, at, source)
      (s32_memcpy-outside (λ b. if b == dest then memory src else memory b) (dest + 1)
          ((src + 1) % 2 ^ 32) n dest (omega arith) (inl (omega arith))
        ∙ rw (==_self dest) refl)
s32_memcpy-inside memory dest src (suc n) (suc i) fits from apart h =
    let e : (dest + 1) % 2 ^ 32 ≡ dest + 1 = omega arith in
    let es : (src + 1) % 2 ^ 32 ≡ src + 1 = omega arith in
    let at : dest + suc i ≡ dest + 1 + i = omega arith in
    let source : src + suc i ≡ src + 1 + i = omega arith in
    let away : src + 1 + i ≢ dest = λ same. ground (arith, apart, same) in
    rw (e, es, at, source)
      (s32_memcpy-inside (λ b. if b == dest then memory src else memory b) (dest + 1) (src + 1) n i
          (omega arith) (omega arith) (omega (arith, apart)) (omega arith)
        ∙ rw (==_ne (src + 1 + i) dest away) refl)

pub s32_memcpy-CopyLaws : CopyLaws s32_memcpy
s32_memcpy-CopyLaws = record { inside = s32_memcpy-inside; outside = s32_memcpy-outside }
