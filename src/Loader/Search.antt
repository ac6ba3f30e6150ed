-- ===== src/Loader/Search.antt =====
-- Which entry of the root directory the kernel loader finds.
use simple_os.Base.{
  ℕ, zero, suc, ◌+◌, ◌-◌, ◌*◌, ◌/◌, ◌%◌, ◌^◌, ◌<◌, ◌≡◌, ◌≢◌, refl, sym, ◌∙◌, ◌==◌, ltb, ==_ne,
  ==_self, if◌then◌else◌, ◌⊎◌, inl, inr, arith, Bool, true, false, not, bit_or,
}
use simple_os.Base.Bits.{bit_or-fields, holds_below, holds_below-true}
use simple_os.Loader.{Bytes, two_bytes, s_strncmp}
use simple_os.Loader.Directory.{kernel_name, four_bytes, Search, search_entry, search_end}

-- A name with the bytes of another that has no zero byte compares equal to it.
s_strncmp-same :
    (s1 s2 : Bytes) (n : ℕ)
    → ((i : ℕ) → i < n → s1 i ≡ s2 i)
    → ((i : ℕ) → i < n → s2 i ≢ 0)
    → s_strncmp s1 s2 n ≡ 0
unfolding s_strncmp
s_strncmp-same s1 s2 zero same live = refl
s_strncmp-same s1 s2 (suc n) same live =
    let full = ==_ne (s2 0) 0 (live 0 (omega arith)) in
    rw (same 0 (omega arith), full, ==_self (s2 0))
      (s_strncmp-same (λ i. s1 (suc i)) (λ i. s2 (suc i)) n (λ i hi. same (suc i) (omega arith))
        (λ i hi. live (suc i) (omega arith)))

-- It does not if the first byte that differs is not zero.
s_strncmp-differ :
    (s1 s2 : Bytes) (n k : ℕ)
    → k < n
    → ((i : ℕ) → i < k → s1 i ≡ s2 i)
    → ((i : ℕ) → i < n → s2 i ≢ 0)
    → s1 k ≢ 0
    → s1 k ≢ s2 k
    → s_strncmp s1 s2 n ≡ 2 ^ 32 - 1
unfolding s_strncmp
s_strncmp-differ s1 s2 zero k h same live nonzero ne = absurd (omega arith)
s_strncmp-differ s1 s2 (suc n) zero h same live nonzero ne =
    rw (==_ne (s1 0) 0 nonzero, ==_ne (s2 0) 0 (live 0 (omega arith)), ==_ne (s1 0) (s2 0) ne) refl
s_strncmp-differ s1 s2 (suc n) (suc k) h same live nonzero ne =
    let full = ==_ne (s2 0) 0 (live 0 (omega arith)) in
    rw (same 0 (omega arith), full, ==_self (s2 0))
      (s_strncmp-differ (λ i. s1 (suc i)) (λ i. s2 (suc i)) n k (omega arith)
        (λ i hi. same (suc i) (omega arith)) (λ i hi. live (suc i) (omega arith)) nonzero ne)

kernel_name-live : (i : ℕ) → i < 11 → kernel_name i ≢ 0
unfolding holds_below
kernel_name-live i h zero_byte =
    let live = holds_below-true 11 (λ (x : ℕ). not (kernel_name x == 0)) i refl h in
    ground (arith, live, zero_byte)

-- An entry of the directory for the kernel: its name, and not that of a volume.
abbrev pub IsKernel : Bytes → Type 0
IsKernel entry = ((i : ℕ) → i < 11 → entry i ≡ kernel_name i) × (entry 0xb / 2 ^ 3 % 2 ≡ 0)

-- An entry with another name: a byte of it that is not zero is the first that differs.
abbrev pub IsOther : Bytes → Type 0
IsOther entry =
    (k : ℕ) × (k < 11)
    × ((i : ℕ) → i < k → entry i ≡ kernel_name i)
    × (entry k ≢ 0)
    × (entry k ≢ kernel_name k)

-- An entry that the search passes: of a file that was deleted, of a volume, or with another name.
abbrev pub IsPassed : Bytes → Type 0
IsPassed entry = (entry 0 ≡ 0xe5) ⊎ ((entry 0 ≢ 0) × ((entry 0xb / 2 ^ 3 % 2 ≡ 1) ⊎ IsOther entry))

-- Entry `at` of the disk, as 32 bytes from its start on.
abbrev pub dir_entry : Bytes → ℕ → Bytes
dir_entry image at i = image (32 * at + i)

-- The first cluster and the size in an entry, the lowest byte first.
abbrev pub cluster_in : Bytes → ℕ
cluster_in entry = entry 0x1a + 2 ^ 8 * entry 0x1b

abbrev pub size_in : Bytes → ℕ
size_in entry = entry 0x1c + 2 ^ 8 * entry 0x1d + 2 ^ 16 * entry 0x1e + 2 ^ 24 * entry 0x1f

module _ (entry : Bytes) (byte : (i : ℕ) → i < 32 → entry i < 256) where
  two_bytes-cluster_in : two_bytes entry 0x1b 0x1a ≡ cluster_in entry
  two_bytes-cluster_in =
      bit_or-fields 8 (entry 0x1b) (entry 0x1a) (byte 0x1a (omega arith)) ∙ omega arith

  four_bytes-size_in : four_bytes entry ≡ size_in entry
  four_bytes-size_in =
      let b3 = entry 0x1f in
      let b2 = entry 0x1e in
      let b1 = entry 0x1d in
      let b0 = entry 0x1c in
      let e2 : bit_or (b3 * 2 ^ 24) (b2 * 2 ^ 16) ≡ (b3 * 2 ^ 8 + b2) * 2 ^ 16 =
        bit_or-fields 24 b3 (b2 * 2 ^ 16) (omega (arith, byte 0x1e (omega arith))) ∙ omega arith in
      let e1 : bit_or ((b3 * 2 ^ 8 + b2) * 2 ^ 16) (b1 * 2 ^ 8)
          ≡ (b3 * 2 ^ 16 + b2 * 2 ^ 8 + b1) * 2 ^ 8 =
        bit_or-fields 16 (b3 * 2 ^ 8 + b2) (b1 * 2 ^ 8) (omega (arith, byte 0x1d (omega arith)))
        ∙ omega arith in
      let e0 = bit_or-fields 8 (b3 * 2 ^ 16 + b2 * 2 ^ 8 + b1) b0 (byte 0x1c (omega arith)) in
      rw (e2, e1, e0) (omega arith)

if_same : (b : Bool) (x : Search) → (if b then x else x) ≡ x
if_same true x = refl
if_same false x = refl

-- What the body of the loop does on such entries.
name_at : Bytes → Bytes
name_at entry i = if ltb i 11 then entry i else 0

name_at-entry : (entry : Bytes) (i : ℕ) → i < 11 → name_at entry i ≡ entry i
unfolding name_at
name_at-entry entry i h = ground arith

search_entry-IsKernel :
    (entry : Bytes) (next : ℕ → Search)
    → IsKernel entry
    → search_entry entry next ≡ search_end (two_bytes entry 0x1b 0x1a) (four_bytes entry)
unfolding name_at
search_entry-IsKernel entry next (name, file) =
    let same =
      s_strncmp-same (name_at entry) kernel_name 11 (λ i hi. name_at-entry entry i hi ∙ name i hi)
        kernel_name-live in
    rw (name 0 (omega arith), file, same) refl

search_entry-IsPassed :
    (entry : Bytes) (next : ℕ → Search)
    → IsPassed entry
    → search_entry entry next ≡ next (four_bytes entry)
unfolding name_at
search_entry-IsPassed entry next (inl deleted) = rw (deleted) refl
search_entry-IsPassed entry next (inr (live, inl label)) =
    rw (==_ne (entry 0) 0 live, label) (if_same (entry 0 == 0xe5) (next (four_bytes entry)))
search_entry-IsPassed entry next (inr (live, inr (k, h, same, nonzero, ne))) =
    let differ =
      s_strncmp-differ (name_at entry) kernel_name 11 k h
        (λ i hi. name_at-entry entry i (omega arith) ∙ same i hi) kernel_name-live
        (λ e. nonzero (sym (name_at-entry entry k h) ∙ e))
        (λ e. ne (sym (name_at-entry entry k h) ∙ e)) in
    rw (==_ne (entry 0) 0 live, differ)
      (rw (if_same (entry 0xb / 2 ^ 3 % 2 == 1) (next (four_bytes entry)))
        (if_same (entry 0 == 0xe5) (next (four_bytes entry))))

-- Two entries with the same bytes.
module _ (entry image_entry : Bytes) (same : (i : ℕ) → i < 32 → entry i ≡ image_entry i) where
  IsPassed-same : IsPassed image_entry → IsPassed entry
  IsPassed-same passed =
      rw (same 0 (omega arith), same 0xb (omega arith))
        (elim passed [
          | inl deleted ↦ inl deleted
          | inr (live, inl label) ↦ inr (live, inl label)
          | inr (live, inr (k, h, name, nonzero, ne)) ↦
              let at = same k (omega arith) in
              inr (
                live,
                inr (k, h, λ i hi. same i (omega arith) ∙ name i hi, rw (at) nonzero, rw (at) ne),
              )
        ])

  IsKernel-same : IsKernel image_entry → IsKernel entry
  IsKernel-same (name, file) =
      ((λ i hi. same i (omega arith) ∙ name i hi), rw (same 0xb (omega arith)) file)

  cluster_in-same : cluster_in entry ≡ cluster_in image_entry
  cluster_in-same = rw (same 0x1a (omega arith), same 0x1b (omega arith)) refl

  size_in-same : size_in entry ≡ size_in image_entry
  size_in-same =
      rw
        (
          same 0x1c (omega arith),
          same 0x1d (omega arith),
          same 0x1e (omega arith),
          same 0x1f (omega arith),
        )
        refl

-- What the body of the loop does on an entry in a buffer, by the entry of the disk that it holds.
module _ (image : Bytes) (byte : (a : ℕ) → image a < 256) (at : ℕ) (entry : Bytes)
    (same : (i : ℕ) → i < 32 → entry i ≡ image (32 * at + i)) (next : ℕ → Search) where
  entry_byte : (i : ℕ) → i < 32 → entry i < 256
  entry_byte i h = rw (same i h) (byte (32 * at + i))

  pub search_entry-found :
      IsKernel (dir_entry image at)
      → search_entry entry next
        ≡ search_end (cluster_in (dir_entry image at)) (size_in (dir_entry image at))
  search_entry-found kernel =
      let disk = dir_entry image at in
      search_entry-IsKernel entry next (IsKernel-same entry disk same kernel)
      ∙ rw
          (
            two_bytes-cluster_in entry entry_byte,
            four_bytes-size_in entry entry_byte,
            cluster_in-same entry disk same,
            size_in-same entry disk same,
          )
          refl

  pub search_entry-passed :
      IsPassed (dir_entry image at) → search_entry entry next ≡ next (four_bytes entry)
  search_entry-passed passed =
      search_entry-IsPassed entry next (IsPassed-same entry (dir_entry image at) same passed)
