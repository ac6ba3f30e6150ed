-- ===== src/Elf/Segments.antt =====
-- Every segment of an ELF image is loaded, although the image and the screen are in the memory that
-- is written.
use simple_os.Base.{
  ℕ, zero, suc, ◌+◌, ◌*◌, ◌%◌, ◌^◌, ◌≤◌, ◌<◌, ◌≡◌, ◌≢◌, ◌⊎◌, inl, inr, refl, sym, ap, ◌∙◌, ltb,
  ◌==◌, ==_iff, Bool-cases, arith, some, true, false, Bool,
}
use simple_os.Loader.{Bytes}
use simple_os.Elf.{Memcpy, ehdr_at, pt_load, copy_segment, segments_loop, copy_segments, note_entry}
use simple_os.Elf.Copying.{CopyLaws}
use simple_os.Elf.Image.{
  Agree, pheader, segment, Loads, IsImage, LoadedFrom, NoteLaws, OffScreen, phnum_same, phoff_same,
  note-Agree, copy_segment-skip, copy_segment-load,
}

module _ (memcpy : Memcpy) (laws : CopyLaws memcpy) (on_screen : ℕ → Bool) (linear : ℕ → ℕ)
    (buff size : ℕ) (image : Bytes) (is_image : IsImage image linear buff size)
    (off : OffScreen on_screen image linear buff size) where
  -- A segment that is loaded, or passed, in front of the others.
  module _ (now next after : Bytes) (same : Agree buff size image now) (i : ℕ) where
    module _ (loads : Loads image buff i) (noted : Bytes) (noted_same : Agree buff size image noted)
        (quiet : (a : ℕ) → on_screen a ≡ false → noted a ≡ now a)
        (e : next
          ≡ memcpy noted
              (linear (segment image buff i).p_vaddr)
              (buff + (segment image buff i).p_offset)
              (segment image buff i).p_filesz) where
      target : ℕ
      target = linear (segment image buff i).p_vaddr

      next_outside :
          (a : ℕ) → (a < target) ⊎ (target + (segment image buff i).p_filesz ≤ a) → next a ≡ noted a
      unfolding target
      next_outside a out =
          ap (λ (m : Bytes). m a) e
          ∙ laws.outside noted target (buff + (segment image buff i).p_offset)
              (segment image buff i).p_filesz a (is_image.below i loads) out

      next_inside :
          (k : ℕ)
          → k < (segment image buff i).p_filesz
          → next (target + k) ≡ image (buff + (segment image buff i).p_offset + k)
      unfolding target
      next_inside k h =
          let inside = is_image.has_segments i loads in
          ap (λ (m : Bytes). m (target + k)) e
          ∙ laws.inside noted target (buff + (segment image buff i).p_offset)
              (segment image buff i).p_filesz k (is_image.below i loads)
              (omega (arith, is_image.fits)) (omega (arith, is_image.beside i loads)) h
          ∙ noted_same (buff + (segment image buff i).p_offset + k) (omega arith) (omega arith)

      next-Agree : Agree buff size image next
      unfolding target
      next-Agree a low high =
          next_outside a (omega (arith, is_image.beside i loads)) ∙ noted_same a low high

      load_first :
          LoadedFrom on_screen (i + 1) image linear buff next after
          → LoadedFrom on_screen i image linear buff now after
      unfolding target
      load_first others = record {
        content = λ j from jloads k hk. elim (Bool-cases (j == i)) [
          | inl here ↦
              let at = (==_iff j i).0 here in
              let small : k < (segment image buff i).p_filesz = rw (sym at) hk in
              rw (at) (
                others.rest (target + k) (off.segments_off i loads k small) (λ later hi more.
                  omega (arith, is_image.apart i later (omega arith) loads more, small))
                ∙ next_inside k small)
          | inr further ↦ others.content j (ground (arith, further)) jloads k hk
        ];
        rest = λ a dark out.
            others.rest a dark (λ j hj jloads. out j (omega arith) jloads)
            ∙ next_outside a (out i (omega arith) loads)
            ∙ quiet a dark;
      }

    skip_first :
        (segment image buff i).p_type ≢ pt_load
        → ((a : ℕ) → on_screen a ≡ false → next a ≡ now a)
        → LoadedFrom on_screen (i + 1) image linear buff next after
        → LoadedFrom on_screen i image linear buff now after
    skip_first other quiet others = record {
      content = λ j from jloads k hk.
          others.content j (omega (arith, (λ (at : j ≡ i). other (rw (sym at) jloads.1)))) jloads k
            hk;
      rest = λ a dark out.
          others.rest a dark (λ j hj jloads. out j (omega arith) jloads) ∙ quiet a dark;
    }

  module _ (note : ℕ → ℕ → Bytes → Bytes) (lines : ℕ) (notes : NoteLaws note on_screen lines) where
    -- One round of the loop.
    loop_round :
        (rounds i line line1 : ℕ) (now next : Bytes)
        → Agree buff size image now
        → i < (ehdr_at image buff).e_phnum
        → copy_segment memcpy note linear buff (line + 1) (pheader image buff i) now ≡ (line1, next)
        → segments_loop memcpy note linear buff (suc rounds) i line (pheader image buff i) now
          ≡ segments_loop memcpy note linear buff rounds
              (i + 1)
              line1
              (pheader image buff (i + 1))
              next
    unfolding segments_loop
    loop_round rounds i line line1 now next same h copied =
        let at : (pheader image buff i + 32) % 2 ^ 32 ≡ pheader image buff (i + 1) =
          omega (arith, is_image.fits, is_image.has_headers) in
        let more : ltb i (ehdr_at image buff).e_phnum ≡ true = ground arith in
        rw (phnum_same linear buff size image is_image now same, more)
          (ap
              (λ (r : ℕ × Bytes).
                segments_loop memcpy note linear buff rounds (i + 1) r.0
                  ((pheader image buff i + 32) % 2 ^ 32) r.1)
              copied
            ∙ ap (λ (q : ℕ). segments_loop memcpy note linear buff rounds (i + 1) line1 q next) at)

    -- What is left to load, and the result.
    abbrev Ends : ℕ → ℕ → ℕ → Bytes → Type 0
    Ends rounds i line now =
        (after : Bytes) × (segments_loop memcpy note linear buff rounds i line
            (pheader image buff i) now
          ≡ some after)
        × LoadedFrom on_screen i image linear buff now after

    no_more :
        (rounds i line : ℕ) (now : Bytes)
        → Agree buff size image now
        → ltb i (ehdr_at image buff).e_phnum ≡ false
        → line + 1 < lines
        → Ends (suc rounds) i line now
    unfolding segments_loop
    no_more rounds i line now same done room = (
      note_entry memcpy note linear buff (line + 1) now,
      rw (phnum_same linear buff size image is_image now same, done) refl,
      record {
        content = λ j from (below, type). absurd (ground (arith, done));
        rest = λ a dark out. notes.outside (line + 1) (ehdr_at now buff).e_entry now a room dark;
      },
    )

    loop_loaded :
        (rounds i line : ℕ) (now : Bytes)
        → i ≤ (ehdr_at image buff).e_phnum
        → (ehdr_at image buff).e_phnum < i + rounds
        → line + 3 + 3 * (ehdr_at image buff).e_phnum ≤ lines + 3 * i
        → Agree buff size image now
        → Ends rounds i line now
    loop_loaded zero i line now low enough room same = absurd (omega arith)
    loop_loaded (suc rounds) i line now low enough room same =
        elim (Bool-cases (ltb i (ehdr_at image buff).e_phnum)) [
          | inr done ↦ no_more rounds i line now same done (omega arith)
          | inl more ↦
              let h : i < (ehdr_at image buff).e_phnum = ground (arith, more) in
              elim (Bool-cases ((segment image buff i).p_type == pt_load)) [
                | inl load ↦
                    let loads : Loads image buff i =
                      (h, (==_iff (segment image buff i).p_type pt_load).0 load) in
                    let (noted, e, noted_same, quiet) =
                      copy_segment-load memcpy note on_screen lines notes linear buff size image
                        is_image off now same (line + 1) i h (omega arith) loads in
                    let next =
                      memcpy noted (linear (segment image buff i).p_vaddr)
                        (buff + (segment image buff i).p_offset) (segment image buff i).p_filesz in
                    let (after, result, others) =
                      loop_loaded rounds (i + 1) (line + 1 + 2) next (omega arith) (omega arith)
                        (omega arith)
                        (next-Agree now next next same i loads noted noted_same quiet refl) in
                    (
                      after,
                      loop_round rounds i line (line + 1 + 2) now next same h e ∙ result,
                      load_first now next after same i loads noted noted_same quiet refl others,
                    )
                | inr skip ↦
                    let other : (segment image buff i).p_type ≢ pt_load =
                      λ e. ground (arith, skip, e) in
                    let e =
                      copy_segment-skip memcpy note on_screen lines notes linear buff size image
                        is_image off now same (line + 1) i h (omega arith) other in
                    let entry = (ehdr_at now buff).e_entry in
                    let next = note (line + 1) entry now in
                    let (after, result, others) =
                      loop_loaded rounds (i + 1) (line + 1) next (omega arith) (omega arith)
                        (omega arith)
                        (note-Agree memcpy note on_screen lines notes linear buff size image
                          is_image off now (line + 1) entry (omega arith) same) in
                    (
                      after,
                      loop_round rounds i line (line + 1) now next same h e ∙ result,
                      skip_first now next after same i other
                          (λ a dark. notes.outside (line + 1) entry now a (omega arith) dark)
                          others,
                    )
              ]
        ]

    -- Copying the segments of an image that is in memory ends, with rounds for each of its headers and
    -- one more, and then each segment to load is in its place with the bytes that the image has for
    -- it, and the rest of the memory but the screen is as it was.
    pub copy_segments-LoadedFrom :
        (rounds : ℕ) (before : Bytes)
        → Agree buff size image before
        → (ehdr_at image buff).e_phnum < rounds
        → 14 + 3 * (ehdr_at image buff).e_phnum ≤ lines
        → (after : Bytes) × (copy_segments memcpy note linear buff rounds before ≡ some after)
          × LoadedFrom on_screen 0 image linear buff before after
    copy_segments-LoadedFrom rounds before same enough room =
        let at : (buff + (ehdr_at image buff).e_phoff) % 2 ^ 32 ≡ pheader image buff 0 =
          omega (arith, is_image.fits, is_image.has_headers) in
        let entry = (ehdr_at before buff).e_entry in
        let start = note 11 entry before in
        let (after, result, loaded) =
          loop_loaded rounds 0 11 start (omega arith) (omega arith) (omega arith) (
            note-Agree memcpy note on_screen lines notes linear buff size image is_image off before
              11 entry (omega arith) same) in
        (
          after,
          rw (phoff_same linear buff size image is_image before same, at) result,
          record {
            content = loaded.content;
            rest = λ a dark out.
                loaded.rest a dark out ∙ notes.outside 11 entry before a (omega arith) dark;
          },
        )
