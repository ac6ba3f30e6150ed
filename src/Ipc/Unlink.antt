-- ===== src/Ipc/Unlink.antt =====
-- Taking a process out of the queue of its receiver.
use simple_os.Base.{
  ℕ, zero, suc, ◌≤◌, ◌≡◌, ◌≢◌, refl, true, false, ◌&&◌, not, Option, some, List, [], ◌∷◌, ◌==◌,
  arith, inl, inr, Bool-cases, if◌then◌else◌, length, ◌∙◌,
}
use simple_os.Kernel.{ProcTable}
use simple_os.Ipc.{find_in_queue}
use simple_os.Ipc.Queue.{mem, Links, nil, cons, Links-frame}

-- The queue without `src`.
abbrev pub erase : ℕ → List ℕ → List ℕ
erase src [] = []
erase src (x ∷ xs) = if x == src then xs else x ∷ erase src xs

-- The member before `src` in `xs`, where `p` stands before `xs`.
abbrev pub before : ℕ → ℕ → List ℕ → ℕ
before src p [] = p
before src p (x ∷ xs) = if x == src then p else before src x xs

pub mem-erase :
    {t : ProcTable} {h : Option ℕ} {xs : List ℕ} (src x : ℕ)
    → Links t h xs
    → mem x (erase src xs) ≡ (mem x xs && not (x == src))
mem-erase src x nil = refl
mem-erase src x (cons {p} {xs} out l) = ground (arith, mem-erase src x l)

pub mem-before : (src p : ℕ) (xs : List ℕ) → mem (before src p xs) (p ∷ xs) ≡ true
mem-before src p [] = ground arith
mem-before src p (x ∷ xs) = ground (arith, mem-before src x xs)

pub before-ne : (src p : ℕ) (xs : List ℕ) → p ≢ src → before src p xs ≢ src
before-ne src p [] ne = ne
before-ne src p (x ∷ xs) ne = ground (arith, before-ne src x xs)

pub find_in_queue-before :
    {t : ProcTable} {h : Option ℕ} {xs : List ℕ} (rounds src p : ℕ)
    → Links t h xs
    → mem src xs ≡ true
    → length xs ≤ rounds
    → find_in_queue rounds t src h (some p) ≡ some (some (before src p xs))
unfolding find_in_queue
find_in_queue-before rounds src p nil i fits = cc
find_in_queue-before zero src p (cons out l) i fits = absurd (omega arith)
find_in_queue-before (suc n) src p (cons {p = x} {xs} out l) i fits = elim (Bool-cases (x == src)) [
  | inl here ↦ ground arith
  | inr on ↦ ground (arith, find_in_queue-before n src x l (ground arith) (omega arith))
]

-- The links after the member before `src` has been given the successor of `src`.
pub Links-erase :
    {t t' : ProcTable} (src p : ℕ) {h : Option ℕ} {xs : List ℕ}
    → Links t h xs
    → (t p).next_sending ≡ h
    → mem p xs ≡ false
    → p ≢ src
    → mem src xs ≡ true
    → (t' (before src p xs)).next_sending ≡ (t src).next_sending
    → ((y : ℕ) → y ≢ before src p xs → y ≢ src → (t' y).next_sending ≡ (t y).next_sending)
    → Links t' (t' p).next_sending (erase src xs)
Links-erase src p nil e out_p ne i moved same = cc
Links-erase {t} {t'} src p (cons {p = x} {xs} out l) e out_p ne i moved same =
    elim (Bool-cases (x == src)) [
      | inl here ↦
          let moved' : (t' p).next_sending ≡ (t x).next_sending = ground arith in
          rw (here, moved') (Links-frame (λ y m. same y (ground arith) (ground arith)) l)
      | inr on ↦
          let stays : (t' p).next_sending ≡ some x =
            same p (ground (arith, mem-before src x xs)) ne ∙ e in
          let moved' : (t' (before src x xs)).next_sending ≡ (t src).next_sending = ground arith in
          rw (on, stays)
            (cons (ground (arith, mem-erase src x l)) (
              Links-erase src x l refl out (ground arith) (ground arith) moved'
                (λ y off away. same y (ground arith) away)))
    ]
