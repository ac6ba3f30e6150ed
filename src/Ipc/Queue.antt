-- ===== src/Ipc/Queue.antt =====
-- The queue of the processes that are blocked on a message to `dest`: a list threaded through
-- `q_sending` and `next_sending`.
use simple_os.Base.{
  ℕ, zero, suc, ◌<◌, ◌≤◌, ◌≡◌, ◌≢◌, refl, Bool, true, false, ◌||◌, Option, none, some, List, [],
  ◌∷◌, ◌++◌, ◌==◌, arith, ==_self, ◌∙◌, length, get_or,
}
use simple_os.Base.Pigeonhole.{pigeonhole}
use simple_os.Kernel.{Kernel, ProcTable, update, ok}
use simple_os.Ipc.{last_in_queue, enqueue}
use simple_os.Ipc.Phase.{SameCall}

abbrev pub mem : ℕ → List ℕ → Bool
mem x [] = false
mem x (y ∷ ys) = (x == y) || mem x ys

-- From `head` the pointers lead through `xs` to the end of the queue; no process occurs twice.
pub data Links (t : ProcTable) : Option ℕ → List ℕ → Type 0 where
  nil : Links t none []
  cons :
      {p : ℕ} {xs : List ℕ}
      → mem p xs ≡ false
      → Links t (t p).next_sending xs
      → Links t (some p) (p ∷ xs)

-- The tables agree on the successors of the members of `xs`.
abbrev pub SameLinks : ProcTable → ProcTable → List ℕ → Type 0
SameLinks t t' xs = (x : ℕ) → mem x xs ≡ true → (t' x).next_sending ≡ (t x).next_sending

module _ {t t' : ProcTable} where
  pub Links-frame : {h : Option ℕ} {xs : List ℕ} → SameLinks t t' xs → Links t h xs → Links t' h xs
  Links-frame same nil = nil
  Links-frame same (cons {p} out l) =
      cons out (rw (same p (ground arith)) (Links-frame (λ x m. same x (ground arith)) l))

-- The last member.
abbrev pub last : ℕ → List ℕ → ℕ
last x [] = x
last x (y ∷ ys) = last y ys

-- The table with `s` appended to the queue `xs` of `dest`.
abbrev pub appended : ProcTable → ℕ → ℕ → List ℕ → ProcTable
appended t dest s [] = update t dest (record (t dest) { q_sending = some s })
appended t dest s (x ∷ xs) = update t (last x xs) (record (t (last x xs)) { next_sending = some s })

module _ {t : ProcTable} where
  last_in_queue-last :
      (rounds x : ℕ) {h : Option ℕ} {xs : List ℕ}
      → Links t h xs
      → (t x).next_sending ≡ h
      → length xs < rounds
      → last_in_queue rounds t x ≡ some (last x xs)
  unfolding last_in_queue
  last_in_queue-last zero x l e h = absurd (omega arith)
  last_in_queue-last (suc n) x nil e h = ground arith
  last_in_queue-last (suc n) x (cons {p} out l) e h =
      ground (arith, last_in_queue-last n p l refl (omega arith))

pub enqueue-appended :
    (rounds dest s : ℕ) (k : Kernel) {h : Option ℕ} {xs : List ℕ}
    → Links k.proc_table h xs
    → (k.proc_table dest).q_sending ≡ h
    → length xs ≤ rounds
    → enqueue rounds dest s k ≡ ok tt (record k { proc_table = appended k.proc_table dest s xs })
unfolding enqueue
enqueue-appended rounds dest s k nil e h = ground arith
enqueue-appended rounds dest s k (cons {p} {xs} out l) e h =
    ground (arith, last_in_queue-last rounds p l refl (omega arith))

pub mem-append : (x : ℕ) (xs ys : List ℕ) → mem x (xs ++ ys) ≡ (mem x xs || mem x ys)
mem-append x [] ys = refl
mem-append x (y ∷ xs) ys = ground (arith, mem-append x xs ys)

pub mem-last : (x : ℕ) (xs : List ℕ) → mem (last x xs) (x ∷ xs) ≡ true
mem-last x [] = ground arith
mem-last x (y ∷ xs) = ground (arith, mem-last y xs)

-- Appending to a queue, as the links see it: only the last member has a new successor.
Links-append :
    {t t' : ProcTable} (s x : ℕ) {h : Option ℕ} (xs : List ℕ)
    → Links t h (x ∷ xs)
    → mem s (x ∷ xs) ≡ false
    → (t' s).next_sending ≡ none
    → (t' (last x xs)).next_sending ≡ some s
    → ((y : ℕ) → y ≢ last x xs → y ≢ s → (t' y).next_sending ≡ (t y).next_sending)
    → Links t' h ((x ∷ xs) ++ (s ∷ []))
Links-append s x [] (cons out _) new end to same =
    cons (ground arith) (rw to (cons refl (rw end nil)))
Links-append s x (y ∷ xs) (cons out l) new end to same =
    cons (ground (arith, mem-append x (y ∷ xs) (s ∷ []))) (
      rw (same x (ground (arith, mem-last y xs)) (ground arith))
        (Links-append s y xs l (ground arith) end to same))

-- `s` joins the queue of `dest` when it is linked behind the last member and ends the queue.
pub Links-appended :
    {t t' : ProcTable} (dest s : ℕ) (xs : List ℕ)
    → Links t (t dest).q_sending xs
    → mem s xs ≡ false
    → (t' s).next_sending ≡ none
    → ((q : ℕ) → (t' q).q_sending ≡ (appended t dest s xs q).q_sending)
    → ((q : ℕ) → q ≢ s → (t' q).next_sending ≡ (appended t dest s xs q).next_sending)
    → Links t' (t' dest).q_sending (xs ++ (s ∷ []))
Links-appended dest s [] l new end head next = rw (head dest, ==_self) (cons refl (rw end nil))
Links-appended {t} dest s (x ∷ xs) l new end head next =
    rw (head dest, unmoved)
      (Links-append s x xs l new end
        (next (last x xs) (ground (arith, mem-last x xs)) ∙ ground arith)
        (λ y ne other. next y other ∙ ground arith))
  where
    unmoved : (appended t dest s (x ∷ xs) dest).q_sending ≡ (t dest).q_sending
    unmoved = ground arith

-- Appending to a queue changes only the links.
pub appended-SameCall :
    (t : ProcTable) (dest s : ℕ) (xs : List ℕ) (q : ℕ) → SameCall (t q) (appended t dest s xs q)
appended-SameCall t dest s [] q = ground arith
appended-SameCall t dest s (x ∷ xs) q = ground arith

mem-get_or : (xs : List ℕ) (i : ℕ) → i < length xs → mem (get_or xs i 0) xs ≡ true
mem-get_or [] i h = absurd (omega arith)
mem-get_or (x ∷ xs) zero h = ground arith
mem-get_or (x ∷ xs) (suc i) h = ground (arith, mem-get_or xs i)

Links-distinct :
    {t : ProcTable} {h : Option ℕ} {xs : List ℕ} (i j : ℕ)
    → Links t h xs
    → i < j
    → j < length xs
    → get_or xs i 0 ≢ get_or xs j 0
Links-distinct i j nil lt inside = absurd (omega arith)
Links-distinct i zero (cons out l) lt inside = absurd (omega arith)
Links-distinct zero (suc j) (cons {xs} out l) lt inside = ground (arith, mem-get_or xs j)
Links-distinct (suc i) (suc j) (cons out l) lt inside =
    Links-distinct i j l (omega arith) (omega arith)

-- A queue has at most as many members as the table has processes.
pub Links-length :
    {t : ProcTable} {h : Option ℕ} {xs : List ℕ} (bound : ℕ)
    → Links t h xs
    → ((x : ℕ) → mem x xs ≡ true → x < bound)
    → length xs ≤ bound
Links-length {xs} bound l inside =
    pigeonhole bound (length xs) (λ i. get_or xs i 0) (λ i h. inside _ (mem-get_or xs i h))
      (λ i j. λ lt h. Links-distinct i j l lt h)
