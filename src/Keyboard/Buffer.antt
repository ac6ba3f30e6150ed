-- ===== src/Keyboard/Buffer.antt =====
-- The ring of scan codes is a queue of at most 32 bytes.
use simple_os.Base.{
  ℕ, ==_ne, ◌∙◌, sym, ap, zero, suc, ◌⊎◌, ◌<◌, ◌≡◌, refl, List, [], ◌∷◌, ◌++◌, Option, none, some,
  arith, length, ltb, if◌then◌else◌, Bool-cases, inl, inr,
}
use simple_os.Ring.{Ring, fetch}
use simple_os.Ring.Window.{
  IsValid, contents, length-window, contents-put, put-IsValid, contents-fetch, fetch-IsValid,
}
use simple_os.Keyboard.{kb_num, keyboard_handler, get_byte_from_kb_buf}

-- What a program observes of the keyboard: bytes that arrive, and bytes that are read. A read of
-- an empty buffer has to wait.
pub data Event : Type 0 where
  arrives : ℕ → Event
  read : Event

-- The bytes that the reads return, in order.
unfoldable pub run : Ring → List Event → List (Option ℕ)
run r [] = []
run r (arrives c ∷ es) = run (keyboard_handler r c) es
run r (read ∷ es) = elim (get_byte_from_kb_buf r) [
  | none ↦ none ∷ run r es
  | some (c, r') ↦ some c ∷ run r' es
]

-- The specification: a queue that refuses bytes when it holds 32.
pub run_queue : List ℕ → List Event → List (Option ℕ)
run_queue q [] = []
run_queue q (arrives c ∷ es) = run_queue (if ltb (length q) kb_num then q ++ (c ∷ []) else q) es
run_queue [] (read ∷ es) = none ∷ run_queue [] es
run_queue (c ∷ q) (read ∷ es) = some c ∷ run_queue q es

keyboard_handler-IsValid :
    (r : Ring) (c : ℕ) → IsValid kb_num r → IsValid kb_num (keyboard_handler r c)
unfolding keyboard_handler
keyboard_handler-IsValid r c v = elim (Bool-cases (ltb r.count kb_num)) [
  | inl room ↦ rw room (put-IsValid kb_num r c v (ground arith))
  | inr full ↦ rw full v
]

keyboard_handler-contents :
    (r : Ring) (c : ℕ)
    → IsValid kb_num r
    → let q = contents kb_num r in
      contents kb_num (keyboard_handler r c) ≡ (if ltb (length q) kb_num then q ++ (c ∷ []) else q)
unfolding keyboard_handler
keyboard_handler-contents r c v =
    rw (length-window kb_num r.buf r.tail r.count) (elim (Bool-cases (ltb r.count kb_num)) [
      | inl room ↦ rw room (contents-put kb_num r c v (ground arith))
      | inr full ↦ rw full refl
    ])

zero_or_pos : (n : ℕ) → (n ≡ 0) ⊎ (0 < n)
zero_or_pos zero = inl refl
zero_or_pos (suc n) = inr (omega arith)

run-read_none :
    (r : Ring) (es : List Event)
    → get_byte_from_kb_buf r ≡ none
    → run r (read ∷ es) ≡ none ∷ run r es
unfolding run
run-read_none r es e =
    ap
      (λ o. elim o as (λ _. List (Option ℕ)) [
        | none ↦ none ∷ run r es
        | some (c, r') ↦ some c ∷ run r' es
      ])
      e

run-read_some :
    (r r' : Ring) (c : ℕ) (es : List Event)
    → get_byte_from_kb_buf r ≡ some (c, r')
    → run r (read ∷ es) ≡ some c ∷ run r' es
unfolding run
run-read_some r r' c es e =
    ap
      (λ o. elim o as (λ _. List (Option ℕ)) [
        | none ↦ none ∷ run r es
        | some (c, r') ↦ some c ∷ run r' es
      ])
      e

run_queue-read_none :
    (q : List ℕ) (es : List Event) → q ≡ [] → run_queue q (read ∷ es) ≡ none ∷ run_queue q es
unfolding run_queue
run_queue-read_none q es e = rw e refl

run_queue-read_some :
    (q q' : List ℕ) (c : ℕ) (es : List Event)
    → q ≡ c ∷ q'
    → run_queue q (read ∷ es) ≡ some c ∷ run_queue q' es
unfolding run_queue
run_queue-read_some q q' c es e = rw e refl

contents-empty : (r : Ring) → r.count ≡ 0 → contents kb_num r ≡ []
contents-empty r e = rw e refl

get_byte_from_kb_buf-empty : (r : Ring) → r.count ≡ 0 → get_byte_from_kb_buf r ≡ none
unfolding get_byte_from_kb_buf
get_byte_from_kb_buf-empty r e = rw e refl

pub get_byte_from_kb_buf-fetch :
    (r : Ring) → 0 < r.count → get_byte_from_kb_buf r ≡ some (fetch kb_num r)
unfolding get_byte_from_kb_buf
get_byte_from_kb_buf-fetch r h = let nonempty = ==_ne r.count 0 (omega arith) in rw nonempty refl

run-run_queue_read :
    (es : List Event) (r : Ring)
    → IsValid kb_num r
    → ((r : Ring) → IsValid kb_num r → run r es ≡ run_queue (contents kb_num r) es)
    → run r (read ∷ es) ≡ run_queue (contents kb_num r) (read ∷ es)
run-run_queue_read es r v ih = elim (zero_or_pos r.count) [
  | inl empty ↦
      run-read_none r es (get_byte_from_kb_buf-empty r empty)
      ∙ ap (λ xs. none ∷ xs) (ih r v)
      ∙ sym (run_queue-read_none (contents kb_num r) es (contents-empty r empty))
  | inr h ↦
      let (c, r') = fetch kb_num r in
      run-read_some r r' c es (get_byte_from_kb_buf-fetch r h)
      ∙ ap (λ xs. some c ∷ xs) (ih r' (fetch-IsValid kb_num r v h))
      ∙ sym (
          run_queue-read_some (contents kb_num r) (contents kb_num r') c es
            (contents-fetch kb_num r h))
]

-- No sequence of arrivals and reads tells the ring from the queue of the bytes that it holds:
-- bytes come out in the order of their arrival, and only those that arrive at a full buffer of 32
-- bytes are lost.
pub run-run_queue :
    (es : List Event) (r : Ring) → IsValid kb_num r → run r es ≡ run_queue (contents kb_num r) es
unfolding run run_queue
run-run_queue [] r v = refl
run-run_queue (arrives c ∷ es) r v = rw (
  run-run_queue es (keyboard_handler r c) (keyboard_handler-IsValid r c v),
  keyboard_handler-contents r c v,
)
run-run_queue (read ∷ es) r v = run-run_queue_read es r v (run-run_queue es)
