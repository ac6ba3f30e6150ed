-- ===== src/Ring/Window.antt =====
-- A ring holds the `count` elements from `tail` on, going round at the end of the array: `put`
-- appends to them and `fetch` removes the first.
use simple_os.Base.{
  ℕ, zero, suc, ◌+◌, ◌-◌, ◌<◌, ◌≤◌, ◌≡◌, ◌≢◌, refl, List, [], ◌∷◌, ◌++◌, ap, arith, if◌then◌else◌,
  ltb, length, get_or, set, length-set, get_or-set_self, get_or-set_ne,
}
use simple_os.Ring.{Ring, advance, put, fetch}

module _ (cap : ℕ) where
  -- The position `n` places after `t`.
  abbrev pub place : ℕ → ℕ → ℕ
  place t n = if ltb (t + n) cap then t + n else t + n - cap

  pub record IsValid (r : Ring) : Type 0 where
    pub storage : length r.buf ≡ cap
    pub tail_in : r.tail < cap
    pub count_in : r.count ≤ cap
    pub head_at : r.head ≡ place r.tail r.count

  abbrev pub window : List ℕ → ℕ → ℕ → List ℕ
  window buf t zero = []
  window buf t (suc n) = get_or buf t 0 ∷ window buf (advance cap t) n

  abbrev pub contents : Ring → List ℕ
  contents r = window r.buf r.tail r.count

  pub length-window : (buf : List ℕ) (t n : ℕ) → length (window buf t n) ≡ n
  length-window buf t zero = refl
  length-window buf t (suc n) = ap suc (length-window buf (advance cap t) n)

  -- A write just past a window extends it.
  window-set :
      (buf : List ℕ) (x n t i : ℕ)
      → length buf ≡ cap
      → t < cap
      → n < cap
      → i ≡ place t n
      → window (set buf i x) t (suc n) ≡ window buf t n ++ (x ∷ [])
  window-set buf x zero t i hb ht hn e =
      let here : i ≡ t = ground arith in rw (here, get_or-set_self buf t x 0 (omega arith))
  window-set buf x (suc n) t i hb ht hn e =
      let off : i ≢ t = ground arith in
      let next : i ≡ place (advance cap t) n = ground arith in
      rw (
        get_or-set_ne buf i t x 0 off,
        window-set buf x n (advance cap t) i hb (ground arith) (omega arith) next,
      )

  -- `put` appends, if there is room.
  pub contents-put :
      (r : Ring) (x : ℕ)
      → IsValid r
      → r.count < cap
      → contents (put cap r x) ≡ contents r ++ (x ∷ [])
  unfolding put
  contents-put r x v room =
      let e : r.count + 1 ≡ suc r.count = omega arith in
      rw e (window-set r.buf x r.count r.tail r.head v.storage v.tail_in room v.head_at)

  pub put-IsValid : (r : Ring) (x : ℕ) → IsValid r → r.count < cap → IsValid (put cap r x)
  unfolding put
  put-IsValid r x v room = ground (arith, length-set r.buf r.head x)

  window-suc :
      (buf : List ℕ) (t n : ℕ)
      → 0 < n
      → window buf t n ≡ get_or buf t 0 ∷ window buf (advance cap t) (n - 1)
  window-suc buf t zero h = absurd (omega arith)
  window-suc buf t (suc n) h = ap (λ m. window buf t (suc m)) (omega arith)

  -- `fetch` returns the first element and leaves the others.
  pub contents-fetch :
      (r : Ring) → 0 < r.count → contents r ≡ (fetch cap r).0 ∷ contents (fetch cap r).1
  unfolding fetch
  contents-fetch r h = window-suc r.buf r.tail r.count h

  pub fetch-IsValid : (r : Ring) → IsValid r → 0 < r.count → IsValid (fetch cap r).1
  unfolding fetch
  fetch-IsValid r v h = ground arith
