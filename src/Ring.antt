-- ===== src/Ring.antt =====
-- The ring buffers of the kernel: the scan codes of include/keyboard.h and the keys that wait in a
-- `Tty` have the same shape, an array with a write position, a read position and a count. The
-- positions, pointers in the source, are indices here.
pub mod Window
use simple_os.Base.{ℕ, ◌+◌, ◌-◌, List, ◌==◌, if◌then◌else◌, get_or, set}

pub record Ring : Type 0 where
  pub buf : List ℕ
  pub head : ℕ
  pub tail : ℕ
  pub count : ℕ

module _ (cap : ℕ) where
  -- `++p; if (p == buf + cap) p = buf;`
  abbrev pub advance : ℕ → ℕ
  advance i = if i + 1 == cap then 0 else i + 1

  -- Writes at `head`; the caller has tested that there is room.
  unfoldable pub put : Ring → ℕ → Ring
  put r x = record r { buf = set r.buf r.head x; head = advance r.head; count = r.count + 1 }

  -- Reads at `tail`; the caller has tested that something is there.
  unfoldable pub fetch : Ring → ℕ × Ring
  fetch r = (get_or r.buf r.tail 0, record r { tail = advance r.tail; count = r.count - 1 })
