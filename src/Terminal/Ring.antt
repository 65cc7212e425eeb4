-- ===== src/Terminal/Ring.antt =====
-- The input of the console as two lists of characters.
use virtual_memory_xinu_f.Base.{ℕ, ◌+◌, ◌^◌, ◌≤◌, ◌<◌, ◌≡◌, false, List, ◌++◌, length}
use virtual_memory_xinu_f.Base.Int.{pos}
use virtual_memory_xinu_f.Base.Ring.{slot, Held}
use virtual_memory_xinu_f.Semaphores.{bad_sem}
use virtual_memory_xinu_f.Terminal.{Terminal, im_cooked}

-- The line editor of a console in cooked mode: the characters `ready` may be read, `line` is the line
-- that is typed. No process waits for input, and rescheduling is deferred `defers` times.
pub record IsEditing (defers : ℕ) (t : Terminal) (ready line : List ℕ) : Type 0 where
  pub mode : t.tyimode ≡ im_cooked
  pub low : 128 ≤ t.ibuff
  pub high : t.ibuff + 128 ≤ 2 ^ 31
  pub head_low : t.ibuff ≤ t.tyihead
  pub head_high : t.tyihead < t.ibuff + 128
  pub tail : t.tyitail ≡ slot 128 t.ibuff t.tyihead (length (ready ++ line))
  pub held : Held 128 t.ibuff t.tyibuff t.tyihead 0 (ready ++ line)
  pub cursor : t.tyicursor ≡ length line
  pub room : length ready + length line ≤ 128
  pub valid : bad_sem t.tyisem t.system ≡ false
  pub count : (t.system.semtab t.tyisem).scount ≡ pos (length ready)
  pub deferred : t.system.ndefers ≡ defers
