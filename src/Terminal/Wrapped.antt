-- ===== src/Terminal/Wrapped.antt =====
-- Where `ttyhandle_in` leaves the input buffer.
use virtual_memory_xinu_f.Base.{ℕ, ◌+◌, ◌-◌, ◌^◌, ◌≤◌, ◌<◌, ◌≡◌, arith, leb, if_either, [], ◌∷◌}
use virtual_memory_xinu_f.VirtualHeap.{sub32}
use virtual_memory_xinu_f.Semaphores.{signal}
use virtual_memory_xinu_f.Terminal.{Terminal}
use virtual_memory_xinu_f.Terminal.Input.{available, handle_raw, kill_line}
use virtual_memory_xinu_f.Terminal.Erased.{eputs-tail}

-- When the line that is killed goes round the end of the buffer, `ttyhandle_in` leaves the place of the
-- character that arrives afterwards in front of the buffer.
pub kill_line-lt-ibuff :
    (t : Terminal)
    → 128 ≤ t.ibuff
    → t.ibuff ≤ t.tyitail
    → t.tyitail < 2 ^ 32
    → t.tyitail - t.ibuff < t.tyicursor
    → t.tyicursor ≤ 128
    → (kill_line t).tyitail < t.ibuff
unfolding kill_line
kill_line-lt-ibuff t low inside high long short = omega (
  arith,
  eputs-tail (13 ∷ 10 ∷ [])
      (record t { tyitail = sub32 t.tyitail t.tyicursor; tyihead = _; tyicursor = 0 }),
)

-- In raw mode the place behind the last byte of the buffer is not brought back to the first.
pub handle_raw-overruns :
    (ch : ℕ) (t : Terminal)
    → available t < 128
    → t.tyitail ≡ t.ibuff + 127
    → (handle_raw ch t).tyitail ≡ t.ibuff + 128
unfolding handle_raw signal
handle_raw-overruns ch t room last =
    if_either (λ u. u.tyitail ≡ t.ibuff + 128) (leb 128 (available t)) t _
      (λ b. absurd (ground arith)) (λ b. omega arith)
