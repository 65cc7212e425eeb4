-- ===== src/Terminal.antt =====
-- xinu-fall2022-paging/include/tty.h and device/tty: ttyinit.c, ttyhandle_in.c, ttyhandle_out.c, ttykickout.c,
-- ttygetc.c, ttyputc.c and ttycontrol.c, the driver of the console. A buffer is the bytes by address
-- from the buffer's own address on; a byte that is written outside it changes nothing else here.
-- `wait` may suspend `ttygetc` and `ttyputc`, which are modelled from there on, after their process runs again.
pub mod Input
pub mod Output
pub mod Ring
pub mod Typed
pub mod Erased
pub mod Editing
pub mod Reading
pub mod Wrapped
use virtual_memory_xinu_f.Base.{
  ℕ, zero, suc, ◌+◌, ◌-◌, ◌*◌, ◌/◌, ◌%◌, ◌^◌, Bool, true, false, ◌&&◌, ◌||◌, Option, none, some,
  List, [], ◌∷◌, ◌++◌, leb, ltb, ◌==◌, if◌then◌else◌, update, Status, ok, syserr,
}
use virtual_memory_xinu_f.Base.Int.{ℤ, pos, negsuc, pos_part, leb_ℤ, ◌-ℤ◌}
use virtual_memory_xinu_f.Base.Ring.{wrap}
use virtual_memory_xinu_f.VirtualHeap.{word, sub32}
use virtual_memory_xinu_f.System.{System}
use virtual_memory_xinu_f.Semaphores.{semcount, signal, signaln, semcreate}

-- TY_IBUFLEN, TY_OBUFLEN, TY_EBUFLEN, and UART_FIFO_SIZE.
abbrev pub ty_ibuflen : ℕ
ty_ibuflen = 128

abbrev pub ty_obuflen : ℕ
ty_obuflen = 64

abbrev pub ty_ebuflen : ℕ
ty_ebuflen = 20

abbrev pub uart_fifo_size : ℕ
uart_fifo_size = 16

-- TY_IMRAW, TY_IMCOOKED and TY_IMCBREAK.
pub data InputMode : Type 0 where
  im_raw im_cooked im_cbreak : InputMode

-- `struct ttycblk`, the addresses `ibuff`, `obuff` and `ebuff` of its buffers, the UART's interrupt
-- enable register, and the characters sent to it, in order.
pub record Terminal : Type 0 where
  pub system : System
  pub ibuff : ℕ
  pub obuff : ℕ
  pub ebuff : ℕ
  pub tyihead : ℕ
  pub tyitail : ℕ
  pub tyibuff : ℕ → ℕ
  pub tyisem : ℕ
  pub tyohead : ℕ
  pub tyotail : ℕ
  pub tyobuff : ℕ → ℕ
  pub tyosem : ℕ
  pub tyehead : ℕ
  pub tyetail : ℕ
  pub tyebuff : ℕ → ℕ
  pub tyimode : InputMode
  pub tyiecho : Bool
  pub tyieback : Bool
  pub tyevis : Bool
  pub tyecrlf : Bool
  pub tyicrlf : Bool
  pub tyierase : Bool
  pub tyierasec : ℕ
  pub tyeof : Bool
  pub tyeofch : ℕ
  pub tyikill : Bool
  pub tyikillc : ℕ
  pub tyicursor : ℕ
  pub tyoflow : Bool
  pub tyoheld : Bool
  pub tyostop : ℕ
  pub tyostart : ℕ
  pub tyocrlf : Bool
  pub tyifullc : ℕ
  pub ier : ℕ
  pub sent : List ℕ

-- `ttykickout`.
abbrev pub kickout : Terminal → Terminal
kickout t = record t { ier = 3 }

unfoldable pub eputc : ℕ → Terminal → Terminal
eputc ch t = kickout (record t {
  tyebuff = update t.tyebuff t.tyetail ch;
  tyetail = wrap t.ebuff ty_ebuflen (t.tyetail + 1);
})

-- Characters that are echoed one after the other.
unfoldable pub eputs : List ℕ → Terminal → Terminal
unfolding eputc
eputs [] t = t
eputs (c ∷ cs) t = eputs cs (eputc c t)

-- A `char` is signed: the bytes from 128 on are less than a blank.
abbrev pub is_control : ℕ → Bool
is_control ch = (ltb ch 32 || leb 128 ch) || (ch == 127)

abbrev pub is_line_end : ℕ → Bool
is_line_end ch = (ch == 10) || (ch == 13)

-- What `echoch` passes to `eputc`.
unfoldable pub echo_codes : ℕ → Terminal → List ℕ
echo_codes ch t =
    if is_line_end ch && t.tyecrlf
    then 13 ∷ 10 ∷ []
    else if is_control ch && t.tyevis
    then 94 ∷ ((ch + 64) % 256) ∷ []
    else ch ∷ []

unfoldable pub echoch : ℕ → Terminal → Terminal
unfolding echo_codes eputs
echoch ch t = eputs (echo_codes ch t) t

abbrev pub echo_if_on : ℕ → Terminal → Terminal
unfolding echoch
echo_if_on ch t = if t.tyiecho then echoch ch t else t

-- A backspace, and what erases the character behind it.
abbrev pub back_codes : Terminal → List ℕ
back_codes t = 8 ∷ (if t.tyieback then 32 ∷ 8 ∷ [] else [])

-- What `erase1` passes to `eputc` for the character that is erased.
unfoldable pub erase_codes : ℕ → Terminal → List ℕ
erase_codes ch t =
    if t.tyiecho
    then if is_control ch
      then (if t.tyevis then back_codes t else []) ++ back_codes t
      else back_codes t
    else []

abbrev pub step_back : Terminal → Terminal
step_back t =
    let p = sub32 t.tyitail 1 in record t { tyitail = if ltb p t.ibuff then p + ty_ibuflen else p }

unfoldable pub erase1 : Terminal → Terminal
unfolding erase_codes eputs
erase1 t = let t' = step_back t in eputs (erase_codes (t'.tyibuff t'.tyitail) t') t'
