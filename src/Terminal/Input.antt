-- ===== src/Terminal/Input.antt =====
-- xinu-fall2022-paging/device/tty/ttyhandle_in.c: a character arrives from the console.
use virtual_memory_xinu_f.Base.{
  ℕ, ◌+◌, ◌-◌, true, false, ◌&&◌, none, some, [], ◌∷◌, leb, ltb, ◌==◌, if◌then◌else◌, update,
}
use virtual_memory_xinu_f.Base.Ring.{wrap}
use virtual_memory_xinu_f.Base.Int.{pos, pos_part}
use virtual_memory_xinu_f.VirtualHeap.{sub32}
use virtual_memory_xinu_f.Semaphores.{semcount, signal, signaln}
use virtual_memory_xinu_f.Terminal.{
  Terminal, im_raw, im_cooked, im_cbreak, ty_ibuflen, ty_obuflen, kickout, eputc, eputs, erase1,
  is_line_end, echo_if_on,
}

-- The characters that may be read.
unfoldable pub available : Terminal → ℕ
unfolding semcount
available t = elim (semcount t.tyisem t.system) [ none ↦ 0 | some n ↦ pos_part n ]

abbrev pub put_in : ℕ → Terminal → Terminal
put_in ch t = record t { tyibuff = update t.tyibuff t.tyitail ch; tyitail = t.tyitail + 1 }

abbrev pub wrap_in : Terminal → Terminal
wrap_in t = record t { tyitail = wrap t.ibuff ty_ibuflen t.tyitail }

abbrev pub signal_in : Terminal → Terminal
unfolding signal
signal_in t = record t { system = (signal t.tyisem t.system).1 }

-- In raw mode it is the output pointer that is brought back.
unfoldable pub handle_raw : ℕ → Terminal → Terminal
unfolding available
handle_raw ch t =
    let t' = put_in ch t in
    if leb ty_ibuflen (available t)
    then t
    else signal_in (record t' { tyotail = wrap t'.obuff ty_obuflen t'.tyotail })

unfoldable pub handle_cbreak : ℕ → Terminal → Terminal
unfolding available
handle_cbreak ch t =
    if leb ty_ibuflen (available t)
    then eputc t.tyifullc t
    else echo_if_on ch (wrap_in (put_in ch t))

-- The cases of cooked mode.
unfoldable pub kill_line : Terminal → Terminal
unfolding eputs
kill_line t =
    let p = sub32 t.tyitail t.tyicursor in
    eputs (13 ∷ 10 ∷ []) (record t {
      tyitail = p;
      tyihead = if ltb p t.ibuff then t.tyihead + ty_ibuflen else t.tyihead;
      tyicursor = 0;
    })

unfoldable pub erase_char : Terminal → Terminal
unfolding erase1
erase_char t = if ltb 0 t.tyicursor then erase1 (record t { tyicursor = t.tyicursor - 1 }) else t

unfoldable pub end_line : ℕ → Terminal → Terminal
unfolding echo_if_on
end_line ch t =
    let t' = wrap_in (put_in ch (echo_if_on ch t)) in
    record t' { system = (signaln t'.tyisem (pos (t'.tyicursor + 1)) t'.system).1; tyicursor = 0 }

unfoldable pub end_of_file : ℕ → Terminal → Terminal
unfolding echo_if_on
end_of_file ch t =
    let t' = echo_if_on ch t in if t.tyicursor == 0 then signal_in (put_in ch t') else t'

unfoldable pub insert_char : ℕ → Terminal → Terminal
unfolding echo_if_on
insert_char ch t =
    let t' = echo_if_on ch t in wrap_in (put_in ch (record t' { tyicursor = t'.tyicursor + 1 }))

unfoldable pub handle_cooked : ℕ → Terminal → Terminal
unfolding kill_line erase_char end_line end_of_file insert_char available
handle_cooked ch t =
    if (ch == t.tyikillc) && t.tyikill
    then kill_line t
    else if (ch == t.tyierasec) && t.tyierase
    then erase_char t
    else if is_line_end ch
    then end_line ch t
    else if leb (ty_ibuflen - 1) (available t + t.tyicursor)
    then eputc t.tyifullc t
    else if (ch == t.tyeofch) && t.tyeof
    then end_of_file ch t
    else insert_char ch t

-- The flow control, in front of the two modes.
abbrev pub with_flow : ℕ → (Terminal → Terminal) → Terminal → Terminal
with_flow ch rest t =
    if t.tyoflow && (ch == t.tyostart)
    then kickout (record t { tyoheld = false })
    else if t.tyoflow && (ch == t.tyostop)
    then record t { tyoheld = true }
    else rest (record t { tyoheld = false })

abbrev pub as_newline : ℕ → Terminal → ℕ
as_newline ch t = if (ch == 13) && t.tyicrlf then 10 else ch

-- `ttyhandle_in` for the character `ch` of the UART.
unfoldable pub handle_in : ℕ → Terminal → Terminal
unfolding handle_raw handle_cbreak handle_cooked
handle_in ch t =
    let c = as_newline ch t in
    elim t.tyimode [
      | im_raw ↦ handle_raw ch t
      | im_cbreak ↦ with_flow c (handle_cbreak c) t
      | im_cooked ↦ with_flow c (handle_cooked c) t
    ]
