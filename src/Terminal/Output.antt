-- ===== src/Terminal/Output.antt =====
-- xinu-fall2022-paging/device/tty: ttyinit.c, ttyhandle_out.c, ttyputc.c, ttygetc.c and ttycontrol.c. The
-- UART's line and FIFO settings of `ttyinit` are not modelled.
use virtual_memory_xinu_f.Base.{
  ℕ, zero, suc, ◌+◌, ◌-◌, ◌*◌, ◌/◌, ◌%◌, Bool, true, false, ◌&&◌, Option, none, some, List, [], ◌∷◌,
  ◌++◌, ltb, ◌==◌, if◌then◌else◌, update,
}
use virtual_memory_xinu_f.Base.Ring.{wrap}
use virtual_memory_xinu_f.Base.Int.{ℤ, pos, negsuc, pos_part, leb_ℤ, ◌-ℤ◌}
use virtual_memory_xinu_f.Kernel.{syserr32}
use virtual_memory_xinu_f.Semaphores.{semcount, signal, signaln, semcreate}
use virtual_memory_xinu_f.Terminal.{
  Terminal, InputMode, im_raw, im_cooked, im_cbreak, ty_ibuflen, ty_obuflen, ty_ebuflen,
  uart_fifo_size, kickout,
}

-- `semcreate`'s number, or SYSERR.
abbrev pub sem_number : Option ℕ → ℕ
sem_number none = syserr32
sem_number (some sem) = sem

unfoldable pub init : Terminal → Terminal
unfolding semcreate
init t =
    let (isem, y) = semcreate (pos 0) t.system in
    let (osem, y') = semcreate (pos ty_obuflen) y in
    kickout (record t {
      system = y';
      tyihead = t.ibuff;
      tyitail = t.ibuff;
      tyisem = sem_number isem;
      tyohead = t.obuff;
      tyotail = t.obuff;
      tyosem = sem_number osem;
      tyehead = t.ebuff;
      tyetail = t.ebuff;
      tyimode = im_cooked;
      tyiecho = true;
      tyieback = true;
      tyevis = true;
      tyecrlf = true;
      tyicrlf = true;
      tyierase = true;
      tyierasec = 8;
      tyeof = true;
      tyeofch = 4;
      tyikill = true;
      tyikillc = 21;
      tyicursor = 0;
      tyoflow = true;
      tyoheld = false;
      tyostop = 19;
      tyostart = 17;
      tyocrlf = true;
      tyifullc = 7;
    })

abbrev pub is_cooked : InputMode → Bool
is_cooked im_cooked = true
is_cooked _ = false

-- `ttygetc` from the end of `wait` on. EOF is `none`.
unfoldable pub getc_resumed : Terminal → Option ℕ × Terminal
getc_resumed t =
    let ch = t.tyibuff t.tyihead in
    let t' = record t { tyihead = wrap t.ibuff ty_ibuflen (t.tyihead + 1) } in
    (if (is_cooked t.tyimode && t.tyeof) && (ch == t.tyeofch) then none else some ch, t')

-- `ttyputc` from the end of `wait` on. A newline may be two calls, the first with a return.
unfoldable pub putc_resumed : ℕ → Terminal → Terminal
putc_resumed ch t = kickout (record t {
  tyobuff = update t.tyobuff t.tyotail ch;
  tyotail = wrap t.obuff ty_obuflen (t.tyotail + 1);
})

-- The calls of `ttyputc` that one call makes, itself included.
abbrev pub output_codes : ℕ → Terminal → List ℕ
output_codes ch t = if (ch == 10) && t.tyocrlf then 13 ∷ ch ∷ [] else ch ∷ []

-- The loop over the echo queue, with the room that is left in the UART.
unfoldable pub send_echo : ℕ → Terminal → ℕ × Terminal
send_echo zero t = (zero, t)
send_echo (suc uspace) t =
    let further = send_echo uspace (record t {
      sent = t.sent ++ t.tyebuff t.tyehead ∷ [];
      tyehead = wrap t.ebuff ty_ebuflen (t.tyehead + 1);
    }) in
    if t.tyehead == t.tyetail then (suc uspace, t) else further

-- The loop over the output queue: the number of characters sent.
unfoldable pub send_output : ℕ → ℕ → Terminal → ℕ × Terminal
send_output zero avail t = (0, t)
send_output (suc uspace) zero t = (0, t)
send_output (suc uspace) (suc avail) t =
    let (ochars, t') = send_output uspace avail (record t {
      sent = t.sent ++ t.tyobuff t.tyohead ∷ [];
      tyohead = wrap t.obuff ty_obuflen (t.tyohead + 1);
    }) in
    (suc ochars, t')

-- `semcount`, whose SYSERR is -1.
abbrev pub count_of : Option ℤ → ℤ
count_of none = negsuc 0
count_of (some n) = n

abbrev pub room_in_output : Terminal → ℤ
unfolding semcount
room_in_output t = count_of (semcount t.tyosem t.system)

-- The bit UART_IER_ETBEI is cleared.
abbrev pub without_etbei : ℕ → ℕ
without_etbei ier = ier - ier / 2 % 2 * 2

unfoldable pub handle_out : Terminal → Terminal
unfolding send_echo send_output room_in_output signaln
handle_out t =
    let (uspace, t1) = send_echo uart_fifo_size t in
    let (ochars, t2) = send_output uspace (pos_part (pos ty_obuflen -ℤ room_in_output t1)) t1 in
    let t3 = record t2 { system = (signaln t2.tyosem (pos ochars) t2.system).1 } in
    if t.tyoheld
    then t
    else if (t.tyehead == t.tyetail) && leb_ℤ (pos ty_obuflen) (room_in_output t)
    then record t { ier = without_etbei t.ier }
    else if ltb 0 ochars
    then t3
    else t2

-- `ttycontrol`, but for TC_NEXTC, by the number of the function.
unfoldable pub control : ℕ → Terminal → ℤ × Terminal
unfolding semcount
control func t =
    if func == 4
    then (pos 1, record t { tyimode = im_raw })
    else if func == 5
    then (pos 1, record t { tyimode = im_cooked })
    else if func == 6
    then (pos 1, record t { tyimode = im_cbreak })
    else if func == 8
    then (count_of (semcount t.tyisem t.system), t)
    else if func == 9
    then (pos 1, record t { tyiecho = true })
    else if func == 10
    then (pos 1, record t { tyiecho = false })
    else (negsuc 0, t)

-- TC_NEXTC, from the end of `wait` on.
unfoldable pub next_char_resumed : Terminal → ℕ × Terminal
unfolding signal
next_char_resumed t = (t.tyibuff t.tyitail, record t { system = (signal t.tyisem t.system).1 })
