-- ===== src/Ports/Clear.antt =====
-- xinu-fall2022-paging/system/ptclear.c, ptreset.c, ptdelete.c and ptcount.c. `_ptclear` may be suspended
-- in each of its calls of `semreset` or `semdelete`, and is three functions.
use virtual_memory_xinu_f.Base.{
  ℕ, zero, suc, ◌+◌, Option, none, some, if◌then◌else◌, Status, ok, syserr,
}
use virtual_memory_xinu_f.Base.Int.{ℤ, pos, negsuc, is_neg, neg_part, ◌+ℤ◌}
use virtual_memory_xinu_f.VirtualHeap.{word}
use virtual_memory_xinu_f.Allocator.{max_blocks}
use virtual_memory_xinu_f.Semaphores.{semcount, semreset, semdelete}
use virtual_memory_xinu_f.Ports.{
  Ports, PortState, pt_limbo, pt_free, pt_alloc, is_alloc, bad_port, set_port, set_node,
}

-- The walk that disposes of the messages, on fuel: a node takes 8 bytes of memory.
unfoldable pub dispose_all : ℕ → (ℕ → Ports → Ports) → Option ℕ → Ports → Ports
dispose_all zero dispose walk z = z
dispose_all (suc fuel) dispose none z = z
dispose_all (suc fuel) dispose (some a) z =
    let z' = dispose (z.nodes a).ptmsg z in dispose_all fuel dispose (z'.nodes a).ptnext z'

-- The port's list, if it was not empty, goes to the front of the free list.
abbrev pub free_list : Option ℕ → Option ℕ → Option ℕ → Ports → Ports
free_list none head tail z = z
free_list (some first) head none z = record z { ptfree = head }
free_list (some first) head (some tail) z =
    record (set_node tail (record (z.nodes tail) { ptnext = z.ptfree }) z) { ptfree = head }

-- `dispose` stands for the function that the caller gives.
abbrev pub clear_messages : ℕ → (ℕ → Ports → Ports) → Ports → Ports
unfolding dispose_all
clear_messages portid dispose z =
    let e = z.porttab portid in
    let z1 = set_port portid (record e { ptstate = pt_limbo; ptseq = word (e.ptseq + 1) }) z in
    let z2 = dispose_all (max_blocks + 1) dispose e.pthead z1 in
    free_list e.pthead (z2.porttab portid).pthead (z2.porttab portid).pttail z2

-- `semreset` or `semdelete` of one of the semaphores, whose result is not tested.
abbrev pub clear_sem : PortState → ℕ → ℕ → Ports → Ports
unfolding semreset semdelete
clear_sem newstate sem count z = record z {
  system =
      if is_alloc newstate
      then (semreset sem (pos count) z.system).1
      else (semdelete sem z.system).1;
}

-- `_ptclear` up to the first call.
unfoldable pub ptclear : ℕ → PortState → (ℕ → Ports → Ports) → Ports → Ports
unfolding clear_messages clear_sem
ptclear portid newstate dispose z =
    let z1 = clear_messages portid dispose z in
    let e = z1.porttab portid in
    let z2 =
      if is_alloc newstate
      then set_port portid (record e { pttail = none; pthead = none }) z1
      else z1 in
    clear_sem newstate e.ptssem e.ptmaxcnt z2

-- From there to the second call.
unfoldable pub ptclear_resumed : ℕ → PortState → Ports → Ports
unfolding clear_sem
ptclear_resumed portid newstate z = clear_sem newstate (z.porttab portid).ptrsem 0 z

-- The end.
unfoldable pub ptclear_ends : ℕ → PortState → Ports → Ports
ptclear_ends portid newstate z =
    set_port portid (record (z.porttab portid) { ptstate = newstate }) z

-- `ptreset` and `ptdelete`, up to the first call of `_ptclear`. The rest is that of `_ptclear`.
unfoldable pub ptreset : ℕ → (ℕ → Ports → Ports) → Ports → Status × Ports
unfolding ptclear
ptreset portid dispose z =
    if bad_port portid z then (syserr, z) else (ok, ptclear portid pt_alloc dispose z)

unfoldable pub ptdelete : ℕ → (ℕ → Ports → Ports) → Ports → Status × Ports
unfolding ptclear
ptdelete portid dispose z =
    if bad_port portid z then (syserr, z) else (ok, ptclear portid pt_free dispose z)

-- The end of `ptdelete`.
unfoldable pub ptdelete_ends : ℕ → Ports → Ports
unfolding ptclear_ends
ptdelete_ends portid z = record (ptclear_ends portid pt_free z) { ptnextid = portid }

-- `semcount` of a semaphore that is not valid is SYSERR, which is the number -1.
abbrev pub count_of : Option ℤ → ℤ
count_of none = negsuc 0
count_of (some n) = n

-- SYSERR is `none`.
unfoldable pub ptcount : ℕ → Ports → Option ℤ
unfolding semcount
ptcount portid z =
    let e = z.porttab portid in
    let count = count_of (semcount e.ptrsem z.system) in
    let senders = count_of (semcount e.ptssem z.system) in
    if bad_port portid z
    then none
    else if is_neg count
    then some count
    else if is_neg senders
    then some (count +ℤ pos (neg_part senders))
    else some count
