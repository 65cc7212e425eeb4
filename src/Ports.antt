-- ===== src/Ports.antt =====
-- xinu-fall2022-paging/include/ports.h and system/ptinit.c, ptcreate.c, ptsend.c and
-- ptrecv.c: queues of messages with a limit. `ptsend` and `ptrecv`, which may be suspended by `wait`, are
-- two functions each. NULL is `none`; a semaphore SYSERR is the number 2^32 - 1.
pub mod Clear
use virtual_memory_xinu_f.Base.{
  ℕ, zero, suc, ◌+◌, ◌-◌, ◌*◌, ◌%◌, ◌^◌, ◌&&◌, ◌||◌, Bool, true, false, not, Option, none, some,
  leb, ltb, ◌==◌, if◌then◌else◌, update, for_range, Status, ok, syserr,
}
use virtual_memory_xinu_f.Base.Int.{ℤ, pos, is_neg, pos_part, neg_part}
use virtual_memory_xinu_f.Kernel.{syserr32}
use virtual_memory_xinu_f.VirtualHeap.{word}
use virtual_memory_xinu_f.System.{System, MemList}
use virtual_memory_xinu_f.Allocator.{getmem, max_blocks}
use virtual_memory_xinu_f.Semaphores.{wait, signal, semcount, semcreate, semreset, semdelete}

-- NPORTS.
abbrev pub nports : ℕ
nports = 30

-- PT_FREE, PT_LIMBO, PT_ALLOC.
pub data PortState : Type 0 where
  pt_free pt_limbo pt_alloc : PortState

-- `struct ptnode`.
pub record Ptnode : Type 0 where
  pub ptmsg : ℕ
  pub ptnext : Option ℕ

-- `struct ptentry`.
pub record Ptentry : Type 0 where
  pub ptssem : ℕ
  pub ptrsem : ℕ
  pub ptstate : PortState
  pub ptmaxcnt : ℕ
  pub ptseq : ℕ
  pub pthead : Option ℕ
  pub pttail : Option ℕ

-- The global variables, and the nodes by their addresses. A sequence number is an `int32` by its bits.
pub record Ports : Type 0 where
  pub system : System
  pub ptfree : Option ℕ
  pub porttab : ℕ → Ptentry
  pub ptnextid : ℕ
  pub nodes : ℕ → Ptnode

abbrev pub is_alloc : PortState → Bool
is_alloc pt_alloc = true
is_alloc _ = false

abbrev pub is_free_port : PortState → Bool
is_free_port pt_free = true
is_free_port _ = false

-- `isbadport(portid) || ptstate != PT_ALLOC`.
abbrev pub bad_port : ℕ → Ports → Bool
bad_port portid z = leb nports portid || not (is_alloc (z.porttab portid).ptstate)

abbrev pub set_port : ℕ → Ptentry → Ports → Ports
set_port portid e z = record z { porttab = update z.porttab portid e }

abbrev pub set_node : ℕ → Ptnode → Ports → Ports
set_node a n z = record z { nodes = update z.nodes a n }

-- The free list: `n` nodes from the address `a` on, the last one with no successor.
abbrev pub link_nodes : ℕ → ℕ → Ports → Ports
link_nodes zero a z = z
link_nodes (suc zero) a z = set_node a (record (z.nodes a) { ptnext = none }) z
link_nodes (suc (suc n)) a z =
    let next = word (a + 8) in
    link_nodes (suc n) next (set_node a (record (z.nodes a) { ptnext = some next }) z)

abbrev pub all_ports_free : Ports → Ports
all_ports_free z = record z {
  porttab =
      for_range nports 0 (λ i t. update t i (record (t i) { ptstate = pt_free; ptseq = 0 }))
        z.porttab;
  ptnextid = 0;
}

-- `maxmsgs` is positive; without a block the system panics, which is the inner `none`.
abbrev pub ports_from : ℕ → Option (Option ℕ × MemList) → Ports → Option (Option Ports)
ports_from maxmsgs none z = none
ports_from maxmsgs (some (none, h)) z = some none
ports_from maxmsgs (some (some a, h)) z =
    let z' = record z { system = record z.system { memory = h }; ptfree = some a } in
    some (some (link_nodes maxmsgs a (all_ports_free z')))

unfoldable pub ptinit : ℕ → Ports → Option (Option Ports)
unfolding getmem
ptinit maxmsgs z = ports_from maxmsgs (getmem (word (maxmsgs * 8)) z.system.memory) z

abbrev pub sem_number : Option ℕ → ℕ
sem_number none = syserr32
sem_number (some sem) = sem

-- A free entry is taken.
abbrev pub open_port : ℕ → ℤ → Ports → Ports
unfolding semcreate
open_port ptnum count z =
    let senders = semcreate count z.system in
    let receivers = semcreate (pos 0) senders.1 in
    set_port ptnum
      (record {
        ptssem = sem_number senders.0;
        ptrsem = sem_number receivers.0;
        ptstate = pt_alloc;
        ptmaxcnt = pos_part count % 2 ^ 16;
        ptseq = word ((z.porttab ptnum).ptseq + 1);
        pthead = none;
        pttail = none;
      })
      (record z { system = receivers.1 })

-- The loop of `ptcreate`, with `n` rounds left.
unfoldable pub find_port : ℕ → ℤ → Ports → Option ℕ × Ports
unfolding open_port
find_port zero count z = (none, z)
find_port (suc n) count z =
    let ptnum = z.ptnextid in
    let z' = record z { ptnextid = if leb nports (ptnum + 1) then 0 else ptnum + 1 } in
    let further = find_port n count z' in
    if is_free_port (z.porttab ptnum).ptstate
    then (some ptnum, open_port ptnum count z')
    else further

unfoldable pub ptcreate : ℤ → Ports → Option ℕ × Ports
unfolding find_port
ptcreate count z = if is_neg count then (none, z) else find_port nports count z

-- `ptsend` up to `wait`: the sequence number of the port before, or SYSERR.
unfoldable pub ptsend_waits : ℕ → Ports → Option ℕ × Ports
unfolding wait
ptsend_waits portid z =
    let e = z.porttab portid in
    let (st, y) = wait e.ptssem z.system in
    if bad_port portid z then (none, z) else elim st [
      | syserr ↦ (none, record z { system = y })
      | ok ↦ (some e.ptseq, record z { system = y })
    ]

-- Whether the port was reset or deleted in the meantime.
abbrev pub has_changed : ℕ → ℕ → Ports → Bool
has_changed portid seq z =
    not (is_alloc (z.porttab portid).ptstate) || not ((z.porttab portid).ptseq == seq)

-- The node goes to the end of the port's list.
abbrev pub append_node : ℕ → ℕ → Option ℕ → Ports → Ports
append_node portid a none z =
    set_port portid (record (z.porttab portid) { pttail = some a; pthead = some a }) z
append_node portid a (some tail) z =
    set_port portid (record (z.porttab portid) { pttail = some a })
      (set_node tail (record (z.nodes tail) { ptnext = some a }) z)

-- `none` is the panic without a free node.
abbrev pub put_message : ℕ → ℕ → Option ℕ → Ports → Option (Status × Ports)
unfolding signal
put_message portid msg none z = none
put_message portid msg (some a) z =
    let z1 = record z { ptfree = (z.nodes a).ptnext } in
    let z2 = set_node a (record { ptmsg = msg; ptnext = none }) z1 in
    let z3 = append_node portid a (z2.porttab portid).pttail z2 in
    some (ok, record z3 { system = (signal (z3.porttab portid).ptrsem z3.system).1 })

-- `ptsend` from the return of `wait` on.
unfoldable pub ptsend_resumed : ℕ → ℕ → ℕ → Ports → Option (Status × Ports)
unfolding put_message
ptsend_resumed portid msg seq z =
    if has_changed portid seq z then some (syserr, z) else put_message portid msg z.ptfree z

unfoldable pub ptrecv_waits : ℕ → Ports → Option ℕ × Ports
unfolding wait
ptrecv_waits portid z =
    let e = z.porttab portid in
    let (st, y) = wait e.ptrsem z.system in
    if bad_port portid z then (none, z) else elim st [
      | syserr ↦ (none, record z { system = y })
      | ok ↦ (some e.ptseq, record z { system = y })
    ]

abbrev pub same_node : Option ℕ → Option ℕ → Bool
same_node none none = true
same_node (some a) (some b) = a == b
same_node _ _ = false

-- The first message leaves the port. What the code reads at a NULL head is not described.
abbrev pub take_message : ℕ → Option ℕ → Ports → ℕ × Ports
unfolding signal
take_message portid none z = (syserr32, z)
take_message portid (some a) z =
    let e = z.porttab portid in
    let e' : Ptentry =
      if same_node e.pthead e.pttail
      then record e { pthead = none; pttail = none }
      else record e { pthead = (z.nodes a).ptnext } in
    let z1 = set_node a (record (z.nodes a) { ptnext = z.ptfree }) (set_port portid e' z) in
    ((z.nodes a).ptmsg, record z1 { ptfree = some a; system = (signal e.ptssem z1.system).1 })

-- `ptrecv` from the return of `wait` on; SYSERR is its number.
unfoldable pub ptrecv_resumed : ℕ → ℕ → Ports → ℕ × Ports
unfolding take_message
ptrecv_resumed portid seq z =
    if has_changed portid seq z
    then (syserr32, z)
    else take_message portid (z.porttab portid).pthead z
