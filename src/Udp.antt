-- ===== src/Udp.antt =====
-- xinu-fall2022-paging/include/udp.h and net/udp.c: the table of UDP endpoints, without the functions that
-- send. A packet is the address of its buffer. `udp_recv`, which may be suspended by `recvtime`, is two
-- functions; what other processes do meanwhile is the state that the second one is given.
pub mod Receive
pub mod Fifo
pub mod Slots
pub mod Register
use virtual_memory_xinu_f.Base.{
  ℕ, zero, suc, ◌+◌, ◌-◌, Bool, true, false, ◌&&◌, ◌||◌, not, Option, none, some, List, [], ◌∷◌,
  leb, ◌==◌, if◌then◌else◌, update, Status, ok, syserr,
}
use virtual_memory_xinu_f.Base.Int.{ℤ, pos, negsuc, succ_ℤ, pred_ℤ, pos_part, ltb_ℤ, ◌-ℤ◌}
use virtual_memory_xinu_f.Base.Ring.{wrap}
use virtual_memory_xinu_f.System.{System}
use virtual_memory_xinu_f.Sched.{defer_start, defer_stop}
use virtual_memory_xinu_f.Messages.{send, recvclr, recvtime, timeout}
use virtual_memory_xinu_f.Buffers.{Buffers, freebuf}

-- UDP_SLOTS and UDP_QSIZ.
abbrev pub udp_slots : ℕ
udp_slots = 6

abbrev pub udp_qsiz : ℕ
udp_qsiz = 8

-- UDP_FREE, UDP_USED and UDP_RECV.
pub data UdState : Type 0 where
  ud_free ud_used ud_recv : UdState

pub record Udpentry : Type 0 where
  pub udstate : UdState
  pub udremip : ℕ
  pub udremport : ℕ
  pub udlocport : ℕ
  pub udhead : ℕ
  pub udtail : ℕ
  pub udcount : ℤ
  pub udpid : ℕ
  pub udqueue : ℕ → ℕ

-- The fields of a `struct netpacket` that are used.
pub record Packet : Type 0 where
  pub net_ipsrc : ℕ
  pub net_udpsport : ℕ
  pub net_udpdport : ℕ
  pub net_udplen : ℕ
  pub net_udpdata : List ℕ

pub record Udp : Type 0 where
  pub buffers : Buffers
  pub udptab : ℕ → Udpentry
  pub packets : ℕ → Packet

abbrev pub is_free : UdState → Bool
is_free ud_free = true
is_free _ = false

abbrev pub is_used : UdState → Bool
is_used ud_used = true
is_used _ = false

abbrev pub is_receiving : UdState → Bool
is_receiving ud_recv = true
is_receiving _ = false

abbrev pub set_entry : ℕ → Udpentry → Udp → Udp
set_entry i e u = record u { udptab = update u.udptab i e }

abbrev pub set_system : System → Udp → Udp
set_system y u = record u { buffers = record u.buffers { system = y } }

abbrev pub free_packet : ℕ → Udp → Udp
unfolding freebuf
free_packet p u = record u { buffers = (freebuf p u.buffers).1 }

-- The loop of `udp_init`, with `n` rounds left.
unfoldable pub init_from : ℕ → ℕ → Udp → Udp
init_from zero i u = u
init_from (suc n) i u =
    init_from n (i + 1) (set_entry i (record (u.udptab i) { udstate = ud_free }) u)

unfoldable pub udp_init : Udp → Udp
unfolding init_from
udp_init u = init_from udp_slots 0 u

-- The entry is in use, and the packet is for it.
abbrev pub is_for : Packet → Udpentry → Bool
is_for k e =
    (k.net_udpdport == e.udlocport)
    && (((e.udremport == 0) || (k.net_udpsport == e.udremport))
        && ((e.udremip == 0) || (k.net_ipsrc == e.udremip)))

abbrev pub has_room : Udpentry → Bool
has_room e = ltb_ℤ e.udcount (pos udp_qsiz)

abbrev pub enqueued : ℕ → Udpentry → Udpentry
enqueued p e = record e {
  udcount = succ_ℤ e.udcount;
  udqueue = update e.udqueue e.udtail p;
  udtail = wrap 0 udp_qsiz (e.udtail + 1);
}

-- The packet is put into the queue of the entry `i`, and a process that waits there is told.
unfoldable pub deliver : ℕ → ℕ → Udp → Udp
unfolding send
deliver i p u =
    let e = enqueued p (u.udptab i) in
    if is_receiving e.udstate
    then set_system (send e.udpid 1 u.buffers.system).1
        (set_entry i (record e { udstate = ud_used }) u)
    else set_entry i e u

-- The loop of `udp_in` from the entry `i` on.
unfoldable pub in_from : ℕ → ℕ → ℕ → Udp → Udp
unfolding deliver free_packet
in_from zero i p u = free_packet p u
in_from (suc n) i p u =
    let further = in_from n (i + 1) p u in
    let e = u.udptab i in
    if is_free e.udstate
    then further
    else if is_for (u.packets p) e && has_room e
    then deliver i p u
    else further

unfoldable pub udp_in : ℕ → Udp → Udp
unfolding in_from
udp_in p u = in_from udp_slots 0 p u

abbrev pub has_ends : ℕ → ℕ → ℕ → Udpentry → Bool
has_ends remip remport locport e =
    (remport == e.udremport) && ((locport == e.udlocport) && (remip == e.udremip))

-- Whether an entry from `i` on has these ends.
unfoldable pub registered : ℕ → ℕ → ℕ → ℕ → ℕ → (ℕ → Udpentry) → Bool
registered zero i remip remport locport t = false
registered (suc n) i remip remport locport t =
    (not (is_free (t i).udstate) && has_ends remip remport locport (t i))
    || registered n (i + 1) remip remport locport t

-- The first free entry from `i` on.
unfoldable pub free_slot : ℕ → ℕ → (ℕ → Udpentry) → Option ℕ
free_slot zero i t = none
free_slot (suc n) i t = if is_free (t i).udstate then some i else free_slot n (i + 1) t

abbrev pub opened : ℕ → ℕ → ℕ → Udpentry → Udpentry
opened remip remport locport e = record e {
  udlocport = locport;
  udremport = remport;
  udremip = remip;
  udcount = pos 0;
  udhead = 0;
  udtail = 0;
  udpid = 0xffff_ffff;
  udstate = ud_used;
}

abbrev pub open_slot : ℕ → ℕ → ℕ → Option ℕ → Udp → Option ℕ × Udp
open_slot remip remport locport none u = (none, u)
open_slot remip remport locport (some i) u =
    (some i, set_entry i (opened remip remport locport (u.udptab i)) u)

-- SYSERR is `none`.
unfoldable pub udp_register : ℕ → ℕ → ℕ → Udp → Option ℕ × Udp
unfolding registered free_slot
udp_register remip remport locport u =
    if registered udp_slots 0 remip remport locport u.udptab
    then (none, u)
    else open_slot remip remport locport (free_slot udp_slots 0 u.udptab) u
