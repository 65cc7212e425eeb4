-- ===== src/Udp/Receive.antt =====
-- xinu-fall2022-paging/net/udp.c: `udp_recv`, `udp_recvaddr`, `udp_release`, `udp_ntoh` and `udp_hton`. The text
-- that is copied to the caller's buffer is a result.
use virtual_memory_xinu_f.Base.{
  ℕ, zero, suc, ◌+◌, ◌*◌, ◌/◌, ◌%◌, Bool, true, false, ◌||◌, not, Option, List, [], ◌∷◌, leb, ◌==◌,
  if◌then◌else◌, Status, ok, syserr,
}
use virtual_memory_xinu_f.Base.Int.{ℤ, pos, pred_ℤ, pos_part, ltb_ℤ, ◌-ℤ◌}
use virtual_memory_xinu_f.Base.Ring.{wrap}
use virtual_memory_xinu_f.Sched.{defer_start, defer_stop}
use virtual_memory_xinu_f.Messages.{recvclr, recvtime, timeout}
use virtual_memory_xinu_f.Udp.{
  Udp, Udpentry, Packet, ud_free, ud_used, ud_recv, udp_slots, udp_qsiz, is_free, is_used,
  set_entry, set_system, free_packet,
}

-- The slot is not one of a registered endpoint on which nobody waits.
abbrev pub refuses : ℕ → Udp → Bool
refuses slot u = leb udp_slots slot || not (is_used (u.udptab slot).udstate)

abbrev pub is_zero : ℤ → Bool
is_zero (pos zero) = true
is_zero _ = false

-- What `udp_recv` does first: it returns SYSERR, goes on with a packet in the queue, or waits for a
-- message, which is the result of `recvtime`, or `none` if the caller is suspended.
pub data Started : Type 0 where
  refused queued : Started
  waited : Option ℕ → Started

abbrev pub waiting : ℕ → Udp → Udp
waiting slot u =
    let y = u.buffers.system in
    set_entry slot (record (u.udptab slot) { udstate = ud_recv; udpid = y.kernel.currpid }) u

unfoldable pub recv_starts : ℕ → ℤ → Udp → Started × Udp
unfolding recvclr recvtime
recv_starts slot limit u =
    let (msg, y) = recvtime limit (recvclr u.buffers.system).1 in
    if refuses slot u
    then (refused, u)
    else if is_zero (u.udptab slot).udcount
    then (waited msg, set_system y (waiting slot u))
    else (queued, u)

abbrev pub dequeued : Udpentry → Udpentry
dequeued e = record e { udhead = wrap 0 udp_qsiz (e.udhead + 1); udcount = pred_ℤ e.udcount }

-- The first `n` bytes.
abbrev pub take : ℕ → List ℕ → List ℕ
take zero cs = []
take (suc n) [] = []
take (suc n) (c ∷ cs) = c ∷ take n cs

-- `msglen`, which is negative for a packet that is too short.
abbrev pub text_length : ℤ → Packet → ℤ
text_length len k = let n = pos k.net_udplen -ℤ pos 8 in if ltb_ℤ len n then len else n

pub record Received : Type 0 where
  pub msglen : ℤ
  pub text : List ℕ
  pub remip : ℕ
  pub remport : ℕ

-- The packet in front is taken, copied and freed.
unfoldable pub take_packet : ℕ → ℤ → Udp → Received × Udp
unfolding free_packet
take_packet slot len u =
    let e = u.udptab slot in
    let p = e.udqueue e.udhead in
    let k = u.packets p in
    let n = text_length len k in
    (
      record {
        msglen = n;
        text = take (pos_part n) k.net_udpdata;
        remip = k.net_ipsrc;
        remport = k.net_udpsport;
      },
      free_packet p (set_entry slot (dequeued e) u),
    )

-- The results TIMEOUT and SYSERR, and the packet.
pub data Outcome : Type 0 where
  timed_out failed : Outcome
  received : Received → Outcome

abbrev pub as_received : Received × Udp → Outcome × Udp
as_received (r, u) = (received r, u)

-- `udp_recvaddr` from the message on; `udp_recv` does the same and leaves out the sender's address.
unfoldable pub recv_resumed : ℕ → ℤ → ℕ → Udp → Outcome × Udp
unfolding take_packet
recv_resumed slot len msg u =
    let u' = set_entry slot (record (u.udptab slot) { udstate = ud_used }) u in
    if msg == timeout
    then (timed_out, u')
    else if not (msg == 1)
    then (failed, u')
    else as_received (take_packet slot len u')

-- From a packet in the queue on.
unfoldable pub recv_queued : ℕ → ℤ → Udp → Outcome × Udp
unfolding take_packet
recv_queued slot len u = as_received (take_packet slot len u)

-- The loop of `udp_release`, with the count of packets.
unfoldable pub drop_packets : ℕ → ℕ → Udp → Udp
unfolding free_packet
drop_packets slot zero u = u
drop_packets slot (suc n) u =
    let e = u.udptab slot in
    drop_packets slot n (set_entry slot (dequeued e) (free_packet (e.udqueue e.udhead) u))

unfoldable pub udp_release : ℕ → Udp → Status × Udp
unfolding drop_packets defer_start defer_stop
udp_release slot u =
    let u1 = set_system (defer_start u.buffers.system) u in
    let u2 = drop_packets slot (pos_part (u.udptab slot).udcount) u1 in
    let u3 = set_entry slot (record (u2.udptab slot) { udstate = ud_free }) u2 in
    if leb udp_slots slot || is_free (u.udptab slot).udstate
    then (syserr, u)
    else (ok, set_system (defer_stop u3.buffers.system).1 u3)

-- `ntohs` and `htons`: the two bytes of a `uint16` are exchanged.
abbrev pub swap16 : ℕ → ℕ
swap16 n = n % 256 * 256 + n / 256 % 256

unfoldable pub udp_ntoh : Packet → Packet
udp_ntoh k = record k {
  net_udpsport = swap16 k.net_udpsport;
  net_udpdport = swap16 k.net_udpdport;
  net_udplen = swap16 k.net_udplen;
}

unfoldable pub udp_hton : Packet → Packet
udp_hton k = record k {
  net_udpsport = swap16 k.net_udpsport;
  net_udpdport = swap16 k.net_udpdport;
  net_udplen = swap16 k.net_udplen;
}
