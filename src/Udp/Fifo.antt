-- ===== src/Udp/Fifo.antt =====
-- The queue of packets of an endpoint is first in, first out.
use virtual_memory_xinu_f.Base.{
  ℕ, suc, ◌+◌, ◌≤◌, ◌<◌, ◌≡◌, ap, sym, ◌∙◌, List, [], ◌∷◌, ◌++◌, length, length-append, arith,
  update, update_self, if_either, subst, if◌then◌else◌,
}
use virtual_memory_xinu_f.Base.Int.{ltb_ℤ, ◌-ℤ◌, ℤ, pos, succ_ℤ, pred_ℤ, pos_part}
use virtual_memory_xinu_f.Base.Ring.{
  wrap, slot, Held, Held-put, Held-shift, wrap-slot, slot-wrap, slot_zero,
}
use virtual_memory_xinu_f.Udp.{
  Udp, Packet, Udpentry, UdState, ud_used, is_receiving, enqueued, deliver,
}
use virtual_memory_xinu_f.Udp.Receive.{dequeued, take, text_length, take_packet}

-- The packets `ps` are in the queue of the entry.
pub record IsPackets (e : Udpentry) (ps : List ℕ) : Type 0 where
  pub head : e.udhead < 8
  pub tail : e.udtail ≡ slot 8 0 e.udhead (length ps)
  pub held : Held 8 0 e.udqueue e.udhead 0 ps
  pub count : e.udcount ≡ pos (length ps)
  pub room : length ps ≤ 8

module _ (e : Udpentry) (ps : List ℕ) where
  pub enqueued-IsPackets :
      (p : ℕ) → IsPackets e ps → length ps < 8 → IsPackets (enqueued p e) (ps ++ p ∷ [])
  unfolding succ_ℤ
  enqueued-IsPackets p v few =
      let n : suc (length ps) ≡ length (ps ++ p ∷ []) = omega (arith, length-append ps (p ∷ [])) in
      record {
        head = v.head;
        tail =
            ap (λ q. wrap 0 8 (q + 1)) v.tail
            ∙ wrap-slot 8 0 e.udhead (length ps) (omega arith) (omega (arith, v.head)) few
            ∙ ap (slot 8 0 e.udhead) (omega (arith, n));
        held =
            subst (λ q. Held 8 0 (update e.udqueue q p) e.udhead 0 (ps ++ p ∷ [])) (sym v.tail)
              (Held-put 8 0 e.udqueue e.udhead p ps (omega arith) (omega (arith, v.head)) few
                v.held);
        count = ap succ_ℤ v.count ∙ ap pos n;
        room = omega (arith, n);
      }

  dequeued-IsPackets : (p : ℕ) → IsPackets e (p ∷ ps) → IsPackets (dequeued e) ps
  unfolding pred_ℤ
  dequeued-IsPackets p v =
      let low : 0 ≤ e.udhead = omega arith in
      let high : e.udhead < 0 + 8 = omega (arith, v.head) in
      record {
        head = ground (arith, v.head);
        tail =
            v.tail
            ∙ ap (slot 8 0 e.udhead) (omega arith)
            ∙ slot-wrap 8 0 e.udhead (length ps) low high (omega (arith, v.room));
        held =
            Held-shift 8 0 e.udqueue e.udhead low high 0 ps (omega (arith, v.room))
              (subst (λ i. Held 8 0 e.udqueue e.udhead i ps) (omega arith) v.held.1);
        count = ap pred_ℤ v.count;
        room = omega (arith, v.room);
      }

-- A change of the state has no part in the queue.
pub state-IsPackets :
    (e : Udpentry) (s : UdState) (ps : List ℕ)
    → IsPackets e ps
    → IsPackets (record e { udstate = s }) ps
state-IsPackets e s ps v = record {
  head = v.head;
  tail = v.tail;
  held = v.held;
  count = v.count;
  room = v.room;
}

pub deliver-IsPackets :
    (i p : ℕ) (u : Udp) (ps : List ℕ)
    → IsPackets (u.udptab i) ps
    → length ps < 8
    → IsPackets ((deliver i p u).udptab i) (ps ++ p ∷ [])
unfolding deliver
deliver-IsPackets i p u ps v few =
    let e = enqueued p (u.udptab i) in
    let v' = enqueued-IsPackets (u.udptab i) ps p v few in
    if_either (λ (w : Udp). IsPackets (w.udptab i) (ps ++ p ∷ [])) (is_receiving e.udstate) _ _
      (λ b.
        subst (λ d. IsPackets d (ps ++ p ∷ [])) (sym (update_self u.udptab i _))
          (state-IsPackets e ud_used (ps ++ p ∷ []) v'))
      (λ b. subst (λ d. IsPackets d (ps ++ p ∷ [])) (sym (update_self u.udptab i _)) v')

-- The bytes that are given out: the UDP length less the 8 bytes of the header, and no more than `len`.
abbrev pub readable : ℤ → Packet → ℤ
readable len k = let n = pos k.net_udplen -ℤ pos 8 in if ltb_ℤ len n then len else n

-- The endpoint's queue holds the packets `p ∷ ps`. A process that takes a packet, `len` bytes at most, gets
-- the packet `p`: the first bytes of its data, as many as its UDP length less the header and `len`
-- allow, and its sender; the queue then holds `ps`.
pub take_packet-IsPackets :
    (i p : ℕ) (len : ℤ) (u : Udp) (ps : List ℕ)
    → IsPackets (u.udptab i) (p ∷ ps)
    → ((take_packet i len u).0 ≡ record {
      msglen = readable len (u.packets p);
      text = take (pos_part (readable len (u.packets p))) (u.packets p).net_udpdata;
      remip = (u.packets p).net_ipsrc;
      remport = (u.packets p).net_udpsport;
    })
      × IsPackets ((take_packet i len u).1.udptab i) ps
unfolding take_packet
take_packet-IsPackets i p len u ps v =
    let e = u.udptab i in
    let first : e.udqueue e.udhead ≡ p =
      ap e.udqueue (sym (slot_zero 8 0 e.udhead (omega (arith, v.head)))) ∙ v.held.0 in
    (
      ap
          (λ q. record {
            msglen = text_length len (u.packets q);
            text = take (pos_part (text_length len (u.packets q))) (u.packets q).net_udpdata;
            remip = (u.packets q).net_ipsrc;
            remport = (u.packets q).net_udpsport;
          })
          first,
      subst (λ d. IsPackets d ps) (sym (update_self u.udptab i _)) (dequeued-IsPackets e ps p v),
    )
