-- ===== src/Udp/Slots.antt =====
-- Which endpoint a packet goes to.
use virtual_memory_xinu_f.Base.{
  ℕ, zero, suc, ◌+◌, ◌≤◌, ◌<◌, ◌≡◌, ◌≢◌, refl, ap, sym, ◌∙◌, Bool, true, false, ◌&&◌, ◌||◌, not,
  List, [], ◌∷◌, ◌++◌, length, arith, ◌==◌, ltb, update-ne, if_either, subst, ◌⊎◌, inl, inr,
  Bool-cases,
}
use virtual_memory_xinu_f.Base.Int.{pos, ltb_ℤ}
use virtual_memory_xinu_f.Udp.{
  Udp, Udpentry, Packet, is_free, is_receiving, is_for, has_room, enqueued, deliver, free_packet,
  in_from, udp_in,
}
use virtual_memory_xinu_f.Udp.Fifo.{IsPackets, deliver-IsPackets}

-- The entry is in use, the packet is sent to its local port, from its remote port and its remote
-- address, where these are not 0, and fewer than 8 packets are in its queue.
abbrev pub takes : Packet → Udpentry → Bool
takes k e =
    not (is_free e.udstate)
    && (((k.net_udpdport == e.udlocport)
          && (((e.udremport == 0) || (k.net_udpsport == e.udremport))
              && ((e.udremip == 0) || (k.net_ipsrc == e.udremip))))
        && ltb_ℤ e.udcount (pos 8))

module _ (p : ℕ) (u : Udp) where
  abbrev Sent : ℕ → ℕ → Udp → Type 0
  Sent n i r =
      ((j : ℕ) × (i ≤ j)
        × (j < i + n)
        × (takes (u.packets p) (u.udptab j) ≡ true)
        × ((m : ℕ) → i ≤ m → m < j → takes (u.packets p) (u.udptab m) ≡ false)
        × (r ≡ deliver j p u))
      ⊎ (((m : ℕ) → i ≤ m → m < i + n → takes (u.packets p) (u.udptab m) ≡ false)
          × (r ≡ free_packet p u))

  -- An entry that does not take the packet is passed.
  passed :
      (n i : ℕ) (r : Udp)
      → takes (u.packets p) (u.udptab i) ≡ false
      → Sent n (i + 1) r
      → Sent (suc n) i r
  passed n i r no_match (inl (j, from, to, found, others, e)) = inl (
    j,
    omega arith,
    omega arith,
    found,
    λ m a b. elim (Bool-cases (m == i)) [
      | inl at ↦ let same : m ≡ i = ground arith in rw same no_match
      | inr past ↦ others m (ground arith) b
    ],
    e,
  )
  passed n i r no_match (inr (others, e)) = inr (
    λ m a b. elim (Bool-cases (m == i)) [
      | inl at ↦ let same : m ≡ i = ground arith in rw same no_match
      | inr past ↦ others m (ground arith) (omega arith)
    ],
    e,
  )

  in_from-Sent : (n i : ℕ) → Sent n i (in_from n i p u)
  unfolding in_from
  in_from-Sent zero i = inr (λ m a b. absurd (omega arith), refl)
  in_from-Sent (suc n) i =
      let e = u.udptab i in
      if_either (Sent (suc n) i) (is_free e.udstate) (in_from n (i + 1) p u) _
        (λ b. passed n i _ (ground (arith, b)) (in_from-Sent n (i + 1)))
        (λ b.
          if_either (Sent (suc n) i) (is_for (u.packets p) e && has_room e) (deliver i p u) _
            (λ c. inl (
              i,
              omega arith,
              omega arith,
              ground (arith, b, c),
              λ m x y. absurd (omega arith),
              refl,
            ))
            (λ c. passed n i _ (ground (arith, b, c)) (in_from-Sent n (i + 1))))

  deliver-others : (i m : ℕ) → i ≢ m → (deliver i p u).udptab m ≡ u.udptab m
  unfolding deliver
  deliver-others i m ne =
      if_either (λ (w : Udp). w.udptab m ≡ u.udptab m)
        (is_receiving (enqueued p (u.udptab i)).udstate) _ _ (λ b. update-ne u.udptab i m _ ne)
        (λ b. update-ne u.udptab i m _ ne)

and_right : (a b : Bool) → (a && b) ≡ true → b ≡ true
and_right true b h = h
and_right false b h = cc

room_left :
    (k : Packet) (e : Udpentry) (ps : List ℕ) → takes k e ≡ true → IsPackets e ps → length ps < 8
room_left k e ps found v =
    let room = and_right (is_for k e) (has_room e) (and_right (not (is_free e.udstate)) _ found) in
    let test : ltb (length ps + 0) (8 + 0) ≡ true =
      ap (λ n. ltb_ℤ n (pos 8)) (sym v.count) ∙ room in
    ground arith

-- A packet goes to the first endpoint that matches it and has room: it is put behind the packets in
-- that queue, and no other endpoint changes. When no endpoint takes it, it is freed and no endpoint
-- changes.
pub udp_in-delivers :
    (p : ℕ) (u : Udp)
    → ((j : ℕ) × (j < 6)
        × (takes (u.packets p) (u.udptab j) ≡ true)
        × ((m : ℕ) → m < j → takes (u.packets p) (u.udptab m) ≡ false)
        × ((ps : List ℕ)
            → IsPackets (u.udptab j) ps
            → IsPackets ((udp_in p u).udptab j) (ps ++ p ∷ []))
        × ((m : ℕ) → j ≢ m → (udp_in p u).udptab m ≡ u.udptab m))
      ⊎ (((m : ℕ) → m < 6 → takes (u.packets p) (u.udptab m) ≡ false)
          × (udp_in p u ≡ free_packet p u)
          × ((udp_in p u).udptab ≡ u.udptab))
unfolding udp_in
udp_in-delivers p u = elim (in_from-Sent p u 6 0) [
  | inl (j, from, to, found, others, e) ↦ inl (
    j,
    omega arith,
    found,
    λ m a. others m (omega arith) a,
    λ ps v.
        subst (λ (w : Udp). IsPackets (w.udptab j) (ps ++ p ∷ [])) (sym e)
          (deliver-IsPackets j p u ps v (room_left (u.packets p) (u.udptab j) ps found v)),
    λ m ne. ap (λ (w : Udp). w.udptab m) e ∙ deliver-others p u j m ne,
  )
  | inr (others, e) ↦
      inr (λ m a. others m (omega arith) (omega arith), e, ap (λ (w : Udp). w.udptab) e)
]
