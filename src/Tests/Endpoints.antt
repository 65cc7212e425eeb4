-- ===== src/Tests/Endpoints.antt =====
-- The theorems on UDP endpoints at a table with one endpoint, which has a packet in its queue.
use virtual_memory_xinu_f.Base.{
  ℕ, ◌<◌, ◌≡◌, ◌≢◌, refl, true, false, some, none, List, [], ◌∷◌, ◌++◌, ◌⊎◌, arith, ◌==◌,
  if◌then◌else◌,
}
use virtual_memory_xinu_f.Base.Int.{pos, pos_part}
use virtual_memory_xinu_f.Udp.{
  Udp, Udpentry, ud_free, ud_used, is_free, udp_in, udp_register, free_packet,
}
use virtual_memory_xinu_f.Udp.Receive.{take, take_packet}
use virtual_memory_xinu_f.Udp.Fifo.{IsPackets, readable, take_packet-IsPackets}
use virtual_memory_xinu_f.Udp.Slots.{takes, udp_in-delivers}
use virtual_memory_xinu_f.Udp.Register.{IsUnique, has, udp_register-IsUnique}
use virtual_memory_xinu_f.Tests.Machine.{machine}

-- The endpoint 0 has the local port 68; the packet 400 is for it, with 3 bytes of data.
abbrev entry : ℕ → Udpentry
entry i = record {
  udstate = if i == 0 then ud_used else ud_free;
  udremip = 0;
  udremport = 0;
  udlocport = 68;
  udhead = 7;
  udtail = 0;
  udcount = pos 1;
  udpid = 5;
  udqueue = λ a. 400;
}

abbrev net : Udp
net = record {
  buffers = record {
    system = machine 40 (pos 2);
    buftab = λ i. record { bpnext = 0; bpsem = 0; bpsize = 64 };
    nbpools = 1;
    words = λ a. 0;
  };
  udptab = entry;
  packets = λ a. record {
    net_ipsrc = 9;
    net_udpsport = 67;
    net_udpdport = 68;
    net_udplen = 11;
    net_udpdata = 1 ∷ 2 ∷ 3 ∷ [];
  };
}

entry-IsPackets : IsPackets (entry 0) (400 ∷ [])
entry-IsPackets = record {
  head = omega arith;
  tail = refl;
  held = (refl, tt);
  count = refl;
  room = omega arith;
}

entry-IsUnique : IsUnique entry
entry-IsUnique i j few few' ne used used' = absurd (ne (ground arith))

udp_in-delivers_example :
    ((j : ℕ) × (j < 6)
      × (takes (net.packets 500) (net.udptab j) ≡ true)
      × ((m : ℕ) → m < j → takes (net.packets 500) (net.udptab m) ≡ false)
      × ((ps : List ℕ)
          → IsPackets (net.udptab j) ps
          → IsPackets ((udp_in 500 net).udptab j) (ps ++ 500 ∷ []))
      × ((m : ℕ) → j ≢ m → (udp_in 500 net).udptab m ≡ net.udptab m))
    ⊎ (((m : ℕ) → m < 6 → takes (net.packets 500) (net.udptab m) ≡ false)
        × (udp_in 500 net ≡ free_packet 500 net)
        × ((udp_in 500 net).udptab ≡ net.udptab))
udp_in-delivers_example = udp_in-delivers 500 net

take_packet-IsPackets_example :
    ((take_packet 0 (pos 2) net).0 ≡ record {
      msglen = readable (pos 2) (net.packets 400);
      text = take (pos_part (readable (pos 2) (net.packets 400))) (net.packets 400).net_udpdata;
      remip = (net.packets 400).net_ipsrc;
      remport = (net.packets 400).net_udpsport;
    })
    × IsPackets ((take_packet 0 (pos 2) net).1.udptab 0) []
take_packet-IsPackets_example = take_packet-IsPackets 0 400 (pos 2) net [] entry-IsPackets

udp_register-IsUnique_example :
    ((udp_register 0 0 69 net ≡ (none, net))
      × (((j : ℕ) × (j < 6) × (has 0 0 69 net.udptab j ≡ true))
          ⊎ ((j : ℕ) → j < 6 → is_free (net.udptab j).udstate ≡ false)))
    ⊎ ((i : ℕ) × (u' : Udp) × (udp_register 0 0 69 net ≡ (some i, u'))
        × (i < 6)
        × (is_free (net.udptab i).udstate ≡ true)
        × (has 0 0 69 u'.udptab i ≡ true)
        × IsPackets (u'.udptab i) []
        × ((j : ℕ) → i ≢ j → u'.udptab j ≡ net.udptab j)
        × IsUnique u'.udptab)
udp_register-IsUnique_example = udp_register-IsUnique 0 0 69 net entry-IsUnique
