-- ===== src/Emu/Emulator/Delivery.antt =====
-- A packet on its way from one emulator to another.
use cpp_tcp.Base.{
  ℕ, ◌≡◌, refl, sym, ap, ◌∙◌, true, false, not, ◌||◌, none, some, List, [], ◌∷◌, ◌++◌, length,
  Bool-cases, Option-cases, inl, inr, arith, ◌==◌,
}
use mathlib.Core.List.{append-nil}
use cpp_tcp.Base.Int.{ℤ, pos, ◌==ℤ◌, ==ℤ→eq, ==ℤ_refl, ◌+ℤ◌}
use cpp_tcp.Base.Bytes.{u16_of}
use cpp_tcp.Base.Double.{DoubleOps}
use cpp_tcp.Base.Assoc.{find, insert}
use cpp_tcp.Base.Text.{TextOps, bytes_eq}
use cpp_tcp.Net.EmulatorPacket
use cpp_tcp.Net.EmulatorPacket.{EmulatorPacket}
use cpp_tcp.Net.EmulatorPacket.RoundTrip.{IsEmulatorPacket, unpack-pack_datagram}
use cpp_tcp.Net.Packet
use cpp_tcp.Core.Runtime
use cpp_tcp.Core.Runtime.{accepts}
use cpp_tcp.Emu.Trawler.{addr_eq}
use cpp_tcp.Emu.Emulator.{
  Emulator, EmulatorArpData, Datagram, refresh_arp, learn, process_udp_packet, physically_send,
  schedule_pkt, send_packed, send_accepted, send_pkt,
}

bytes_eq→eq : (xs ys : List ℕ) → bytes_eq xs ys ≡ true → xs ≡ ys
bytes_eq→eq [] [] h = refl
bytes_eq→eq [] (y ∷ ys) h = cc
bytes_eq→eq (x ∷ xs) [] h = cc
bytes_eq→eq (x ∷ xs) (y ∷ ys) h = ground (arith, bytes_eq→eq xs ys)

abbrev pub packet_for : ℤ → ℤ → List ℕ → EmulatorPacket
packet_for from to pkt = record { dest_addr = to; src_addr = from; payload = pkt }

-- What is handed to the socket for it, with a host and a port.
abbrev pub datagram_for : ℤ → ℤ → List ℕ → List ℕ → ℤ → Datagram
datagram_for from to pkt ip port = record {
  bytes = EmulatorPacket.pack (packet_for from to pkt);
  ip_address = ip;
  udp_port = port;
}

-- What the manager accepts fits a datagram.
accepts-IsEmulatorPacket :
    (from to : ℤ) (pkt : List ℕ)
    → accepts from to pkt ≡ true
    → IsEmulatorPacket (packet_for from to pkt)
unfolding accepts
accepts-IsEmulatorPacket from to pkt h = record {
  dest_nonneg = ground arith;
  dest_le = ground arith;
  src_nonneg = ground arith;
  src_le = ground arith;
  size_le = ground arith;
}

fits :
    (from to : ℤ) (pkt : List ℕ)
    → IsEmulatorPacket (packet_for from to pkt)
    → EmulatorPacket.make to from pkt ≡ some (packet_for from to pkt)
unfolding EmulatorPacket.make
fits from to pkt h = ground arith

module _ {D : Type 0} where
  -- An entry without a link.
  abbrev pub unpaced : List ℕ → ℤ → EmulatorArpData D
  unpaced ip port = record { ip_address = ip; udp_port = port; link = none }

  -- The table has an entry for the address, with this host and port.
  abbrev pub Knows : ℤ → List ℕ → ℤ → List (ℤ × EmulatorArpData D) → Type 0
  Knows addr ip port arp =
      (entry : EmulatorArpData D) × (find addr_eq addr arp ≡ some entry)
      × (entry.ip_address ≡ ip)
      × (entry.udp_port ≡ port)

  find-insert :
      (addr : ℤ) (entry : EmulatorArpData D) (arp : List (ℤ × EmulatorArpData D))
      → find addr_eq addr (insert addr_eq addr entry arp) ≡ some entry
  find-insert addr entry [] = rw (==ℤ_refl addr)
  find-insert addr entry ((a, k) ∷ arp) = elim (Bool-cases (a ==ℤ addr)) [
    | inl e ↦ rw (e, find) (rw e)
    | inr e ↦ rw (e, find) (rw e (find-insert addr entry arp))
  ]

  learn-Knows :
      (addr : ℤ) (ip : List ℕ) (port : ℤ) (arp : List (ℤ × EmulatorArpData D))
      → Knows addr ip port (learn addr ip port arp)
  unfolding learn
  learn-Knows addr ip port arp =
      let fresh : EmulatorArpData D = unpaced ip port in
      elim (Option-cases (find addr_eq addr arp)) [
        | inl e ↦ rw (learn, e) (fresh, find-insert addr fresh arp, refl, refl)
        | inr (entry, e) ↦
            elim (Bool-cases
              (not (bytes_eq entry.ip_address ip) || not (entry.udp_port ==ℤ port))) [
                | inl e' ↦ rw (learn, e, e') (fresh, find-insert addr fresh arp, refl, refl)
                | inr e' ↦
                    rw (learn, e, e')
                      (
                        entry,
                        e,
                        bytes_eq→eq entry.ip_address ip (ground arith),
                        ==ℤ→eq entry.udp_port port (ground arith),
                      )
              ]
      ]

  -- The datagram of a packet, wherever it comes from, is handed to the node that it is for.
  process_udp_packet-pack :
      {K : Type 0} (from to : ℤ) (pkt ip : List ℕ) (port : ℤ) (r : Emulator D K)
      → IsEmulatorPacket (packet_for from to pkt)
      → r.assigned_node_id ≡ to
      → let d = datagram_for from to pkt ip port in
        ((process_udp_packet d r).1 ≡ some (from, pkt))
        × Knows from ip port (process_udp_packet d r).0.arp
  unfolding process_udp_packet
  process_udp_packet-pack from to pkt ip port r h mine =
      let p = packet_for from to pkt in
      let e : EmulatorPacket.unpack (EmulatorPacket.pack p) ≡ some p =
        ap EmulatorPacket.unpack (sym (append-nil (EmulatorPacket.pack p)))
        ∙ unpack-pack_datagram p [] h in
      rw (process_udp_packet, e) (rw (mine, ==ℤ_refl to) refl, learn-Knows from ip port r.arp)

module _ {D K : Type 0} (double : DoubleOps D) (text : TextOps D) (draws : ℕ → D) where
  -- The emulator once a packet has been counted and the lines of Trawler have been read.
  abbrev pub refreshed : List ℕ → Emulator D K → Emulator D K
  refreshed bytes e = refresh_arp double text bytes (record e {
    manager = record e.manager {
      stats = record e.manager.stats { pkts_sent = e.manager.stats.pkts_sent +ℤ pos 1 };
    };
  })

  send_pkt-eq_some :
      (bytes : List ℕ) (clock from to : ℤ) (pkt : List ℕ) (e : Emulator D K)
      → accepts from to pkt ≡ true
      → send_pkt double text draws bytes clock from to pkt e
        ≡ some (
            send_packed double text draws clock to
              (EmulatorPacket.pack (packet_for from to pkt))
              (refreshed bytes e))
  unfolding send_pkt Runtime.send_pkt
  send_pkt-eq_some bytes clock from to pkt e h =
      rw (h, fits from to pkt (accepts-IsEmulatorPacket from to pkt h), send_accepted)

  schedule_pkt-unpaced :
      (bytes : List ℕ) (clock to : ℤ) (ip : List ℕ) (port : ℤ) (e : Emulator D K)
      → text.inet_pton ip ≡ true
      → find addr_eq to e.arp ≡ some (unpaced ip port)
      → schedule_pkt double text draws bytes clock to e ≡ record e {
        sent = e.sent ++ (record { bytes = bytes; ip_address = ip; udp_port = u16_of port } ∷ []);
      }
  unfolding schedule_pkt physically_send
  schedule_pkt-unpaced bytes clock to ip port e reads found =
      rw (schedule_pkt, found) (rw reads refl)

  send_packed-unpaced :
      (clock from to : ℤ) (pkt ip : List ℕ) (port : ℤ) (e : Emulator D K)
      → (to ==ℤ Packet.broadcast_address) ≡ false
      → text.inet_pton ip ≡ true
      → find addr_eq to e.arp ≡ some (unpaced ip port)
      → send_packed double text draws clock to (EmulatorPacket.pack (packet_for from to pkt)) e
        ≡ (record e { sent = e.sent ++ (datagram_for from to pkt ip (u16_of port) ∷ []) }, true)
  unfolding send_packed EmulatorPacket.pack
  send_packed-unpaced clock from to pkt ip port e one reads found =
      let some_bytes : (length (EmulatorPacket.pack (packet_for from to pkt)) == 0) ≡ false =
        ground arith in
      rw (some_bytes, one, found)
        (ap (λ x. (x, true))
          (schedule_pkt-unpaced (EmulatorPacket.pack (packet_for from to pkt)) clock to ip port e
            reads found))

  -- A packet that the manager accepts, for one node whose entry in the table has no link: `sendPkt`
  -- returns true, and where the host of the entry is an address, one datagram is handed to the socket,
  -- for this host and the port of the entry modulo 2 ^ 16. Wherever it seems to come from, the
  -- emulator of the receiving node hands exactly this packet to its node, as one of the sender, and
  -- knows the sender's host and port from then on.
  pub send_pkt-process_udp_packet :
      (bytes : List ℕ) (clock from to : ℤ) (pkt ip ip' : List ℕ) (port port' : ℤ)
      (e r : Emulator D K)
      → accepts from to pkt ≡ true
      → (to ==ℤ Packet.broadcast_address) ≡ false
      → text.inet_pton ip ≡ true
      → find addr_eq to (refreshed bytes e).arp ≡ some (unpaced ip port)
      → r.assigned_node_id ≡ to
      → let e' = refreshed bytes e in
        let arrived = process_udp_packet (datagram_for from to pkt ip' port') r in
        (send_pkt double text draws bytes clock from to pkt e
          ≡ some (
            record e' { sent = e.sent ++ (datagram_for from to pkt ip (u16_of port) ∷ []) },
            true,
          ))
        × (arrived.1 ≡ some (from, pkt))
        × Knows from ip' port' arrived.0.arp
  unfolding refresh_arp
  send_pkt-process_udp_packet bytes clock from to pkt ip ip' port port' e r h one reads found mine =
      let handed =
        process_udp_packet-pack from to pkt ip' port' r (accepts-IsEmulatorPacket from to pkt h)
          mine in
      (
        send_pkt-eq_some bytes clock from to pkt e h
            ∙ ap some
                (send_packed-unpaced clock from to pkt ip port (refreshed bytes e) one reads found),
        handed.0,
        handed.1,
      )
