-- ===== src/Node/Stack/Ping.antt =====
-- A ping and its answer between two nodes.
use cpp_tcp.Base.{
  ℕ, ◌≤◌, ◌≡◌, refl, ap, ◌∙◌, Bool, true, false, Option, some, List, [], ◌∷◌, ◌++◌, length,
  if◌then◌else◌, arith,
}
use cpp_tcp.Base.Int.{ℤ, pos, ◌≤ℤ◌, ==ℤ_refl}
use cpp_tcp.Base.Double.{DoubleOps}
use cpp_tcp.Base.Text.{bytes_eq_refl}
use cpp_tcp.Core.Runtime.{accepts}
use cpp_tcp.Core.Runtime.Send.{accepts-pack}
use cpp_tcp.Net.Packet
use cpp_tcp.Net.Packet.{Packet}
use cpp_tcp.Net.Packet.RoundTrip.{IsPacket, make_lem, unpack-pack_packet}
use cpp_tcp.Net.Protocol
use cpp_tcp.Node.Manager.{sent, hand_over}
use cpp_tcp.Node.Stack.{
  PingRequest, StackNode, split_at_space, is_answered_by, erase_answered, send_packet, send_ping,
  match_ping_command, receive_ping, receive_ping_reply, receive_packet, on_receive,
}

-- The packet of a ping or of its answer.
abbrev pub echo : ℤ → ℤ → ℤ → List ℕ → Packet
echo dest src protocol msg = record {
  dest = dest;
  src = src;
  ttl = Packet.max_ttl;
  protocol = protocol;
  seq = pos 0;
  payload = msg;
}

abbrev pub IsAddress : ℤ → Type 0
IsAddress a = (pos 0 ≤ℤ a) × (a ≤ℤ pos 255)

echo-IsPacket :
    (dest src protocol : ℤ) (msg : List ℕ)
    → IsAddress dest
    → IsAddress src
    → IsAddress protocol
    → protocol ≤ℤ pos 4
    → length msg ≤ 119
    → IsPacket (echo dest src protocol msg)
echo-IsPacket dest src protocol msg d s p q n = record {
  dest_nonneg = d.0;
  dest_le = d.1;
  src_nonneg = s.0;
  src_le = s.1;
  ttl_nonneg = omega arith;
  ttl_le = omega arith;
  protocol_nonneg = p.0;
  protocol_le = q;
  size_le = omega arith;
}

-- Whether some request is answered.
abbrev pub waits_for : ℤ → List ℕ → List PingRequest → Bool
waits_for src payload [] = false
waits_for src payload (p ∷ ps) =
    if is_answered_by src payload p then true else waits_for src payload ps

erase_answered-last :
    (src : ℤ) (payload : List ℕ) (ps : List PingRequest) (p : PingRequest)
    → waits_for src payload ps ≡ false
    → is_answered_by src payload p ≡ true
    → erase_answered src payload (ps ++ (p ∷ [])) ≡ ps
unfolding erase_answered
erase_answered-last src payload [] p h k = ground arith
erase_answered-last src payload (q ∷ ps) p h k =
    ground (arith, erase_answered-last src payload ps p)

-- The request that `send_ping` records.
abbrev pub request : ℤ → ℤ → List ℕ → PingRequest
request now dest msg = record { dest_addr = dest; msg = msg; time_sent_ms = now }

module _ {D : Type 0} where
  -- The node once it has handed over a packet of this kind.
  abbrev pub has_sent : ℤ → ℤ → List ℕ → StackNode D → StackNode D
  has_sent dest protocol msg n = record n {
    tcp_man = record n.tcp_man {
      effects =
          n.tcp_man.effects
          ++ (sent n.tcp_man.addr dest (Packet.pack (echo dest n.tcp_man.addr protocol msg)) ∷ []);
    };
  }

  send_packet-echo :
      (dest protocol : ℤ) (msg : List ℕ) (n : StackNode D)
      → IsPacket (echo dest n.tcp_man.addr protocol msg)
      → send_packet dest (echo dest n.tcp_man.addr protocol msg) n ≡ has_sent dest protocol msg n
  unfolding send_packet hand_over
  send_packet-echo dest protocol msg n h =
      let p = echo dest n.tcp_man.addr protocol msg in
      let va : Packet.valid_address n.tcp_man.addr ≡ true =
        ground (arith, h.src_nonneg, h.src_le) in
      let vb : Packet.valid_address dest ≡ true = ground (arith, h.dest_nonneg, h.dest_le) in
      let e : accepts n.tcp_man.addr dest (Packet.pack p) ≡ true =
        accepts-pack n.tcp_man.addr dest p va vb h (omega arith, omega arith) (omega arith) in
      rw e refl

  send_ping_lem :
      (now dest : ℤ) (msg : List ℕ) (n : StackNode D)
      → IsPacket (echo dest n.tcp_man.addr Protocol.ping_pkt msg)
      → send_ping now dest msg n ≡ (
        record (has_sent dest Protocol.ping_pkt msg n) {
          pings = n.pings ++ (request now dest msg ∷ []);
        },
        true,
      )
  unfolding send_ping
  send_ping_lem now dest msg n h =
      rw
        (
          send_ping,
          make_lem (echo dest n.tcp_man.addr Protocol.ping_pkt msg) h,
          send_packet-echo dest Protocol.ping_pkt msg n h,
        )
        refl

module _ {D : Type 0} (double : DoubleOps D) (now : ℤ) (n : StackNode D) where
  on_receive-ping :
      (src : ℤ) (msg : List ℕ)
      → IsPacket (echo n.tcp_man.addr src Protocol.ping_pkt msg)
      → IsPacket (echo src n.tcp_man.addr Protocol.ping_reply_pkt msg)
      → on_receive double now (Packet.pack (echo n.tcp_man.addr src Protocol.ping_pkt msg)) n
        ≡ has_sent src Protocol.ping_reply_pkt msg n
  unfolding on_receive receive_packet receive_ping
  on_receive-ping src msg h k =
      rw
        (
          on_receive,
          receive_packet,
          receive_ping,
          unpack-pack_packet (echo n.tcp_man.addr src Protocol.ping_pkt msg) h
              (omega arith, omega arith),
          make_lem (echo src n.tcp_man.addr Protocol.ping_reply_pkt msg) k,
        )
        (send_packet-echo src Protocol.ping_reply_pkt msg n k)

  on_receive-reply :
      (src : ℤ) (msg : List ℕ)
      → IsPacket (echo n.tcp_man.addr src Protocol.ping_reply_pkt msg)
      → on_receive double now (Packet.pack (echo n.tcp_man.addr src Protocol.ping_reply_pkt msg)) n
        ≡ record n { pings = erase_answered src msg n.pings }
  unfolding on_receive receive_packet receive_ping_reply
  on_receive-reply src msg h =
      rw
        (
          on_receive,
          unpack-pack_packet (echo n.tcp_man.addr src Protocol.ping_reply_pkt msg) h
              (omega arith, omega arith),
        )
        refl

module _ {D : Type 0} (double : DoubleOps D) (stoi : List ℕ → Option ℤ) where
  -- Two nodes `a` and `b` have addresses from 0 to 255. `a` gets a command whose text before the
  -- first space is read as the address of `b`, and whose rest is a message of at most 119 bytes.
  -- Then `a` hands over one packet to `b`; when that arrives, `b` hands over one packet to `a`;
  -- and when that arrives, the requests of `a` are the same as before the command, if none of them
  -- waited for the same answer.
  pub ping-answered :
      (now₁ now₂ now₃ : ℤ) (command word msg : List ℕ) (a b : StackNode D)
      → IsAddress a.tcp_man.addr
      → IsAddress b.tcp_man.addr
      → split_at_space command ≡ some (word, msg)
      → stoi word ≡ some b.tcp_man.addr
      → length msg ≤ 119
      → waits_for b.tcp_man.addr msg a.pings ≡ false
      → (ping reply : List ℕ) × ((match_ping_command stoi now₁ command a).0.tcp_man.effects
          ≡ a.tcp_man.effects ++ (sent a.tcp_man.addr b.tcp_man.addr ping ∷ []))
        × ((on_receive double now₂ ping b).tcp_man.effects
            ≡ b.tcp_man.effects ++ (sent b.tcp_man.addr a.tcp_man.addr reply ∷ []))
        × ((on_receive double now₃ reply (match_ping_command stoi now₁ command a).0).pings
            ≡ a.pings)
  unfolding match_ping_command
  ping-answered now₁ now₂ now₃ command word msg a b va vb split read n fresh =
      let x = a.tcp_man.addr in
      let y = b.tcp_man.addr in
      let ping : IsPacket (echo y x Protocol.ping_pkt msg) =
        echo-IsPacket y x Protocol.ping_pkt msg vb va (omega arith, omega arith) (omega arith) n in
      let answer : IsPacket (echo x y Protocol.ping_reply_pkt msg) =
        echo-IsPacket x y Protocol.ping_reply_pkt msg va vb (omega arith, omega arith) (omega arith)
          n in
      (
        Packet.pack (echo y x Protocol.ping_pkt msg),
        Packet.pack (echo x y Protocol.ping_reply_pkt msg),
        rw (match_ping_command, split, read, send_ping_lem now₁ y msg a ping) refl,
        rw (on_receive-ping double now₂ b x msg ping answer) refl,
        rw (match_ping_command, split, read, send_ping_lem now₁ y msg a ping)
            (ap (λ (k : StackNode D). k.pings) (on_receive-reply double now₃ _ y msg answer)
              ∙ erase_answered-last y msg a.pings (request now₁ y msg) fresh
                  (ground (arith, bytes_eq_refl msg, ==ℤ_refl y))),
      )
