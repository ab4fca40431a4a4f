-- ===== src/Node/Stack/Arrivals.antt =====
-- What arriving bytes and the timer for pings do to a node.
use mathlib.Core.List.{Memᴰ}
use cpp_tcp.Base.{
  ℕ, ◌≡◌, ◌↔◌, ap, false, some, List, [], ◌∷◌, Bool-cases, Option-cases, inl, inr, arith,
}
use cpp_tcp.Base.Int.{ℤ, pos, ◌+ℤ◌, ◌≤ℤ◌, ◌==ℤ◌, ltb_ℤ}
use cpp_tcp.Base.Double.{DoubleOps}
use cpp_tcp.Net.Packet
use cpp_tcp.Net.Packet.{Packet}
use cpp_tcp.Net.Protocol
use cpp_tcp.Net.Transport
use cpp_tcp.Node.Manager.Sound.{Sound, hand_over-Sound}
use cpp_tcp.Node.Manager.Sound.Receiving.{receive_transport-Sound}
use cpp_tcp.Node.Stack.{
  PingRequest, StackNode, erase_expired, ping_timeout_ms, send_packet, receive_ping,
  receive_ping_reply, receive_transport, receive_packet, on_receive, ping_timed_out,
}

module _ {D : Type 0} (double : DoubleOps D) where
  receive_ping-Sound :
      (p : Packet) (n : StackNode D) → Sound n.tcp_man → Sound (receive_ping p n).tcp_man
  unfolding receive_ping send_packet
  receive_ping-Sound p n v =
      elim (Option-cases (
        Packet.make p.src n.tcp_man.addr Packet.max_ttl Protocol.ping_reply_pkt (pos 0)
          p.payload)) [
            | inl e ↦ rw (e, receive_ping) v
            | inr (q, e) ↦ rw (e, receive_ping) (hand_over-Sound n.tcp_man v p.src (some q))
          ]

  receive_transport_node-Sound :
      (now : ℤ) (p : Packet) (n : StackNode D)
      → Sound n.tcp_man
      → Sound (receive_transport double now p n).tcp_man
  unfolding receive_transport
  receive_transport_node-Sound now p n v = elim (Option-cases (Transport.unpack p.payload)) [
    | inl e ↦ rw (e, receive_transport) v
    | inr (t, e) ↦
        rw (e, receive_transport) (receive_transport-Sound double now p.src t n.tcp_man v)
  ]

  receive_packet-Sound :
      (now : ℤ) (p : Packet) (n : StackNode D)
      → Sound n.tcp_man
      → Sound (receive_packet double now p n).tcp_man
  unfolding receive_packet receive_ping_reply
  receive_packet-Sound now p n v = elim (Bool-cases (p.protocol ==ℤ Protocol.ping_pkt)) [
    | inl e ↦ rw e (receive_ping-Sound p n v)
    | inr e ↦ rw e (elim (Bool-cases (p.protocol ==ℤ Protocol.ping_reply_pkt)) [
      | inl r ↦ rw r v
      | inr r ↦ rw r (elim (Bool-cases (p.protocol ==ℤ Protocol.transport_pkt)) [
        | inl t ↦ rw t (receive_transport_node-Sound now p n v)
        | inr t ↦ rw t v
      ])
    ])
  ]

  -- Whatever bytes arrive at a node, it keeps the bounds of its sockets, and what holds of the
  -- packets and timers that it has handed over: each packet has passed the tests of the runtime
  -- manager and comes from this node, and each timer is one of 10 ms.
  pub on_receive-Sound :
      (now : ℤ) (bytes : List ℕ) (n : StackNode D)
      → Sound n.tcp_man
      → Sound (on_receive double now bytes n).tcp_man
  unfolding on_receive
  on_receive-Sound now bytes n v = elim (Option-cases (Packet.unpack bytes)) [
    | inl e ↦ rw (e, on_receive) v
    | inr (p, e) ↦ rw (e, on_receive) (receive_packet-Sound now p n v)
  ]

erase_expired-kept :
    (now : ℤ) (ps : List PingRequest) (p : PingRequest)
    → Memᴰ p (erase_expired now ps)
    → Memᴰ p ps × (now ≤ℤ p.time_sent_ms +ℤ ping_timeout_ms)
unfolding erase_expired
erase_expired-kept now [] p m = elim m [ ]
erase_expired-kept now (q ∷ ps) p m =
    elim (Bool-cases (ltb_ℤ (q.time_sent_ms +ℤ ping_timeout_ms) now)) [
      | inl e ↦ let r = erase_expired-kept now ps p (rw e at m) in (Memᴰ.tail r.0, r.1)
      | inr e ↦ elim (rw e at m) [
        | Memᴰ.head h ↦
            (Memᴰ.head h, rw (ap (λ (r : PingRequest). r.time_sent_ms) h) (ground arith))
        | Memᴰ.tail t ↦ let r = erase_expired-kept now ps p t in (Memᴰ.tail r.0, r.1)
      ]
    ]

erase_expired-keeps :
    (now : ℤ) (ps : List PingRequest) (p : PingRequest)
    → Memᴰ p ps
    → now ≤ℤ p.time_sent_ms +ℤ ping_timeout_ms
    → Memᴰ p (erase_expired now ps)
unfolding erase_expired
erase_expired-keeps now [] p m young = elim m [ ]
erase_expired-keeps now (q ∷ ps) p (Memᴰ.head h) young =
    let late : ltb_ℤ (q.time_sent_ms +ℤ ping_timeout_ms) now ≡ false =
      rw (← ap (λ (r : PingRequest). r.time_sent_ms) h) (ground arith) in
    rw late (Memᴰ.head h)
erase_expired-keeps now (q ∷ ps) p (Memᴰ.tail m) young =
    elim (Bool-cases (ltb_ℤ (q.time_sent_ms +ℤ ping_timeout_ms) now)) [
      | inl e ↦ rw e (erase_expired-keeps now ps p m young)
      | inr e ↦ rw e (Memᴰ.tail (erase_expired-keeps now ps p m young))
    ]

-- After the timer for pings a request is waiting exactly if it was waiting before and was sent at
-- most 10 seconds ago.
pub Mem-ping_timed_out :
    {D : Type 0} (now : ℤ) (n : StackNode D) (p : PingRequest)
    → Memᴰ p (ping_timed_out now n).pings ↔ (Memᴰ p n.pings × (now ≤ℤ p.time_sent_ms +ℤ pos 10000))
unfolding ping_timed_out
Mem-ping_timed_out now n p =
    (erase_expired-kept now n.pings p, λ h. erase_expired-keeps now n.pings p h.0 h.1)
