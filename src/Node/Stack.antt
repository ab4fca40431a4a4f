-- ===== src/Node/Stack.antt =====
-- include/nb/stack_node.hpp, ping_request.hpp and src/node/stack_node.cpp: the protocol stack of a
-- node, which answers pings and passes segments on to its manager of sockets. The logs are left out.
pub mod Ping
pub mod Arrivals
pub mod Commands
pub mod Process
use cpp_tcp.Base.{
  ℕ, Bool, true, false, ◌&&◌, Option, none, some, List, [], ◌∷◌, ◌++◌, ◌==◌, if◌then◌else◌,
}
use cpp_tcp.Base.Int.{ℤ, pos, ◌+ℤ◌, ltb_ℤ, ◌==ℤ◌}
use cpp_tcp.Base.Double.{DoubleOps}
use cpp_tcp.Base.Text.{bytes_eq}
use cpp_tcp.Net.Packet
use cpp_tcp.Net.Packet.{Packet}
use cpp_tcp.Net.Protocol
use cpp_tcp.Net.Transport
use cpp_tcp.Node.Manager
use cpp_tcp.Node.Manager.{TcpManager, ping_timeout, timer, emit, hand_over}
use cpp_tcp.Node.Manager.Receive
use cpp_tcp.Node.Manager.Timer.{schedule_tick}

abbrev pub ping_timeout_ms : ℤ
ping_timeout_ms = pos 10000

pub record PingRequest : Type 0 where
  pub dest_addr : ℤ
  pub msg : List ℕ
  pub time_sent_ms : ℤ

-- `addr_` is the address of the manager: the constructor gives both the same one, which never changes.
pub record StackNode (D : Type 0) : Type 0 where
  pub pings : List PingRequest
  pub tcp_man : TcpManager D

-- The text before the first space and the text behind it.
unfoldable pub split_at_space : List ℕ → Option (List ℕ × List ℕ)
split_at_space [] = none
split_at_space (c ∷ cs) =
    if c == 32
    then some ([], cs)
    else elim (split_at_space cs) [ none ↦ none | some (word, rest) ↦ some (c ∷ word, rest) ]

-- The request was sent to `src` with this message.
abbrev pub is_answered_by : ℤ → List ℕ → PingRequest → Bool
is_answered_by src payload p = p.dest_addr ==ℤ src && bytes_eq p.msg payload

-- The loop of `receivePingReply`: the first request that is answered goes.
unfoldable pub erase_answered : ℤ → List ℕ → List PingRequest → List PingRequest
erase_answered src payload [] = []
erase_answered src payload (p ∷ ps) =
    if is_answered_by src payload p then ps else p ∷ erase_answered src payload ps

-- The loop of `pingTimedOut`.
unfoldable pub erase_expired : ℤ → List PingRequest → List PingRequest
erase_expired now [] = []
erase_expired now (p ∷ ps) =
    if ltb_ℤ (p.time_sent_ms +ℤ ping_timeout_ms) now
    then erase_expired now ps
    else p ∷ erase_expired now ps

module _ {D : Type 0} where
  -- The constructor.
  unfoldable pub init : ℤ → StackNode D
  init addr = record { pings = []; tcp_man = Manager.init addr }

  unfoldable pub start : StackNode D → StackNode D
  start n = record n {
    tcp_man = schedule_tick (emit (timer n.tcp_man.addr ping_timeout_ms ping_timeout) n.tcp_man);
  }

  -- What `sendPkt` throws is caught here.
  unfoldable pub send_packet : ℤ → Packet → StackNode D → StackNode D
  send_packet dest_addr packet n = record n {
    tcp_man = (hand_over dest_addr (some packet) n.tcp_man).0;
  }

  -- `none`: the constructor of the packet throws, and nothing has changed.
  unfoldable pub send_segment : ℤ → ℤ → ℤ → List ℕ → StackNode D → Option (StackNode D)
  send_segment src_addr dest_addr protocol payload n =
      elim (Packet.make dest_addr src_addr Packet.max_ttl protocol (pos 0) payload) [
        | none ↦ none
        | some pkt ↦ some (send_packet dest_addr pkt n)
      ]

  unfoldable pub ping_timed_out : ℤ → StackNode D → StackNode D
  ping_timed_out now n = record {
    pings = erase_expired now n.pings;
    tcp_man = emit (timer n.tcp_man.addr ping_timeout_ms ping_timeout) n.tcp_man;
  }

  -- The request is recorded once its packet is built, also where `sendPkt` has refused it.
  unfoldable pub send_ping : ℤ → ℤ → List ℕ → StackNode D → StackNode D × Bool
  send_ping now dest msg n =
      elim (Packet.make dest n.tcp_man.addr Packet.max_ttl Protocol.ping_pkt (pos 0) msg) [
        | none ↦ (n, false)
        | some pkt ↦
            let n' = send_packet dest pkt n in
            let request : PingRequest = record {
              dest_addr = dest;
              msg = msg;
              time_sent_ms = now;
            } in
            (record n' { pings = n'.pings ++ (request ∷ []) }, true)
      ]

  -- The arguments of the command are read by `std::stoi`, a parameter that returns `none` where it
  -- throws.
  unfoldable pub match_ping_command :
      (List ℕ → Option ℤ) → ℤ → List ℕ → StackNode D → StackNode D × Bool
  match_ping_command stoi now command n = elim (split_at_space command) [
    | none ↦ (n, false)
    | some (word, msg) ↦ elim (stoi word) [
      | none ↦ (n, false)
      | some dest ↦ send_ping now dest msg n
    ]
  ]

  unfoldable pub receive_ping : Packet → StackNode D → StackNode D
  receive_ping packet n =
      elim (Packet.make packet.src n.tcp_man.addr Packet.max_ttl Protocol.ping_reply_pkt (pos 0)
        packet.payload) [ none ↦ n | some reply ↦ send_packet packet.src reply n ]

  unfoldable pub receive_ping_reply : Packet → StackNode D → StackNode D
  receive_ping_reply packet n = record n {
    pings = erase_answered packet.src packet.payload n.pings;
  }

module _ {D : Type 0} (double : DoubleOps D) where
  unfoldable pub receive_transport : ℤ → Packet → StackNode D → StackNode D
  receive_transport now packet n = elim (Transport.unpack packet.payload) [
    | none ↦ n
    | some t ↦ record n { tcp_man = Receive.receive_transport double now packet.src t n.tcp_man }
  ]

  unfoldable pub receive_packet : ℤ → Packet → StackNode D → StackNode D
  receive_packet now packet n =
      if packet.protocol ==ℤ Protocol.ping_pkt
      then receive_ping packet n
      else if packet.protocol ==ℤ Protocol.ping_reply_pkt
      then receive_ping_reply packet n
      else if packet.protocol ==ℤ Protocol.transport_pkt
      then receive_transport now packet n
      else n

  -- Bytes that do not unpack are only reported.
  unfoldable pub on_receive : ℤ → List ℕ → StackNode D → StackNode D
  on_receive now msg n = elim (Packet.unpack msg) [ none ↦ n | some pkt ↦ receive_packet now pkt n ]
