-- ===== src/Node/Manager.antt =====
-- include/nb/tcp_manager.hpp and src/node/tcp_manager.cpp: the manager's state, what it hands to the
-- runtime manager, and its tables. What it prints and logs is left out.
pub mod Connection
pub mod Receive
pub mod Timer
pub mod Calls
pub mod Writing
pub mod Sound
pub mod Resending
use cpp_tcp.Base.{
  ℕ, ◌+◌, Bool, true, false, ◌&&◌, Option, none, some, List, [], ◌∷◌, ◌++◌, length, get_or, set,
  ◌==◌, if◌then◌else◌,
}
use cpp_tcp.Base.Int.{ℤ, pos, ◌==ℤ◌}
use cpp_tcp.Base.Double.{DoubleOps}
use cpp_tcp.Base.Assoc.{insert, erase_if}
use cpp_tcp.Net.Packet
use cpp_tcp.Net.Packet.{Packet}
use cpp_tcp.Net.Protocol
use cpp_tcp.Net.Transport
use cpp_tcp.Net.Transport.{Transport}
use cpp_tcp.Core.Runtime
use cpp_tcp.Node.Socket.{TcpSocket, fresh}

abbrev pub retrans_tick_ms : ℤ
retrans_tick_ms = pos 10

pub record ConnKey : Type 0 where
  pub remote_addr : ℤ
  pub remote_port : ℤ
  pub local_port : ℤ

-- ConnKey::operator==
unfoldable pub key_eq : ConnKey → ConnKey → Bool
key_eq k o =
    k.remote_addr ==ℤ o.remote_addr
    && k.remote_port ==ℤ o.remote_port
    && k.local_port ==ℤ o.local_port

abbrev pub port_eq : ℤ → ℤ → Bool
port_eq a b = a ==ℤ b

-- The callbacks that a node gives to `add_timer`: `ping_timed_out`, `retransmission_tick`, and the tick
-- of the task of this index.
pub data NodeTimer : Type 0 where
  ping_timeout retransmission : NodeTimer
  task : ℕ → NodeTimer

-- A call of the runtime manager that changes something: a packet that `send_pkt` has accepted, or a
-- timer of the node.
pub data Effect : Type 0 where
  sent : ℤ → ℤ → List ℕ → Effect
  timer : ℤ → ℤ → NodeTimer → Effect

-- `effects` are the calls made so far, the first one first.
pub record TcpManager (D : Type 0) : Type 0 where
  pub addr : ℤ
  pub all_sockets : List (TcpSocket D)
  pub listeners_by_port : List (ℤ × ℕ)
  pub syn_pending_by_key : List (ConnKey × ℕ)
  pub established_by_key : List (ConnKey × ℕ)
  pub effects : List Effect

module _ {D : Type 0} (double : DoubleOps D) where
  -- The socket behind a pointer. Every pointer is the index of a socket.
  abbrev pub socket_at : TcpManager D → ℕ → TcpSocket D
  socket_at m i = get_or m.all_sockets i (fresh double)

  -- socket(): a new socket and its index.
  unfoldable pub socket : TcpManager D → TcpManager D × ℕ
  socket m = (record m { all_sockets = m.all_sockets ++ (fresh double ∷ []) }, length m.all_sockets)

module _ {D : Type 0} where
  abbrev pub init : ℤ → TcpManager D
  init addr = record {
    addr = addr;
    all_sockets = [];
    listeners_by_port = [];
    syn_pending_by_key = [];
    established_by_key = [];
    effects = [];
  }

  -- A change of the socket behind a pointer.
  abbrev pub put : TcpManager D → ℕ → TcpSocket D → TcpManager D
  put m i s = record m { all_sockets = set m.all_sockets i s }

  abbrev pub emit : Effect → TcpManager D → TcpManager D
  emit e m = record m { effects = m.effects ++ (e ∷ []) }

-- The network packet around a segment. `none`: one of the two constructors throws.
unfoldable pub packet_for : ℤ → ℤ → Option Transport → Option Packet
packet_for addr dest_addr none = none
packet_for addr dest_addr (some t) =
    Packet.make dest_addr addr Packet.max_ttl Protocol.transport_pkt (pos 0) (Transport.pack t)

module _ {D : Type 0} where
  -- manager_->sendPkt(addr_, destAddr, pkt.pack()) within a `try`: false if anything throws.
  unfoldable pub hand_over : ℤ → Option Packet → TcpManager D → TcpManager D × Bool
  hand_over dest_addr none m = (m, false)
  hand_over dest_addr (some p) m =
      if Runtime.accepts m.addr dest_addr (Packet.pack p)
      then (emit (sent m.addr dest_addr (Packet.pack p)) m, true)
      else (m, false)

  abbrev pub transmit : ℤ → Option Transport → TcpManager D → TcpManager D × Bool
  transmit dest_addr t m = hand_over dest_addr (packet_for m.addr dest_addr t) m

  unfoldable pub send_syn : TcpSocket D → ℤ → ℤ → TcpManager D → TcpManager D × Bool
  send_syn sock dest_addr dest_port m =
      transmit dest_addr
        (Transport.make sock.local_port dest_port Transport.syn (pos 0) sock.syn_seq []) m

  unfoldable pub send_fin : TcpSocket D → ℤ → ℤ → TcpManager D → TcpManager D × Bool
  send_fin sock dest_addr dest_port m =
      transmit dest_addr
        (Transport.make sock.local_port dest_port Transport.fin (pos 0) sock.fin_seq []) m

  unfoldable pub send_data : TcpSocket D → ℤ → ℤ → ℤ → List ℕ → TcpManager D → TcpManager D × Bool
  send_data sock dest_addr dest_port seq_num payload m =
      transmit dest_addr
        (Transport.make sock.local_port dest_port Transport.data_type (pos 0) seq_num payload) m

  unfoldable pub send_ack : ℤ → ℤ → ℤ → ℤ → ℤ → TcpManager D → TcpManager D × Bool
  send_ack src_port dest_addr dest_port ack_num window m =
      transmit dest_addr (Transport.make src_port dest_port Transport.ack window ack_num []) m

  unfoldable pub send_fin_from_ports : ℤ → ℤ → ℤ → TcpManager D → TcpManager D × Bool
  send_fin_from_ports src_port dest_addr dest_port m =
      transmit dest_addr (Transport.make src_port dest_port Transport.fin (pos 0) (pos 0) []) m

  unfoldable pub register_listener : ℕ → ℤ → TcpManager D → TcpManager D
  register_listener i local_port m = record m {
    listeners_by_port = insert port_eq local_port i m.listeners_by_port;
  }

module _ {D : Type 0} (double : DoubleOps D) where
  abbrev pub key_of : TcpManager D → ℕ → ℤ → ℤ → ConnKey
  key_of m i remote_addr remote_port = record {
    remote_addr = remote_addr;
    remote_port = remote_port;
    local_port = (socket_at double m i).local_port;
  }

  unfoldable pub register_syn_pending : ℕ → ℤ → ℤ → TcpManager D → TcpManager D
  register_syn_pending i remote_addr remote_port m = record m {
    syn_pending_by_key = insert key_eq (key_of m i remote_addr remote_port) i m.syn_pending_by_key;
  }

  unfoldable pub register_established : ℕ → ℤ → ℤ → TcpManager D → TcpManager D
  register_established i remote_addr remote_port m = record m {
    established_by_key = insert key_eq (key_of m i remote_addr remote_port) i m.established_by_key;
  }

module _ {D : Type 0} where
  -- Every entry of the three tables that points to the socket goes.
  unfoldable pub unregister_socket : ℕ → TcpManager D → TcpManager D
  unregister_socket i m = record m {
    listeners_by_port = erase_if (λ j. j == i) m.listeners_by_port;
    syn_pending_by_key = erase_if (λ j. j == i) m.syn_pending_by_key;
    established_by_key = erase_if (λ j. j == i) m.established_by_key;
  }
