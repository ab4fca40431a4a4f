-- ===== src/Node/Manager/Sound.antt =====
-- The bounds of the sockets of a manager, and what holds of the packets that it hands over.
pub mod Connecting
pub mod Receiving
pub mod Calling
use mathlib.Core.List.{Memᴰ}
use cpp_tcp.Base.{
  ℕ, zero, suc, ◌+◌, ◌≤◌, ◌≡◌, refl, sym, ap, ◌∙◌, Bool, true, false, not, ◌&&◌, ◌||◌, Option, none,
  some, List, [], ◌∷◌, ◌++◌, length, length-append, length-drop, All, All-append, All-set,
  All-get_or, take, drop, arith, if◌then◌else◌, Bool-cases, Option-cases, ◌⊎◌, inl, inr, map,
}
use cpp_tcp.Base.Int.{
  ℤ, pos, pos_part, ◌+ℤ◌, ◌-ℤ◌, ◌≤ℤ◌, pos_add, ltb_ℤ, leb_ℤ, ◌==ℤ◌, min_ℤ, minus_one,
}
use cpp_tcp.Base.Double.{DoubleOps}
use cpp_tcp.Base.Assoc.{find, erase}
use cpp_tcp.Core.Runtime
use cpp_tcp.Net.Packet
use cpp_tcp.Net.Packet.{Packet}
use cpp_tcp.Net.Transport
use cpp_tcp.Net.Transport.{Transport}
use cpp_tcp.Node.Socket.{
  TcpSocket, OutstandingSeg, State, fresh, read, on_sample_rtt, additive_increase_cwnd,
  pop_acked_through, set_rwnd, is_closed, is_listening, is_connected, is_closure_pending, is_empty,
  mark_established, mark_closed, mark_peer_fin_received, init_accepted, enqueue_accepted,
  double_rto, multiplicative_decrease_cwnd,
}
use cpp_tcp.Node.Socket.Bounds.{
  Bounded, fresh-Bounded, set_rwnd-Bounded, init_accepted-Bounded, enqueue_accepted-Bounded,
  mark_established-Bounded, additive_increase_cwnd-Bounded, multiplicative_decrease_cwnd-Bounded,
  double_rto-Bounded,
}
use cpp_tcp.Node.Delivery.Sockets.{take_data_lem, read_lem}
use cpp_tcp.Node.Manager.{
  TcpManager, ConnKey, NodeTimer, retransmission, Effect, sent, timer, socket_at, socket, put, emit,
  hand_over, packet_for, transmit, send_syn, send_fin, send_data, send_ack, send_fin_from_ports,
  register_listener, register_syn_pending, register_established, unregister_socket, init, key_eq,
  port_eq,
}
use cpp_tcp.Node.Manager.Connection.{
  Written, wrote, failed, stuck, listen_on, take_child, accept_next, accept, connect_sent, connect,
  release, fin_sent, maybe_send_fin_on_drain, close, push_sent, write_segment, write_loop,
  start_deadline, write_buf, write, chunk_size,
}
use cpp_tcp.Node.Manager.Receive.{
  take_data, accept_syn, on_syn, ack_pending, sample, advance, acknowledge, ack_data,
  ack_established, ack_known, on_ack, fin_established, fin_pending, on_fin, data_established,
  on_data, receive_transport,
}
use cpp_tcp.Node.Manager.Timer.{
  schedule_tick, resend_all, back_off, is_due, tick_socket, tick_all, retransmission_tick,
}
use cpp_tcp.Node.Manager.Calls.{
  Call, starts, sockets, binds, listens, accepts_next, connects, writes_to, reads_from, closes,
  releases, arrives, ticks, perform, perform_all,
}

-- A packet on record comes from this node and has passed the runtime manager's tests.
abbrev pub IsAccepted : ℤ → Effect → Type 0
IsAccepted addr (sent from to bytes) = (from ≡ addr) × (Runtime.accepts from to bytes ≡ true)
IsAccepted addr (timer from delta k) = (from ≡ addr) × (delta ≡ pos 10) × (k ≡ retransmission)

pub record Sound {D : Type 0} (m : TcpManager D) : Type 0 where
  pub all_bounded : All Bounded m.all_sockets
  pub all_accepted : All (IsAccepted m.addr) m.effects

module _ {D : Type 0} (double : DoubleOps D) (m : TcpManager D) (v : Sound m) where
  pub at-Bounded : (i : ℕ) → Bounded (socket_at double m i)
  at-Bounded i =
      All-get_or Bounded m.all_sockets i (fresh double) v.all_bounded (fresh-Bounded double)

  pub socket-Sound : Sound (socket double m).0
  unfolding socket
  socket-Sound = record {
    all_bounded =
        All-append Bounded m.all_sockets (fresh double ∷ []) v.all_bounded
          (fresh-Bounded double, tt);
    all_accepted = v.all_accepted;
  }

  pub register_syn_pending-Sound : (i : ℕ) (a p : ℤ) → Sound (register_syn_pending double i a p m)
  unfolding register_syn_pending
  register_syn_pending-Sound i a p = record {
    all_bounded = v.all_bounded;
    all_accepted = v.all_accepted;
  }

  pub register_established-Sound : (i : ℕ) (a p : ℤ) → Sound (register_established double i a p m)
  unfolding register_established
  register_established-Sound i a p = record {
    all_bounded = v.all_bounded;
    all_accepted = v.all_accepted;
  }

module _ {D : Type 0} (m : TcpManager D) (v : Sound m) where
  pub put-Sound : (i : ℕ) (s : TcpSocket D) → Bounded s → Sound (put m i s)
  put-Sound i s b = record {
    all_bounded = All-set Bounded m.all_sockets i s v.all_bounded b;
    all_accepted = v.all_accepted;
  }

  pub emit-Sound : (e : Effect) → IsAccepted m.addr e → Sound (emit e m)
  emit-Sound e h = record {
    all_bounded = v.all_bounded;
    all_accepted = All-append (IsAccepted m.addr) m.effects (e ∷ []) v.all_accepted (h, tt);
  }

  pub hand_over-Sound : (to : ℤ) (p : Option Packet) → Sound (hand_over to p m).0
  unfolding hand_over
  hand_over-Sound to none = v
  hand_over-Sound to (some p) = elim (Bool-cases (Runtime.accepts m.addr to (Packet.pack p))) [
    | inl e ↦ rw e (emit-Sound (sent m.addr to (Packet.pack p)) (refl, e))
    | inr e ↦ rw e v
  ]

  pub transmit-Sound : (to : ℤ) (t : Option Transport) → Sound (transmit to t m).0
  transmit-Sound to t = hand_over-Sound to (packet_for m.addr to t)

  pub register_listener-Sound : (i : ℕ) (p : ℤ) → Sound (register_listener i p m)
  unfolding register_listener
  register_listener-Sound i p = record {
    all_bounded = v.all_bounded;
    all_accepted = v.all_accepted;
  }

  pub unregister_socket-Sound : (i : ℕ) → Sound (unregister_socket i m)
  unfolding unregister_socket
  unregister_socket-Sound i = record { all_bounded = v.all_bounded; all_accepted = v.all_accepted }

  pub schedule_tick-Sound : Sound (schedule_tick m)
  unfolding schedule_tick
  schedule_tick-Sound = emit-Sound (timer m.addr (pos 10) retransmission) (refl, refl, refl)
