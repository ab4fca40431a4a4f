-- ===== src/Node/Manager/Receive.antt =====
-- src/node/tcp_manager.cpp: what the manager does with a segment that arrives.
use cpp_tcp.Base.{ℕ, not, ◌&&◌, ◌||◌, Option, none, some, length, if◌then◌else◌}
use cpp_tcp.Base.Int.{ℤ, pos, ◌+ℤ◌, ◌-ℤ◌, ltb_ℤ, leb_ℤ, ◌==ℤ◌}
use cpp_tcp.Base.Double.{DoubleOps}
use cpp_tcp.Base.Assoc.{find, erase}
use cpp_tcp.Net.Transport
use cpp_tcp.Net.Transport.{Transport}
use cpp_tcp.Node.Socket.{
  TcpSocket, OutstandingSeg, is_connected, is_closure_pending, get_recv_buf_available, set_rwnd,
  init_accepted, enqueue_accepted, mark_established, mark_closed, mark_peer_fin_received,
  append_to_recv_buf, additive_increase_cwnd, on_sample_rtt, pop_acked_through,
}
use cpp_tcp.Node.Manager.{
  TcpManager, ConnKey, key_eq, port_eq, socket_at, socket, put, send_ack, send_fin_from_ports,
  register_established,
}
use cpp_tcp.Node.Manager.Connection.{maybe_send_fin_on_drain}

abbrev pub segment_key : ℤ → Transport → ConnKey
segment_key src_addr t = record {
  remote_addr = src_addr;
  remote_port = t.src_port;
  local_port = t.dest_port;
}

module _ {D : Type 0} where
  -- Only the segment that starts at the next byte expected, and that fits as a whole, is taken.
  unfoldable pub take_data : Transport → TcpSocket D → TcpSocket D
  take_data t s =
      let seg_len : ℤ = pos (length t.payload) in
      let (s', accepted) = append_to_recv_buf (some t.payload) 0 seg_len s in
      if seg_len ==ℤ pos 0
        || not (t.seq_num ==ℤ s.rcv_nxt)
        || ltb_ℤ (get_recv_buf_available s) seg_len
      then s
      else record s' { rcv_nxt = s'.rcv_nxt +ℤ accepted }

module _ {D : Type 0} (double : DoubleOps D) where
  -- A listener is there: a child is made, offered to it, registered and acknowledged.
  unfoldable pub accept_syn : ℕ → ℤ → Transport → TcpManager D → TcpManager D
  accept_syn listener src_addr t m =
      let (m₁, child) = socket double m in
      let m₂ =
        put m₁ child (init_accepted t.dest_port src_addr t.src_port (socket_at double m₁ child)) in
      let m₃ = put m₂ listener (enqueue_accepted child (socket_at double m₂ listener)) in
      let m₄ = register_established double child src_addr t.src_port m₃ in
      (send_ack t.dest_port src_addr t.src_port (t.seq_num +ℤ pos 1)
        (get_recv_buf_available (socket_at double m₄ child)) m₄).0

  unfoldable pub on_syn : ℤ → Transport → TcpManager D → TcpManager D
  on_syn src_addr t m = elim (find port_eq t.dest_port m.listeners_by_port) [
    | none ↦ (send_fin_from_ports t.dest_port src_addr t.src_port m).0
    | some listener ↦ accept_syn listener src_addr t m
  ]

  -- The answer to a SYN: only the expected number establishes the connection.
  unfoldable pub ack_pending : ℕ → ConnKey → ℤ → Transport → TcpManager D → TcpManager D
  ack_pending i key src_addr t m =
      let s = socket_at double m i in
      if t.seq_num ==ℤ s.syn_seq +ℤ pos 1
      then (let m' = put m i (mark_established (set_rwnd t.window s)) in
          register_established double i src_addr t.src_port
            (record m' { syn_pending_by_key = erase key_eq key m'.syn_pending_by_key }))
      else m

  -- A sample of the round-trip time, from a segment that was sent once.
  unfoldable pub sample : ℤ → Option OutstandingSeg → TcpSocket D → TcpSocket D
  sample now none s = s
  sample now (some seg) s =
      if seg.retransmitted then s else on_sample_rtt double (now -ℤ seg.first_sent_at_ms) s

  -- New data is acknowledged.
  unfoldable pub advance : ℤ → ℤ → TcpSocket D → TcpSocket D
  advance now ack_num s =
      let (s', popped) = pop_acked_through now ack_num s in
      sample now popped (additive_increase_cwnd s')

  -- What an acknowledgement on an open connection does to the socket: beyond what was sent it is
  -- ignored, and one that acknowledges nothing new changes the peer's window only.
  unfoldable pub acknowledge : ℤ → Transport → TcpSocket D → TcpSocket D
  acknowledge now t s =
      if ltb_ℤ s.snd_nxt t.seq_num
      then s
      else if leb_ℤ t.seq_num s.snd_una
      then set_rwnd t.window s
      else advance now t.seq_num (set_rwnd t.window s)

  -- New data may have been the last that a closing socket waited for.
  unfoldable pub ack_data : ℕ → ℤ → Transport → TcpManager D → TcpManager D
  ack_data i now t m =
      let s = socket_at double m i in
      let m' = put m i (acknowledge now t s) in
      if ltb_ℤ s.snd_nxt t.seq_num || leb_ℤ t.seq_num s.snd_una
      then m'
      else maybe_send_fin_on_drain double i m'

  unfoldable pub ack_established : ℕ → ConnKey → ℤ → Transport → TcpManager D → TcpManager D
  ack_established i key now t m =
      let s = socket_at double m i in
      if is_closure_pending s.state && leb_ℤ (pos 0) s.fin_seq && t.seq_num ==ℤ s.fin_seq +ℤ pos 1
      then record (put m i (mark_closed s)) {
        established_by_key = erase key_eq key m.established_by_key;
      }
      else if is_connected s.state || is_closure_pending s.state
      then ack_data i now t m
      else m

  unfoldable pub ack_known : ConnKey → ℤ → Transport → TcpManager D → TcpManager D
  ack_known key now t m = elim (find key_eq key m.established_by_key) [
    | none ↦ m
    | some i ↦ ack_established i key now t m
  ]

  unfoldable pub on_ack : ℤ → ℤ → Transport → TcpManager D → TcpManager D
  on_ack now src_addr t m = elim (find key_eq (segment_key src_addr t) m.syn_pending_by_key) [
    | none ↦ ack_known (segment_key src_addr t) now t m
    | some i ↦ ack_pending i (segment_key src_addr t) src_addr t m
  ]

  -- The FIN of a connection is acknowledged whatever its number is.
  unfoldable pub fin_established : ℕ → ℤ → Transport → TcpManager D → TcpManager D
  fin_established i src_addr t m =
      let m' = put m i (mark_peer_fin_received (socket_at double m i)) in
      (send_ack t.dest_port src_addr t.src_port (t.seq_num +ℤ pos 1)
        (get_recv_buf_available (socket_at double m' i)) m').0

  -- A FIN in answer to a SYN refuses the connection.
  unfoldable pub fin_pending : ConnKey → TcpManager D → TcpManager D
  fin_pending key m = elim (find key_eq key m.syn_pending_by_key) [
    | none ↦ m
    | some i ↦
        put (record m { syn_pending_by_key = erase key_eq key m.syn_pending_by_key }) i
          (mark_closed (socket_at double m i))
  ]

  unfoldable pub on_fin : ℤ → Transport → TcpManager D → TcpManager D
  on_fin src_addr t m = elim (find key_eq (segment_key src_addr t) m.established_by_key) [
    | some i ↦ fin_established i src_addr t m
    | none ↦ fin_pending (segment_key src_addr t) m
  ]

  -- The acknowledgement that answers every data segment: the next byte expected, and the room left.
  abbrev pub ack_now : ℕ → ℤ → Transport → TcpManager D → TcpManager D
  ack_now i src_addr t m =
      let s = socket_at double m i in
      (send_ack s.local_port src_addr t.src_port s.rcv_nxt (get_recv_buf_available s) m).0

  unfoldable pub data_established : ℕ → ℤ → Transport → TcpManager D → TcpManager D
  data_established i src_addr t m =
      let s = socket_at double m i in
      if not (is_connected s.state || is_closure_pending s.state)
      then m
      else ack_now i src_addr t (put m i (take_data t s))

  unfoldable pub on_data : ℤ → Transport → TcpManager D → TcpManager D
  on_data src_addr t m = elim (find key_eq (segment_key src_addr t) m.established_by_key) [
    | none ↦ m
    | some i ↦ data_established i src_addr t m
  ]

  -- A type that is none of the four is ignored.
  unfoldable pub receive_transport : ℤ → ℤ → Transport → TcpManager D → TcpManager D
  receive_transport now src_addr t m =
      if t.type ==ℤ Transport.syn
      then on_syn src_addr t m
      else if t.type ==ℤ Transport.ack
      then on_ack now src_addr t m
      else if t.type ==ℤ Transport.fin
      then on_fin src_addr t m
      else if t.type ==ℤ Transport.data_type
      then on_data src_addr t m
      else m
