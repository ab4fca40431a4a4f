-- ===== src/Node/Manager/Sound/Receiving.antt =====
-- What the manager does with a segment, and the retransmission tick, keep what `Sound` states.
use cpp_tcp.Base.{
  ℕ, ◌≡◌, ◌&&◌, ◌||◌, Option, none, some, List, length, length-append, length-drop, arith,
  Bool-cases, Option-cases, inl, inr,
}
use cpp_tcp.Base.Int.{ℤ, pos, pos_part, ◌+ℤ◌, pos_add, ltb_ℤ, leb_ℤ, ◌==ℤ◌}
use cpp_tcp.Base.Double.{DoubleOps}
use cpp_tcp.Base.Assoc.{find}
use cpp_tcp.Net.Transport
use cpp_tcp.Net.Transport.{Transport}
use cpp_tcp.Node.Socket.{
  TcpSocket, OutstandingSeg, append_to_recv_buf, read, on_sample_rtt, pop_acked_through, set_rwnd,
  is_connected, is_closure_pending, mark_closed, mark_peer_fin_received,
}
use cpp_tcp.Node.Socket.Bounds.{
  Bounded, set_rwnd-Bounded, init_accepted-Bounded, enqueue_accepted-Bounded,
  mark_established-Bounded, additive_increase_cwnd-Bounded,
}
use cpp_tcp.Node.Delivery.Sockets.{take_data_lem, read_lem}
use cpp_tcp.Node.Manager.{
  TcpManager, ConnKey, socket_at, socket, send_ack, send_fin_from_ports, key_eq, port_eq,
}
use cpp_tcp.Node.Manager.Receive.{
  segment_key, take_data, accept_syn, on_syn, ack_pending, sample, advance, acknowledge, ack_data,
  ack_established, ack_known, on_ack, fin_established, fin_pending, on_fin, data_established,
  on_data, receive_transport,
}
use cpp_tcp.Node.Manager.Sound.{
  Sound, at-Bounded, socket-Sound, register_established-Sound, put-Sound, transmit-Sound,
}
use cpp_tcp.Node.Manager.Sound.Connecting.{maybe_send_fin_on_drain-Sound}

take_data_frame :
    {D : Type 0} (t : Transport) (s : TcpSocket D)
    → ((take_data t s).rto_ms ≡ s.rto_ms)
      × ((take_data t s).rwnd ≡ s.rwnd)
      × ((take_data t s).cwnd ≡ s.cwnd)
unfolding take_data append_to_recv_buf
take_data_frame t s = ground arith

read_frame :
    {D : Type 0} (buf : List ℕ) (at len : ℤ) (s : TcpSocket D)
    → ((read (some buf) at len s).0.rto_ms ≡ s.rto_ms)
      × ((read (some buf) at len s).0.rwnd ≡ s.rwnd)
      × ((read (some buf) at len s).0.cwnd ≡ s.cwnd)
unfolding read
read_frame buf at len s = ground arith

module _ {D : Type 0} (s : TcpSocket D) (b : Bounded s) where
  take_data-Bounded : (t : Transport) → Bounded (take_data t s)
  take_data-Bounded t =
      let (rto, rwnd, cwnd) = take_data_frame t s in
      elim (take_data_lem s b.0 t b.1) [
        | inl same ↦ rw same b
        | inr (q, buf, used, nxt, room) ↦ (
          rw (buf, used, b.0, length-append s.recv_buf t.payload)
              (pos_add (length s.recv_buf) (length t.payload)),
          rw (buf, length-append s.recv_buf t.payload) room,
          rw rto b.2,
          rw rto b.3,
          rw rwnd b.4,
          rw cwnd b.5,
        )
      ]

  pub read-Bounded : (buf : Option (List ℕ)) (at len : ℤ) → Bounded (read buf at len s).0
  read-Bounded none at len = unfold read in b
  read-Bounded (some buf) at len =
      let t = read_lem s b.0 buf at len in
      let (rto, rwnd, cwnd) = read_frame buf at len s in
      (
        t.counts,
        rw (t.left, length-drop (pos_part (read (some buf) at len s).2) s.recv_buf)
            (omega (arith, b.1)),
        rw rto b.2,
        rw rto b.3,
        rw rwnd b.4,
        rw cwnd b.5,
      )

module _ {D : Type 0} (double : DoubleOps D) where
  sample-Bounded :
      (now : ℤ) (popped : Option OutstandingSeg) (s : TcpSocket D)
      → Bounded s
      → Bounded (sample double now popped s)
  unfolding sample on_sample_rtt
  sample-Bounded now none s b = b
  sample-Bounded now (some seg) s b = elim (Bool-cases seg.retransmitted) [
    | inl e ↦ rw e b
    | inr e ↦ rw e (elim (Bool-cases s.has_est_rtt) [ inl h ↦ rw h b | inr h ↦ rw h b ])
  ]

  advance-Bounded : (now n : ℤ) (s : TcpSocket D) → Bounded s → Bounded (advance double now n s)
  unfolding advance
  advance-Bounded now n s b =
      sample-Bounded now _ _ (
        additive_increase_cwnd-Bounded (pop_acked_through now n s).0
          (unfold pop_acked_through in b))

  acknowledge-Bounded :
      (now : ℤ) (t : Transport) (s : TcpSocket D) → Bounded s → Bounded (acknowledge double now t s)
  unfolding acknowledge
  acknowledge-Bounded now t s b =
      let w = set_rwnd-Bounded s b t.window in
      elim (Bool-cases (ltb_ℤ s.snd_nxt t.seq_num)) [
        | inl e ↦ rw e b
        | inr e ↦ rw e (elim (Bool-cases (leb_ℤ t.seq_num s.snd_una)) [
          | inl d ↦ rw d w
          | inr d ↦ rw d (advance-Bounded now t.seq_num (set_rwnd t.window s) w)
        ])
      ]

  accept_syn-Sound :
      (listener : ℕ) (a : ℤ) (t : Transport) (m : TcpManager D)
      → Sound m
      → Sound (accept_syn double listener a t m)
  unfolding accept_syn send_ack
  accept_syn-Sound listener a t m v =
      let child = (socket double m).1 in
      let v₁ = socket-Sound double m v in
      let v₂ = put-Sound (socket double m).0 v₁ child _ (
        init_accepted-Bounded (socket_at double (socket double m).0 child)
          (at-Bounded double _ v₁ child) t.dest_port a t.src_port) in
      let v₃ =
        put-Sound _ v₂ listener _
          (enqueue_accepted-Bounded _ (at-Bounded double _ v₂ listener) child) in
      transmit-Sound _ (register_established-Sound double _ v₃ child a t.src_port) a _

  on_syn-Sound : (a : ℤ) (t : Transport) (m : TcpManager D) → Sound m → Sound (on_syn double a t m)
  unfolding on_syn send_fin_from_ports
  on_syn-Sound a t m v = elim (Option-cases (find port_eq t.dest_port m.listeners_by_port)) [
    | inl e ↦ rw (e, on_syn) (transmit-Sound m v a _)
    | inr (i, e) ↦ rw (e, on_syn) (accept_syn-Sound i a t m v)
  ]

  ack_pending-Sound :
      (i : ℕ) (k : ConnKey) (a : ℤ) (t : Transport) (m : TcpManager D)
      → Sound m
      → Sound (ack_pending double i k a t m)
  unfolding ack_pending
  ack_pending-Sound i k a t m v =
      let s = socket_at double m i in
      let w = put-Sound m v i _ (
        mark_established-Bounded (set_rwnd t.window s)
          (set_rwnd-Bounded s (at-Bounded double m v i) t.window)) in
      elim (Bool-cases (t.seq_num ==ℤ s.syn_seq +ℤ pos 1)) [
        | inl e ↦ rw e (
            register_established-Sound double _
              (record { all_bounded = w.all_bounded; all_accepted = w.all_accepted }) i a
              t.src_port)
        | inr e ↦ rw e v
      ]

  ack_data-Sound :
      (i : ℕ) (now : ℤ) (t : Transport) (m : TcpManager D)
      → Sound m
      → Sound (ack_data double i now t m)
  unfolding ack_data
  ack_data-Sound i now t m v =
      let s = socket_at double m i in
      let w = put-Sound m v i _ (acknowledge-Bounded now t s (at-Bounded double m v i)) in
      elim (Bool-cases (ltb_ℤ s.snd_nxt t.seq_num || leb_ℤ t.seq_num s.snd_una)) [
        | inl e ↦ rw e w
        | inr e ↦ rw e (maybe_send_fin_on_drain-Sound double i _ w)
      ]

  ack_established-Sound :
      (i : ℕ) (k : ConnKey) (now : ℤ) (t : Transport) (m : TcpManager D)
      → Sound m
      → Sound (ack_established double i k now t m)
  unfolding ack_established
  ack_established-Sound i k now t m v =
      let s = socket_at double m i in
      let w = put-Sound m v i (mark_closed s) (at-Bounded double m v i) in
      elim (Bool-cases (
        is_closure_pending s.state
        && leb_ℤ (pos 0) s.fin_seq
        && t.seq_num ==ℤ s.fin_seq +ℤ pos 1)) [
          | inl e ↦ rw e (record { all_bounded = w.all_bounded; all_accepted = w.all_accepted })
          | inr e ↦ rw e (elim (Bool-cases (is_connected s.state || is_closure_pending s.state)) [
            | inl d ↦ rw d (ack_data-Sound i now t m v)
            | inr d ↦ rw d v
          ])
        ]

  on_ack-Sound :
      (now a : ℤ) (t : Transport) (m : TcpManager D) → Sound m → Sound (on_ack double now a t m)
  unfolding on_ack ack_known
  on_ack-Sound now a t m v =
      elim (Option-cases (find key_eq (segment_key a t) m.syn_pending_by_key)) [
        | inr (i, e) ↦ rw (e, on_ack) (ack_pending-Sound i (segment_key a t) a t m v)
        | inl e ↦
            rw (e, on_ack)
              (elim (Option-cases (find key_eq (segment_key a t) m.established_by_key)) [
                | inl d ↦ rw (d, ack_known) v
                | inr (i, d) ↦
                    rw (d, ack_known) (ack_established-Sound i (segment_key a t) now t m v)
              ])
      ]

  on_fin-Sound : (a : ℤ) (t : Transport) (m : TcpManager D) → Sound m → Sound (on_fin double a t m)
  unfolding on_fin fin_pending fin_established send_ack mark_peer_fin_received
  on_fin-Sound a t m v = elim (Option-cases (find key_eq (segment_key a t) m.established_by_key)) [
    | inr (i, e) ↦
        rw (e, on_fin) (transmit-Sound _ (put-Sound m v i _ (at-Bounded double m v i)) a _)
    | inl e ↦
        rw (e, on_fin)
          (elim (Option-cases (find key_eq (segment_key a t) m.syn_pending_by_key)) [
            | inl d ↦ rw (d, fin_pending) v
            | inr (i, d) ↦
                rw (d, fin_pending)
                  (put-Sound _
                    (record { all_bounded = v.all_bounded; all_accepted = v.all_accepted }) i _
                    (at-Bounded double m v i))
          ])
  ]

  on_data-Sound :
      (a : ℤ) (t : Transport) (m : TcpManager D) → Sound m → Sound (on_data double a t m)
  unfolding on_data data_established send_ack
  on_data-Sound a t m v = elim (Option-cases (find key_eq (segment_key a t) m.established_by_key)) [
    | inl e ↦ rw (e, on_data) v
    | inr (i, e) ↦
        rw (e, on_data)
          (let s = socket_at double m i in
            elim (Bool-cases (is_connected s.state || is_closure_pending s.state)) [
              | inl d ↦ rw d (
                  transmit-Sound _
                    (put-Sound m v i _ (take_data-Bounded s (at-Bounded double m v i) t)) a _)
              | inr d ↦ rw d v
            ])
  ]

  pub receive_transport-Sound :
      (now a : ℤ) (t : Transport) (m : TcpManager D)
      → Sound m
      → Sound (receive_transport double now a t m)
  unfolding receive_transport
  receive_transport-Sound now a t m v = elim (Bool-cases (t.type ==ℤ Transport.syn)) [
    | inl e ↦ rw e (on_syn-Sound a t m v)
    | inr e ↦ rw e (elim (Bool-cases (t.type ==ℤ Transport.ack)) [
      | inl e ↦ rw e (on_ack-Sound now a t m v)
      | inr e ↦ rw e (elim (Bool-cases (t.type ==ℤ Transport.fin)) [
        | inl e ↦ rw e (on_fin-Sound a t m v)
        | inr e ↦ rw e (elim (Bool-cases (t.type ==ℤ Transport.data_type)) [
          | inl e ↦ rw e (on_data-Sound a t m v)
          | inr e ↦ rw e v
        ])
      ])
    ])
  ]
