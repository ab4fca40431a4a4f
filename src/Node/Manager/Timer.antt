-- ===== src/Node/Manager/Timer.antt =====
-- src/node/tcp_manager.cpp: the retransmission tick.
use cpp_tcp.Base.{ℕ, Bool, true, not, ◌&&◌, ◌||◌, List, [], ◌∷◌, map, if◌then◌else◌}
use cpp_tcp.Base.Int.{ℤ, pos, ◌+ℤ◌, ltb_ℤ, ◌==ℤ◌}
use cpp_tcp.Base.Double.{DoubleOps}
use cpp_tcp.Node.Socket.{
  TcpSocket, OutstandingSeg, is_empty, double_rto, multiplicative_decrease_cwnd,
}
use cpp_tcp.Node.Manager.{
  TcpManager, ConnKey, retransmission, timer, emit, retrans_tick_ms, socket_at, put, send_data,
}

abbrev pub mark_retransmitted : OutstandingSeg → OutstandingSeg
mark_retransmitted seg = record seg { retransmitted = true }

module _ {D : Type 0} where
  -- start(), and the end of every tick
  unfoldable pub schedule_tick : TcpManager D → TcpManager D
  schedule_tick m = emit (timer m.addr retrans_tick_ms retransmission) m

  -- The segments are sent again in their order. Whether one could be sent is not looked at.
  unfoldable pub resend_all : TcpSocket D → List OutstandingSeg → TcpManager D → TcpManager D
  resend_all s [] m = m
  resend_all s (seg ∷ segs) m =
      resend_all s segs (send_data s s.remote_addr s.remote_port seg.seq_start seg.bytes m).0

  -- The deadline is set and has passed.
  abbrev pub is_due : ℤ → TcpSocket D → Bool
  is_due now s =
      not (is_empty s.outstanding)
      && not (s.next_rto_deadline_ms ==ℤ pos 0 || ltb_ℤ now s.next_rto_deadline_ms)

  -- The socket after a timeout, but for what is sent.
  unfoldable pub back_off : ℤ → TcpSocket D → TcpSocket D
  back_off now s =
      let s' : TcpSocket D =
        multiplicative_decrease_cwnd
          (double_rto (record s { timeout_count = s.timeout_count +ℤ pos 1 })) in
      record s' {
        outstanding = map mark_retransmitted s'.outstanding;
        next_rto_deadline_ms = now +ℤ s'.rto_ms;
      }

module _ {D : Type 0} (double : DoubleOps D) where
  unfoldable pub tick_socket : ℤ → ℕ → TcpManager D → TcpManager D
  tick_socket now i m =
      let s = socket_at double m i in
      if is_due now s then put (resend_all s s.outstanding m) i (back_off now s) else m

  -- The loop over `establishedByKey_`.
  unfoldable pub tick_all : ℤ → List (ConnKey × ℕ) → TcpManager D → TcpManager D
  tick_all now [] m = m
  tick_all now ((k, i) ∷ entries) m = tick_all now entries (tick_socket now i m)

  unfoldable pub retransmission_tick : ℤ → TcpManager D → TcpManager D
  retransmission_tick now m = schedule_tick (tick_all now m.established_by_key m)
