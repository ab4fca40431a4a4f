-- ===== src/Node/Manager/Sound/Calling.antt =====
-- Every call, and every history of calls, keeps what `Sound` states.
use cpp_tcp.Base.{ℕ, List, [], ◌∷◌, Bool-cases, inl, inr}
use cpp_tcp.Base.Int.{ℤ, pos, ◌+ℤ◌}
use cpp_tcp.Base.Double.{DoubleOps}
use cpp_tcp.Node.Socket.{TcpSocket, OutstandingSeg, bind, double_rto}
use cpp_tcp.Node.Socket.Bounds.{Bounded, multiplicative_decrease_cwnd-Bounded, double_rto-Bounded}
use cpp_tcp.Node.Manager.{TcpManager, ConnKey, socket_at, send_data, init}
use cpp_tcp.Node.Manager.Timer.{
  resend_all, back_off, is_due, tick_socket, tick_all, retransmission_tick,
}
use cpp_tcp.Node.Manager.Calls.{
  Call, starts, sockets, binds, listens, accepts_next, connects, writes_to, reads_from, closes,
  releases, arrives, ticks, perform, perform_all,
}
use cpp_tcp.Node.Manager.Sound.{
  Sound, at-Bounded, socket-Sound, put-Sound, transmit-Sound, schedule_tick-Sound,
}
use cpp_tcp.Node.Manager.Sound.Connecting.{
  listen_on-Sound, accept-Sound, connect-Sound, release-Sound, close-Sound, write-Sound,
}
use cpp_tcp.Node.Manager.Sound.Receiving.{receive_transport-Sound, read-Bounded}

back_off-Bounded : {D : Type 0} (now : ℤ) (s : TcpSocket D) → Bounded s → Bounded (back_off now s)
unfolding back_off
back_off-Bounded now s b =
    let s' = record s { timeout_count = s.timeout_count +ℤ pos 1 } in
    multiplicative_decrease_cwnd-Bounded (double_rto s') (double_rto-Bounded s' b)

module _ {D : Type 0} (double : DoubleOps D) where
  resend_all-Sound :
      (s : TcpSocket D) (segs : List OutstandingSeg) (m : TcpManager D)
      → Sound m
      → Sound (resend_all s segs m)
  unfolding resend_all send_data
  resend_all-Sound s [] m v = v
  resend_all-Sound s (seg ∷ segs) m v =
      resend_all-Sound s segs _ (transmit-Sound m v s.remote_addr _)

  tick_socket-Sound :
      (now : ℤ) (i : ℕ) (m : TcpManager D) → Sound m → Sound (tick_socket double now i m)
  unfolding tick_socket
  tick_socket-Sound now i m v =
      let s = socket_at double m i in
      elim (Bool-cases (is_due now s)) [
        | inl e ↦ rw e (
            put-Sound _ (resend_all-Sound s s.outstanding m v) i _
              (back_off-Bounded now s (at-Bounded double m v i)))
        | inr e ↦ rw e v
      ]

  tick_all-Sound :
      (now : ℤ) (entries : List (ConnKey × ℕ)) (m : TcpManager D)
      → Sound m
      → Sound (tick_all double now entries m)
  unfolding tick_all
  tick_all-Sound now [] m v = v
  tick_all-Sound now ((k, i) ∷ entries) m v =
      tick_all-Sound now entries (tick_socket double now i m) (tick_socket-Sound now i m v)

  -- One call.
  pub perform-Sound : (c : Call) (m : TcpManager D) → Sound m → Sound (perform double c m)
  unfolding perform retransmission_tick bind
  perform-Sound starts m v = schedule_tick-Sound m v
  perform-Sound sockets m v = socket-Sound double m v
  perform-Sound (binds i port) m v = put-Sound m v i _ (at-Bounded double m v i)
  perform-Sound (listens i backlog) m v = listen_on-Sound double i backlog m v
  perform-Sound (accepts_next i) m v = accept-Sound double i m v
  perform-Sound (connects i a p) m v = connect-Sound double i a p m v
  perform-Sound (writes_to now i buf at len) m v = write-Sound double i now buf at len m v
  perform-Sound (reads_from i buf at len) m v =
      put-Sound m v i _ (read-Bounded (socket_at double m i) (at-Bounded double m v i) buf at len)
  perform-Sound (closes i) m v = close-Sound double i m v
  perform-Sound (releases i) m v = release-Sound double i m v
  perform-Sound (arrives now a t) m v = receive_transport-Sound double now a t m v
  perform-Sound (ticks now) m v =
      schedule_tick-Sound _ (tick_all-Sound now m.established_by_key m v)

  perform_all-Sound :
      (cs : List Call) (m : TcpManager D) → Sound m → Sound (perform_all double cs m)
  unfolding perform_all
  perform_all-Sound [] m v = v
  perform_all-Sound (c ∷ cs) m v = perform_all-Sound cs (perform double c m) (perform-Sound c m v)

  init-Sound : (addr : ℤ) → Sound (init {D = D} addr)
  init-Sound addr = record { all_bounded = tt; all_accepted = tt }

  -- After any sequence of calls and arrivals on a new manager every socket keeps its bounds: its
  -- receive buffer is counted right and within its capacity, its timeout is from 1 to 64 seconds,
  -- the peer's window is not negative and the congestion window has room for one segment. And every
  -- packet handed over has passed the tests of the runtime manager and comes from this node, and
  -- every timer is one of 10 ms.
  pub perform_all-init-Sound :
      (addr : ℤ) (cs : List Call) → Sound (perform_all double cs (init addr))
  perform_all-init-Sound addr cs = perform_all-Sound cs (init addr) (init-Sound addr)
