-- ===== src/Node/Socket/Bounds.antt =====
-- The bounds that every method of a socket keeps.
use cpp_tcp.Base.{ℕ, ◌≤◌, ◌≡◌, refl, ◌&&◌, length, arith, Bool-cases, inl, inr}
use cpp_tcp.Base.Int.{ℤ, pos, ◌*ℤ◌, ◌≤ℤ◌, ltb_ℤ, ◌==ℤ◌, max_ℤ, quot_ℤ, int_laws}
use cpp_tcp.Base.Double.{DoubleOps}
use cpp_tcp.Node.Socket.{
  TcpSocket, fresh, set_rwnd, init_accepted, enqueue_accepted, mark_established, close_if_drained,
  additive_increase_cwnd, multiplicative_decrease_cwnd, double_rto, max_payload, cwnd_min_bytes,
}

-- The receive buffer is counted right and never above its capacity of 32768 bytes; the
-- retransmission timeout stays between one second and 64 seconds, the peer's window is not negative,
-- and the congestion window has room for one segment.
abbrev pub Bounded : {D : Type 0} → TcpSocket D → Type 0
Bounded s =
    (s.recv_buf_used ≡ pos (length s.recv_buf))
    × (length s.recv_buf ≤ 32768)
    × (pos 1000 ≤ℤ s.rto_ms)
    × (s.rto_ms ≤ℤ pos 64000)
    × (pos 0 ≤ℤ s.rwnd)
    × (pos 107 ≤ℤ s.cwnd)

pub fresh-Bounded : {D : Type 0} (double : DoubleOps D) → Bounded (fresh double)
unfolding fresh
fresh-Bounded double = (refl, omega arith, omega arith, omega arith, omega arith, omega arith)

max_one : (x : ℤ) → pos 0 ≤ℤ max_ℤ (pos 1) x
max_one x = ground arith

module _ {D : Type 0} (s : TcpSocket D) (b : Bounded s) where
  pub set_rwnd-Bounded : (v : ℤ) → Bounded (set_rwnd v s)
  set_rwnd-Bounded v = (b.0, b.1, b.2, b.3, ground arith, b.5)

  pub init_accepted-Bounded : (p a r : ℤ) → Bounded (init_accepted p a r s)
  unfolding init_accepted
  init_accepted-Bounded p a r = (b.0, b.1, b.2, b.3, b.4, omega arith)

  pub enqueue_accepted-Bounded : (c : ℕ) → Bounded (enqueue_accepted c s)
  unfolding enqueue_accepted
  enqueue_accepted-Bounded c =
      elim (Bool-cases (ltb_ℤ (pos (length s.pending_conn_queue)) s.backlog)) [
        | inl e ↦ rw e b
        | inr e ↦ rw e b
      ]

  pub mark_established-Bounded : Bounded (mark_established s)
  unfolding mark_established
  mark_established-Bounded = ground arith

  pub additive_increase_cwnd-Bounded : Bounded (additive_increase_cwnd s)
  unfolding additive_increase_cwnd
  additive_increase_cwnd-Bounded = (
    b.0,
    b.1,
    b.2,
    b.3,
    b.4,
    omega (int_laws, max_one (quot_ℤ (max_payload *ℤ max_payload) (max_ℤ s.cwnd cwnd_min_bytes))),
  )

  pub multiplicative_decrease_cwnd-Bounded : Bounded (multiplicative_decrease_cwnd s)
  unfolding multiplicative_decrease_cwnd
  multiplicative_decrease_cwnd-Bounded = (b.0, b.1, b.2, b.3, b.4, ground arith)

  pub double_rto-Bounded : Bounded (double_rto s)
  unfolding double_rto ◌*ℤ◌
  double_rto-Bounded = (b.0, b.1, ground arith, ground arith, b.4, b.5)

  pub close_if_drained-Bounded : Bounded (close_if_drained s)
  close_if_drained-Bounded = elim (Bool-cases (s.peer_fin_received && s.recv_buf_used ==ℤ pos 0)) [
    | inl e ↦ rw e b
    | inr e ↦ rw e b
  ]
