-- ===== src/Node/Manager/Sound/Connecting.antt =====
-- The methods of a socket that call the manager keep what `Sound` states.
use cpp_tcp.Base.{
  ℕ, zero, suc, Bool, true, false, not, ◌&&◌, ◌||◌, Option, none, some, List, [], ◌∷◌, take, drop,
  Bool-cases, inl, inr,
}
use cpp_tcp.Base.Int.{ℤ, pos, pos_part, ◌+ℤ◌, ◌-ℤ◌, ltb_ℤ, leb_ℤ, ◌==ℤ◌}
use cpp_tcp.Base.Double.{DoubleOps}
use cpp_tcp.Net.Transport
use cpp_tcp.Net.Transport.{Transport}
use cpp_tcp.Node.Socket.{
  State, closed, listen, syn_sent, established, shutdown, effective_window, is_closed, is_listening,
  is_connected, is_closure_pending, is_empty,
}
use cpp_tcp.Node.Manager.{TcpManager, socket_at, transmit, send_syn, send_fin, send_data}
use cpp_tcp.Node.Manager.Connection.{
  Written, wrote, failed, stuck, listen_on, take_child, accept_next, accept, connect_sent, connect,
  release, fin_sent, maybe_send_fin_on_drain, close_from, close, write_segment, write_loop,
  start_deadline, write_buf, write, chunk_size,
}
use cpp_tcp.Node.Manager.Sound.{
  Sound, at-Bounded, register_syn_pending-Sound, put-Sound, transmit-Sound, register_listener-Sound,
  unregister_socket-Sound,
}

module _ {D : Type 0} (double : DoubleOps D) where
  pub listen_on-Sound :
      (i : ℕ) (backlog : ℤ) (m : TcpManager D) → Sound m → Sound (listen_on double i backlog m).0
  unfolding listen_on
  listen_on-Sound i backlog m v = elim (Bool-cases (is_closed (socket_at double m i).state)) [
    | inl e ↦ rw e (register_listener-Sound _ (put-Sound m v i _ (at-Bounded double m v i)) i _)
    | inr e ↦ rw e v
  ]

  take_child-Sound : (c : ℕ) (m : TcpManager D) → Sound m → Sound (take_child double c m)
  take_child-Sound c m v = elim (Bool-cases (is_closed (socket_at double m c).state)) [
    | inl e ↦ rw e v
    | inr e ↦ rw e (put-Sound m v c _ (at-Bounded double m v c))
  ]

  accept_next-Sound :
      (i : ℕ) (q : List ℕ) (m : TcpManager D) → Sound m → Sound (accept_next double i q m).0
  unfolding accept_next
  accept_next-Sound i [] m v = v
  accept_next-Sound i (c ∷ rest) m v =
      take_child-Sound c _ (put-Sound m v i _ (at-Bounded double m v i))

  pub accept-Sound : (i : ℕ) (m : TcpManager D) → Sound m → Sound (accept double i m).0
  unfolding accept
  accept-Sound i m v = elim (Bool-cases (is_listening (socket_at double m i).state)) [
    | inl e ↦ rw e (accept_next-Sound i _ m v)
    | inr e ↦ rw e v
  ]

  connect_sent-Sound :
      (i : ℕ) (a p : ℤ) (m : TcpManager D) (done : Bool)
      → Sound m
      → Sound (connect_sent double i a p (m, done)).0
  unfolding connect_sent
  connect_sent-Sound i a p m false v = v
  connect_sent-Sound i a p m true v =
      let w = register_syn_pending-Sound double m v i a p in
      put-Sound _ w i _ (at-Bounded double _ w i)

  pub connect-Sound :
      (i : ℕ) (a p : ℤ) (m : TcpManager D) → Sound m → Sound (connect double i a p m).0
  unfolding connect send_syn
  connect-Sound i a p m v =
      elim (Bool-cases (
        ltb_ℤ (socket_at double m i).local_port (pos 0)
        || ltb_ℤ p (pos 0)
        || ltb_ℤ Transport.max_port_num p)) [
          | inl e ↦ rw e v
          | inr e ↦ rw e (
              connect_sent-Sound i a p _ _
                (transmit-Sound _ (put-Sound m v i _ (at-Bounded double m v i)) a _))
        ]

  pub release-Sound : (i : ℕ) (m : TcpManager D) → Sound m → Sound (release double i m)
  unfolding release
  release-Sound i m v = elim (Bool-cases (is_closed (socket_at double m i).state)) [
    | inl e ↦ rw e v
    | inr e ↦ rw e (put-Sound _ (unregister_socket-Sound m v i) i _ (at-Bounded double m v i))
  ]

  fin_sent-Sound :
      (i : ℕ) (m : TcpManager D) (done : Bool) → Sound m → Sound (fin_sent double i (m, done))
  unfolding fin_sent
  fin_sent-Sound i m true v = v
  fin_sent-Sound i m false v = release-Sound i m v

  pub maybe_send_fin_on_drain-Sound :
      (i : ℕ) (m : TcpManager D) → Sound m → Sound (maybe_send_fin_on_drain double i m)
  unfolding maybe_send_fin_on_drain send_fin
  maybe_send_fin_on_drain-Sound i m v =
      let s = socket_at double m i in
      elim (Bool-cases (
        not (is_closure_pending s.state)
        || leb_ℤ (pos 0) s.fin_seq
        || not (is_empty s.outstanding))) [
          | inl e ↦ rw e v
          | inr e ↦ rw e (
              fin_sent-Sound i _ _
                (transmit-Sound _ (put-Sound m v i _ (at-Bounded double m v i)) _ _))
        ]

  close_from-Sound :
      (i : ℕ) (st : State) (m : TcpManager D) → Sound m → Sound (close_from double i st m)
  unfolding close_from
  close_from-Sound i closed m v = v
  close_from-Sound i listen m v = put-Sound m v i _ (at-Bounded double m v i)
  close_from-Sound i syn_sent m v = put-Sound m v i _ (at-Bounded double m v i)
  close_from-Sound i established m v =
      maybe_send_fin_on_drain-Sound i _ (put-Sound m v i _ (at-Bounded double m v i))
  close_from-Sound i shutdown m v = v

  pub close-Sound : (i : ℕ) (m : TcpManager D) → Sound m → Sound (close double i m)
  unfolding close
  close-Sound i m v = close_from-Sound i (socket_at double m i).state m v

  write_segment-Sound :
      (i : ℕ) (now chunk : ℤ) (payload : List ℕ) (m : TcpManager D)
      → Sound m
      → Sound (write_segment double i now chunk payload m).0
  unfolding write_segment send_data
  write_segment-Sound i now chunk payload m v =
      let s = socket_at double m i in
      let t =
        Transport.make s.local_port s.remote_port Transport.data_type (pos 0) s.snd_nxt payload in
      let w = transmit-Sound m v s.remote_addr t in
      elim (Bool-cases (transmit s.remote_addr t m).1) [
        | inl e ↦ rw e (put-Sound _ w i _ (at-Bounded double m v i))
        | inr e ↦ rw e w
      ]

  write_loop-Sound :
      (fuel i : ℕ) (now : ℤ) (buf : List ℕ) (len total : ℤ) (m : TcpManager D)
      → Sound m
      → Sound (write_loop double fuel i now buf len total m).0
  unfolding write_loop
  write_loop-Sound zero i now buf len total m v = v
  write_loop-Sound (suc fuel) i now buf len total m v =
      let s = socket_at double m i in
      let chunk : ℤ = chunk_size len s in
      let n : ℕ = pos_part chunk in
      let w = write_segment-Sound i now chunk (take n buf) m v in
      elim (Bool-cases (
        leb_ℤ len (pos 0)
        || leb_ℤ (effective_window s) (s.snd_nxt -ℤ s.snd_una)
        || leb_ℤ chunk (pos 0))) [
          | inl e ↦ rw e v
          | inr e ↦ rw e (elim (Bool-cases (write_segment double i now chunk (take n buf) m).1) [
            | inl d ↦
                rw d (write_loop-Sound fuel i now (drop n buf) (len -ℤ chunk) (total +ℤ chunk) _ w)
            | inr d ↦ rw d w
          ])
        ]

  start_deadline-Sound :
      (i : ℕ) (now : ℤ) (idle : Bool) (m : TcpManager D) (r : Written)
      → Sound m
      → Sound (start_deadline double i now idle (m, r)).0
  unfolding start_deadline
  start_deadline-Sound i now idle m (wrote total) v =
      elim (Bool-cases (idle && ltb_ℤ (pos 0) total)) [
        | inl e ↦ rw e (put-Sound m v i _ (at-Bounded double m v i))
        | inr e ↦ rw e v
      ]
  start_deadline-Sound i now idle m failed v = v
  start_deadline-Sound i now idle m stuck v = v

  pub write-Sound :
      (i : ℕ) (now : ℤ) (buf : Option (List ℕ)) (at len : ℤ) (m : TcpManager D)
      → Sound m
      → Sound (write double i now buf at len m).0
  unfolding write write_buf
  write-Sound i now none at len m v = v
  write-Sound i now (some buf) at len m v =
      elim (Bool-cases (
        not (is_connected (socket_at double m i).state) || ltb_ℤ at (pos 0) || ltb_ℤ len (pos 0))) [
          | inl e ↦ rw e v
          | inr e ↦ rw e (elim (Bool-cases (len ==ℤ pos 0)) [
            | inl z ↦ rw z v
            | inr z ↦ rw z (
                start_deadline-Sound i now _ _ _ (
                  write_loop-Sound (suc (pos_part len)) i now (drop (pos_part at) buf) len (pos 0) m
                    v))
          ])
        ]
