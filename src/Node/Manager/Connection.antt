-- ===== src/Node/Manager/Connection.antt =====
-- src/node/tcp_socket.cpp: the socket's methods that call the manager. Each takes the manager's state
-- and the index of the socket. The clock does not move within one call: `now` is its value.
use cpp_tcp.Base.{
  ℕ, zero, suc, Bool, true, false, not, ◌&&◌, ◌||◌, Option, none, some, List, [], ◌∷◌, ◌++◌, take,
  drop, if◌then◌else◌,
}
use cpp_tcp.Base.Int.{ℤ, pos, pos_part, minus_one, ◌+ℤ◌, ◌-ℤ◌, ltb_ℤ, leb_ℤ, ◌==ℤ◌, min_ℤ}
use cpp_tcp.Base.Double.{DoubleOps}
use cpp_tcp.Net.Transport
use cpp_tcp.Node.Socket.{
  TcpSocket, State, closed, listen, syn_sent, established, shutdown, is_closed, is_listening,
  is_connected, is_closure_pending, is_empty, effective_window, max_payload,
}
use cpp_tcp.Node.Manager.{
  TcpManager, socket_at, put, send_syn, send_fin, send_data, register_listener,
  register_syn_pending, unregister_socket,
}

-- What `write` returns: the bytes written, -1, or nothing, if the loop ran out of fuel.
pub data Written : Type 0 where
  wrote : ℤ → Written
  failed : Written
  stuck : Written

module _ {D : Type 0} where
  -- How many bytes the next segment takes: not more than are left, than the window has room for, and
  -- than a segment holds.
  abbrev pub chunk_size : ℤ → TcpSocket D → ℤ
  chunk_size len s = min_ℤ len (min_ℤ (effective_window s -ℤ (s.snd_nxt -ℤ s.snd_una)) max_payload)

  -- A segment that has been sent is outstanding, and the next one starts behind it.
  abbrev pub push_sent : ℤ → ℤ → List ℕ → TcpSocket D → TcpSocket D
  push_sent now chunk payload s = record s {
    outstanding =
        s.outstanding
        ++ (record {
          seq_start = s.snd_nxt;
          len = chunk;
          bytes = payload;
          first_sent_at_ms = now;
          retransmitted = false;
        }
            ∷ []);
    snd_nxt = s.snd_nxt +ℤ chunk;
  }

module _ {D : Type 0} (double : DoubleOps D) where
  unfoldable pub listen_on : ℕ → ℤ → TcpManager D → TcpManager D × ℤ
  listen_on i backlog m =
      let s = socket_at double m i in
      if not (is_closed s.state) then (m, minus_one) else (
        register_listener i s.local_port (put m i (record s { state = listen; backlog = backlog })),
        pos 0,
      )

  -- The child that is taken from the queue becomes established, unless it is closed.
  abbrev pub take_child : ℕ → TcpManager D → TcpManager D
  take_child child m =
      let c = socket_at double m child in
      if is_closed c.state then m else put m child (record c { state = established })

  unfoldable pub accept_next : ℕ → List ℕ → TcpManager D → TcpManager D × Option ℕ
  accept_next i [] m = (m, none)
  accept_next i (child ∷ rest) m = (
    take_child child (put m i (record (socket_at double m i) { pending_conn_queue = rest })),
    some child,
  )

  unfoldable pub accept : ℕ → TcpManager D → TcpManager D × Option ℕ
  accept i m =
      let s = socket_at double m i in
      if not (is_listening s.state) then (m, none) else accept_next i s.pending_conn_queue m

  -- The rest of `connect` once the SYN has been handed over, or has not.
  unfoldable pub connect_sent : ℕ → ℤ → ℤ → TcpManager D × Bool → TcpManager D × ℤ
  connect_sent i dest_addr dest_port (m, false) = (m, minus_one)
  connect_sent i dest_addr dest_port (m, true) =
      let m' = register_syn_pending double i dest_addr dest_port m in
      (put m' i (record (socket_at double m' i) { state = syn_sent }), pos 0)

  unfoldable pub connect : ℕ → ℤ → ℤ → TcpManager D → TcpManager D × ℤ
  connect i dest_addr dest_port m =
      let s = socket_at double m i in
      let s' : TcpSocket D = record s {
        remote_addr = dest_addr;
        remote_port = dest_port;
        syn_seq = s.snd_nxt;
      } in
      if ltb_ℤ s.local_port (pos 0)
        || ltb_ℤ dest_port (pos 0)
        || ltb_ℤ Transport.max_port_num dest_port
      then (m, minus_one)
      else connect_sent i dest_addr dest_port (send_syn s' dest_addr dest_port (put m i s'))

  unfoldable pub release : ℕ → TcpManager D → TcpManager D
  release i m =
      let s = socket_at double m i in
      if is_closed s.state
      then m
      else put (unregister_socket i m) i (record s {
        pending_conn_queue = [];
        backlog = pos 0;
        remote_addr = minus_one;
        remote_port = minus_one;
        local_port = minus_one;
        state = closed;
      })

  -- The rest of `maybeSendFinOnDrain` once the FIN has been handed over, or has not.
  unfoldable pub fin_sent : ℕ → TcpManager D × Bool → TcpManager D
  fin_sent i (m, true) = m
  fin_sent i (m, false) = release i m

  -- The FIN goes out once, when the socket is shutting down and nothing is outstanding.
  unfoldable pub maybe_send_fin_on_drain : ℕ → TcpManager D → TcpManager D
  maybe_send_fin_on_drain i m =
      let s = socket_at double m i in
      let s' : TcpSocket D = record s { fin_seq = s.snd_nxt } in
      if not (is_closure_pending s.state) || leb_ℤ (pos 0) s.fin_seq || not (is_empty s.outstanding)
      then m
      else fin_sent i (send_fin s' s.remote_addr s.remote_port (put m i s'))

  -- `close` by the state that it finds. A listener stays in the table of listeners.
  unfoldable pub close_from : ℕ → State → TcpManager D → TcpManager D
  close_from i closed m = m
  close_from i listen m = put m i (record (socket_at double m i) { state = closed })
  close_from i syn_sent m = put m i (record (socket_at double m i) { state = closed })
  close_from i established m =
      maybe_send_fin_on_drain i (put m i (record (socket_at double m i) { state = shutdown }))
  close_from i shutdown m = m

  unfoldable pub close : ℕ → TcpManager D → TcpManager D
  close i m = close_from i (socket_at double m i).state m

  -- One round of the loop, if the window is open.
  unfoldable pub write_segment : ℕ → ℤ → ℤ → List ℕ → TcpManager D → TcpManager D × Bool
  write_segment i now chunk payload m =
      let s = socket_at double m i in
      let (m', done) = send_data s s.remote_addr s.remote_port s.snd_nxt payload m in
      (if done then put m' i (push_sent now chunk payload s) else m', done)

  -- `buf` holds what is still to be written.
  unfoldable pub write_loop : ℕ → ℕ → ℤ → List ℕ → ℤ → ℤ → TcpManager D → TcpManager D × Written
  write_loop zero i now buf len total m = (m, stuck)
  write_loop (suc fuel) i now buf len total m =
      let s = socket_at double m i in
      let chunk : ℤ = chunk_size len s in
      let n : ℕ = pos_part chunk in
      let segment = write_segment i now chunk (take n buf) m in
      let rest = write_loop fuel i now (drop n buf) (len -ℤ chunk) (total +ℤ chunk) segment.0 in
      if leb_ℤ len (pos 0)
        || leb_ℤ (effective_window s) (s.snd_nxt -ℤ s.snd_una)
        || leb_ℤ chunk (pos 0)
      then (m, wrote total)
      else if segment.1
      then rest
      else (segment.0, failed)

  -- The deadline starts with the first segment after an idle time.
  unfoldable pub start_deadline : ℕ → ℤ → Bool → TcpManager D × Written → TcpManager D × Written
  start_deadline i now was_idle (m, wrote total) =
      let s = socket_at double m i in
      if was_idle && ltb_ℤ (pos 0) total
      then (put m i (record s { next_rto_deadline_ms = now +ℤ s.rto_ms }), wrote total)
      else (m, wrote total)
  start_deadline i now was_idle (m, failed) = (m, failed)
  start_deadline i now was_idle (m, stuck) = (m, stuck)

  -- A segment takes a byte at least, so one round more than there are bytes is enough.
  unfoldable pub write_buf : ℕ → ℤ → List ℕ → ℤ → ℤ → TcpManager D → TcpManager D × Written
  write_buf i now buf at len m =
      let s = socket_at double m i in
      if not (is_connected s.state) || ltb_ℤ at (pos 0) || ltb_ℤ len (pos 0)
      then (m, failed)
      else if len ==ℤ pos 0
      then (m, wrote (pos 0))
      else start_deadline i now (is_empty s.outstanding)
          (write_loop (suc (pos_part len)) i now (drop (pos_part at) buf) len (pos 0) m)

  -- A null pointer is refused.
  unfoldable pub write : ℕ → ℤ → Option (List ℕ) → ℤ → ℤ → TcpManager D → TcpManager D × Written
  write i now none at len m = (m, failed)
  write i now (some buf) at len m = write_buf i now buf at len m
