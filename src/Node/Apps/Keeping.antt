-- ===== src/Node/Apps/Keeping.antt =====
-- The tasks keep the bounds of the sockets and hand over only what the runtime manager accepts.
use cpp_tcp.Base.{
  ℕ, ◌≡◌, refl, true, not, ◌&&◌, Option, none, some, List, [], ◌∷◌, All, All-append, length, take,
  drop, arith, Bool-cases, Option-cases, if-keeps, inl, inr,
}
use cpp_tcp.Base.Int.{ℤ, pos, pos_part, minus_one, ◌-ℤ◌, ◌≤ℤ◌, leb_ℤ, ltb_ℤ, ◌==ℤ◌, rem_ℤ}
use cpp_tcp.Base.Double.{DoubleOps}
use cpp_tcp.Core.Runtime
use cpp_tcp.Node.Socket.{is_closed, is_connected, is_connection_pending, is_closure_pending, read}
use cpp_tcp.Node.Socket.Bounds.{Bounded}
use cpp_tcp.Node.Manager.{TcpManager, Effect, sent, timer, task, socket_at, put, emit}
use cpp_tcp.Node.Manager.Connection.{Written, wrote, failed, stuck}
use cpp_tcp.Node.Manager.Sound.{IsAccepted, Sound, at-Bounded, put-Sound}
use cpp_tcp.Node.Manager.Sound.Connecting.{accept-Sound, close-Sound, release-Sound, write-Sound}
use cpp_tcp.Node.Manager.Sound.Receiving.{read-Bounded}
use cpp_tcp.Node.Apps.{
  TransferClient, TransferServer, TransferWorker, Report, Spawned, nothing, spawned, threw,
  schedule, client_wrote, client_send, client_execute, client_tick, is_corrupt, or_buf, worker_read,
  worker_execute, worker_tick, make_worker, server_accepted, server_execute, server_next,
  server_tick,
}

-- A packet comes from the node of this address and has passed the tests of the runtime manager; a timer
-- is one of this node, and lies ahead.
abbrev pub IsProper : ℤ → Effect → Type 0
IsProper addr (sent from to bytes) = (from ≡ addr) × (Runtime.accepts from to bytes ≡ true)
IsProper addr (timer from delta k) = (from ≡ addr) × (pos 1 ≤ℤ delta)

-- `Sound`, with timers of any kind.
pub record Steady {D : Type 0} (m : TcpManager D) : Type 0 where
  pub all_bounded : All Bounded m.all_sockets
  pub all_proper : All (IsProper m.addr) m.effects

accepted-IsProper :
    (addr : ℤ) (es : List Effect) → All (IsAccepted addr) es → All (IsProper addr) es
accepted-IsProper addr [] h = tt
accepted-IsProper addr (sent from to bytes ∷ es) (h, hs) = (h, accepted-IsProper addr es hs)
accepted-IsProper addr (timer from delta k ∷ es) (h, hs) =
    ((h.0, rw h.1 (omega arith)), accepted-IsProper addr es hs)

module _ {D : Type 0} (m : TcpManager D) where
  pub Sound-Steady : Sound m → Steady m
  Sound-Steady v = record {
    all_bounded = v.all_bounded;
    all_proper = accepted-IsProper m.addr m.effects v.all_accepted;
  }

  pub emit-Steady : (e : Effect) → IsProper m.addr e → Steady m → Steady (emit e m)
  emit-Steady e h v = record {
    all_bounded = v.all_bounded;
    all_proper = All-append (IsProper m.addr) m.effects (e ∷ []) v.all_proper (h, tt);
  }

  pub schedule-Steady : (self : ℕ) (ms : ℤ) → Steady m → Steady (schedule self ms m)
  unfolding schedule
  schedule-Steady self ms v = elim (Bool-cases (leb_ℤ ms (pos 0))) [
    | inl e ↦ rw e v
    | inr e ↦ rw e (emit-Steady (timer m.addr ms (task self)) (refl, ground arith) v)
  ]

module _ {D : Type 0} (double : DoubleOps D) where
  client_wrote-Sound :
      (c : TransferClient) (m : TcpManager D) (r : Written)
      → Sound m
      → Sound (client_wrote double c (m, r)).1
  client_wrote-Sound c m (wrote count) v = v
  client_wrote-Sound c m failed v = release-Sound double c.client_sock m v
  client_wrote-Sound c m stuck v = v

  client_send-Sound :
      (now : ℤ) (c : TransferClient) (m : TcpManager D)
      → Sound m
      → Sound (client_send double now c m).1
  unfolding client_send
  client_send-Sound now c m v = client_wrote-Sound _ _ _ (write-Sound double _ now _ _ _ m v)

  client_execute-Sound :
      (now : ℤ) (c : TransferClient) (m : TcpManager D)
      → Sound m
      → Sound (client_execute double now c m).1
  unfolding client_execute
  client_execute-Sound now c m v =
      let P : TransferClient × TcpManager D → Type 0 = λ r. Sound r.1 in
      let state = (socket_at double m c.client_sock).state in
      if-keeps P (is_connection_pending state) _ _ v (
        if-keeps P (is_connected state) _ _
          (if-keeps P _ _ _ (close-Sound double _ m v) (client_send-Sound now _ m v))
          (if-keeps P (is_closure_pending state) _ _ v
            (if-keeps P (is_closed state) _ _ (release-Sound double c.client_sock m v) v)))

  pub client_tick-Steady :
      (self : ℕ) (now : ℤ) (c : TransferClient) (m : TcpManager D)
      → Sound m
      → Steady (client_tick double self now c m).1
  unfolding client_tick
  client_tick-Steady self now c m v =
      schedule-Steady _ self _ (Sound-Steady _ (client_execute-Sound now c m v))

  worker_read-Sound :
      (index : ℕ) (w : TransferWorker) (buf : List ℕ) (count : ℤ) (m : TcpManager D)
      → Sound m
      → Sound (worker_read double index w buf count m).1
  worker_read-Sound index w buf count m v =
      let P : TransferWorker × TcpManager D × Report → Type 0 = λ r. Sound r.1 in
      let freed = release-Sound double w.worker_sock m v in
      if-keeps P (count ==ℤ minus_one) _ _ freed (
        if-keeps P
          (ltb_ℤ (pos 0) count && is_corrupt index (take (pos_part count) (drop index buf))) _ _
          freed v)

  worker_execute-Sound :
      (w : TransferWorker) (m : TcpManager D) → Sound m → Sound (worker_execute double w m).1
  unfolding worker_execute
  worker_execute-Sound w m v =
      let i = w.worker_sock in
      let s = socket_at double m i in
      let size : ℤ = pos (length w.worker_buf) in
      let index : ℤ = rem_ℤ w.worker_pos size in
      let got = read (some w.worker_buf) index (size -ℤ index) s in
      let r = read-Bounded s (at-Bounded double m v i) (some w.worker_buf) index (size -ℤ index) in
      elim (Bool-cases (is_closed s.state)) [
        | inl e ↦ rw e v
        | inr e ↦ rw e (
            worker_read-Sound (pos_part index) w (or_buf w.worker_buf got.1) got.2 (put m i got.0)
              (put-Sound m v i got.0 r))
      ]

  pub worker_tick-Steady :
      (self : ℕ) (w : TransferWorker) (m : TcpManager D)
      → Sound m
      → Steady (worker_tick double self w m).1
  unfolding worker_tick
  worker_tick-Steady self w m v =
      schedule-Steady _ self _ (Sound-Steady _ (worker_execute-Sound w m v))

  server_accepted-Steady :
      (next : ℕ) (s : TransferServer) (m : TcpManager D) (o : Option ℕ)
      → Sound m
      → Steady (server_accepted double next s (m, o)).1
  unfolding server_accepted
  server_accepted-Steady next s m none v = Sound-Steady m v
  server_accepted-Steady next s m (some conn) v =
      elim (Option-cases (make_worker conn s.worker_interval s.buf_size)) [
        | inl e ↦ rw (e, server_accepted) (Sound-Steady m v)
        | inr (w, e) ↦
            rw (e, server_accepted) (schedule-Steady m next w.worker_interval_ms (Sound-Steady m v))
      ]

  server_execute-Steady :
      (next : ℕ) (s : TransferServer) (m : TcpManager D)
      → Sound m
      → Steady (server_execute double next s m).1
  unfolding server_execute
  server_execute-Steady next s m v =
      let P : TransferServer × TcpManager D × Spawned → Type 0 = λ r. Steady r.1 in
      if-keeps P (not (is_closed (socket_at double m s.server_sock).state)) _ _
        (server_accepted-Steady next s _ _ (accept-Sound double s.server_sock m v))
        (Sound-Steady m v)

  server_next-Steady :
      (self : ℕ) (s : TransferServer) (m : TcpManager D) (new : Spawned)
      → Steady m
      → Steady (server_next double self (s, m, new)).1
  server_next-Steady self s m nothing v = schedule-Steady m self s.server_interval_ms v
  server_next-Steady self s m (spawned w) v = schedule-Steady m self s.server_interval_ms v
  server_next-Steady self s m threw v = v

  pub server_tick-Steady :
      (self next : ℕ) (s : TransferServer) (m : TcpManager D)
      → Sound m
      → Steady (server_tick double self next s m).1
  unfolding server_tick
  server_tick-Steady self next s m v =
      server_next-Steady self _ _ _ (server_execute-Steady next s m v)
