-- ===== src/Node/Stack/Process/Keeping.antt =====
-- What every call of a node keeps, and what it hands on to the runtime manager.
use cpp_tcp.Base.{
  ℕ, ◌≡◌, refl, true, Option, none, some, List, [], ◌∷◌, All, length, get_elem?, arith,
}
use cpp_tcp.Base.Int.{ℤ, pos, ◌≤ℤ◌}
use cpp_tcp.Base.Double.{DoubleOps}
use cpp_tcp.Base.Text.{TextOps}
use cpp_tcp.Core.Runtime
use cpp_tcp.Sim.Simulator.{Call, send, set_timer}
use cpp_tcp.Node.Socket.Bounds.{Bounded}
use cpp_tcp.Node.Manager.{
  TcpManager, NodeTimer, ping_timeout, retransmission, task, Effect, sent, timer, emit,
  retrans_tick_ms,
}
use cpp_tcp.Node.Manager.Calls.{ticks, perform}
use cpp_tcp.Node.Manager.Sound.{Sound}
use cpp_tcp.Node.Manager.Sound.Calling.{perform-Sound}
use cpp_tcp.Node.Manager.Timer.{schedule_tick, retransmission_tick}
use cpp_tcp.Node.Apps.{TransferServer, Spawned, nothing, spawned, threw}
use cpp_tcp.Node.Apps.Keeping.{
  IsProper, Steady, Sound-Steady, emit-Steady, client_tick-Steady, worker_tick-Steady,
  server_tick-Steady,
}
use cpp_tcp.Node.Stack.{StackNode, start, ping_timed_out, ping_timeout_ms, on_receive}
use cpp_tcp.Node.Stack.Arrivals.{on_receive-Sound}
use cpp_tcp.Node.Stack.Commands.{Started, no_task, client, server, on_command}
use cpp_tcp.Node.Stack.Commands.Keeping.{on_command-Steady}
use cpp_tcp.Node.Stack.Process.{
  Task, client_task, server_task, worker_task, Process, calls_of, cleared, fresh_turn, hand_on,
  with_manager, after_command, after_server, start_process, receive_bytes, run_command, tick_task,
  run_timer,
}

-- Every socket of the node keeps its bounds.
abbrev pub Healthy : {D : Type 0} → Process D → Type 0
Healthy p = All Bounded p.node.tcp_man.all_sockets

-- A packet comes from this address and has passed the tests of the runtime manager; a timer lies ahead.
abbrev pub IsProperCall : ℤ → Call NodeTimer → Type 0
IsProperCall addr (send from to bytes) = (from ≡ addr) × (Runtime.accepts from to bytes ≡ true)
IsProperCall addr (set_timer delta k) = pos 1 ≤ℤ delta

-- The node after a call and what it asks for.
abbrev pub WellBehaved : {D : Type 0} → Process D × List (Call NodeTimer) → Type 0
WellBehaved (p, calls) = Healthy p × All (IsProperCall p.node.tcp_man.addr) calls

calls_of-IsProperCall :
    (addr : ℤ) (es : List Effect) → All (IsProper addr) es → All (IsProperCall addr) (calls_of es)
calls_of-IsProperCall addr [] h = tt
calls_of-IsProperCall addr (sent from to bytes ∷ es) (h, hs) = (h, calls_of-IsProperCall addr es hs)
calls_of-IsProperCall addr (timer from delta k ∷ es) (h, hs) =
    (h.1, calls_of-IsProperCall addr es hs)

module _ {D : Type 0} where
  hand_on-WellBehaved : (p : Process D) → Steady p.node.tcp_man → WellBehaved (hand_on p)
  hand_on-WellBehaved p v =
      (v.all_bounded, calls_of-IsProperCall p.node.tcp_man.addr p.node.tcp_man.effects v.all_proper)

  cleared-Sound : (p : Process D) → Healthy p → Sound (cleared p.node.tcp_man)
  cleared-Sound p h = record { all_bounded = h; all_accepted = tt }

  start-Steady : (n : StackNode D) → Steady n.tcp_man → Steady (start n).tcp_man
  unfolding start schedule_tick
  start-Steady n v =
      emit-Steady (emit (timer n.tcp_man.addr ping_timeout_ms ping_timeout) n.tcp_man)
        (timer n.tcp_man.addr retrans_tick_ms retransmission) (refl, omega arith)
        (emit-Steady n.tcp_man (timer n.tcp_man.addr ping_timeout_ms ping_timeout)
          (refl, omega arith) v)

  ping_timed_out-Steady :
      (now : ℤ) (n : StackNode D) → Steady n.tcp_man → Steady (ping_timed_out now n).tcp_man
  unfolding ping_timed_out
  ping_timed_out-Steady now n =
      emit-Steady n.tcp_man (timer n.tcp_man.addr ping_timeout_ms ping_timeout) (refl, omega arith)

module _ {D : Type 0} (double : DoubleOps D) (text : TextOps D) where
  after_command-Steady :
      (r : StackNode D × Started) (p : Process D)
      → Steady r.0.tcp_man
      → Steady (after_command r p).node.tcp_man
  after_command-Steady (n, no_task) p v = v
  after_command-Steady (n, client c) p v = v
  after_command-Steady (n, server s) p v = v

  after_server-Steady :
      (i : ℕ) (p : Process D) (s : TransferServer) (m : TcpManager D) (new : Spawned)
      → Steady m
      → Steady (after_server i p (s, m, new)).node.tcp_man
  after_server-Steady i p s m nothing v = v
  after_server-Steady i p s m (spawned w) v = v
  after_server-Steady i p s m threw v = v

  tick_task-Steady :
      (now : ℤ) (i : ℕ) (t : Option Task) (p : Process D)
      → Healthy p
      → Steady (tick_task double text now i t p).node.tcp_man
  unfolding tick_task
  tick_task-Steady now i none p h = Sound-Steady _ (cleared-Sound p h)
  tick_task-Steady now i (some (client_task c)) p h =
      client_tick-Steady double i now c _ (cleared-Sound p h)
  tick_task-Steady now i (some (server_task s)) p h =
      after_server-Steady i p _ _ _
        (server_tick-Steady double i (length p.tasks) s _ (cleared-Sound p h))
  tick_task-Steady now i (some (worker_task w)) p h =
      worker_tick-Steady double i w _ (cleared-Sound p h)

  run_timer-WellBehaved :
      (now : ℤ) (k : NodeTimer) (p : Process D)
      → Healthy p
      → WellBehaved (run_timer double text now k p)
  unfolding run_timer perform
  run_timer-WellBehaved now ping_timeout p h =
      hand_on-WellBehaved (record p { node = ping_timed_out now (fresh_turn p.node) })
        (ping_timed_out-Steady now _ (Sound-Steady _ (cleared-Sound p h)))
  run_timer-WellBehaved now retransmission p h =
      hand_on-WellBehaved (with_manager (retransmission_tick double now (cleared p.node.tcp_man)) p)
        (Sound-Steady _ (perform-Sound double (ticks now) _ (cleared-Sound p h)))
  run_timer-WellBehaved now (task i) p h =
      hand_on-WellBehaved (tick_task double text now i (get_elem? p.tasks i) p)
        (tick_task-Steady now i (get_elem? p.tasks i) p h)

  -- A node whose sockets keep their bounds keeps them when it starts, receives any bytes, gets any
  -- command or has any timer expire, also a timer of its tasks. Every packet that it hands on has
  -- passed the tests of the runtime manager and comes from its own address, and every timer that it
  -- sets is at least 1 ms ahead.
  pub process-WellBehaved :
      (p : Process D) (now : ℤ)
      → Healthy p
      → WellBehaved (start_process double text now p)
        × ((bytes : List ℕ) → WellBehaved (receive_bytes double text now bytes p))
        × ((command : List ℕ) → WellBehaved (run_command double text now command p))
        × ((k : NodeTimer) → WellBehaved (run_timer double text now k p))
  unfolding start_process receive_bytes run_command
  process-WellBehaved p now h =
      let v = cleared-Sound p h in
      let n = fresh_turn p.node in
      (
        hand_on-WellBehaved (record p { node = start n }) (start-Steady n (Sound-Steady _ v)),
        λ bytes.
            hand_on-WellBehaved (record p { node = on_receive double now bytes n })
              (Sound-Steady _ (on_receive-Sound double now bytes n v)),
        λ command.
            let r = on_command double text (length p.tasks) now command n in
            hand_on-WellBehaved (after_command r p) (
              after_command-Steady r p
                (on_command-Steady double text (length p.tasks) now command n v)),
        λ k. run_timer-WellBehaved now k p h,
      )
