-- ===== src/Node/Stack/Process.antt =====
-- src/node/stack_node.cpp, src/node/tcp_manager.cpp and src/apps together: a node with the tasks that its
-- commands have started, as the runtime manager calls it. Each call starts with an empty record of
-- effects; those that it has left are the calls of the runtime manager.
pub mod Keeping
use cpp_tcp.Base.{ℕ, Option, none, some, List, [], ◌∷◌, ◌++◌, length, get_elem?, set}
use cpp_tcp.Base.Int.{ℤ}
use cpp_tcp.Base.Double.{DoubleOps}
use cpp_tcp.Base.Text.{TextOps}
use cpp_tcp.Node.Manager.{
  TcpManager, NodeTimer, ping_timeout, retransmission, task, Effect, sent, timer,
}
use cpp_tcp.Node.Manager.Timer.{retransmission_tick}
use cpp_tcp.Node.Apps.{
  TransferClient, TransferServer, TransferWorker, Report, Spawned, nothing, spawned, threw,
  client_tick, server_tick, worker_tick,
}
use cpp_tcp.Node.Stack.{StackNode, init, start, on_receive, ping_timed_out}
use cpp_tcp.Node.Stack.Commands.{Started, no_task, client, server, on_command}
use cpp_tcp.Sim.Simulator.{NodeOps, Call, send, set_timer}

-- A task that the callback of its timer keeps alive.
pub data Task : Type 0 where
  client_task : TransferClient → Task
  server_task : TransferServer → Task
  worker_task : TransferWorker → Task

-- The tasks in the order in which they have been made. A stopped one stays, without a timer.
pub record Process (D : Type 0) : Type 0 where
  pub node : StackNode D
  pub tasks : List Task

-- The calls of the runtime manager. Both sorts name the node, which the simulator knows by its index.
abbrev pub calls_of : List Effect → List (Call NodeTimer)
calls_of [] = []
calls_of (sent from to pkt ∷ es) = send from to pkt ∷ calls_of es
calls_of (timer from delta k ∷ es) = set_timer delta k ∷ calls_of es

module _ {D : Type 0} where
  abbrev pub cleared : TcpManager D → TcpManager D
  cleared m = record m { effects = [] }

  abbrev pub fresh_turn : StackNode D → StackNode D
  fresh_turn n = record n { tcp_man = cleared n.tcp_man }

  abbrev pub hand_on : Process D → Process D × List (Call NodeTimer)
  hand_on p = (p, calls_of p.node.tcp_man.effects)

  abbrev pub with_manager : TcpManager D → Process D → Process D
  with_manager m p = record p { node = record p.node { tcp_man = m } }

  -- What a command has started becomes the last task.
  abbrev pub after_command : StackNode D × Started → Process D → Process D
  after_command (n, no_task) p = record p { node = n }
  after_command (n, client c) p = record { node = n; tasks = p.tasks ++ (client_task c ∷ []) }
  after_command (n, server s) p = record { node = n; tasks = p.tasks ++ (server_task s ∷ []) }

  -- The task of an index after its tick.
  abbrev pub after_client : ℕ → Process D → TransferClient × TcpManager D → Process D
  after_client i p (c, m) = with_manager m (record p { tasks = set p.tasks i (client_task c) })

  abbrev pub after_worker : ℕ → Process D → TransferWorker × TcpManager D × Report → Process D
  after_worker i p (w, m, r) = with_manager m (record p { tasks = set p.tasks i (worker_task w) })

  -- A worker that has been started becomes the last task. An exception of its constructor leaves
  -- the callback, and the loop of the simulator or the emulator catches it: the server has no timer
  -- any more.
  abbrev pub after_server : ℕ → Process D → TransferServer × TcpManager D × Spawned → Process D
  after_server i p (s, m, nothing) =
      with_manager m (record p { tasks = set p.tasks i (server_task s) })
  after_server i p (s, m, spawned w) =
      with_manager m (record p { tasks = set p.tasks i (server_task s) ++ (worker_task w ∷ []) })
  after_server i p (s, m, threw) =
      with_manager m (record p { tasks = set p.tasks i (server_task s) })

module _ {D : Type 0} (double : DoubleOps D) (text : TextOps D) where
  unfoldable pub start_process : ℤ → Process D → Process D × List (Call NodeTimer)
  start_process now p = hand_on (record p { node = start (fresh_turn p.node) })

  unfoldable pub receive_bytes : ℤ → List ℕ → Process D → Process D × List (Call NodeTimer)
  receive_bytes now bytes p =
      hand_on (record p { node = on_receive double now bytes (fresh_turn p.node) })

  unfoldable pub run_command : ℤ → List ℕ → Process D → Process D × List (Call NodeTimer)
  run_command now command p =
      hand_on
        (after_command (on_command double text (length p.tasks) now command (fresh_turn p.node)) p)

  -- TimerTask::tick for the task of an index.
  unfoldable pub tick_task : ℤ → ℕ → Option Task → Process D → Process D
  tick_task now i none p = record p { node = fresh_turn p.node }
  tick_task now i (some (client_task c)) p =
      after_client i p (client_tick double i now c (cleared p.node.tcp_man))
  tick_task now i (some (server_task s)) p =
      after_server i p (server_tick double i (length p.tasks) s (cleared p.node.tcp_man))
  tick_task now i (some (worker_task w)) p =
      after_worker i p (worker_tick double i w (cleared p.node.tcp_man))

  -- The callback of a timer.
  unfoldable pub run_timer : ℤ → NodeTimer → Process D → Process D × List (Call NodeTimer)
  run_timer now ping_timeout p =
      hand_on (record p { node = ping_timed_out now (fresh_turn p.node) })
  run_timer now retransmission p =
      hand_on (with_manager (retransmission_tick double now (cleared p.node.tcp_man)) p)
  run_timer now (task i) p = hand_on (tick_task now i (get_elem? p.tasks i) p)

  abbrev pub stack_ops : NodeOps (Process D) NodeTimer
  stack_ops = record {
    create = λ addr. record { node = init addr; tasks = [] };
    start_node = start_process;
    on_receive = receive_bytes;
    on_command = run_command;
    on_timer = run_timer;
  }
