-- ===== src/Node/Manager/Calls.antt =====
-- The calls that reach the manager and its sockets: from the applications, from the network and from
-- the timer.
use cpp_tcp.Base.{ℕ, Option, List, [], ◌∷◌}
use cpp_tcp.Base.Int.{ℤ}
use cpp_tcp.Base.Double.{DoubleOps}
use cpp_tcp.Net.Transport.{Transport}
use cpp_tcp.Node.Socket.{bind, read}
use cpp_tcp.Node.Manager.{TcpManager, socket_at, socket, put}
use cpp_tcp.Node.Manager.Connection.{listen_on, accept, connect, close, release, write}
use cpp_tcp.Node.Manager.Receive.{receive_transport}
use cpp_tcp.Node.Manager.Timer.{schedule_tick, retransmission_tick}

-- Sockets are named by their indices. The first number of a call that reads the clock is the time.
pub data Call : Type 0 where
  starts : Call
  sockets : Call
  binds : ℕ → ℤ → Call
  listens : ℕ → ℤ → Call
  accepts_next : ℕ → Call
  connects : ℕ → ℤ → ℤ → Call
  writes_to : ℤ → ℕ → Option (List ℕ) → ℤ → ℤ → Call
  reads_from : ℕ → Option (List ℕ) → ℤ → ℤ → Call
  closes : ℕ → Call
  releases : ℕ → Call
  arrives : ℤ → ℤ → Transport → Call
  ticks : ℤ → Call

module _ {D : Type 0} (double : DoubleOps D) where
  unfoldable pub perform : Call → TcpManager D → TcpManager D
  perform starts m = schedule_tick m
  perform sockets m = (socket double m).0
  perform (binds i port) m = put m i (bind port (socket_at double m i))
  perform (listens i backlog) m = (listen_on double i backlog m).0
  perform (accepts_next i) m = (accept double i m).0
  perform (connects i addr port) m = (connect double i addr port m).0
  perform (writes_to now i buf at len) m = (write double i now buf at len m).0
  perform (reads_from i buf at len) m = put m i (read buf at len (socket_at double m i)).0
  perform (closes i) m = close double i m
  perform (releases i) m = release double i m
  perform (arrives now src_addr t) m = receive_transport double now src_addr t m
  perform (ticks now) m = retransmission_tick double now m

  unfoldable pub perform_all : List Call → TcpManager D → TcpManager D
  perform_all [] m = m
  perform_all (c ∷ cs) m = perform_all cs (perform c m)
