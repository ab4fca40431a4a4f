-- ===== src/Node/Apps.antt =====
-- src/apps/timer_task.cpp, transfer_client.cpp, transfer_server.cpp and their headers in include/nb:
-- periodic tasks that write and read a pattern of bytes over sockets. The logs are left out, but for
-- the reason for which a worker stops. A task names its socket by the index.
pub mod Pattern
pub mod Reading
pub mod Sending
pub mod Keeping
use cpp_tcp.Base.{
  ℕ, zero, suc, ◌+◌, ◌%◌, Bool, true, false, not, ◌&&◌, ◌||◌, Option, none, some, List, [], ◌∷◌,
  ◌==◌, length, take, drop, replicate, if◌then◌else◌,
}
use cpp_tcp.Base.Int.{
  ℤ, pos, negsuc, pos_part, minus_one, ◌+ℤ◌, ◌-ℤ◌, ltb_ℤ, leb_ℤ, ◌==ℤ◌, min_ℤ, rem_ℤ,
}
use cpp_tcp.Base.Double.{DoubleOps}
use cpp_tcp.Node.Socket.{is_closed, is_connected, is_connection_pending, is_closure_pending, read}
use cpp_tcp.Node.Manager.{TcpManager, task, timer, socket_at, put, emit}
use cpp_tcp.Node.Manager.Connection.{Written, wrote, failed, stuck, accept, close, release, write}

-- TimerTask::setInterval: an interval that is not positive leaves the one before.
abbrev pub set_interval : ℤ → ℤ → ℤ
set_interval interval_ms old = if ltb_ℤ (pos 0) interval_ms then interval_ms else old

pub record TransferClient : Type 0 where
  pub client_interval_ms : ℤ
  pub client_sock : ℕ
  pub client_buf : List ℕ
  pub amount : ℤ
  pub start_time : ℤ
  pub finish_time : ℤ
  pub client_pos : ℤ

pub record TransferServer : Type 0 where
  pub server_interval_ms : ℤ
  pub server_sock : ℕ
  pub worker_interval : ℤ
  pub buf_size : ℤ

pub record TransferWorker : Type 0 where
  pub worker_interval_ms : ℤ
  pub worker_sock : ℕ
  pub worker_buf : List ℕ
  pub worker_pos : ℤ

-- A vector of so many zeros. `none`: it throws `std::length_error`.
abbrev pub zeros : ℤ → Option (List ℕ)
zeros (pos n) = some (replicate n 0)
zeros (negsuc n) = none

unfoldable pub make_client : ℕ → ℤ → ℤ → ℤ → Option TransferClient
make_client sock amount interval_ms buf_size = elim (zeros buf_size) [
  | none ↦ none
  | some buf ↦ some (record {
    client_interval_ms = set_interval interval_ms interval_ms;
    client_sock = sock;
    client_buf = buf;
    amount = amount;
    start_time = pos 0;
    finish_time = pos 0;
    client_pos = pos 0;
  })
]

unfoldable pub make_server : ℕ → ℤ → ℤ → ℤ → TransferServer
make_server sock server_interval worker_interval buf_size = record {
  server_interval_ms = set_interval server_interval server_interval;
  server_sock = sock;
  worker_interval = worker_interval;
  buf_size = buf_size;
}

unfoldable pub make_worker : ℕ → ℤ → ℤ → Option TransferWorker
make_worker sock interval_ms buf_size = elim (zeros buf_size) [
  | none ↦ none
  | some buf ↦ some (record {
    worker_interval_ms = set_interval interval_ms interval_ms;
    worker_sock = sock;
    worker_buf = buf;
    worker_pos = pos 0;
  })
]

-- buf_[i] = static_cast<std::uint8_t>(i) from `i` on.
abbrev pub fill_from : ℕ → List ℕ → List ℕ
fill_from i [] = []
fill_from i (x ∷ xs) = (i % 256) ∷ fill_from (suc i) xs

-- The loop of the worker: a byte from `i` on is not the one that was sent.
abbrev pub is_corrupt : ℕ → List ℕ → Bool
is_corrupt i [] = false
is_corrupt i (x ∷ xs) = not (x == i % 256) || is_corrupt (suc i) xs

-- Why a worker has stopped, or that it goes on.
pub data Report : Type 0 where
  going aborted corrupted finished : Report

-- What the server has started: a worker, or nothing. `threw`: the constructor of the worker throws.
pub data Spawned : Type 0 where
  nothing : Spawned
  spawned : TransferWorker → Spawned
  threw : Spawned

-- The buffer as `read` has left it.
abbrev pub or_buf : List ℕ → Option (List ℕ) → List ℕ
or_buf buf none = buf
or_buf buf (some b) = b

module _ {D : Type 0} where
  -- TimerTask::schedule: the timer for the next tick of this task, if it has not been stopped.
  unfoldable pub schedule : ℕ → ℤ → TcpManager D → TcpManager D
  schedule self interval_ms m =
      if leb_ℤ interval_ms (pos 0) then m else emit (timer m.addr interval_ms (task self)) m

module _ {D : Type 0} (double : DoubleOps D) where
  -- What the client does with the result of `write`. `stuck` is no result of the source.
  abbrev pub client_wrote : TransferClient → TcpManager D × Written → TransferClient × TcpManager D
  client_wrote c (m, wrote count) =
      (record c { client_pos = c.client_pos +ℤ count; amount = c.amount -ℤ count }, m)
  client_wrote c (m, failed) =
      (record c { client_interval_ms = pos 0 }, release double c.client_sock m)
  client_wrote c (m, stuck) = (c, m)

  -- The buffer is filled again whenever the position stands at its start.
  abbrev pub refill : ℤ → TransferClient → TransferClient
  refill index c = if index ==ℤ pos 0 then record c { client_buf = fill_from 0 c.client_buf } else c

  abbrev pub begin : ℤ → TransferClient → TransferClient
  begin now c = if c.start_time ==ℤ pos 0 then record c { start_time = now } else c

  -- A connected socket with bytes left to send.
  unfoldable pub client_send : ℤ → TransferClient → TcpManager D → TransferClient × TcpManager D
  client_send now c m =
      let size : ℤ = pos (length c.client_buf) in
      let index : ℤ = rem_ℤ c.client_pos size in
      let c' = refill index c in
      client_wrote c' (
        write double c'.client_sock now (some c'.client_buf) index (min_ℤ (size -ℤ index) c'.amount)
          m)

  -- TransferClient::execute
  unfoldable pub client_execute : ℤ → TransferClient → TcpManager D → TransferClient × TcpManager D
  client_execute now c m =
      let state = (socket_at double m c.client_sock).state in
      let c' = begin now c in
      if is_connection_pending state
      then (c, m)
      else if is_connected state
      then if c'.amount ==ℤ pos 0 then (c', close double c'.client_sock m) else client_send now c' m
      else if is_closure_pending state
      then (c, m)
      else if is_closed state
      then (
        record c { finish_time = now; client_interval_ms = pos 0 },
        release double c.client_sock m,
      )
      else (c, m)

  -- What the worker does with the result of `read`: the buffer, and the count.
  abbrev pub worker_read :
      ℕ → TransferWorker → List ℕ → ℤ → TcpManager D → TransferWorker × TcpManager D × Report
  worker_read index w buf count m =
      let stopped = record w { worker_buf = buf; worker_interval_ms = pos 0 } in
      if count ==ℤ minus_one
      then (stopped, release double w.worker_sock m, aborted)
      else if ltb_ℤ (pos 0) count && is_corrupt index (take (pos_part count) (drop index buf))
      then (stopped, release double w.worker_sock m, corrupted)
      else (record w { worker_buf = buf; worker_pos = w.worker_pos +ℤ count }, m, going)

  -- TransferWorker::execute
  unfoldable pub worker_execute :
      TransferWorker → TcpManager D → TransferWorker × TcpManager D × Report
  worker_execute w m =
      let s = socket_at double m w.worker_sock in
      let size : ℤ = pos (length w.worker_buf) in
      let index : ℤ = rem_ℤ w.worker_pos size in
      let (s', buf, count) = read (some w.worker_buf) index (size -ℤ index) s in
      if not (is_closed s.state)
      then worker_read (pos_part index) w (or_buf w.worker_buf buf) count (put m w.worker_sock s')
      else (record w { worker_interval_ms = pos 0 }, m, finished)

  -- What the server does with the result of `accept`. A new worker becomes the task `next`.
  unfoldable pub server_accepted :
      ℕ → TransferServer → TcpManager D × Option ℕ → TransferServer × TcpManager D × Spawned
  server_accepted next s (m, none) = (s, m, nothing)
  server_accepted next s (m, some conn) = elim (make_worker conn s.worker_interval s.buf_size) [
    | none ↦ (s, m, threw)
    | some w ↦ (s, schedule next w.worker_interval_ms m, spawned w)
  ]

  -- TransferServer::execute
  unfoldable pub server_execute :
      ℕ → TransferServer → TcpManager D → TransferServer × TcpManager D × Spawned
  server_execute next s m =
      if not (is_closed (socket_at double m s.server_sock).state)
      then server_accepted next s (accept double s.server_sock m)
      else (record s { server_interval_ms = pos 0 }, m, nothing)

  -- TimerTask::tick for each kind of task; `self` is its index.
  unfoldable pub client_tick : ℕ → ℤ → TransferClient → TcpManager D → TransferClient × TcpManager D
  client_tick self now c m =
      let (c', m') = client_execute now c m in (c', schedule self c'.client_interval_ms m')

  -- An exception leaves `tick` before the next one is scheduled.
  abbrev pub server_next :
      ℕ → TransferServer × TcpManager D × Spawned → TransferServer × TcpManager D × Spawned
  server_next self (s, m, threw) = (s, m, threw)
  server_next self (s, m, nothing) = (s, schedule self s.server_interval_ms m, nothing)
  server_next self (s, m, spawned w) = (s, schedule self s.server_interval_ms m, spawned w)

  unfoldable pub server_tick :
      ℕ → ℕ → TransferServer → TcpManager D → TransferServer × TcpManager D × Spawned
  server_tick self next s m = server_next self (server_execute next s m)

  unfoldable pub worker_tick :
      ℕ → TransferWorker → TcpManager D → TransferWorker × TcpManager D × Report
  worker_tick self w m =
      let (w', m', r) = worker_execute w m in (w', schedule self w'.worker_interval_ms m', r)
