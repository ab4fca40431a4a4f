-- ===== src/Node/Stack/Commands.antt =====
-- src/node/stack_node.cpp: the commands of a node, two of which start an application.
pub mod Keeping
use cpp_tcp.Base.{
  ℕ, not, ◌||◌, Option, none, some, List, [], ltb, leb, ◌==◌, length, if◌then◌else◌, ◌>>=◌,
}
use cpp_tcp.Base.Int.{ℤ, pos}
use cpp_tcp.Base.Double.{DoubleOps}
use cpp_tcp.Base.Text.{TextOps, codes, bytes_eq, split_loop}
use cpp_tcp.Sim.Parser.{token}
use cpp_tcp.Node.Socket.{bind}
use cpp_tcp.Node.Manager.{TcpManager, socket, socket_at, put}
use cpp_tcp.Node.Manager.Connection.{connect, listen_on}
use cpp_tcp.Node.Apps.{TransferClient, TransferServer, make_client, make_server, schedule}
use cpp_tcp.Node.Stack.{StackNode, match_ping_command}

abbrev pub default_interval : ℤ
default_interval = pos 1000

abbrev pub default_buffer_sz : ℤ
default_buffer_sz = pos 65536

-- The application that a command has started.
pub data Started : Type 0 where
  no_task : Started
  client : TransferClient → Started
  server : TransferServer → Started

-- splitSpaceVec: with every empty token.
abbrev pub split_space_vec : List ℕ → List (List ℕ)
split_space_vec s = split_loop [] s

-- The numbers of the two commands.
pub record TransferArgs : Type 0 where
  pub dest_addr : ℤ
  pub port : ℤ
  pub local_port : ℤ
  pub amount : ℤ
  pub interval : ℤ
  pub sz : ℤ

pub record ServerArgs : Type 0 where
  pub port : ℤ
  pub backlog : ℤ
  pub servint : ℤ
  pub workint : ℤ
  pub sz : ℤ

module _ {D : Type 0} (double : DoubleOps D) (text : TextOps D) where
  -- `none`: an exception.
  unfoldable pub read_transfer : List (List ℕ) → Option TransferArgs
  read_transfer args = do
    dest_addr ← text.stoi (token 1 args)
    port ← text.stoi (token 2 args)
    local_port ← text.stoi (token 3 args)
    amount ← text.stoi (token 4 args)
    interval ← if leb 6 (length args) then text.stol (token 5 args) else some default_interval
    sz ← if length args == 7 then text.stoi (token 6 args) else some default_buffer_sz
    some (record {
      dest_addr = dest_addr;
      port = port;
      local_port = local_port;
      amount = amount;
      interval = interval;
      sz = sz;
    })

  unfoldable pub read_server : List (List ℕ) → Option ServerArgs
  read_server args = do
    port ← text.stoi (token 1 args)
    backlog ← text.stoi (token 2 args)
    servint ← if leb 4 (length args) then text.stol (token 3 args) else some default_interval
    workint ← if leb 5 (length args) then text.stol (token 4 args) else some default_interval
    sz ← if length args == 6 then text.stoi (token 5 args) else some default_buffer_sz
    some (record { port = port; backlog = backlog; servint = servint; workint = workint; sz = sz })

  -- A new socket that is bound, and its index.
  abbrev pub bound_socket : ℤ → TcpManager D → TcpManager D × ℕ
  bound_socket local_port m =
      let (m', i) = socket double m in (put m' i (bind local_port (socket_at double m' i)), i)

  -- The rest of `matchTransferCommand`. What `connect` returns is not looked at. The socket stays
  -- where the constructor of the client throws. The client becomes the task `next`.
  unfoldable pub start_transfer : ℕ → TransferArgs → StackNode D → StackNode D × Option Started
  start_transfer next a n =
      let (m, sock) = bound_socket a.local_port n.tcp_man in
      let m' = (connect double sock a.dest_addr a.port m).0 in
      elim (make_client sock a.amount a.interval a.sz) [
        | none ↦ (record n { tcp_man = m' }, none)
        | some c ↦ (record n { tcp_man = schedule next a.interval m' }, some (client c))
      ]

  -- The buffer of a server is made later, by its workers.
  unfoldable pub start_server : ℕ → ServerArgs → StackNode D → StackNode D × Option Started
  start_server next a n =
      let (m, sock) = bound_socket a.port n.tcp_man in
      let m' = (listen_on double sock a.backlog m).0 in
      let s = make_server sock a.servint a.workint a.sz in
      (record n { tcp_man = schedule next a.servint m' }, some (server s))

  -- `none`: the command is not a `transfer` command, or an exception has ended it.
  unfoldable pub match_transfer_command : ℕ → List ℕ → StackNode D → StackNode D × Option Started
  match_transfer_command next command n =
      let args = split_space_vec command in
      if ltb (length args) 5
        || ltb 7 (length args)
        || not (bytes_eq (token 0 args) (codes "transfer"))
      then (n, none)
      else elim (read_transfer args) [ none ↦ (n, none) | some a ↦ start_transfer next a n ]

  unfoldable pub match_server_command : ℕ → List ℕ → StackNode D → StackNode D × Option Started
  match_server_command next command n =
      let args = split_space_vec command in
      if ltb (length args) 3
        || ltb 6 (length args)
        || not (bytes_eq (token 0 args) (codes "server"))
      then (n, none)
      else elim (read_server args) [ none ↦ (n, none) | some a ↦ start_server next a n ]

  -- Each command is tried while none has matched.
  abbrev pub try_ping : ℤ → List ℕ → StackNode D × Option Started → StackNode D × Started
  try_ping now command (n, some s) = (n, s)
  try_ping now command (n, none) = ((match_ping_command text.stoi now command n).0, no_task)

  abbrev pub try_server : ℕ → List ℕ → StackNode D × Option Started → StackNode D × Option Started
  try_server next command (n, some s) = (n, some s)
  try_server next command (n, none) = match_server_command next command n

  unfoldable pub on_command : ℕ → ℤ → List ℕ → StackNode D → StackNode D × Started
  on_command next now command n =
      try_ping now command (try_server next command (match_transfer_command next command n))
