-- ===== src/Node/Stack/Commands/Keeping.antt =====
-- The commands of a node keep the bounds of its sockets, and what they hand over is proper.
use cpp_tcp.Base.{
  ℕ, not, ◌||◌, Option, none, some, List, length, ltb, Bool-cases, Option-cases, inl, inr,
}
use cpp_tcp.Base.Int.{ℤ, pos}
use cpp_tcp.Base.Double.{DoubleOps}
use cpp_tcp.Base.Text.{TextOps, codes, bytes_eq}
use cpp_tcp.Net.Packet
use cpp_tcp.Net.Protocol
use cpp_tcp.Sim.Parser.{token}
use cpp_tcp.Node.Socket.{bind}
use cpp_tcp.Node.Manager.{TcpManager}
use cpp_tcp.Node.Manager.Sound.{Sound, at-Bounded, socket-Sound, put-Sound, hand_over-Sound}
use cpp_tcp.Node.Manager.Sound.Connecting.{connect-Sound, listen_on-Sound}
use cpp_tcp.Node.Apps.{make_client}
use cpp_tcp.Node.Apps.Keeping.{Steady, Sound-Steady, schedule-Steady}
use cpp_tcp.Node.Stack.{StackNode, send_packet, split_at_space, send_ping, match_ping_command}
use cpp_tcp.Node.Stack.Commands.{
  Started, split_space_vec, TransferArgs, ServerArgs, read_transfer, read_server, bound_socket,
  start_transfer, start_server, match_transfer_command, match_server_command, try_ping, try_server,
  on_command,
}

module _ {D : Type 0} where
  send_ping-Sound :
      (now dest : ℤ) (msg : List ℕ) (n : StackNode D)
      → Sound n.tcp_man
      → Sound (send_ping now dest msg n).0.tcp_man
  unfolding send_ping send_packet
  send_ping-Sound now dest msg n v =
      elim (Option-cases
        (Packet.make dest n.tcp_man.addr Packet.max_ttl Protocol.ping_pkt (pos 0) msg)) [
          | inl e ↦ rw (e, send_ping) v
          | inr (q, e) ↦ rw (e, send_ping) (hand_over-Sound n.tcp_man v dest (some q))
        ]

  match_ping_command-Sound :
      (stoi : List ℕ → Option ℤ) (now : ℤ) (command : List ℕ) (n : StackNode D)
      → Sound n.tcp_man
      → Sound (match_ping_command stoi now command n).0.tcp_man
  unfolding match_ping_command
  match_ping_command-Sound stoi now command n v = elim (Option-cases (split_at_space command)) [
    | inl e ↦ rw (e, match_ping_command) v
    | inr ((word, msg), e) ↦ elim (Option-cases (stoi word)) [
      | inl r ↦ rw (e, r, match_ping_command) v
      | inr (dest, r) ↦ rw (e, r, match_ping_command) (send_ping-Sound now dest msg n v)
    ]
  ]

-- A node that a command has not matched has set no timer.
abbrev Matched : {D : Type 0} → StackNode D × Option Started → Type 0
Matched (n, none) = Sound n.tcp_man
Matched (n, some s) = Steady n.tcp_man

module _ {D : Type 0} (double : DoubleOps D) (text : TextOps D) where
  bound_socket-Sound :
      (port : ℤ) (m : TcpManager D) → Sound m → Sound (bound_socket double text port m).0
  unfolding bind
  bound_socket-Sound port m v =
      let w = socket-Sound double m v in put-Sound _ w _ _ (at-Bounded double _ w _)

  start_transfer-Matched :
      (next : ℕ) (a : TransferArgs) (n : StackNode D)
      → Sound n.tcp_man
      → Matched (start_transfer double text next a n)
  unfolding start_transfer
  start_transfer-Matched next a n v =
      let (m, sock) = bound_socket double text a.local_port n.tcp_man in
      let w =
        connect-Sound double sock a.dest_addr a.port m
          (bound_socket-Sound a.local_port n.tcp_man v) in
      elim (Option-cases (make_client sock a.amount a.interval a.sz)) [
        | inl e ↦ rw (e, start_transfer) w
        | inr (c, e) ↦ rw (e, start_transfer) (schedule-Steady _ next a.interval (Sound-Steady _ w))
      ]

  start_server-Matched :
      (next : ℕ) (a : ServerArgs) (n : StackNode D)
      → Sound n.tcp_man
      → Matched (start_server double text next a n)
  unfolding start_server
  start_server-Matched next a n v =
      let (m, sock) = bound_socket double text a.port n.tcp_man in
      let w = listen_on-Sound double sock a.backlog m (bound_socket-Sound a.port n.tcp_man v) in
      schedule-Steady _ next a.servint (Sound-Steady _ w)

  match_transfer_command-Matched :
      (next : ℕ) (command : List ℕ) (n : StackNode D)
      → Sound n.tcp_man
      → Matched (match_transfer_command double text next command n)
  unfolding match_transfer_command
  match_transfer_command-Matched next command n v =
      let args = split_space_vec command in
      elim (Bool-cases (
        ltb (length args) 5
        || ltb 7 (length args)
        || not (bytes_eq (token 0 args) (codes "transfer")))) [
          | inl e ↦ rw e v
          | inr e ↦ elim (Option-cases (read_transfer double text args)) [
            | inl r ↦ rw (e, r) v
            | inr (a, r) ↦ rw (e, r) (start_transfer-Matched next a n v)
          ]
        ]

  match_server_command-Matched :
      (next : ℕ) (command : List ℕ) (n : StackNode D)
      → Sound n.tcp_man
      → Matched (match_server_command double text next command n)
  unfolding match_server_command
  match_server_command-Matched next command n v =
      let args = split_space_vec command in
      elim (Bool-cases (
        ltb (length args) 3
        || ltb 6 (length args)
        || not (bytes_eq (token 0 args) (codes "server")))) [
          | inl e ↦ rw e v
          | inr e ↦ elim (Option-cases (read_server double text args)) [
            | inl r ↦ rw (e, r) v
            | inr (a, r) ↦ rw (e, r) (start_server-Matched next a n v)
          ]
        ]

  try_server-Matched :
      (next : ℕ) (command : List ℕ) (r : StackNode D × Option Started)
      → Matched r
      → Matched (try_server double text next command r)
  try_server-Matched next command (n, none) v = match_server_command-Matched next command n v
  try_server-Matched next command (n, some s) v = v

  try_ping-Steady :
      (now : ℤ) (command : List ℕ) (r : StackNode D × Option Started)
      → Matched r
      → Steady (try_ping double text now command r).0.tcp_man
  try_ping-Steady now command (n, none) v =
      Sound-Steady _ (match_ping_command-Sound text.stoi now command n v)
  try_ping-Steady now command (n, some s) v = v

  pub on_command-Steady :
      (next : ℕ) (now : ℤ) (command : List ℕ) (n : StackNode D)
      → Sound n.tcp_man
      → Steady (on_command double text next now command n).0.tcp_man
  unfolding on_command
  on_command-Steady next now command n v =
      try_ping-Steady now command _
        (try_server-Matched next command _ (match_transfer_command-Matched next command n v))
