-- ===== src/Tests/Nodes.antt =====
-- Node 1 pings node 2 with the message "hi".
use mathlib.Core.List.{Memᴰ}
use cpp_tcp.Base.{ℕ, ◌≡◌, ◌↔◌, refl, Option, none, some, List, [], ◌∷◌, ◌++◌, ◌-◌, arith}
use cpp_tcp.Base.Int.{ℤ, pos, ◌+ℤ◌, ◌≤ℤ◌}
use cpp_tcp.Node.Manager.{sent}
use cpp_tcp.Node.Stack.{
  PingRequest, StackNode, init, split_at_space, match_ping_command, on_receive, ping_timed_out,
}
use cpp_tcp.Node.Stack.Arrivals.{Mem-ping_timed_out}
use cpp_tcp.Node.Stack.Ping.{ping-answered}
use cpp_tcp.Tests.{thousandths}

-- Reads one digit.
abbrev digit : List ℕ → Option ℤ
digit (c ∷ []) = some (pos (c - 48))
digit _ = none

abbrev command : List ℕ
command = 50 ∷ 32 ∷ 104 ∷ 105 ∷ []

abbrev first : StackNode ℤ
first = init (pos 1)

abbrev second : StackNode ℤ
second = init (pos 2)

ping-answered_example :
    (ping reply : List ℕ) × ((match_ping_command digit (pos 0) command first).0.tcp_man.effects
      ≡ first.tcp_man.effects ++ (sent first.tcp_man.addr second.tcp_man.addr ping ∷ []))
    × ((on_receive thousandths (pos 3) ping second).tcp_man.effects
        ≡ second.tcp_man.effects ++ (sent second.tcp_man.addr first.tcp_man.addr reply ∷ []))
    × ((on_receive thousandths
          (pos 6)
          reply
          (match_ping_command digit (pos 0) command first).0).pings
        ≡ first.pings)
unfolding init split_at_space
ping-answered_example =
    ping-answered thousandths digit (pos 0) (pos 3) (pos 6) command (50 ∷ []) (104 ∷ 105 ∷ []) first
      second (omega arith, omega arith) (omega arith, omega arith) refl refl (omega arith) refl

abbrev old : PingRequest
old = record { dest_addr = pos 2; msg = 104 ∷ 105 ∷ []; time_sent_ms = pos 0 }

Mem-ping_timed_out_example :
    Memᴰ old (ping_timed_out (pos 10001) (record first { pings = old ∷ [] })).pings
    ↔ (Memᴰ old (old ∷ []) × (pos 10001 ≤ℤ old.time_sent_ms +ℤ pos 10000))
Mem-ping_timed_out_example = Mem-ping_timed_out (pos 10001) (record first { pings = old ∷ [] }) old
