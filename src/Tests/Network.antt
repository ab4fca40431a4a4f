-- ===== src/Tests/Network.antt =====
-- Two stack nodes in the simulator, one of which transfers bytes to the other.
use cpp_tcp.Base.{ℕ, refl, Option, none, some, if◌then◌else◌, List, [], ◌∷◌, All, arith}
use cpp_tcp.Base.Int.{ℤ, pos, ◌≤ℤ◌, ◌*ℤ◌}
use cpp_tcp.Base.Text.{codes, bytes_eq}
use cpp_tcp.Node.Manager.{NodeTimer}
use cpp_tcp.Node.Stack
use cpp_tcp.Node.Stack.Process.{
  Process, start_process, receive_bytes, run_command, run_timer, stack_ops,
}
use cpp_tcp.Node.Stack.Process.Keeping.{Healthy, WellBehaved, process-WellBehaved}
use cpp_tcp.Sim.Simulator.{Simulator}
use cpp_tcp.Sim.Simulator.Loop
use cpp_tcp.Sim.Simulator.Loop.{Input, line, timeout, Loop, blank, start, run}
use cpp_tcp.Programs.{netstack, simulate, launch, with_command_file}
use cpp_tcp.Programs.Networks.{netstack-simulates}
use cpp_tcp.Core.EventQueue.Order.{IsSorted}
use cpp_tcp.Core.Runtime.{set_command_file}
use cpp_tcp.Tests.{thousandths}
use cpp_tcp.Tests.Text.{decimal}

abbrev draws : ℕ → ℤ
draws n = pos 500

-- The arguments, the last of which is the command file; there is no topology file.
abbrev argv : List (List ℕ)
argv = codes "netstack" ∷ codes "simulate" ∷ codes "2" ∷ [] ∷ codes "script" ∷ []

abbrev script : List (List ℕ)
script = codes "0 transfer 1 20 10 20 1 8" ∷ []

abbrev opens : List ℕ → Option (List (List ℕ))
opens name = if bytes_eq name (codes "script") then some script else none

abbrev blank_network : Simulator ℤ (Process ℤ) NodeTimer
blank_network = blank thousandths draws (stack_ops thousandths decimal) decimal 2

abbrev begun : Loop ℤ (Process ℤ) NodeTimer
begun =
    start thousandths draws (stack_ops thousandths decimal) decimal (record blank_network {
      manager = record blank_network.manager { command_file = some script };
    })

abbrev typed : List Input
typed =
    line (codes "edge 0 1") (pos 10)
    ∷ line (codes "1 server 20 5 1 1 8") (pos 10)
    ∷ timeout
    ∷ timeout
    ∷ []

netstack-simulates_example :
    let s = (run thousandths draws (stack_ops thousandths decimal) decimal typed begun).sim in
    IsSorted s.manager.sorted_events × (pos 1 ≤ℤ s.now_micros) × All Healthy s.nodes
unfolding netstack simulate launch Loop.init with_command_file set_command_file ◌*ℤ◌
netstack-simulates_example =
    netstack-simulates opens thousandths draws decimal (pos 0) argv (pos 1000) begun typed refl
      (omega arith, (omega arith, (tt, (tt, tt))))

-- A node that has started a server, and the timer of that.
abbrev serving : Process ℤ
serving =
    (run_command thousandths decimal (pos 0) (codes "server 20 5 1 1 8")
      (record { node = Stack.init (pos 1); tasks = [] })).0

serving-Healthy : Healthy serving
unfolding Stack.init
serving-Healthy =
    ((process-WellBehaved thousandths decimal (record { node = Stack.init (pos 1); tasks = [] })
        (pos 0) tt).2
      (codes "server 20 5 1 1 8")).0

process-WellBehaved_example :
    WellBehaved (start_process thousandths decimal (pos 1) serving)
    × ((bytes : List ℕ) → WellBehaved (receive_bytes thousandths decimal (pos 1) bytes serving))
    × ((command : List ℕ) → WellBehaved (run_command thousandths decimal (pos 1) command serving))
    × ((k : NodeTimer) → WellBehaved (run_timer thousandths decimal (pos 1) k serving))
process-WellBehaved_example =
    process-WellBehaved thousandths decimal serving (pos 1) serving-Healthy
