-- ===== src/Programs/Networks.antt =====
-- What holds of a simulation from its command line on.
use cpp_tcp.Base.{
  ℕ, ◌≡◌, ◌≢◌, subst, Option, none, some, List, All, ltb, length, Bool-cases, Option-cases, inl,
  inr,
}
use cpp_tcp.Base.Int.{ℤ, pos, ◌≤ℤ◌}
use cpp_tcp.Base.Double.{DoubleOps}
use cpp_tcp.Base.Text.{TextOps, codes, bytes_eq}
use cpp_tcp.Core.EventQueue.Order.{IsSorted}
use cpp_tcp.Core.Runtime
use cpp_tcp.Core.Runtime.{RuntimeManager, set_command_file}
use cpp_tcp.Node.Manager.{NodeTimer}
use cpp_tcp.Node.Stack.Process.{Process, stack_ops}
use cpp_tcp.Node.Stack.Process.Keeping.{Healthy}
use cpp_tcp.Sim.Parser.{token}
use cpp_tcp.Sim.Simulator.{Simulator}
use cpp_tcp.Sim.Simulator.Order.{Ordered}
use cpp_tcp.Sim.Simulator.Loop.{Input, Loop, init, start, run}
use cpp_tcp.Sim.Simulator.Clock.{IsForward, init-Ordered, start-Ordered, run-Ordered}
use cpp_tcp.Sim.Simulator.Network.{stack_ops-KeepsNode}
use cpp_tcp.Emu.Emulator.{Callback}
use cpp_tcp.Programs.{
  EmulatorSetup, fails, simulates, emulates, missing_arguments, missing_emulator_arguments,
  unknown_mode, exception, no_command_file, names_file, with_command_file, topo_file, timescale,
  launch, simulate, set_up, emulate, netstack,
}

module _ (opens : List ℕ → Option (List (List ℕ))) where
  with_command_file_events :
      {C : Type 0} (i : ℕ) (argv : List (List ℕ)) (m m' : RuntimeManager C)
      → with_command_file opens i argv m ≡ some m'
      → m.sorted_events ≡ m'.sorted_events
  unfolding with_command_file set_command_file
  with_command_file_events i argv m m' h = elim (Bool-cases (names_file i argv)) [
    | inr e ↦ let r : some m ≡ some m' = rw e at h in cc
    | inl e ↦ elim (Option-cases (opens (token i argv))) [
      | inl o ↦ let r : none ≡ some m' = rw (e, o) at h in absurd cc
      | inr (lines, o) ↦
          let r : some (record m { command_file = some lines }) ≡ some m' = rw (e, o) at h in cc
    ]
  ]

  module _ {D : Type 0} (double : DoubleOps D) (draws : ℕ → D) (text : TextOps D) where
    launch-Ordered :
        (argv : List (List ℕ)) (s : Simulator D (Process D) NodeTimer) (scale : D)
        (l : Loop D (Process D) NodeTimer)
        → IsSorted s.manager.sorted_events × All Healthy s.nodes
        → launch opens double draws text argv s ≡ simulates scale l
        → Ordered Healthy (pos 1) l.sim
    unfolding launch
    launch-Ordered argv s scale l (sorted, healthy) h =
        elim (Option-cases (with_command_file opens 4 argv s.manager)) [
          | inl e ↦
              let r : fails (no_command_file (token 4 argv)) ≡ simulates scale l =
                rw (e, launch) at h in
              absurd cc
          | inr (m, e) ↦ elim (Option-cases (timescale opens double draws text argv)) [
            | inl t ↦
                let r : fails exception ≡ simulates scale l = rw (e, t, launch) at h in absurd cc
            | inr (x, t) ↦
                let begun =
                  start double draws (stack_ops double text) text (record s { manager = m }) in
                let r : simulates x begun ≡ simulates scale l = rw (e, t, launch) at h in
                let same : begun ≡ l = cc in
                let events =
                  subst IsSorted (with_command_file_events 4 argv s.manager m e) sorted in
                subst (λ l. Ordered Healthy (pos 1) l.sim) same
                  (start-Ordered double draws (stack_ops double text) text Healthy
                    (stack_ops-KeepsNode double text) (record s { manager = m }) events healthy)
          ]
        ]

    simulate-Ordered :
        (argv : List (List ℕ)) (scale : D) (l : Loop D (Process D) NodeTimer)
        → simulate opens double draws text argv ≡ simulates scale l
        → Ordered Healthy (pos 1) l.sim
    unfolding simulate
    simulate-Ordered argv scale l h = elim (Option-cases (text.stoi (token 2 argv))) [
      | inl e ↦ let r : fails exception ≡ simulates scale l = rw (e, simulate) at h in absurd cc
      | inr (n, e) ↦
          let file = topo_file opens (token 3 argv) in
          elim (Option-cases (init double draws (stack_ops double text) text n file)) [
            | inl i ↦
                let r : fails exception ≡ simulates scale l = rw (e, i, simulate) at h in absurd cc
            | inr (s, i) ↦
                let r : launch opens double draws text argv s ≡ simulates scale l =
                  rw (e, i, simulate) at h in
                launch-Ordered argv s scale l
                  (init-Ordered double draws (stack_ops double text) text Healthy
                    (stack_ops-KeepsNode double text) n file s i)
                  r
          ]
    ]

    set_up-ne-simulates :
        (clock : ℤ) (argv : List (List ℕ)) (port local_udp : ℤ) (scale : D)
        (l : Loop D (Process D) NodeTimer)
        → set_up opens double draws text clock argv port local_udp ≢ simulates scale l
    unfolding with_command_file
    set_up-ne-simulates clock argv port local_udp scale l h =
        elim (Option-cases
          (with_command_file opens {C = Callback NodeTimer} 5 argv (Runtime.init clock))) [
            | inl e ↦
                let r : fails (no_command_file (token 5 argv)) ≡ simulates scale l =
                  rw (e, set_up) at h in
                absurd cc
            | inr (m, e) ↦
                let made : EmulatorSetup = record {
                  trawler_host = token 2 argv;
                  trawler_port = port;
                  local_udp_port = local_udp;
                  manager = m;
                } in
                let r : emulates made ≡ simulates scale l = rw (e, set_up) at h in absurd cc
          ]

    emulate-ne-simulates :
        (clock : ℤ) (argv : List (List ℕ)) (scale : D) (l : Loop D (Process D) NodeTimer)
        → emulate opens double draws text clock argv ≢ simulates scale l
    unfolding emulate
    emulate-ne-simulates clock argv scale l h = elim (Bool-cases (ltb (length argv) 5)) [
      | inl e ↦
          let r : fails missing_emulator_arguments ≡ simulates scale l = rw (e, emulate) at h in
          absurd cc
      | inr e ↦ elim (Option-cases (text.stoi (token 3 argv))) [
        | inl p ↦ let r : fails exception ≡ simulates scale l = rw (e, p, emulate) at h in absurd cc
        | inr (port, p) ↦ elim (Option-cases (text.stoi (token 4 argv))) [
          | inl u ↦
              let r : fails exception ≡ simulates scale l = rw (e, p, u, emulate) at h in absurd cc
          | inr (local_udp, u) ↦
              set_up-ne-simulates clock argv port local_udp scale l (rw (e, p, u, emulate) at h)
        ]
      ]
    ]

    netstack-Ordered :
        (clock : ℤ) (argv : List (List ℕ)) (scale : D) (l : Loop D (Process D) NodeTimer)
        → netstack opens double draws text clock argv ≡ simulates scale l
        → Ordered Healthy (pos 1) l.sim
    unfolding netstack
    netstack-Ordered clock argv scale l h = elim (Bool-cases (ltb (length argv) 4)) [
      | inl e ↦
          let r : fails missing_arguments ≡ simulates scale l = rw (e, netstack) at h in absurd cc
      | inr e ↦ elim (Bool-cases (bytes_eq (token 1 argv) (codes "simulate"))) [
        | inl s ↦ simulate-Ordered argv scale l (rw (e, s, netstack) at h)
        | inr s ↦ elim (Bool-cases (bytes_eq (token 1 argv) (codes "emulate"))) [
          | inl m ↦ absurd (emulate-ne-simulates clock argv scale l (rw (e, s, m, netstack) at h))
          | inr m ↦
              let r : fails (unknown_mode (token 1 argv)) ≡ simulates scale l =
                rw (e, s, m, netstack) at h in
              absurd cc
        ]
      ]
    ]

    -- Where the program `netstack` starts a simulation, whatever its files say, whatever is typed in,
    -- with times that pass forward, and however the links delay, drop or lose packets: after any
    -- number of rounds the queue is sorted by time, the virtual clock stands at 1 at least, and every
    -- socket of every node keeps its bounds.
    pub netstack-simulates :
        (clock : ℤ) (argv : List (List ℕ)) (scale : D) (l : Loop D (Process D) NodeTimer)
        (inputs : List Input)
        → netstack opens double draws text clock argv ≡ simulates scale l
        → All IsForward inputs
        → let s = (run double draws (stack_ops double text) text inputs l).sim in
          IsSorted s.manager.sorted_events × (pos 1 ≤ℤ s.now_micros) × All Healthy s.nodes
    netstack-simulates clock argv scale l inputs h f =
        run-Ordered double draws (stack_ops double text) text Healthy
          (stack_ops-KeepsNode double text) (pos 1) inputs l f
          (netstack-Ordered clock argv scale l h)
