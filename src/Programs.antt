-- ===== src/Programs.antt =====
-- src/main.cpp and src/trawler_main.cpp: what the two programs make of their arguments, the first of
-- which is the name of the program. The usage that they print is left out.
pub mod Networks
use cpp_tcp.Base.{
  ℕ, Bool, not, ◌&&◌, ◌||◌, Option, none, some, List, [], ◌∷◌, ltb, length, if◌then◌else◌,
}
use cpp_tcp.Base.Int.{ℤ, pos, ◌==ℤ◌}
use cpp_tcp.Base.Double.{DoubleOps}
use cpp_tcp.Base.Text.{TextOps, codes, bytes_eq}
use cpp_tcp.Core.Runtime
use cpp_tcp.Core.Runtime.{RuntimeManager, set_command_file}
use cpp_tcp.Node.Manager.{NodeTimer}
use cpp_tcp.Node.Stack.Process.{Process, stack_ops}
use cpp_tcp.Sim.Parser.{token}
use cpp_tcp.Sim.Simulator.{Simulator}
use cpp_tcp.Sim.Simulator.Loop.{Loop, init, start}
use cpp_tcp.Sim.Topology
use cpp_tcp.Emu.ArpCommands.{FormatOps}
use cpp_tcp.Emu.Emulator.{Callback}
use cpp_tcp.Emu.Trawler.{TrawlerService}
use cpp_tcp.Emu.Trawler.Accept
use cpp_tcp.Emu.Trawler.Accept.{Connection}

-- Why a program ends with the code 1. `exception` is whatever has been thrown.
pub data Failure : Type 0 where
  missing_arguments : Failure
  missing_emulator_arguments : Failure
  no_command_file : List ℕ → Failure
  unknown_mode : List ℕ → Failure
  exception : Failure

-- What the constructor of the emulator keeps of its arguments, and its manager.
pub record EmulatorSetup : Type 0 where
  pub trawler_host : List ℕ
  pub trawler_port : ℤ
  pub local_udp_port : ℤ
  pub manager : RuntimeManager (Callback NodeTimer)

-- What `main` has come to: an end, or a manager that it starts. A simulation has its timescale.
pub data Netstack (D : Type 0) : Type 0 where
  fails : Failure → Netstack D
  simulates : D → Loop D (Process D) NodeTimer → Netstack D
  emulates : EmulatorSetup → Netstack D

-- The name of a file that is not "-".
abbrev pub names_file : ℕ → List (List ℕ) → Bool
names_file i argv = ltb i (length argv) && not (bytes_eq (token i argv) (codes "-"))

-- `opens` gives the lines of the file of a name, or `none` if it cannot be opened.
module _ (opens : List ℕ → Option (List (List ℕ))) where
  -- The optional command file. `none`: it cannot be opened.
  unfoldable pub with_command_file :
      {C : Type 0} → ℕ → List (List ℕ) → RuntimeManager C → Option (RuntimeManager C)
  with_command_file i argv m =
      let (m', r) = set_command_file (opens (token i argv)) m in
      if not (names_file i argv) then some m else if not (r ==ℤ pos 0) then none else some m'

  -- What can be read of a topology file, if its name is not empty.
  abbrev pub topo_file : List ℕ → Option (Option (List (List ℕ)))
  topo_file [] = none
  topo_file (c ∷ name) = some (opens (c ∷ name))

  module _ {D : Type 0} (double : DoubleOps D) (draws : ℕ → D) (text : TextOps D) where
    abbrev pub timescale : List (List ℕ) → Option D
    timescale argv =
        if ltb 5 (length argv) then text.stod (token 5 argv) else some (double.of_int (pos 1))

    -- A simulator that has been made gets its command file and its timescale, and is started.
    unfoldable pub launch : List (List ℕ) → Simulator D (Process D) NodeTimer → Netstack D
    launch argv s = elim (with_command_file 4 argv s.manager) [
      | none ↦ fails (no_command_file (token 4 argv))
      | some m ↦ elim (timescale argv) [
        | none ↦ fails exception
        | some scale ↦
            simulates scale
              (start double draws (stack_ops double text) text (record s { manager = m }))
      ]
    ]

    unfoldable pub simulate : List (List ℕ) → Netstack D
    simulate argv = elim (text.stoi (token 2 argv)) [
      | none ↦ fails exception
      | some num_nodes ↦
          elim (init double draws (stack_ops double text) text num_nodes
            (topo_file (token 3 argv))) [ none ↦ fails exception | some s ↦ launch argv s ]
    ]

    -- `clock` is the system's, in microseconds.
    abbrev pub set_up : ℤ → List (List ℕ) → ℤ → ℤ → Netstack D
    set_up clock argv trawler_port local_udp =
        elim (with_command_file 5 argv (Runtime.init clock)) [
          | none ↦ fails (no_command_file (token 5 argv))
          | some m ↦ emulates (record {
            trawler_host = token 2 argv;
            trawler_port = trawler_port;
            local_udp_port = local_udp;
            manager = m;
          })
        ]

    unfoldable pub emulate : ℤ → List (List ℕ) → Netstack D
    emulate clock argv =
        if ltb (length argv) 5
        then fails missing_emulator_arguments
        else elim (text.stoi (token 3 argv)) [
          | none ↦ fails exception
          | some trawler_port ↦ elim (text.stoi (token 4 argv)) [
            | none ↦ fails exception
            | some local_udp ↦ set_up clock argv trawler_port local_udp
          ]
        ]

    -- main of src/main.cpp
    unfoldable pub netstack : ℤ → List (List ℕ) → Netstack D
    netstack clock argv =
        let mode = token 1 argv in
        if ltb (length argv) 4
        then fails missing_arguments
        else if bytes_eq mode (codes "simulate")
        then simulate argv
        else if bytes_eq mode (codes "emulate")
        then emulate clock argv
        else fails (unknown_mode mode)

    module _ (fmt : FormatOps D) (delivers : ℤ → ℕ → Bool) where
      -- Without a topology file all nodes are neighbours. The port only goes to the system. `none`: an
      -- exception, with which the program ends.
      abbrev serve_on : ℤ → ℤ → List ℕ → List Connection → Option (TrawlerService D)
      serve_on port clock name cs =
          Accept.run double text fmt delivers (topo_file name) clock
            (Topology.instance_of (bytes_eq name []) none) cs

      -- main of src/trawler_main.cpp: the state after the rounds for these connections. `none`: it has
      -- ended with the code 1.
      unfoldable pub trawler : ℤ → List (List ℕ) → List Connection → Option (TrawlerService D)
      trawler clock argv cs =
          if ltb (length argv) 2 then none else elim (text.stoi (token 1 argv)) [
            | none ↦ none
            | some port ↦ serve_on port clock (token 2 argv) cs
          ]
