-- ===== src/Sim/Simulator.antt =====
-- include/nb/simulator.hpp, src/sim/simulator.cpp and src/sim/simulation_commands_parser.cpp: nodes, the
-- links between them, and the events in virtual time. What a node does is a parameter, `NodeOps`: the
-- calls that it makes on the simulator change nothing that the node reads back before it returns. The
-- n-th value that the generators of the edges draw is `draws n`. The wait for a line of input and its
-- length in real time are left out.
pub mod Loop
pub mod Sending
pub mod Unicast
pub mod Order
pub mod Clock
pub mod Network
pub mod Due
use cpp_tcp.Base.{
  ℕ, zero, suc, ◌+◌, Bool, true, false, not, ◌&&◌, ◌||◌, Option, none, some, List, [], ◌∷◌, ◌++◌,
  length, ltb, leb, get_elem?, set, drop, if◌then◌else◌,
}
use cpp_tcp.Base.Int.{ℤ, pos, pos_part, minus_one, ◌+ℤ◌, ◌-ℤ◌, ltb_ℤ, leb_ℤ, ◌==ℤ◌, max_ℤ, quot_ℤ}
use cpp_tcp.Base.Double.{DoubleOps}
use cpp_tcp.Base.Text.{TextOps, codes, bytes_eq}
use cpp_tcp.Net.Packet
use cpp_tcp.Core.EventQueue.{ScheduledEvent, get_next_event, remove_next_event}
use cpp_tcp.Core.Runtime
use cpp_tcp.Core.Runtime.{
  RuntimeManager, Stats, accepts, add_timer, add_event_at_micros, read_command_file,
}
use cpp_tcp.Sim.Edge.{Edge, EdgeOptions, default_options, schedule_pkt}
use cpp_tcp.Sim.Topology
use cpp_tcp.Sim.Topology.{Topology, get_live_edge, update_edge}
use cpp_tcp.Sim.Parser.{Command, Hooks, token, parse_line, parse_remainder, parse_file}

abbrev pub max_nodes_to_simulate : ℕ
max_nodes_to_simulate = 254

-- What a node asks of the simulator: a packet, or a timer of this many milliseconds.
pub data Call (K : Type 0) : Type 0 where
  send : ℤ → ℤ → List ℕ → Call K
  set_timer : ℤ → K → Call K

-- A node, `N`, and the callbacks of its timers, `K`. Each operation gets the time in milliseconds.
pub record NodeOps (N K : Type 0) : Type 0 where
  pub create : ℤ → N
  pub start_node : ℤ → N → N × List (Call K)
  pub on_receive : ℤ → List ℕ → N → N × List (Call K)
  pub on_command : ℤ → List ℕ → N → N × List (Call K)
  pub on_timer : ℤ → K → N → N × List (Call K)

-- The callbacks in the queue: the delivery of a packet, the rest of the topology file, and a timer of
-- the node of this index.
pub data Callback (K : Type 0) : Type 0 where
  deliver : ℤ → ℤ → List ℕ → Callback K
  parse_rest : Callback K
  fires : ℕ → K → Callback K

-- `topo_lines` is what the parser of the topology file has not read yet, `drawn` counts the values
-- drawn, and `out` is what has gone to `std::cout`.
pub record Simulator (D N K : Type 0) : Type 0 where
  pub manager : RuntimeManager (Callback K)
  pub topology : Topology D
  pub now_micros : ℤ
  pub nodes : List N
  pub topo_lines : Option (List (List ℕ))
  pub running : Bool
  pub drawn : ℕ
  pub out : List ℕ

-- The words with a space behind each, and that text without its last character.
abbrev pub spaced : List (List ℕ) → List ℕ
spaced [] = []
spaced (w ∷ ws) = w ++ (b' ' ∷ spaced ws)

abbrev pub pop_back : List ℕ → List ℕ
pop_back [] = []
pop_back (c ∷ []) = []
pop_back (c ∷ d ∷ s) = c ∷ pop_back (d ∷ s)

module _ {D N K : Type 0} where
  -- now(): the virtual time in milliseconds.
  unfoldable pub now : Simulator D N K → ℤ
  now s = quot_ℤ s.now_micros (pos 1000)

  unfoldable pub is_node_addr_valid : ℤ → Simulator D N K → Bool
  is_node_addr_valid addr s = leb_ℤ (pos 0) addr && ltb_ℤ addr (pos (length s.nodes))

  -- A packet with a time of arrival gets an event; -1 stands for one that is dropped or lost.
  unfoldable pub add_delivery : ℤ → ℤ → List ℕ → ℤ → Simulator D N K → Simulator D N K
  add_delivery from to pkt arrival s =
      if arrival ==ℤ minus_one
      then s
      else record s { manager = add_event_at_micros arrival (some (deliver from to pkt)) s.manager }

  -- A time that is not negative gets an event at which the parser goes on.
  abbrev pub defer_rest : Simulator D N K × Option (List (List ℕ)) × ℤ → Simulator D N K
  defer_rest (s, rest, defer_till) =
      let s' : Simulator D N K = record s { topo_lines = rest } in
      if leb_ℤ (pos 0) defer_till
      then record s' { manager = add_event_at_micros defer_till (some parse_rest) s'.manager }
      else s'

module _ {D N K : Type 0} (double : DoubleOps D) (draws : ℕ → D) where
  -- The state once an edge has scheduled a packet, or has refused to.
  unfoldable pub after_schedule :
      ℤ → ℤ → List ℕ → Simulator D N K → Edge D × Stats × ℤ → Simulator D N K
  after_schedule from to pkt s (edge, stats, arrival) = add_delivery from to pkt arrival (record s {
    manager = record s.manager { stats = stats };
    topology = record s.topology { edges = update_edge from to (λ _. edge) s.topology.edges };
    drawn = suc s.drawn;
  })

  -- What follows the lookup of a live edge. `none`: the edge throws.
  unfoldable pub send_over :
      ℤ → ℤ → List ℕ → Simulator D N K → Option (Edge D) → Option (Simulator D N K × Bool)
  send_over from to pkt s none = some (s, false)
  send_over from to pkt s (some edge) =
      elim (schedule_pkt double (draws s.drawn) from (pos (length pkt)) s.now_micros
        (edge, s.manager.stats)) [
          | none ↦ none
          | some r ↦ some (after_schedule from to pkt s r, true)
        ]

  unfoldable pub send_to : ℤ → ℤ → List ℕ → Simulator D N K → Option (Simulator D N K × Bool)
  send_to from to pkt s =
      let (t, edge) = get_live_edge (default_options double) from to s.topology in
      send_over from to pkt (record s { topology = t }) edge

  -- The loop over the nodes from number `i` on, for a packet to the address of all.
  unfoldable pub broadcast : ℕ → ℕ → ℤ → List ℕ → Simulator D N K → Option (Simulator D N K × Bool)
  broadcast zero i from pkt s = some (s, true)
  broadcast (suc left) i from pkt s = elim (send_to from (pos i) pkt s) [
    | none ↦ none
    | some (s', found) ↦ broadcast left (suc i) from pkt s'
  ]

  unfoldable pub route : ℤ → ℤ → List ℕ → Simulator D N K → Option (Simulator D N K × Bool)
  route from to pkt s =
      if to ==ℤ Packet.broadcast_address
      then broadcast (length s.nodes) 0 from pkt s
      else send_to from to pkt s

  -- Simulator::sendPkt. `none`: it throws.
  unfoldable pub send_pkt : ℤ → ℤ → List ℕ → Simulator D N K → Option (Simulator D N K × Bool)
  send_pkt from to pkt s = elim (Runtime.send_pkt from to pkt s.manager) [
    | none ↦ none
    | some m ↦ route from to pkt (record s { manager = m })
  ]

  -- The calls that a node has made, in their order. A node catches what `send_pkt` throws.
  abbrev pub or_same : Simulator D N K → Option (Simulator D N K × Bool) → Simulator D N K
  or_same s none = s
  or_same s (some (s', sent)) = s'

  unfoldable pub perform : ℕ → List (Call K) → Simulator D N K → Simulator D N K
  perform i [] s = s
  perform i (send from to pkt ∷ calls) s = perform i calls (or_same s (send_pkt from to pkt s))
  perform i (set_timer delta k ∷ calls) s =
      perform i calls (record s { manager = add_timer (now s) delta (some (fires i k)) s.manager })

module _ {D N K : Type 0} (double : DoubleOps D) (draws : ℕ → D) (ops : NodeOps N K) where
  -- The node of an index acts, and its calls are performed.
  unfoldable pub act : ℕ → (N → N × List (Call K)) → Simulator D N K → Simulator D N K
  act i f s = elim (get_elem? s.nodes i) [
    | none ↦ s
    | some n ↦
        let (n', calls) = f n in
        perform double draws i calls (record s { nodes = set s.nodes i n' })
  ]

  unfoldable pub deliver_pkt : ℤ → ℤ → List ℕ → Simulator D N K → Simulator D N K
  deliver_pkt from to pkt s =
      if is_node_addr_valid to s then act (pos_part to) (ops.on_receive (now s) pkt) s else s

  unfoldable pub send_node_msg : ℤ → List ℕ → Simulator D N K → Simulator D N K × Bool
  send_node_msg addr msg s =
      if not (is_node_addr_valid addr s)
      then (s, false)
      else (act (pos_part addr) (ops.on_command (now s) msg) s, true)

  module _ (text : TextOps D) where
    -- SimulationCommandsParser::parseNodeCmd
    unfoldable pub parse_node_cmd : Command → Simulator D N K → Simulator D N K
    parse_node_cmd cmd s = if ltb (length cmd) 2 then s else elim (text.stoi (token 0 cmd)) [
      | none ↦ s
      | some addr ↦ (send_node_msg addr (pop_back (spaced (drop 1 cmd))) s).0
    ]

    -- `stop` ends the program: nothing runs afterwards.
    unfoldable pub exit_cmd : Command → Simulator D N K → Simulator D N K
    exit_cmd cmd s =
        if bytes_eq (token 0 cmd) (codes "exit") then record s { running = false } else s

    -- The parser of the simulator: the hooks for the topology are those of the base class.
    abbrev pub simulation_hooks : Hooks D (Simulator D N K)
    simulation_hooks = record {
      exit_cmd = exit_cmd;
      parse_node_cmd = parse_node_cmd;
      create_new_edge = λ a b options s. record s {
        topology = Topology.new_edge (default_options double) a b options s.topology;
      };
      fail_edge_hook = λ a b s. record s {
        topology = (Topology.fail_edge (default_options double) a b s.topology).0;
      };
      fail_node_hook = λ a s. record s { topology = Topology.fail_node a s.topology };
      restart_edge_hook = λ a b s. record s {
        topology = (Topology.restart_edge (default_options double) a b s.topology).0;
      };
      restart_node_hook = λ a s. record s { topology = Topology.restart_node a s.topology };
      print = λ bytes s. record s { out = s.out ++ bytes };
    }

    abbrev pub parse_topo : List ℕ → ℤ → Simulator D N K → Simulator D N K × ℤ
    parse_topo = parse_line double text simulation_hooks

    unfoldable pub parse_rest_of_topo_file : Simulator D N K → Simulator D N K
    parse_rest_of_topo_file s = defer_rest (parse_remainder parse_topo s.now_micros s.topo_lines s)
