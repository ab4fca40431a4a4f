-- ===== src/Sim/Simulator/Loop.antt =====
-- The constructor of the simulator and the loop of `start`. A step of the model is one round of the
-- outer loop up to its inner loop, or one round of the inner loop.
use cpp_tcp.Base.{
  ℕ, zero, suc, Bool, true, false, not, ◌||◌, Option, none, some, List, [], ◌∷◌, length,
  if◌then◌else◌,
}
use cpp_tcp.Base.Int.{ℤ, pos, pos_part, ◌+ℤ◌, ◌-ℤ◌, ltb_ℤ, leb_ℤ, max_ℤ}
use cpp_tcp.Base.Double.{DoubleOps}
use cpp_tcp.Base.Text.{TextOps}
use cpp_tcp.Core.EventQueue.{ScheduledEvent, get_next_event, remove_next_event}
use cpp_tcp.Core.Runtime
use cpp_tcp.Core.Runtime.{RuntimeManager, read_command_file}
use cpp_tcp.Sim.Topology
use cpp_tcp.Sim.Parser.{parse_file}
use cpp_tcp.Sim.Simulator.{
  NodeOps, Callback, deliver, parse_rest, fires, Simulator, now, act, deliver_pkt, parse_topo,
  defer_rest, parse_rest_of_topo_file, max_nodes_to_simulate,
}

-- What the wait for input gives: a line, with the virtual time that has passed, or nothing in time.
pub data Input : Type 0 where
  line : List ℕ → ℤ → Input
  timeout : Input

-- The variables of the loop. `draining`: the loop over the events that are due is running.
pub record Loop (D N K : Type 0) : Type 0 where
  pub sim : Simulator D N K
  pub defer_parsing_till : ℤ
  pub draining : Bool

module _ {D N K : Type 0} (double : DoubleOps D) (draws : ℕ → D) (ops : NodeOps N K)
    (text : TextOps D) where
  abbrev pub create_nodes : ℕ → ℕ → List N
  create_nodes zero i = []
  create_nodes (suc left) i = ops.create (pos i) ∷ create_nodes left (suc i)

  -- The simulator before it reads its topology file.
  abbrev pub blank : ℕ → Simulator D N K
  blank num_nodes = record {
    manager = Runtime.init (pos 0);
    topology = Topology.instance_of false none;
    now_micros = pos 0;
    nodes = create_nodes num_nodes 0;
    topo_lines = none;
    running = false;
    drawn = 0;
    out = [];
  }

  -- The topology file: `none` without a name, `some none` if it cannot be opened. The result `none`
  -- stands for an exception.
  unfoldable pub init : ℤ → Option (Option (List (List ℕ))) → Option (Simulator D N K)
  init num_nodes topo_file =
      if leb_ℤ num_nodes (pos 0) || ltb_ℤ (pos max_nodes_to_simulate) num_nodes
      then none
      else elim topo_file [
        | none ↦ some (blank (pos_part num_nodes))
        | some lines ↦
            elim (parse_file (parse_topo double draws ops text) lines (pos 0)
              (blank (pos_part num_nodes))) [ none ↦ none | some r ↦ some (defer_rest r) ]
      ]

  unfoldable pub start_nodes : ℕ → ℕ → Simulator D N K → Simulator D N K
  start_nodes zero i s = s
  start_nodes (suc left) i s =
      start_nodes left (suc i) (act double draws ops i (ops.start_node (now s)) s)

  -- What `start` does before its loop.
  unfoldable pub start : Simulator D N K → Loop D N K
  start s =
      let s' = start_nodes (length s.nodes) 0 (record s { running = true }) in
      record {
        sim = record s' { now_micros = pos 1 };
        defer_parsing_till = pos 0;
        draining = false;
      }

  unfoldable pub run_callback : Callback K → Simulator D N K → Simulator D N K
  run_callback (deliver from to pkt) s = deliver_pkt double draws ops from to pkt s
  run_callback parse_rest s = parse_rest_of_topo_file double draws ops text s
  run_callback (fires i k) s = act double draws ops i (ops.on_timer (now s) k) s

  -- One round of the inner loop. The result `none`: no event is due, and the loop ends.
  abbrev pub run_first :
      Option (ScheduledEvent (Callback K) × List (ScheduledEvent (Callback K)))
      → Simulator D N K
      → Option (Simulator D N K)
  run_first none s = none
  run_first (some (event, rest)) s =
      if ltb_ℤ s.now_micros event.time_to_occur
      then none
      else some (
          run_callback event.callback
            (record s { manager = record s.manager { sorted_events = rest } }))

  unfoldable pub run_next : Simulator D N K → Option (Simulator D N K)
  run_next s = run_first (remove_next_event s.manager.sorted_events) s

  -- How far the next event lies ahead, or the time at which the command file goes on.
  abbrev pub delta_time : Option (ScheduledEvent (Callback K)) → ℤ → ℤ → ℤ
  delta_time (some event) defer_till now_micros = event.time_to_occur -ℤ now_micros
  delta_time none defer_till now_micros =
      if leb_ℤ (pos 0) defer_till then defer_till -ℤ now_micros else pos 0

  -- parser()->parseLine, as the command file calls it on the manager.
  abbrev pub parse_with :
      List ℕ
      → ℤ
      → RuntimeManager (Callback K)
      → Simulator D N K
      → RuntimeManager (Callback K) × Simulator D N K × ℤ
  parse_with text_line now_micros m s =
      let (s', r) =
        parse_topo double draws ops text text_line now_micros (record s { manager = m }) in
      (s'.manager, s', r)

  -- The state as the manager and the rest of it have been left.
  abbrev pub rejoin : RuntimeManager (Callback K) × Simulator D N K × ℤ → Simulator D N K × ℤ
  rejoin (m, s, r) = (record s { manager = m }, r)

  unfoldable pub read_commands : ℤ → Simulator D N K → Simulator D N K × ℤ
  read_commands defer_till s = rejoin (read_command_file parse_with (now s) defer_till s.manager s)

  -- The rest of a round of the outer loop, up to its inner loop.
  unfoldable pub take_input : Input → Simulator D N K × ℤ → Loop D N K
  take_input (line user_input elapsed) (s, defer_till) =
      let s₁ : Simulator D N K = record s { now_micros = s.now_micros +ℤ elapsed } in
      record {
        sim = (parse_topo double draws ops text user_input s₁.now_micros s₁).0;
        defer_parsing_till = defer_till;
        draining = false;
      }
  take_input timeout (s, defer_till) =
      let delta = delta_time (get_next_event s.manager.sorted_events) defer_till s.now_micros in
      record {
        sim = record s { now_micros = max_ℤ s.now_micros (s.now_micros +ℤ delta) };
        defer_parsing_till = defer_till;
        draining = true;
      }

  abbrev pub drain : Loop D N K → Option (Simulator D N K) → Loop D N K
  drain l none = record l { draining = false }
  drain l (some s) = record l { sim = s }

  -- A step of the loop. The input is used where the loop waits for it.
  unfoldable pub step : Input → Loop D N K → Loop D N K
  step input l =
      if not l.sim.running
      then l
      else if l.draining
      then drain l (run_next l.sim)
      else take_input input (read_commands l.defer_parsing_till l.sim)

  unfoldable pub run : List Input → Loop D N K → Loop D N K
  run [] l = l
  run (input ∷ rest) l = run rest (step input l)
