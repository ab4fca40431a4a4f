-- ===== src/Tests/Simulation.antt =====
-- A simulator of two nodes and a link between them. A node adds two for each
-- packet that arrives.
use cpp_tcp.Base.{
  ℕ, suc, ◌%◌, ◌≡◌, All, refl, ◌↔◌, ◌⊎◌, Bool, true, false, none, some, List, [], ◌∷◌, arith, ap,
  ◌∙◌, subst,
}
use cpp_tcp.Base.Int.{ℤ, pos, minus_one, ◌+ℤ◌, ◌-ℤ◌, ◌*ℤ◌, ◌≤ℤ◌}
use cpp_tcp.Net.Packet
use cpp_tcp.Net.Packet.{Packet}
use cpp_tcp.Core.Runtime
use cpp_tcp.Core.Runtime.{RuntimeManager, accepts, sendable, add_timer, add_timer_at}
use cpp_tcp.Core.EventQueue.{ScheduledEvent, add_event, get_next_event, remove_next_event}
use cpp_tcp.Core.EventQueue.Order.{IsSorted}
use cpp_tcp.Sim.Edge.{Edge, make, default_options, is_edge}
use cpp_tcp.Sim.Edge.Pacing.{IsUsable}
use cpp_tcp.Sim.Topology
use cpp_tcp.Sim.Topology.{Topology, get_live_edge, live_only, get_edge, find_edge, is_node_alive}
use cpp_tcp.Sim.Simulator.{
  send, set_timer, NodeOps, Callback, fires, Simulator, now, send_pkt, act, perform,
}
use cpp_tcp.Sim.Simulator.Order.{KeepsNode}
use cpp_tcp.Sim.Simulator.Loop.{
  Input, timeout, Loop, init, start_nodes, start, run_callback, run_next, read_commands, take_input,
  step, run,
}
use cpp_tcp.Sim.Simulator.Sending.{send_pkt-eq_none}
use cpp_tcp.Sim.Simulator.Unicast.{Outcome, counted, send_pkt_unicast}
use cpp_tcp.Sim.Simulator.Clock.{run_clock}
use cpp_tcp.Sim.Simulator.Due.{AllLater, step-AllLater}
use cpp_tcp.Tests.{thousandths}
use cpp_tcp.Tests.Links.{options, options-IsUsable}
use cpp_tcp.Tests.Text.{decimal}

-- Each node sets a timer of 10 ms when it starts.
abbrev counting : NodeOps ℕ ℕ
counting = record {
  create = λ addr. 0;
  start_node = λ now n. (n, set_timer (pos 10) 1 ∷ []);
  on_receive = λ now pkt n. (suc (suc n), []);
  on_command = λ now msg n. (n, send (pos 0) (pos 1) msg ∷ []);
  on_timer = λ now k n. (n, []);
}

-- Every value that is drawn is 500.
abbrev draws : ℕ → ℤ
draws n = pos 500

abbrev ping : List ℕ
ping = Packet.pack (record {
  dest = pos 1;
  src = pos 0;
  ttl = pos 15;
  protocol = pos 0;
  seq = pos 0;
  payload = 7 ∷ [];
})

abbrev linked : Simulator ℤ ℕ ℕ
linked = record {
  manager = Runtime.init (pos 0);
  topology = record {
    edges = make (pos 0) (pos 1) options ∷ [];
    failed_nodes = [];
    all_to_all = false;
  };
  now_micros = pos 1;
  nodes = 0 ∷ 0 ∷ [];
  topo_lines = none;
  running = true;
  drawn = 0;
  out = [];
}

send_pkt-eq_none_example :
    (send_pkt thousandths draws (pos 0) (pos 1) ping linked ≡ none)
    ↔ (accepts (pos 0) (pos 1) ping ≡ false)
send_pkt-eq_none_example = send_pkt-eq_none thousandths draws (pos 0) (pos 1) ping linked

link_is : (e : Edge ℤ) → some (make (pos 0) (pos 1) options) ≡ some e → IsUsable e.options
link_is e h =
    let same : make (pos 0) (pos 1) options ≡ e = cc in
    subst (λ e. IsUsable e.options) same options-IsUsable

send_pkt_unicast_example :
    (((get_live_edge (default_options thousandths) (pos 0) (pos 1) linked.topology).1 ≡ none)
      × (s' : Simulator ℤ ℕ ℕ) × (send_pkt thousandths draws (pos 0) (pos 1) ping linked
          ≡ some (s', false))
      × (s'.manager ≡ counted linked.manager))
    ⊎ ((e : Edge ℤ) × ((get_live_edge
            (default_options thousandths)
            (pos 0)
            (pos 1)
            linked.topology).1
          ≡ some e)
        × (s' : Simulator ℤ ℕ ℕ) × (send_pkt thousandths draws (pos 0) (pos 1) ping linked
            ≡ some (s', true))
        × Outcome (pos 0) (pos 1) ping (pos 1) e.options (counted linked.manager) s'.manager)
unfolding accepts Packet.pack sendable Packet.unpack Packet.make Packet.valid_fields
    Packet.is_valid_to_send Packet.is_valid get_live_edge live_only get_edge find_edge is_edge
    is_node_alive
send_pkt_unicast_example =
    send_pkt_unicast thousandths draws (pos 0) (pos 1) ping linked (omega arith) refl refl link_is

abbrev two_nodes : Simulator ℤ ℕ ℕ
two_nodes = record {
  manager = Runtime.init (pos 0);
  topology = Topology.instance_of false none;
  now_micros = pos 0;
  nodes = 0 ∷ 0 ∷ [];
  topo_lines = none;
  running = false;
  drawn = 0;
  out = [];
}

-- The clock moves to the timers of the two nodes, both of which are run.
abbrev inputs : List Input
inputs = timeout ∷ timeout ∷ timeout ∷ []

abbrev after_timers : Loop ℤ ℕ ℕ
after_timers =
    run thousandths draws counting decimal inputs
      (start thousandths draws counting decimal two_nodes)

abbrev IsEven : ℕ → Type 0
IsEven n = n % 2 ≡ 0

counting-KeepsNode : KeepsNode IsEven counting
counting-KeepsNode = record {
  created = λ addr. refl;
  started = λ now n h. h;
  received = λ now bytes n h. omega arith;
  commanded = λ now msg n h. h;
  timed = λ now k n h. h;
}

run_clock_example :
    IsSorted after_timers.sim.manager.sorted_events
    × (after_timers.sim.now_micros
        ≤ℤ (run thousandths draws counting decimal (timeout ∷ []) after_timers).sim.now_micros)
    × All IsEven after_timers.sim.nodes
unfolding init
run_clock_example =
    run_clock thousandths draws counting decimal IsEven counting-KeepsNode (pos 2) none two_nodes
      inputs (timeout ∷ []) refl (tt, (tt, (tt, tt))) (tt, tt)

-- A simulator of one node once its loop is entered, with these events at this time.
abbrev at_time : List (ScheduledEvent (Callback ℕ)) → ℤ → ℤ → Bool → Loop ℤ ℕ ℕ
at_time events now_micros till draining = record {
  sim = record {
    manager = record {
      sorted_events = events;
      stats = record { pkts_sent = pos 0; pkts_dropped = pos 0; pkts_lost = pos 0 };
      start_ms = pos 0;
      command_file = none;
    };
    topology = record { edges = []; failed_nodes = []; all_to_all = false };
    now_micros = now_micros;
    nodes = 0 ∷ [];
    topo_lines = none;
    running = true;
    drawn = 0;
    out = [];
  };
  defer_parsing_till = till;
  draining = draining;
}

abbrev one_node : Simulator ℤ ℕ ℕ
one_node = record ((at_time [] (pos 0) (pos 0) false).sim) { running = false }

one_node-init : init thousandths draws counting decimal (pos 1) none ≡ some one_node
unfolding init Runtime.init Topology.instance_of Topology.init
one_node-init = refl

abbrev timer_event : ScheduledEvent (Callback ℕ)
timer_event = record { time_to_occur = pos 10000; callback = fires 0 1 }

one_node-start :
    start thousandths draws counting decimal one_node
    ≡ at_time (timer_event ∷ []) (pos 1) (pos 0) false
unfolding start start_nodes act perform add_timer add_timer_at now ◌+ℤ◌ ◌*ℤ◌ add_event
one_node-start = refl

first_step :
    step thousandths draws counting decimal timeout
      (at_time (timer_event ∷ []) (pos 1) (pos 0) false)
    ≡ at_time (timer_event ∷ []) (pos 10000) minus_one true
unfolding step read_commands take_input get_next_event ◌+ℤ◌ ◌-ℤ◌ now
first_step = refl

second_step :
    step thousandths draws counting decimal timeout
      (at_time (timer_event ∷ []) (pos 10000) minus_one true)
    ≡ at_time [] (pos 10000) minus_one true
unfolding step run_next remove_next_event run_callback act perform now
second_step = refl

two_steps :
    run thousandths draws counting decimal
      (timeout ∷ timeout ∷ [])
      (start thousandths draws counting decimal one_node)
    ≡ at_time [] (pos 10000) minus_one true
unfolding run
two_steps =
    let go = step thousandths draws counting decimal timeout in
    ap go (ap go one_node-start ∙ first_step) ∙ second_step

step-AllLater_example :
    AllLater thousandths draws counting decimal
      (step thousandths draws counting decimal timeout
        (at_time [] (pos 10000) minus_one true)).sim.now_micros
      (step thousandths draws counting decimal timeout
        (at_time [] (pos 10000) minus_one true)).sim.manager.sorted_events
unfolding step run_next remove_next_event
step-AllLater_example =
    step-AllLater thousandths draws counting decimal (pos 1) none one_node (timeout ∷ timeout ∷ [])
      timeout (at_time [] (pos 10000) minus_one true) one_node-init (tt, (tt, tt)) two_steps refl
      refl refl
