-- ===== src/Sim/Simulator/Order.antt =====
-- The queue, the clock and the nodes of the simulator: what its nodes keep holds of all of them.
use cpp_tcp.Base.{
  ℕ, zero, suc, Bool, true, Option, none, some, List, [], ◌∷◌, length, ltb, get_elem?, set, All,
  All-set, All-get_elem?, Bool-cases, Option-cases, inl, inr,
}
use cpp_tcp.Base.Int.{ℤ, pos, pos_part, minus_one, ◌+ℤ◌, ◌*ℤ◌, ◌≤ℤ◌, ltb_ℤ, leb_ℤ, ◌==ℤ◌}
use cpp_tcp.Base.Double.{DoubleOps}
use cpp_tcp.Base.Text.{TextOps, codes, bytes_eq}
use cpp_tcp.Core.EventQueue.Order.{IsSorted, add_event-IsSorted}
use cpp_tcp.Core.Runtime
use cpp_tcp.Net.Packet
use cpp_tcp.Sim.Simulator.Unicast.{counted}
use cpp_tcp.Core.Runtime.{RuntimeManager, Stats, add_timer, add_timer_at, add_event_at_micros}
use cpp_tcp.Sim.Edge.{Edge, default_options, schedule_pkt}
use cpp_tcp.Sim.Topology.{get_live_edge}
use cpp_tcp.Sim.Parser.{Command, token, parse_remainder}
use cpp_tcp.Sim.Parser.Keeping.{Keeps, parse_line-keeps, parse_remainder-keeps}
use cpp_tcp.Sim.Simulator.{
  Call, send, set_timer, NodeOps, Callback, deliver, parse_rest, fires, Simulator, now,
  is_node_addr_valid, or_same, add_delivery, after_schedule, send_over, send_to, broadcast, route,
  send_pkt, perform, act, deliver_pkt, send_node_msg, parse_node_cmd, exit_cmd, simulation_hooks,
  parse_topo, defer_rest, parse_rest_of_topo_file,
}

module _ {K : Type 0} where
  add_event_at_micros-IsSorted :
      (due : ℤ) (c : Callback K) (m : RuntimeManager (Callback K))
      → IsSorted m.sorted_events
      → IsSorted (add_event_at_micros due (some c) m).sorted_events
  unfolding add_event_at_micros
  add_event_at_micros-IsSorted due c m h = elim (Bool-cases (ltb_ℤ due (pos 0))) [
    | inl e ↦ rw e h
    | inr e ↦
        rw e (add_event-IsSorted (record { time_to_occur = due; callback = c }) m.sorted_events h)
  ]

-- Every new node has this property, and no operation of a node takes it away.
pub record KeepsNode {N K : Type 0} (P : N → Type 0) (ops : NodeOps N K) : Type 0 where
  pub created : (addr : ℤ) → P (ops.create addr)
  pub started : (now : ℤ) (n : N) → P n → P (ops.start_node now n).0
  pub received : (now : ℤ) (bytes : List ℕ) (n : N) → P n → P (ops.on_receive now bytes n).0
  pub commanded : (now : ℤ) (msg : List ℕ) (n : N) → P n → P (ops.on_command now msg n).0
  pub timed : (now : ℤ) (k : K) (n : N) → P n → P (ops.on_timer now k n).0

module _ {D N K : Type 0} (P : N → Type 0) where
  -- The queue is sorted, it is this time or later, and every node has the property.
  abbrev pub Ordered : ℤ → Simulator D N K → Type 0
  Ordered t s = IsSorted s.manager.sorted_events × (t ≤ℤ s.now_micros) × All P s.nodes

  -- Where the call returns, its state is ordered.
  abbrev OrderedResult : ℤ → Option (Simulator D N K × Bool) → Type 0
  OrderedResult t none = Unit {0}
  OrderedResult t (some (s, b)) = Ordered t s

  add_delivery-Ordered :
      (t : ℤ) (from to : ℤ) (pkt : List ℕ) (arrival : ℤ) (s : Simulator D N K)
      → Ordered t s
      → Ordered t (add_delivery from to pkt arrival s)
  unfolding add_delivery
  add_delivery-Ordered t from to pkt arrival s h = elim (Bool-cases (arrival ==ℤ minus_one)) [
    | inl e ↦ rw e h
    | inr e ↦
        rw e (add_event_at_micros-IsSorted arrival (deliver from to pkt) s.manager h.0, h.1, h.2)
  ]

  pub defer_rest-Ordered :
      (t : ℤ) (s : Simulator D N K) (rest : Option (List (List ℕ))) (till : ℤ)
      → Ordered t s
      → Ordered t (defer_rest (s, rest, till))
  defer_rest-Ordered t s rest till h = elim (Bool-cases (leb_ℤ (pos 0) till)) [
    | inl e ↦ rw e (add_event_at_micros-IsSorted till parse_rest s.manager h.0, h.1, h.2)
    | inr e ↦ rw e h
  ]

module _ {D N K : Type 0} (double : DoubleOps D) (draws : ℕ → D) (P : N → Type 0) where
  after_schedule-Ordered :
      (t from to : ℤ) (pkt : List ℕ) (s : Simulator D N K) (r : Edge D × Stats × ℤ)
      → Ordered P t s
      → Ordered P t (after_schedule double draws from to pkt s r)
  unfolding after_schedule
  after_schedule-Ordered t from to pkt s (edge, stats, arrival) h =
      add_delivery-Ordered P t from to pkt arrival _ h

  send_over-Ordered :
      (t from to : ℤ) (pkt : List ℕ) (s : Simulator D N K) (edge : Option (Edge D))
      → Ordered P t s
      → OrderedResult P t (send_over double draws from to pkt s edge)
  unfolding send_over
  send_over-Ordered t from to pkt s none h = h
  send_over-Ordered t from to pkt s (some e) h =
      elim (schedule_pkt double (draws s.drawn) from (pos (length pkt)) s.now_micros
          (e, s.manager.stats))
        as (λ o. OrderedResult P t (elim o [
          | none ↦ none
          | some r ↦ some (after_schedule double draws from to pkt s r, true)
        ])) [ none ↦ tt | some r ↦ after_schedule-Ordered t from to pkt s r h ]

  send_to-Ordered :
      (t from to : ℤ) (pkt : List ℕ) (s : Simulator D N K)
      → Ordered P t s
      → OrderedResult P t (send_to double draws from to pkt s)
  unfolding send_to
  send_to-Ordered t from to pkt s h =
      let found = get_live_edge (default_options double) from to s.topology in
      send_over-Ordered t from to pkt (record s { topology = found.0 }) found.1 h

  continue-Ordered :
      (t : ℤ) (o : Option (Simulator D N K × Bool))
      (f : Simulator D N K → Option (Simulator D N K × Bool))
      → OrderedResult P t o
      → ((s : Simulator D N K) → Ordered P t s → OrderedResult P t (f s))
      → OrderedResult P t (elim o [ none ↦ none | some (s', found) ↦ f s' ])
  continue-Ordered t none f h k = tt
  continue-Ordered t (some (s', found)) f h k = k s' h

  broadcast-Ordered :
      (left i : ℕ) (t from : ℤ) (pkt : List ℕ) (s : Simulator D N K)
      → Ordered P t s
      → OrderedResult P t (broadcast double draws left i from pkt s)
  unfolding broadcast
  broadcast-Ordered zero i t from pkt s h = h
  broadcast-Ordered (suc left) i t from pkt s h =
      continue-Ordered t (send_to double draws from (pos i) pkt s)
        (broadcast double draws left (suc i) from pkt) (send_to-Ordered t from (pos i) pkt s h)
        (broadcast-Ordered left (suc i) t from pkt)

  route-Ordered :
      (t from to : ℤ) (pkt : List ℕ) (s : Simulator D N K)
      → Ordered P t s
      → OrderedResult P t (route double draws from to pkt s)
  unfolding route
  route-Ordered t from to pkt s h = elim (Bool-cases (to ==ℤ Packet.broadcast_address)) [
    | inl e ↦ rw e (broadcast-Ordered (length s.nodes) 0 t from pkt s h)
    | inr e ↦ rw e (send_to-Ordered t from to pkt s h)
  ]

  send_pkt-Ordered :
      (t from to : ℤ) (pkt : List ℕ) (s : Simulator D N K)
      → Ordered P t s
      → OrderedResult P t (send_pkt double draws from to pkt s)
  unfolding send_pkt Runtime.send_pkt
  send_pkt-Ordered t from to pkt s h = elim (Bool-cases (Runtime.accepts from to pkt)) [
    | inl e ↦
        rw (e, send_pkt, OrderedResult)
          (route-Ordered t from to pkt (record s { manager = counted s.manager }) h)
    | inr e ↦ rw (e, send_pkt, OrderedResult) tt
  ]

  or_same-Ordered :
      (t : ℤ) (s : Simulator D N K) (o : Option (Simulator D N K × Bool))
      → Ordered P t s
      → OrderedResult P t o
      → Ordered P t (or_same double draws s o)
  or_same-Ordered t s none h k = h
  or_same-Ordered t s (some (s', b)) h k = k

  perform-Ordered :
      (i : ℕ) (t : ℤ) (calls : List (Call K)) (s : Simulator D N K)
      → Ordered P t s
      → Ordered P t (perform double draws i calls s)
  unfolding perform add_timer add_timer_at
  perform-Ordered i t [] s h = h
  perform-Ordered i t (send from to pkt ∷ calls) s h = perform-Ordered i t calls _ (
      or_same-Ordered t s (send_pkt double draws from to pkt s) h
        (send_pkt-Ordered t from to pkt s h))
  perform-Ordered i t (set_timer delta k ∷ calls) s h = perform-Ordered i t calls _ (
    add_event-IsSorted
        (record { time_to_occur = (now s +ℤ delta) *ℤ pos 1000; callback = fires i k })
        s.manager.sorted_events h.0,
    h.1,
    h.2,
  )

module _ {D N K : Type 0} (double : DoubleOps D) (draws : ℕ → D) (P : N → Type 0)
    (ops : NodeOps N K) (keeps : KeepsNode P ops) where
  pub act-Ordered :
      (t : ℤ) (i : ℕ) (f : N → N × List (Call K)) (s : Simulator D N K)
      → ((n : N) → P n → P (f n).0)
      → Ordered P t s
      → Ordered P t (act double draws ops i f s)
  unfolding act
  act-Ordered t i f s k h = elim (Option-cases (get_elem? s.nodes i)) [
    | inl e ↦ rw (e, act) h
    | inr (n, e) ↦
        rw (e, act)
          (perform-Ordered double draws P i t (f n).1 (record s { nodes = set s.nodes i (f n).0 })
            (h.0, h.1, All-set P s.nodes i (f n).0 h.2 (k n (All-get_elem? P s.nodes i n e h.2))))
  ]

  pub deliver_pkt-Ordered :
      (t from to : ℤ) (pkt : List ℕ) (s : Simulator D N K)
      → Ordered P t s
      → Ordered P t (deliver_pkt double draws ops from to pkt s)
  unfolding deliver_pkt
  deliver_pkt-Ordered t from to pkt s h = elim (Bool-cases (is_node_addr_valid to s)) [
    | inl e ↦
        rw e (
          act-Ordered t (pos_part to) (ops.on_receive (now s) pkt) s (keeps.received (now s) pkt) h)
    | inr e ↦ rw e h
  ]

  send_node_msg-Ordered :
      (t addr : ℤ) (msg : List ℕ) (s : Simulator D N K)
      → Ordered P t s
      → Ordered P t (send_node_msg double draws ops addr msg s).0
  unfolding send_node_msg
  send_node_msg-Ordered t addr msg s h = elim (Bool-cases (is_node_addr_valid addr s)) [
    | inl e ↦ rw e (
        act-Ordered t (pos_part addr) (ops.on_command (now s) msg) s (keeps.commanded (now s) msg)
          h)
    | inr e ↦ rw e h
  ]

  module _ (text : TextOps D) where
    parse_node_cmd-Ordered :
        (t : ℤ) (cmd : Command) (s : Simulator D N K)
        → Ordered P t s
        → Ordered P t (parse_node_cmd double draws ops text cmd s)
    unfolding parse_node_cmd
    parse_node_cmd-Ordered t cmd s h = elim (Bool-cases (ltb (length cmd) 2)) [
      | inl e ↦ rw e h
      | inr e ↦ elim (Option-cases (text.stoi (token 0 cmd))) [
        | inl n ↦ rw (e, n) h
        | inr (addr, n) ↦ rw (e, n) (send_node_msg-Ordered t addr _ s h)
      ]
    ]

    exit_cmd-Ordered :
        (t : ℤ) (cmd : Command) (s : Simulator D N K)
        → Ordered P t s
        → Ordered P t (exit_cmd double draws ops text cmd s)
    unfolding exit_cmd
    exit_cmd-Ordered t cmd s h = elim (Bool-cases (bytes_eq (token 0 cmd) (codes "exit"))) [
      | inl e ↦ rw e h
      | inr e ↦ rw e h
    ]

    hooks-Ordered : (t : ℤ) → Keeps (Ordered P t) (simulation_hooks double draws ops text)
    hooks-Ordered t = record {
      exits = exit_cmd-Ordered t;
      node_cmds = parse_node_cmd-Ordered t;
      new_edges = λ a b o s h. h;
      fail_edges = λ a b s h. h;
      fail_nodes = λ a s h. h;
      restart_edges = λ a b s h. h;
      restart_nodes = λ a s h. h;
      prints = λ bytes s h. h;
    }

    pub parse_topo-Ordered :
        (t : ℤ) (line : List ℕ) (micros : ℤ) (s : Simulator D N K)
        → Ordered P t s
        → Ordered P t (parse_topo double draws ops text line micros s).0
    parse_topo-Ordered t =
        parse_line-keeps double text (simulation_hooks double draws ops text) (Ordered P t)
          (hooks-Ordered t)

    pub parse_rest-Ordered :
        (t : ℤ) (s : Simulator D N K)
        → Ordered P t s
        → Ordered P t (parse_rest_of_topo_file double draws ops text s)
    unfolding parse_rest_of_topo_file
    parse_rest-Ordered t s h =
        let r = parse_remainder (parse_topo double draws ops text) s.now_micros s.topo_lines s in
        defer_rest-Ordered P t r.0 r.1 r.2 (
          parse_remainder-keeps (Ordered P t) (parse_topo double draws ops text)
            (parse_topo-Ordered t) s.now_micros s.topo_lines s h)
