-- ===== src/Sim/Simulator/Clock.antt =====
-- The loop of the simulator: its queue, its clock and its nodes.
use cpp_tcp.Base.{
  ℕ, zero, suc, ◌≡◌, subst, Bool, true, false, not, ◌||◌, Option, none, some, List, [], ◌∷◌, length,
  All, if◌then◌else◌, Bool-cases, inl, inr, arith,
}
use cpp_tcp.Base.Int.{ℤ, pos, pos_part, minus_one, ◌+ℤ◌, ◌*ℤ◌, ◌≤ℤ◌, ltb_ℤ, leb_ℤ, max_ℤ, +ℤ_parts}
use cpp_tcp.Base.Double.{DoubleOps}
use cpp_tcp.Base.Text.{TextOps}
use cpp_tcp.Core.EventQueue.{ScheduledEvent, remove_next_event}
use cpp_tcp.Core.EventQueue.Order.{IsSorted}
use cpp_tcp.Core.Runtime
use cpp_tcp.Core.Runtime.{RuntimeManager, read_line, read_command_file}
use cpp_tcp.Sim.Parser.{parse_remainder, parse_file}
use cpp_tcp.Sim.Parser.Keeping.{parse_remainder-keeps}
use cpp_tcp.Sim.Simulator.{
  NodeOps, Callback, deliver, parse_rest, fires, Simulator, now, parse_topo, defer_rest,
  max_nodes_to_simulate,
}
use cpp_tcp.Sim.Simulator.Order.{
  KeepsNode, Ordered, act-Ordered, deliver_pkt-Ordered, parse_topo-Ordered, parse_rest-Ordered,
  defer_rest-Ordered,
}
use cpp_tcp.Sim.Simulator.Loop.{
  Input, line, timeout, Loop, create_nodes, blank, init, start_nodes, start, run_callback,
  run_first, run_next, parse_with, rejoin, read_commands, take_input, drain, step, run,
}

-- The time that passes before a line of input is not negative.
abbrev pub IsForward : Input → Type 0
IsForward (line text elapsed) = pos 0 ≤ℤ elapsed
IsForward timeout = Unit {0}

forward : (t now elapsed : ℤ) → t ≤ℤ now → pos 0 ≤ℤ elapsed → t ≤ℤ now +ℤ elapsed
forward t now elapsed h k = omega (arith, +ℤ_parts now elapsed)

le_max : (t a b : ℤ) → t ≤ℤ a → t ≤ℤ max_ℤ a b
le_max t a b h = ground arith

module _ {D N K : Type 0} (double : DoubleOps D) (draws : ℕ → D) (ops : NodeOps N K)
    (text : TextOps D) (P : N → Type 0) (keeps : KeepsNode P ops) where
  run_callback-Ordered :
      (t : ℤ) (c : Callback K) (s : Simulator D N K)
      → Ordered P t s
      → Ordered P t (run_callback double draws ops text c s)
  unfolding run_callback
  run_callback-Ordered t (deliver from to pkt) s h =
      deliver_pkt-Ordered double draws P ops keeps t from to pkt s h
  run_callback-Ordered t parse_rest s h = parse_rest-Ordered double draws P ops keeps text t s h
  run_callback-Ordered t (fires i k) s h =
      act-Ordered double draws P ops keeps t i (ops.on_timer (now s) k) s (keeps.timed (now s) k) h

  read_line-Ordered :
      (t micros : ℤ) (lines : List (List ℕ)) (s : Simulator D N K)
      → Ordered P t s
      → Ordered P t
          (rejoin double draws ops text
            (read_line (parse_with double draws ops text) micros lines s.manager s)).0
  read_line-Ordered t micros [] s h = h
  read_line-Ordered t micros (text_line ∷ rest) s h =
      parse_topo-Ordered double draws P ops keeps text t text_line (micros *ℤ pos 1000)
        (record s { manager = record s.manager { command_file = some rest } }) h

  -- Either branch of a test.
  if-Ordered :
      (t : ℤ) (b : Bool) (x y : RuntimeManager (Callback K) × Simulator D N K × ℤ)
      → Ordered P t (rejoin double draws ops text x).0
      → Ordered P t (rejoin double draws ops text y).0
      → Ordered P t (rejoin double draws ops text (if b then x else y)).0
  if-Ordered t true x y h k = h
  if-Ordered t false x y h k = k

  read_commands-Ordered :
      (t defer_till : ℤ) (s : Simulator D N K)
      → Ordered P t s
      → Ordered P t (read_commands double draws ops text defer_till s).0
  unfolding read_commands
  read_commands-Ordered t defer_till s h =
      let parse = parse_with double draws ops text in
      elim s.manager.command_file
        as (λ file.
          Ordered P t
            (rejoin double draws ops text (elim file [
              | none ↦ (s.manager, s, minus_one)
              | some lines ↦
                  if leb_ℤ defer_till (now s *ℤ pos 1000)
                  then read_line parse (now s) lines s.manager s
                  else (s.manager, s, defer_till)
            ])).0) [
              | none ↦ h
              | some lines ↦
                  if-Ordered t (leb_ℤ defer_till (now s *ℤ pos 1000)) _ _
                    (read_line-Ordered t (now s) lines s h) h
            ]

  take_input-Ordered :
      (t : ℤ) (input : Input) (s : Simulator D N K) (defer_till : ℤ)
      → IsForward input
      → Ordered P t s
      → Ordered P t (take_input double draws ops text input (s, defer_till)).sim
  unfolding take_input
  take_input-Ordered t (line user_input elapsed) s defer_till f h =
      parse_topo-Ordered double draws P ops keeps text t user_input (s.now_micros +ℤ elapsed)
        (record s { now_micros = s.now_micros +ℤ elapsed })
        (h.0, forward t s.now_micros elapsed h.1 f, h.2)
  take_input-Ordered t timeout s defer_till f h = (h.0, le_max t s.now_micros _ h.1, h.2)

  -- The first event of a sorted queue, and what is behind it.
  run_first-Ordered :
      (t : ℤ) (q : List (ScheduledEvent (Callback K))) (s : Simulator D N K) (l : Loop D N K)
      → IsSorted q
      → t ≤ℤ s.now_micros
      → All P s.nodes
      → Ordered P t l.sim
      → Ordered P t
          (drain double draws ops text l
            (run_first double draws ops text (remove_next_event q) s)).sim
  unfolding remove_next_event
  run_first-Ordered t [] s l q c n h = h
  run_first-Ordered t (e ∷ rest) s l (a, sorted) c n h =
      elim (Bool-cases (ltb_ℤ s.now_micros e.time_to_occur)) [
        | inl later ↦ rw later h
        | inr due ↦ rw due (
            run_callback-Ordered t e.callback
              (record s { manager = record s.manager { sorted_events = rest } }) (sorted, c, n))
      ]

  choice-Ordered :
      (t : ℤ) (b : Bool) (x y : Loop D N K)
      → Ordered P t x.sim
      → Ordered P t y.sim
      → Ordered P t (if b then x else y).sim
  choice-Ordered t true x y h k = h
  choice-Ordered t false x y h k = k

  step-Ordered :
      (t : ℤ) (input : Input) (l : Loop D N K)
      → IsForward input
      → Ordered P t l.sim
      → Ordered P t (step double draws ops text input l).sim
  unfolding step run_next
  step-Ordered t input l f h =
      let r = read_commands double draws ops text l.defer_parsing_till l.sim in
      let drained = drain double draws ops text l (run_next double draws ops text l.sim) in
      let next = take_input double draws ops text input r in
      choice-Ordered t (not l.sim.running) l (if l.draining then drained else next) h (
        choice-Ordered t l.draining drained next
          (run_first-Ordered t l.sim.manager.sorted_events l.sim l h.0 h.1 h.2 h)
          (take_input-Ordered t input r.0 r.1 f
            (read_commands-Ordered t l.defer_parsing_till l.sim h)))

  pub run-Ordered :
      (t : ℤ) (inputs : List Input) (l : Loop D N K)
      → All IsForward inputs
      → Ordered P t l.sim
      → Ordered P t (run double draws ops text inputs l).sim
  unfolding run
  run-Ordered t [] l f h = h
  run-Ordered t (input ∷ rest) l (f, fs) h =
      run-Ordered t rest (step double draws ops text input l) fs (step-Ordered t input l f h)

  start_nodes-Ordered :
      (left i : ℕ) (t : ℤ) (s : Simulator D N K)
      → Ordered P t s
      → Ordered P t (start_nodes double draws ops text left i s)
  unfolding start_nodes
  start_nodes-Ordered zero i t s h = h
  start_nodes-Ordered (suc left) i t s h = start_nodes-Ordered left (suc i) t _ (
      act-Ordered double draws P ops keeps t i (ops.start_node (now s)) s (keeps.started (now s)) h)

  pub start-Ordered :
      (s : Simulator D N K)
      → IsSorted s.manager.sorted_events
      → All P s.nodes
      → Ordered P (pos 1) (start double draws ops text s).sim
  unfolding start
  start-Ordered s h n =
      let r =
        start_nodes-Ordered (length s.nodes) 0 s.now_micros (record s { running = true })
          (h, omega arith, n) in
      (r.0, omega arith, r.2)

  create_nodes-All : (left i : ℕ) → All P (create_nodes double draws ops text left i)
  create_nodes-All zero i = tt
  create_nodes-All (suc left) i = (keeps.created (pos i), create_nodes-All left (suc i))

  -- The parts of a state at the start that `start` needs.
  pub init-Ordered :
      (n : ℤ) (file : Option (Option (List (List ℕ)))) (s : Simulator D N K)
      → init double draws ops text n file ≡ some s
      → IsSorted s.manager.sorted_events × All P s.nodes
  unfolding init parse_file Runtime.init
  init-Ordered n none s e =
      elim (Bool-cases (leb_ℤ n (pos 0) || ltb_ℤ (pos max_nodes_to_simulate) n)) [
        | inl bad ↦ let r : none ≡ some s = rw bad at e in absurd cc
        | inr ok ↦
            let r : some (blank double draws ops text (pos_part n)) ≡ some s = rw ok at e in
            let same : blank double draws ops text (pos_part n) ≡ s = cc in
            subst (λ s. IsSorted s.manager.sorted_events × All P s.nodes) same
              (tt, create_nodes-All (pos_part n) 0)
      ]
  init-Ordered n (some none) s e =
      elim (Bool-cases (leb_ℤ n (pos 0) || ltb_ℤ (pos max_nodes_to_simulate) n)) [
        | inl bad ↦ let r : none ≡ some s = rw bad at e in absurd cc
        | inr ok ↦ let r : none ≡ some s = rw ok at e in absurd cc
      ]
  init-Ordered n (some (some lines)) s e =
      elim (Bool-cases (leb_ℤ n (pos 0) || ltb_ℤ (pos max_nodes_to_simulate) n)) [
        | inl bad ↦ let r : none ≡ some s = rw bad at e in absurd cc
        | inr ok ↦
            let b = blank double draws ops text (pos_part n) in
            let parsed =
              parse_remainder (parse_topo double draws ops text) (pos 0) (some lines) b in
            let r : some (defer_rest parsed) ≡ some s = rw ok at e in
            let same : defer_rest parsed ≡ s = cc in
            let h =
              parse_remainder-keeps (Ordered P (pos 0)) (parse_topo double draws ops text)
                (parse_topo-Ordered double draws P ops keeps text (pos 0)) (pos 0) (some lines) b
                (tt, omega arith, create_nodes-All (pos_part n) 0) in
            let o = defer_rest-Ordered P (pos 0) parsed.0 parsed.1 parsed.2 h in
            subst (λ s. IsSorted s.manager.sorted_events × All P s.nodes) same (o.0, o.2)
      ]

  -- Let a property hold of every new node, and no operation of a node take it away. Then, whatever is
  -- typed in, with times that pass forward: from the start on, the queue is always sorted by time, the
  -- virtual clock never goes back, and every node has the property.
  pub run_clock :
      (n : ℤ) (file : Option (Option (List (List ℕ)))) (s : Simulator D N K)
      (before after : List Input)
      → init double draws ops text n file ≡ some s
      → All IsForward before
      → All IsForward after
      → let l = run double draws ops text before (start double draws ops text s) in
        IsSorted l.sim.manager.sorted_events
        × (l.sim.now_micros ≤ℤ (run double draws ops text after l).sim.now_micros)
        × All P l.sim.nodes
  run_clock n file s before after e f g =
      let l = run double draws ops text before (start double draws ops text s) in
      let i = init-Ordered n file s e in
      let h =
        run-Ordered (pos 1) before (start double draws ops text s) f (start-Ordered s i.0 i.1) in
      let k = run-Ordered l.sim.now_micros after l g (h.0, omega arith, h.2) in (h.0, k.1, h.2)
