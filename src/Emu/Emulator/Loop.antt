-- ===== src/Emu/Emulator/Loop.antt =====
-- Emulator::start and pollIO of src/emu/emulator.cpp. A step of the model is one round of the inner
-- loop over the events that are due, or the rest of a round of the outer loop up to its inner loop in
-- the next one. What the clock, `poll` and the sockets give in a round is its input, and the n-th read
-- of the socket to Trawler gives `arrives n`. The node is a parameter, as for the simulator.
pub mod Waiting
use cpp_tcp.Base.{
  ℕ, suc, Bool, true, false, not, ◌&&◌, ◌||◌, Option, none, some, List, [], ◌∷◌, ◌++◌,
  if◌then◌else◌,
}
use cpp_tcp.Base.Int.{ℤ, pos, minus_one, ltb_ℤ, ◌==ℤ◌, ◌+ℤ◌, ◌-ℤ◌, min_ℤ, max_ℤ, quot_ℤ}
use cpp_tcp.Base.Bytes.{int32_of}
use cpp_tcp.Base.Double.{DoubleOps}
use cpp_tcp.Base.Text.{TextOps, codes, bytes_eq}
use cpp_tcp.Net.Packet
use cpp_tcp.Core.EventQueue.{ScheduledEvent, get_next_event, remove_next_event}
use cpp_tcp.Core.Runtime.{RuntimeManager, add_timer, read_command_file}
use cpp_tcp.Sim.Parser.{Command, Hooks, token}
use cpp_tcp.Sim.Simulator.{NodeOps, Call, send, set_timer, spaced, pop_back}
use cpp_tcp.Emu.Emulator.{
  Emulator, Datagram, Callback, physical_send, node_timer, take_lines, drop_return, refresh_arp,
  process_udp_packet, physically_send, send_pkt, parse_line, handle_stdin_line,
}

-- The variables of the loop. `now_micros` is the clock at the top of the round, `draining`: the loop
-- over the events that are due is running, and `reads` counts the reads of the socket to Trawler.
pub record Loop (D N K : Type 0) : Type 0 where
  pub emu : Emulator D K
  pub node : N
  pub defer_parsing_till : ℤ
  pub now_micros : ℤ
  pub draining : Bool
  pub running : Bool
  pub reads : ℕ
  pub stdin_buf : List ℕ
  pub stdin_eof : Bool

-- What `poll` reports. `hung_up`: standard input has been closed.
pub record Poll : Type 0 where
  pub udp_ready : Bool
  pub stdin_ready : Bool
  pub hung_up : Bool

-- What comes from outside in a round: the clock when the wait is worked out, before it and behind it,
-- and at the top of the next round, what `poll` reports, if it is called and does so, the datagram
-- that can be received and the bytes of standard input, with its end.
pub record Input : Type 0 where
  pub wait_micros : ℤ
  pub poll_micros : ℤ
  pub after_micros : ℤ
  pub next_micros : ℤ
  pub polled : Option Poll
  pub datagram : Option Datagram
  pub typed : List ℕ
  pub typed_all : Bool

-- The line that Trawler has answered in the handshake. `none`: no number, or no address.
unfoldable pub read_assigned : {D : Type 0} → TextOps D → List ℕ → Option ℤ
read_assigned text line = elim (text.stoi line) [
  | none ↦ none
  | some addr ↦ if addr ==ℤ Packet.broadcast_address then none else some addr
]

-- The time up to which `poll` waits; -1 is for ever.
unfoldable pub wait_till : {C : Type 0} → Option (ScheduledEvent C) → ℤ → ℤ → ℤ
wait_till none defer_till clock = defer_till
wait_till (some next) defer_till clock =
    if defer_till ==ℤ minus_one
    then next.time_to_occur
    else if defer_till ==ℤ pos 0
    then clock
    else min_ℤ next.time_to_occur defer_till

unfoldable pub waits : ℤ → ℤ → Bool
waits till clock = till ==ℤ minus_one || ltb_ℤ clock till

-- The timeout in milliseconds that `pollIO` gives to `poll`.
unfoldable pub timeout_ms : ℤ → ℤ → ℤ
timeout_ms deadline clock =
    let delta = deadline -ℤ clock in
    if deadline ==ℤ minus_one
    then minus_one
    else int32_of (quot_ℤ ((if ltb_ℤ delta (pos 0) then pos 0 else delta) +ℤ pos 999) (pos 1000))

module _ {D N K : Type 0} (double : DoubleOps D) (text : TextOps D) (draws : ℕ → D)
    (ops : NodeOps N K) (arrives : ℕ → List ℕ) where
  unfoldable pub refresh : Loop D N K → Loop D N K
  refresh l = record l {
    emu = refresh_arp double text (arrives l.reads) l.emu;
    reads = suc l.reads;
  }

  -- A packet of the node. The node catches what `sendPkt` throws.
  abbrev pub after_send : Loop D N K → Option (Emulator D K × Bool) → Loop D N K
  after_send l none = l
  after_send l (some (e, sent)) = record l { emu = e; reads = suc l.reads }

  -- The calls that the node has made at a time, in their order.
  unfoldable pub perform : ℤ → List (Call K) → Loop D N K → Loop D N K
  perform clock [] l = l
  perform clock (send from to pkt ∷ calls) l =
      perform clock calls
        (after_send l (send_pkt double text draws (arrives l.reads) clock from to pkt l.emu))
  perform clock (set_timer delta k ∷ calls) l = perform clock calls (record l {
    emu = record l.emu {
      manager = add_timer (quot_ℤ clock (pos 1000)) delta (some (node_timer k)) l.emu.manager;
    };
  })

  unfoldable pub act : ℤ → (N → N × List (Call K)) → Loop D N K → Loop D N K
  act clock f l = let (n, calls) = f l.node in perform clock calls (record l { node = n })

  -- Emulator::sendNodeMsg
  unfoldable pub send_node_msg : ℤ → List ℕ → Loop D N K → Loop D N K
  send_node_msg clock msg l = act clock (ops.on_command (quot_ℤ clock (pos 1000)) msg) l

  -- The hooks of EmulationCommandsParser. It has no commands for a topology. `stop` ends the program:
  -- nothing runs afterwards.
  abbrev pub emulation_hooks : ℤ → Hooks D (Loop D N K)
  emulation_hooks clock = record {
    exit_cmd =
        λ cmd l. if bytes_eq (token 0 cmd) (codes "exit") then record l { running = false } else l;
    parse_node_cmd = λ cmd l. send_node_msg clock (pop_back (spaced cmd)) l;
    create_new_edge = λ a b options l. l;
    fail_edge_hook = λ a b l. l;
    fail_node_hook = λ a l. l;
    restart_edge_hook = λ a b l. l;
    restart_node_hook = λ a l. l;
    print = λ bytes l. l;
  }

  -- The parser, as the command file calls it on the manager, and the state joined again.
  abbrev pub parse_with :
      ℤ
      → List ℕ
      → ℤ
      → RuntimeManager (Callback K)
      → Loop D N K
      → RuntimeManager (Callback K) × Loop D N K × ℤ
  parse_with clock line now_micros m l =
      let (l', r) =
        parse_line double text (emulation_hooks clock) line now_micros
          (record l { emu = record l.emu { manager = m } }) in
      (l'.emu.manager, l', r)

  abbrev pub rejoin : RuntimeManager (Callback K) × Loop D N K × ℤ → Loop D N K
  rejoin (m, l, r) = record l { emu = record l.emu { manager = m }; defer_parsing_till = r }

  -- The top of a round: a line of the command file, if its time has come.
  unfoldable pub begin_round : ℤ → Loop D N K → Loop D N K
  begin_round clock l = rejoin (
      read_command_file (parse_with clock) (quot_ℤ clock (pos 1000)) l.defer_parsing_till
        l.emu.manager (record l { now_micros = clock; draining = true }))

  -- The node is made and started, and the loop is entered.
  unfoldable pub start : ℤ → ℤ → Emulator D K → Loop D N K
  start clock first_micros e = begin_round first_micros (
      act clock (ops.start_node (quot_ℤ clock (pos 1000))) (record {
        emu = e;
        node = ops.create e.assigned_node_id;
        defer_parsing_till = pos 0;
        now_micros = clock;
        draining = true;
        running = true;
        reads = 0;
        stdin_buf = [];
        stdin_eof = false;
      }))

  unfoldable pub run_callback : ℤ → Callback K → Loop D N K → Loop D N K
  run_callback clock (physical_send d) l = record l {
    emu = physically_send double text draws d l.emu;
  }
  run_callback clock (node_timer k) l = act clock (ops.on_timer (quot_ℤ clock (pos 1000)) k) l

  -- One round of the inner loop, which ends where no event is due at the top of the round.
  abbrev pub run_first :
      Option (ScheduledEvent (Callback K) × List (ScheduledEvent (Callback K)))
      → ℤ
      → Loop D N K
      → Loop D N K
  run_first none clock l = record l { draining = false }
  run_first (some (event, rest)) clock l =
      if ltb_ℤ l.now_micros event.time_to_occur
      then record l { draining = false }
      else run_callback clock event.callback (record l {
        emu = record l.emu { manager = record l.emu.manager { sorted_events = rest } };
      })

  -- A datagram, if one has been announced and can be received.
  unfoldable pub take_datagram : ℤ → Bool → Option Datagram → Loop D N K → Loop D N K
  take_datagram clock false datagram l = l
  take_datagram clock true none l = l
  take_datagram clock true (some d) l =
      let (e, received) = process_udp_packet d l.emu in
      let l' : Loop D N K = record l { emu = e } in
      elim received [
        | none ↦ l'
        | some (from, pkt) ↦ act clock (ops.on_receive (quot_ℤ clock (pos 1000)) pkt) l'
      ]

  unfoldable pub handle_lines : ℤ → List (List ℕ) → Loop D N K → Loop D N K
  handle_lines clock [] l = l
  handle_lines clock (line ∷ lines) l =
      handle_lines clock lines
        (handle_stdin_line double text (emulation_hooks clock) (drop_return line) clock l)

  -- Standard input, if it has been announced: what can be read of it, and the lines in that.
  unfoldable pub take_typed : ℤ → Bool → List ℕ → Bool → Loop D N K → Loop D N K
  take_typed clock false typed all l = l
  take_typed clock true typed all l =
      let (lines, rest) = take_lines [] (l.stdin_buf ++ typed) in
      handle_lines clock lines (record l { stdin_buf = rest; stdin_eof = all || l.stdin_eof })

  -- The report of `poll`, if the loop waits. Closed input is not asked about again.
  abbrev pub report : Bool → Option Poll → Poll
  report false polled = record { udp_ready = false; stdin_ready = false; hung_up = false }
  report true none = record { udp_ready = false; stdin_ready = false; hung_up = false }
  report true (some p) = p

  -- The rest of a round, behind its inner loop, and the top of the next one.
  unfoldable pub finish_round : Input → Loop D N K → Loop D N K
  finish_round input l =
      let till =
        wait_till (get_next_event l.emu.manager.sorted_events) l.defer_parsing_till
          input.wait_micros in
      let p = report (waits till input.poll_micros) input.polled in
      let l₁ : Loop D N K = record l { stdin_eof = l.stdin_eof || p.hung_up } in
      let l₂ = take_datagram input.after_micros p.udp_ready input.datagram (refresh l₁) in
      let l₃ =
        take_typed input.after_micros (p.stdin_ready && not l.stdin_eof) input.typed input.typed_all
          l₂ in
      if l₃.running then begin_round input.next_micros l₃ else l₃

  unfoldable pub step : Input → Loop D N K → Loop D N K
  step input l =
      if not l.running
      then l
      else if l.draining
      then run_first (remove_next_event l.emu.manager.sorted_events) input.after_micros l
      else finish_round input l

  unfoldable pub run : List Input → Loop D N K → Loop D N K
  run [] l = l
  run (input ∷ rest) l = run rest (step input l)
