-- ===== src/Core/Runtime.antt =====
-- include/nb/runtime_manager.hpp and src/core/runtime_manager.cpp: what the simulator and the
-- emulator share. The open command file is the list of its lines that are not read yet.
pub mod Send
use cpp_tcp.Base.{
  ℕ, suc, ◌+◌, Bool, true, false, not, ◌&&◌, ◌||◌, Option, none, some, List, [], ◌∷◌, ◌++◌, length,
  ltb, if◌then◌else◌,
}
use cpp_tcp.Base.Int.{ℤ, pos, minus_one, ◌+ℤ◌, ◌-ℤ◌, ◌*ℤ◌, ltb_ℤ, leb_ℤ, max_ℤ, quot_ℤ}
use cpp_tcp.Base.Text.{TextOps, codes}
use cpp_tcp.Net.Packet
use cpp_tcp.Core.EventQueue.{ScheduledEvent, add_event}

-- The counters that `stop` prints.
pub record Stats : Type 0 where
  pub pkts_sent : ℤ
  pub pkts_dropped : ℤ
  pub pkts_lost : ℤ

pub record RuntimeManager (C : Type 0) : Type 0 where
  pub sorted_events : List (ScheduledEvent C)
  pub stats : Stats
  pub start_ms : ℤ
  pub command_file : Option (List (List ℕ))

abbrev pub packet_dropped : Stats → Stats
packet_dropped s = record s { pkts_dropped = s.pkts_dropped +ℤ pos 1 }

abbrev pub packet_lost : Stats → Stats
packet_lost s = record s { pkts_lost = s.pkts_lost +ℤ pos 1 }

-- The bytes unpack to a packet that may be sent.
unfoldable pub sendable : List ℕ → Bool
sendable pkt = elim (Packet.unpack pkt) [ none ↦ false | some p ↦ Packet.is_valid_to_send p ]

-- The two tests before a packet is counted.
unfoldable pub accepts : ℤ → ℤ → List ℕ → Bool
accepts from to pkt =
    not (
      ltb Packet.max_packet_size (length pkt)
      || not (Packet.valid_address to)
      || not (Packet.valid_address from))
    && sendable pkt

module _ {C : Type 0} where
  -- The constructor.
  unfoldable pub init : ℤ → RuntimeManager C
  init start_micros = record {
    sorted_events = [];
    stats = record { pkts_sent = pos 0; pkts_dropped = pos 0; pkts_lost = pos 0 };
    start_ms = quot_ℤ start_micros (pos 1000);
    command_file = none;
  }

  -- A file that cannot be opened, `none`, changes nothing.
  unfoldable pub set_command_file : Option (List (List ℕ)) → RuntimeManager C → RuntimeManager C × ℤ
  set_command_file none m = (m, minus_one)
  set_command_file (some lines) m = (record m { command_file = some lines }, pos 0)

  -- What `stop` writes to `std::cerr`, at the time `now`, before it ends the program.
  unfoldable pub stop : {D : Type 0} → TextOps D → ℤ → RuntimeManager C → List ℕ
  stop text now m =
      codes "NetBridge exiting after time: "
      ++ (text.to_string (now -ℤ m.start_ms)
          ++ (codes " msec."
              ++ ((10 ∷ codes "Number of packets sent: ")
                  ++ (text.to_string m.stats.pkts_sent
                      ++ ((10 ∷ codes "Number of packets dropped: ")
                          ++ (text.to_string m.stats.pkts_dropped
                              ++ ((10 ∷ codes "Number of packets lost: ")
                                  ++ (text.to_string m.stats.pkts_lost ++ (10 ∷ [])))))))))

  -- `none`: it throws `std::invalid_argument`, and nothing has changed.
  unfoldable pub send_pkt : ℤ → ℤ → List ℕ → RuntimeManager C → Option (RuntimeManager C)
  send_pkt from to pkt m =
      if accepts from to pkt
      then some (record m { stats = record m.stats { pkts_sent = m.stats.pkts_sent +ℤ pos 1 } })
      else none

  -- An empty `std::function` is ignored.
  unfoldable pub add_timer_at : ℤ → Option C → RuntimeManager C → RuntimeManager C
  add_timer_at t_ms none m = m
  add_timer_at t_ms (some cb) m = record m {
    sorted_events =
        add_event (record { time_to_occur = t_ms *ℤ pos 1000; callback = cb }) m.sorted_events;
  }

  -- `now` is the virtual clock, in milliseconds.
  unfoldable pub add_timer : ℤ → ℤ → Option C → RuntimeManager C → RuntimeManager C
  add_timer now delta_ms cb m = add_timer_at (now +ℤ delta_ms) cb m

  unfoldable pub add_event_at_micros : ℤ → Option C → RuntimeManager C → RuntimeManager C
  add_event_at_micros time_micros none m = m
  add_event_at_micros time_micros (some cb) m = if ltb_ℤ time_micros (pos 0) then m else record m {
    sorted_events =
        add_event (record { time_to_occur = time_micros; callback = cb }) m.sorted_events;
  }

-- The parser is virtual, and its commands reach the manager and the nodes: `parse_line` and the rest
-- of the state, `S`, are parameters.
module _ {C S : Type 0}
    (parse_line : List ℕ → ℤ → RuntimeManager C → S → RuntimeManager C × S × ℤ) where
  -- std::getline on the open file: the next line, or the end, at which the file is dropped.
  abbrev pub read_line : ℤ → List (List ℕ) → RuntimeManager C → S → RuntimeManager C × S × ℤ
  read_line now [] m s = (record m { command_file = none }, s, minus_one)
  read_line now (line ∷ rest) m s =
      let (m', s', r) =
        parse_line line (now *ℤ pos 1000) (record m { command_file = some rest }) s in
      (m', s', max_ℤ r (pos 0))

  -- -1 once the file is used up, 0 where nothing is deferred, or the time to go on at.
  abbrev pub read_command_file : ℤ → ℤ → RuntimeManager C → S → RuntimeManager C × S × ℤ
  read_command_file now defer_till m s = elim m.command_file [
    | none ↦ (m, s, minus_one)
    | some lines ↦
        if leb_ℤ defer_till (now *ℤ pos 1000) then read_line now lines m s else (m, s, defer_till)
  ]
