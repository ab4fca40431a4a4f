-- ===== src/Emu/Emulator.antt =====
-- include/nb/emulator.hpp and src/emu/emulator.cpp: the table of the neighbours, fed by the lines of
-- Trawler and by the datagrams that arrive, and the sending of packets as datagrams. What the sockets
-- give is an argument, the datagrams handed to the socket are recorded in order, and the clock is an
-- argument. `draws` is the sequence of the random numbers.
pub mod Delivery
pub mod Lines
pub mod Loop
use cpp_tcp.Base.{
  ℕ, suc, ◌-◌, Bool, true, false, not, ◌||◌, Option, none, some, List, [], ◌∷◌, ◌++◌, length, ◌==◌,
  if◌then◌else◌,
}
use cpp_tcp.Base.Int.{ℤ, pos, minus_one, ltb_ℤ, leb_ℤ, rem_ℤ, ◌==ℤ◌, ◌+ℤ◌, ◌-ℤ◌}
use cpp_tcp.Base.Bytes.{u16_of}
use cpp_tcp.Base.Double.{DoubleOps}
use cpp_tcp.Base.Assoc.{find, insert, erase}
use cpp_tcp.Base.Text.{TextOps, bytes_eq, split_spaces}
use cpp_tcp.Net.EmulatorPacket
use cpp_tcp.Net.EmulatorPacket.{EmulatorPacket}
use cpp_tcp.Net.Packet
use cpp_tcp.Core.Runtime
use cpp_tcp.Core.Runtime.{RuntimeManager, Stats}
use cpp_tcp.Sim.Edge.{EdgeOptions, EmulatedLink, make_link, schedule_link_pkt}
use cpp_tcp.Sim.Parser.{Hooks, skip_line, parse_common_cmds}
use cpp_tcp.Emu.ArpCommands.{
  AddNeighborResult, receive_reset, receive_remove_neighbor, receive_add_neighbor,
}
use cpp_tcp.Emu.Trawler.{addr_eq}

pub record EmulatorArpData (D : Type 0) : Type 0 where
  pub ip_address : List ℕ
  pub udp_port : ℤ
  pub link : Option (EmulatedLink D)

-- Bytes for a host and a port.
pub record Datagram : Type 0 where
  pub bytes : List ℕ
  pub ip_address : List ℕ
  pub udp_port : ℤ

-- What the queue holds: the sending of a datagram, or a timer of the node.
pub data Callback (K : Type 0) : Type 0 where
  physical_send : Datagram → Callback K
  node_timer : K → Callback K

-- `trawler_buf` is the part of a line that has come, `sent` what went to the socket, the first one
-- first, and `drawn` counts the packets that a link has paced.
pub record Emulator (D K : Type 0) : Type 0 where
  pub manager : RuntimeManager (Callback K)
  pub assigned_node_id : ℤ
  pub trawler_buf : List ℕ
  pub arp : List (ℤ × EmulatorArpData D)
  pub sent : List Datagram
  pub drawn : ℕ

-- The lines that are complete, and what follows them. `line` is what has been passed since the last.
unfoldable pub take_lines : List ℕ → List ℕ → List (List ℕ) × List ℕ
take_lines line [] = ([], line)
take_lines line (c ∷ buf) =
    let (lines, rest) = take_lines [] buf in
    let more = take_lines (line ++ (c ∷ [])) buf in if c == 10 then (line ∷ lines, rest) else more

-- A carriage return at the end of a line is dropped.
abbrev pub drop_return : List ℕ → List ℕ
drop_return [] = []
drop_return (c ∷ []) = if c == 13 then [] else c ∷ []
drop_return (c ∷ d ∷ line) = c ∷ drop_return (d ∷ line)

module _ {D : Type 0} where
  abbrev pub link_of : Option (EdgeOptions D) → Option (EmulatedLink D)
  link_of none = none
  link_of (some options) = some (make_link options)

  abbrev pub or_added :
      Option (AddNeighborResult D) → List (ℤ × EmulatorArpData D) → List (ℤ × EmulatorArpData D)
  or_added none arp = arp
  or_added (some add) arp =
      if Packet.valid_address add.node_id
      then insert addr_eq add.node_id
          (record { ip_address = add.ip_address; udp_port = add.port; link = link_of add.options })
          arp
      else arp

module _ {D : Type 0} (double : DoubleOps D) (text : TextOps D) where
  -- A line from Trawler, without its end.
  unfoldable pub receive_line : List ℕ → List (ℤ × EmulatorArpData D) → List (ℤ × EmulatorArpData D)
  receive_line [] arp = arp
  receive_line (c ∷ line) arp =
      let rm = receive_remove_neighbor double text (c ∷ line) in
      if receive_reset (c ∷ line)
      then []
      else if leb_ℤ (pos 0) rm
      then erase addr_eq rm arp
      else or_added (receive_add_neighbor double text (c ∷ line)) arp

  unfoldable pub receive_lines :
      List (List ℕ) → List (ℤ × EmulatorArpData D) → List (ℤ × EmulatorArpData D)
  receive_lines [] arp = arp
  receive_lines (line ∷ lines) arp = receive_lines lines (receive_line (drop_return line) arp)

  -- `bytes` is what can be read from Trawler. A closed socket ends the program, which is left out.
  unfoldable pub refresh_arp : {K : Type 0} → List ℕ → Emulator D K → Emulator D K
  refresh_arp bytes e =
      let (lines, rest) = take_lines [] (e.trawler_buf ++ bytes) in
      record e { trawler_buf = rest; arp = receive_lines lines e.arp }

module _ {D : Type 0} where
  -- An entry is learned where there is none, or one with another host or port.
  unfoldable pub learn :
      ℤ → List ℕ → ℤ → List (ℤ × EmulatorArpData D) → List (ℤ × EmulatorArpData D)
  learn src ip port arp =
      let learned =
        insert addr_eq src (record { ip_address = ip; udp_port = port; link = none }) arp in
      elim (find addr_eq src arp) [
        | none ↦ learned
        | some entry ↦
            if not (bytes_eq entry.ip_address ip) || not (entry.udp_port ==ℤ port)
            then learned
            else arp
      ]

  -- A datagram has arrived. The second part is what `onReceive` of the node is called with.
  unfoldable pub process_udp_packet :
      {K : Type 0} → Datagram → Emulator D K → Emulator D K × Option (ℤ × List ℕ)
  process_udp_packet d e = elim (EmulatorPacket.unpack d.bytes) [
    | none ↦ (e, none)
    | some p ↦ (
      record e { arp = learn p.src_addr d.ip_address d.udp_port e.arp },
      if p.dest_addr ==ℤ e.assigned_node_id || p.dest_addr ==ℤ Packet.broadcast_address
          then some (p.src_addr, p.payload)
          else none,
    )
  ]

-- The size of the packet in a datagram.
abbrev pub inner_size : List ℕ → ℤ
inner_size pkt =
    let size = pos (length pkt) -ℤ pos EmulatorPacket.header_size in
    if ltb_ℤ size (pos 0) then pos (length pkt) else size

-- The next full millisecond.
abbrev pub round_up : ℤ → ℤ
round_up t =
    let usec_fraction = rem_ℤ t (pos 1000) in
    if not (usec_fraction ==ℤ pos 0) then t +ℤ (pos 1000 -ℤ usec_fraction) else t

module _ {D K : Type 0} (double : DoubleOps D) (text : TextOps D) (draws : ℕ → D) where
  -- `htons` takes a port of 16 bits. A host that is no address gets nothing.
  unfoldable pub physically_send : Datagram → Emulator D K → Emulator D K
  physically_send d e =
      if text.inet_pton d.ip_address
      then record e { sent = e.sent ++ (record d { udp_port = u16_of d.udp_port } ∷ []) }
      else e

  abbrev pub queue_pkt : Datagram → ℤ → Emulator D K → Emulator D K
  queue_pkt d time_to_deliver e = if time_to_deliver ==ℤ minus_one then e else record e {
    manager =
        Runtime.add_event_at_micros (round_up time_to_deliver) (some (physical_send d)) e.manager;
  }

  -- The pacing by the link of an entry.
  unfoldable pub send_paced :
      List ℕ → ℤ → ℤ → EmulatorArpData D → EmulatedLink D → Emulator D K → Emulator D K
  send_paced pkt dest_addr current_time entry link e =
      let (link', stats, time_to_deliver) =
        schedule_link_pkt double (draws e.drawn) (inner_size pkt) current_time
          (link, e.manager.stats) in
      queue_pkt (record { bytes = pkt; ip_address = entry.ip_address; udp_port = entry.udp_port })
        time_to_deliver
        (record e {
          manager = record e.manager { stats = stats };
          arp = insert addr_eq dest_addr (record entry { link = some link' }) e.arp;
          drawn = suc e.drawn;
        })

  unfoldable pub schedule_pkt : List ℕ → ℤ → ℤ → Emulator D K → Emulator D K
  schedule_pkt pkt current_time dest_addr e = elim (find addr_eq dest_addr e.arp) [
    | none ↦ e
    | some entry ↦ elim entry.link [
      | none ↦
          physically_send
            (record { bytes = pkt; ip_address = entry.ip_address; udp_port = entry.udp_port }) e
      | some link ↦ send_paced pkt dest_addr current_time entry link e
    ]
  ]

  -- The loop of a broadcast, over the addresses in the table.
  unfoldable pub schedule_all :
      List ℕ → ℤ → List (ℤ × EmulatorArpData D) → Emulator D K → Emulator D K
  schedule_all pkt current_time [] e = e
  schedule_all pkt current_time ((addr, entry) ∷ rest) e =
      schedule_all pkt current_time rest (schedule_pkt pkt current_time addr e)

  unfoldable pub send_packed : ℤ → ℤ → List ℕ → Emulator D K → Emulator D K × Bool
  send_packed current_time to payload e =
      if length payload == 0
      then (e, false)
      else if to ==ℤ Packet.broadcast_address
      then (schedule_all payload current_time e.arp e, true)
      else elim (find addr_eq to e.arp) [
        | none ↦ (e, false)
        | some entry ↦ (schedule_pkt payload current_time to e, true)
      ]

  -- What follows the tests of the runtime manager.
  abbrev pub send_accepted :
      List ℕ
      → ℤ
      → ℤ
      → ℤ
      → List ℕ
      → Emulator D K
      → Option (RuntimeManager (Callback K))
      → Option (Emulator D K × Bool)
  send_accepted bytes current_time from to pkt e none = none
  send_accepted bytes current_time from to pkt e (some manager) =
      let e' = refresh_arp double text bytes (record e { manager = manager }) in
      elim (EmulatorPacket.make to from pkt) [
        | none ↦ none
        | some epkt ↦ some (send_packed current_time to (EmulatorPacket.pack epkt) e')
      ]

  -- `bytes` is what can be read from Trawler by then. `none`: it throws.
  unfoldable pub send_pkt :
      List ℕ → ℤ → ℤ → ℤ → List ℕ → Emulator D K → Option (Emulator D K × Bool)
  send_pkt bytes current_time from to pkt e =
      send_accepted bytes current_time from to pkt e (Runtime.send_pkt from to pkt e.manager)

-- EmulationCommandsParser: only the commands that both kinds of program have. What `parseNodeCmd` and
-- `exitCmd` do is in the hooks.
module _ {D S : Type 0} (double : DoubleOps D) (text : TextOps D) (hooks : Hooks D S) where
  unfoldable pub parse_line : List ℕ → ℤ → S → S × ℤ
  parse_line line now_micros s =
      if skip_line line
      then (s, minus_one)
      else parse_common_cmds double text hooks (split_spaces line) now_micros s

  unfoldable pub handle_stdin_line : List ℕ → ℤ → S → S
  handle_stdin_line [] now_micros s = s
  handle_stdin_line (c ∷ line) now_micros s = (parse_line (c ∷ line) now_micros s).0
