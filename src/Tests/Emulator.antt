-- ===== src/Tests/Emulator.antt =====
-- An emulator that is told of a neighbour by a line that comes in two pieces.
use cpp_tcp.Base.{ℕ, ◌*◌, ◌≡◌, refl, true, some, List, [], ◌∷◌, ◌++◌, arith}
use cpp_tcp.Base.Int.{ℤ, pos, ◌≤ℤ◌, ◌+ℤ◌, max_ℤ}
use cpp_tcp.Core.EventQueue.{ScheduledEvent}
use cpp_tcp.Base.Text.{codes}
use cpp_tcp.Core.Runtime
use cpp_tcp.Core.Runtime.{accepts, sendable}
use cpp_tcp.Net.Packet
use cpp_tcp.Emu.Emulator.{
  Emulator, take_lines, receive_lines, refresh_arp, process_udp_packet, send_pkt,
}
use cpp_tcp.Emu.Emulator.Delivery.{
  Knows, unpaced, datagram_for, refreshed, send_pkt-process_udp_packet,
}
use cpp_tcp.Emu.Emulator.Loop.{wait_till, waits, timeout_ms}
use cpp_tcp.Emu.Emulator.Loop.Waiting.{waits-Reaches}
use cpp_tcp.Emu.Emulator.Lines.{refresh_arp-append}
use cpp_tcp.Tests.{thousandths}
use cpp_tcp.Tests.Text.{decimal}

abbrev started : Emulator ℤ ℕ
started = record {
  manager = Runtime.init (pos 0);
  assigned_node_id = pos 3;
  trawler_buf = codes "ad";
  arp = [];
  sent = [];
  drawn = 0;
}

abbrev early : List ℕ
early = codes "d 7 10.0.0.1 50"

abbrev late : List ℕ
late = codes "00" ++ (10 ∷ codes "rem")

refresh_arp-append_example :
    refresh_arp thousandths decimal (early ++ late) started
    ≡ refresh_arp thousandths decimal late (refresh_arp thousandths decimal early started)
refresh_arp-append_example = refresh_arp-append thousandths decimal early late started

-- Two emulators, the first of which has an entry for the second, and a packet of two bytes.
abbrev knowing : Emulator ℤ ℕ
knowing = record started {
  trawler_buf = [];
  arp = (pos 2, unpaced (codes "10.0.0.2") (pos 5002)) ∷ [];
}

abbrev other : Emulator ℤ ℕ
other = record started { assigned_node_id = pos 2 }

abbrev pkt : List ℕ
pkt = 2 ∷ 1 ∷ 15 ∷ 4 ∷ 11 ∷ 0 ∷ 0 ∷ 0 ∷ 9 ∷ 7 ∷ 255 ∷ []

abbrev no_draws : ℕ → ℤ
no_draws n = pos 500

pkt_accepted : accepts (pos 1) (pos 2) pkt ≡ true
unfolding accepts sendable Packet.unpack Packet.is_valid_to_send Packet.make Packet.valid_fields
    Packet.is_valid
pkt_accepted = refl

send_pkt-process_udp_packet_example :
    let e = refreshed thousandths decimal no_draws [] knowing in
    let arrived =
      process_udp_packet (datagram_for (pos 1) (pos 2) pkt (codes "10.0.0.1") (pos 5001)) other in
    (send_pkt thousandths decimal no_draws [] (pos 7) (pos 1) (pos 2) pkt knowing
      ≡ some (
        record e { sent = datagram_for (pos 1) (pos 2) pkt (codes "10.0.0.2") (pos 5002) ∷ [] },
        true,
      ))
    × (arrived.1 ≡ some (pos 1, pkt))
    × Knows (pos 1) (codes "10.0.0.1") (pos 5001) arrived.0.arp
unfolding refresh_arp take_lines receive_lines
send_pkt-process_udp_packet_example =
    send_pkt-process_udp_packet thousandths decimal no_draws [] (pos 7) (pos 1) (pos 2) pkt
      (codes "10.0.0.2") (codes "10.0.0.1") (pos 5002) (pos 5001) knowing other pkt_accepted refl
      refl refl refl

-- An event 2.3 milliseconds ahead, and a command that is deferred for longer.
abbrev at_5000 : ScheduledEvent ℕ
at_5000 = record { time_to_occur = pos 5000; callback = 0 }

waits-Reaches_example :
    let till = wait_till (some at_5000) (pos 9000) (pos 2000) in
    (n : ℕ) × (timeout_ms till (pos 2700) ≡ pos n)
    × (pos 2700 +ℤ pos (n * 1000) ≤ℤ max_ℤ (pos 5000) (pos 2700) +ℤ pos 999)
    × (pos 0 ≤ℤ pos 9000 → pos 2700 +ℤ pos (n * 1000) ≤ℤ max_ℤ (pos 9000) (pos 2700) +ℤ pos 999)
    × (till ≤ℤ pos 2700 +ℤ pos (n * 1000))
unfolding wait_till waits ◌+ℤ◌
waits-Reaches_example =
    waits-Reaches at_5000 (pos 9000) (pos 2000) (pos 2500) (omega arith) (omega arith) (omega arith)
      (omega arith) (pos 2700) (omega arith) (omega arith) refl
