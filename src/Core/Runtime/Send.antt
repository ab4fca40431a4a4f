-- ===== src/Core/Runtime/Send.antt =====
-- Which packets the manager's `send_pkt` accepts.
use cpp_tcp.Base.{◌≡◌, true, arith}
use cpp_tcp.Base.Int.{ℤ, pos, ◌<ℤ◌}
use cpp_tcp.Base.Bytes.{IsInt32}
use cpp_tcp.Net.Packet
use cpp_tcp.Net.Packet.{Packet}
use cpp_tcp.Net.Packet.RoundTrip.{IsPacket, IsPacket→is_valid, unpack-pack_packet}
use cpp_tcp.Core.Runtime.{accepts, sendable}

sendable-pack :
    (p : Packet) → IsPacket p → IsInt32 p.seq → pos 0 <ℤ p.ttl → sendable (Packet.pack p) ≡ true
unfolding sendable Packet.is_valid_to_send
sendable-pack p h s t = ground (arith, unpack-pack_packet p h s, IsPacket→is_valid p h)

-- A packet that the constructor accepts, with time to live left and a sequence number of 32 bits,
-- passes the manager's tests between any two valid addresses.
pub accepts-pack :
    (from to : ℤ) (p : Packet)
    → Packet.valid_address from ≡ true
    → Packet.valid_address to ≡ true
    → IsPacket p
    → IsInt32 p.seq
    → pos 0 <ℤ p.ttl
    → accepts from to (Packet.pack p) ≡ true
unfolding accepts Packet.pack
accepts-pack from to p hf ht h s t = ground (arith, sendable-pack p h s t)
