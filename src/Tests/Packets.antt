-- ===== src/Tests/Packets.antt =====
-- Small packets, segments, datagrams and lists of neighbours.
use cpp_tcp.Base.{ℕ, ◌≡◌, refl, true, some, List, [], ◌∷◌, All, arith}
use cpp_tcp.Base.Int.{pos, negsuc}
use cpp_tcp.Base.Bytes.{IsByte, IsInt32}
use cpp_tcp.Net.Packet
use cpp_tcp.Net.Packet.{Packet}
use cpp_tcp.Net.Packet.RoundTrip.{IsPacket, unpack-pack_packet, pack-unpack_packet}
use cpp_tcp.Net.Transport
use cpp_tcp.Net.Transport.{Transport}
use cpp_tcp.Net.Transport.RoundTrip.{IsTransport, Fits, unpack-pack_segment, pack-unpack_segment}
use cpp_tcp.Net.LinkState
use cpp_tcp.Net.LinkState.{LinkState, get_neighbors-unpack-pack}
use cpp_tcp.Core.Runtime.{accepts}
use cpp_tcp.Core.Runtime.Send.{accepts-pack}

abbrev packet : Packet
packet = record {
  dest = pos 2;
  src = pos 1;
  ttl = pos 15;
  protocol = pos 4;
  seq = negsuc 0;
  payload = 7 ∷ 255 ∷ [];
}

packet-IsPacket : IsPacket packet
packet-IsPacket = record {
  dest_nonneg = omega arith;
  dest_le = omega arith;
  src_nonneg = omega arith;
  src_le = omega arith;
  ttl_nonneg = omega arith;
  ttl_le = omega arith;
  protocol_nonneg = omega arith;
  protocol_le = omega arith;
  size_le = omega arith;
}

packet_seq : IsInt32 packet.seq
packet_seq = (omega arith, omega arith)

abbrev packet_wire : List ℕ
packet_wire = 2 ∷ 1 ∷ 15 ∷ 4 ∷ 11 ∷ 255 ∷ 255 ∷ 255 ∷ 255 ∷ 7 ∷ 255 ∷ []

packet_bytes : All IsByte packet_wire
packet_bytes = ground arith

unpack-packet_wire : Packet.unpack packet_wire ≡ some packet
unfolding Packet.pack
unpack-packet_wire = unpack-pack_packet packet packet-IsPacket packet_seq

unpack-pack_packet_example : Packet.unpack (Packet.pack packet) ≡ some packet
unpack-pack_packet_example = unpack-pack_packet packet packet-IsPacket packet_seq

pack-unpack_packet_example : Packet.pack packet ≡ packet_wire
pack-unpack_packet_example = pack-unpack_packet packet_wire packet packet_bytes unpack-packet_wire

accepts-pack_example : accepts (pos 1) (pos 2) (Packet.pack packet) ≡ true
accepts-pack_example =
    accepts-pack (pos 1) (pos 2) packet refl refl packet-IsPacket packet_seq (omega arith)

abbrev segment : Transport
segment = record {
  src_port = pos 10;
  dest_port = pos 20;
  type = Transport.data_type;
  window = pos 32768;
  seq_num = negsuc 1;
  payload = 7 ∷ 255 ∷ [];
}

segment-IsTransport : IsTransport segment
segment-IsTransport = record {
  src_nonneg = omega arith;
  src_le = omega arith;
  dest_nonneg = omega arith;
  dest_le = omega arith;
  type_nonneg = omega arith;
  type_le = omega arith;
  size_le = omega arith;
}

segment-Fits : Fits segment
segment-Fits = ((omega arith, omega arith), (omega arith, omega arith))

abbrev segment_wire : List ℕ
segment_wire = 10 ∷ 20 ∷ 3 ∷ 0 ∷ 0 ∷ 128 ∷ 0 ∷ 255 ∷ 255 ∷ 255 ∷ 254 ∷ 14 ∷ 7 ∷ 255 ∷ []

segment_bytes : All IsByte segment_wire
segment_bytes = ground arith

unpack-segment_wire : Transport.unpack segment_wire ≡ some segment
unfolding Transport.pack
unpack-segment_wire = unpack-pack_segment segment segment-IsTransport segment-Fits

unpack-pack_segment_example : Transport.unpack (Transport.pack segment) ≡ some segment
unpack-pack_segment_example = unpack-pack_segment segment segment-IsTransport segment-Fits

pack-unpack_segment_example : Transport.pack segment ≡ segment_wire
pack-unpack_segment_example =
    pack-unpack_segment segment_wire segment segment_bytes unpack-segment_wire

get_neighbors-unpack-pack_example :
    (s : LinkState) × (LinkState.make (pos 3 ∷ pos 200 ∷ []) ≡ some s)
    × (LinkState.unpack (LinkState.pack s) ≡ some s)
    × (LinkState.get_neighbors s ≡ (pos 3 ∷ pos 200 ∷ []))
get_neighbors-unpack-pack_example =
    get_neighbors-unpack-pack (pos 3 ∷ pos 200 ∷ [])
      ((omega arith, omega arith), ((omega arith, omega arith), tt)) (omega arith)
