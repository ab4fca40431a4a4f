-- ===== src/Net/Packet.antt =====
-- include/nb/packet.hpp and src/net/packet.cpp: the network packet, a header of nine bytes and a
-- payload.
pub mod RoundTrip
use cpp_tcp.Base.{
  ℕ, suc, ◌+◌, Bool, ◌&&◌, Option, none, some, List, [], ◌∷◌, ◌++◌, length, ◌==◌, if◌then◌else◌,
}
use cpp_tcp.Base.Int.{ℤ, pos, ltb_ℤ, leb_ℤ, ◌==ℤ◌}
use cpp_tcp.Base.Bytes.{byte_of, shr, join32}
use cpp_tcp.Net.Protocol

abbrev pub broadcast_address : ℤ
broadcast_address = pos 255

abbrev pub max_address : ℤ
max_address = pos 255

abbrev pub header_size : ℕ
header_size = 9

abbrev pub max_packet_size : ℕ
max_packet_size = 128

abbrev pub max_payload_size : ℕ
max_payload_size = 119

abbrev pub max_ttl : ℤ
max_ttl = pos 15

pub record Packet : Type 0 where
  pub dest : ℤ
  pub src : ℤ
  pub ttl : ℤ
  pub protocol : ℤ
  pub seq : ℤ
  pub payload : List ℕ

abbrev pub valid_address : ℤ → Bool
valid_address addr = leb_ℤ addr max_address && leb_ℤ (pos 0) addr

-- The private static test on the constructor's arguments.
unfoldable pub valid_fields : ℤ → ℤ → ℤ → ℤ → ℕ → Bool
valid_fields dest src ttl protocol size =
    leb_ℤ dest max_address
    && leb_ℤ (pos 0) dest
    && valid_address src
    && Protocol.is_valid protocol
    && leb_ℤ ttl max_ttl
    && leb_ℤ (pos 0) ttl
    && leb_ℤ (pos size) (pos max_packet_size)

-- The constructor.
unfoldable pub make : ℤ → ℤ → ℤ → ℤ → ℤ → List ℕ → Option Packet
make dest src ttl protocol seq payload =
    if valid_fields dest src ttl protocol (length payload + header_size)
    then some (record {
      dest = dest;
      src = src;
      ttl = ttl;
      protocol = protocol;
      seq = seq;
      payload = payload;
    })
    else none

unfoldable pub is_valid : Packet → Bool
is_valid p = valid_fields p.dest p.src p.ttl p.protocol (length p.payload + header_size)

unfoldable pub is_valid_to_send : Packet → Bool
is_valid_to_send p = is_valid p && ltb_ℤ (pos 0) p.ttl

unfoldable pub pack : Packet → List ℕ
pack p =
    byte_of p.dest
    ∷ byte_of p.src
    ∷ byte_of p.ttl
    ∷ byte_of p.protocol
    ∷ byte_of (pos (length p.payload + header_size))
    ∷ byte_of (shr p.seq 24)
    ∷ byte_of (shr p.seq 16)
    ∷ byte_of (shr p.seq 8)
    ∷ byte_of p.seq
    ∷ p.payload

-- An input that is shorter than the header is refused.
unfoldable pub unpack : List ℕ → Option Packet
unpack (d0 ∷ d1 ∷ d2 ∷ d3 ∷ d4 ∷ d5 ∷ d6 ∷ d7 ∷ d8 ∷ payload) =
    if header_size + length payload == d4
    then make (pos d0) (pos d1) (pos d2) (pos d3) (join32 d5 d6 d7 d8) payload
    else none
unpack _ = none
