-- ===== src/Net/EmulatorPacket.antt =====
-- include/nb/emulator_packet.hpp and src/net/emulator_packet.cpp: the datagram between emulators, a
-- header of three bytes and a network packet.
pub mod RoundTrip
use cpp_tcp.Base.{
  ℕ, ◌+◌, ◌-◌, ◌||◌, Option, none, some, List, ◌∷◌, length, take, ltb, if◌then◌else◌,
}
use cpp_tcp.Base.Int.{ℤ, pos}
use cpp_tcp.Base.Bytes.{byte_of}

abbrev pub header_size : ℕ
header_size = 3

abbrev pub max_packet_size : ℕ
max_packet_size = 131

pub record EmulatorPacket : Type 0 where
  pub dest_addr : ℤ
  pub src_addr : ℤ
  pub payload : List ℕ

-- The constructor.
unfoldable pub make : ℤ → ℤ → List ℕ → Option EmulatorPacket
make dest_addr src_addr payload =
    if ltb max_packet_size (header_size + length payload)
    then none
    else some (record { dest_addr = dest_addr; src_addr = src_addr; payload = payload })

unfoldable pub pack : EmulatorPacket → List ℕ
pack p =
    byte_of p.dest_addr
    ∷ byte_of p.src_addr
    ∷ byte_of (pos (header_size + length p.payload))
    ∷ p.payload

-- An input that is shorter than the header is refused. The length byte may announce less than came.
unfoldable pub unpack : List ℕ → Option EmulatorPacket
unpack (d0 ∷ d1 ∷ packet_length ∷ rest) =
    if ltb packet_length header_size
      || ltb (header_size + length rest) (header_size + (packet_length - header_size))
    then none
    else make (pos d0) (pos d1) (take (packet_length - header_size) rest)
unpack _ = none
