-- ===== src/Net/Transport.antt =====
-- include/nb/transport.hpp and src/net/transport.cpp: the transport segment, a header of twelve bytes
-- and a payload.
pub mod RoundTrip
use cpp_tcp.Base.{
  ℕ, ◌+◌, ◌-◌, Bool, not, ◌||◌, Option, none, some, List, ◌∷◌, ◌++◌, length, take, [], ltb, ◌==◌,
  if◌then◌else◌,
}
use cpp_tcp.Base.Int.{ℤ, pos, ltb_ℤ}
use cpp_tcp.Base.Bytes.{byte_of, shr, join32}

abbrev pub header_size : ℕ
header_size = 12

abbrev pub max_payload_size : ℕ
max_payload_size = 107

abbrev pub max_port_num : ℤ
max_port_num = pos 255

abbrev pub syn : ℤ
syn = pos 0

abbrev pub ack : ℤ
ack = pos 1

abbrev pub fin : ℤ
fin = pos 2

abbrev pub data_type : ℤ
data_type = pos 3

pub record Transport : Type 0 where
  pub src_port : ℤ
  pub dest_port : ℤ
  pub type : ℤ
  pub window : ℤ
  pub seq_num : ℤ
  pub payload : List ℕ

-- The constructor's test for illegal arguments.
unfoldable pub illegal : ℤ → ℤ → ℤ → ℕ → Bool
illegal src_port dest_port type size =
    ltb_ℤ src_port (pos 0)
    || ltb_ℤ max_port_num src_port
    || ltb_ℤ dest_port (pos 0)
    || ltb_ℤ max_port_num dest_port
    || ltb_ℤ type syn
    || ltb_ℤ data_type type
    || ltb max_payload_size size

-- The constructor.
unfoldable pub make : ℤ → ℤ → ℤ → ℤ → ℤ → List ℕ → Option Transport
make src_port dest_port type window seq_num payload =
    if illegal src_port dest_port type (length payload)
    then none
    else some (record {
      src_port = src_port;
      dest_port = dest_port;
      type = type;
      window = window;
      seq_num = seq_num;
      payload = payload;
    })

abbrev pub write_big_endian32 : List ℕ → ℤ → List ℕ
write_big_endian32 out v =
    out ++ (byte_of (shr v 24) ∷ byte_of (shr v 16) ∷ byte_of (shr v 8) ∷ byte_of v ∷ [])

unfoldable pub pack : Transport → List ℕ
pack t =
    write_big_endian32
      (write_big_endian32 (byte_of t.src_port ∷ byte_of t.dest_port ∷ byte_of t.type ∷ []) t.window)
      t.seq_num
    ++ (byte_of (pos (header_size + length t.payload)) ∷ t.payload)

-- An input that is shorter than the header is refused.
unfoldable pub unpack : List ℕ → Option Transport
unpack (d0 ∷ d1 ∷ d2 ∷ d3 ∷ d4 ∷ d5 ∷ d6 ∷ d7 ∷ d8 ∷ d9 ∷ d10 ∷ packet_length ∷ rest) =
    if ltb packet_length header_size
      || not (header_size + (packet_length - header_size) == header_size + length rest)
    then none
    else make (pos d0) (pos d1) (pos d2) (join32 d3 d4 d5 d6) (join32 d7 d8 d9 d10)
        (take (packet_length - header_size) rest)
unpack _ = none
