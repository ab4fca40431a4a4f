-- ===== src/Net/Packet/RoundTrip.antt =====
-- The wire format of packets: from packets to bytes and back.
use cpp_tcp.Base.{ℕ, ◌+◌, ◌≤◌, ◌≡◌, ap, true, some, List, ◌∷◌, length, All, arith}
use cpp_tcp.Base.Int.{ℤ, pos, ◌≤ℤ◌}
use cpp_tcp.Base.Bytes.{
  IsByte, IsInt32, join32, byte_of_lem, join32-shr, shr-join32, join32-IsInt32,
}
use cpp_tcp.Net.Packet.{
  Packet, make, valid_fields, is_valid, pack, unpack, max_packet_size, header_size,
}

-- What the constructor guarantees of every packet.
pub record IsPacket (p : Packet) : Type 0 where
  pub dest_nonneg : pos 0 ≤ℤ p.dest
  pub dest_le : p.dest ≤ℤ pos 255
  pub src_nonneg : pos 0 ≤ℤ p.src
  pub src_le : p.src ≤ℤ pos 255
  pub ttl_nonneg : pos 0 ≤ℤ p.ttl
  pub ttl_le : p.ttl ≤ℤ pos 15
  pub protocol_nonneg : pos 0 ≤ℤ p.protocol
  pub protocol_le : p.protocol ≤ℤ pos 4
  pub size_le : length p.payload + header_size ≤ max_packet_size

pub is_valid→IsPacket : (p : Packet) → is_valid p ≡ true → IsPacket p
unfolding is_valid valid_fields
is_valid→IsPacket p h = ground arith

pub IsPacket→is_valid : (p : Packet) → IsPacket p → is_valid p ≡ true
unfolding is_valid valid_fields
IsPacket→is_valid p h = ground arith

pub make_lem :
    (p : Packet) → IsPacket p → make p.dest p.src p.ttl p.protocol p.seq p.payload ≡ some p
unfolding make is_valid
make_lem p h = rw (IsPacket→is_valid p h)

pub make-IsPacket :
    (dest src ttl protocol seq : ℤ) (payload : List ℕ) (p : Packet)
    → make dest src ttl protocol seq payload ≡ some p
    → IsPacket p
unfolding make valid_fields
make-IsPacket dest src ttl protocol seq payload p h = ground arith

pub make-fields :
    (dest src ttl protocol seq : ℤ) (payload : List ℕ) (p : Packet)
    → make dest src ttl protocol seq payload ≡ some p
    → p ≡ record {
      dest = dest;
      src = src;
      ttl = ttl;
      protocol = protocol;
      seq = seq;
      payload = payload;
    }
unfolding make
make-fields dest src ttl protocol seq payload p h = ground arith

-- The bytes of a packet that the constructor accepts, with a sequence number that fits 32 bits, are
-- read back as that packet.
pub unpack-pack_packet : (p : Packet) → IsPacket p → IsInt32 p.seq → unpack (pack p) ≡ some p
unfolding unpack pack
unpack-pack_packet p h hs =
    rw
      (
        byte_of_lem p.dest h.dest_nonneg h.dest_le,
        byte_of_lem p.src h.src_nonneg h.src_le,
        byte_of_lem p.ttl h.ttl_nonneg (omega arith),
        byte_of_lem p.protocol h.protocol_nonneg (omega arith),
        join32-shr p.seq hs,
        make_lem p h,
      )
      (ground arith)

unpack-cons :
    (d0 d1 d2 d3 d4 d5 d6 d7 d8 : ℕ) (payload : List ℕ) (p : Packet)
    → unpack (d0 ∷ d1 ∷ d2 ∷ d3 ∷ d4 ∷ d5 ∷ d6 ∷ d7 ∷ d8 ∷ payload) ≡ some p
    → (header_size + length payload ≡ d4)
      × (make (pos d0) (pos d1) (pos d2) (pos d3) (join32 d5 d6 d7 d8) payload ≡ some p)
unfolding unpack
unpack-cons d0 d1 d2 d3 d4 d5 d6 d7 d8 payload p h = ground arith

-- Whatever `unpack` accepts of a list of bytes is a packet within the bounds of the constructor,
-- with a 32-bit sequence number.
unpack-IsPacket :
    (bytes : List ℕ) (p : Packet)
    → All IsByte bytes
    → unpack bytes ≡ some p
    → IsPacket p × IsInt32 p.seq
unfolding unpack
unpack-IsPacket (d0 ∷ d1 ∷ d2 ∷ d3 ∷ d4 ∷ d5 ∷ d6 ∷ d7 ∷ d8 ∷ payload) p b h =
    let (_, e) = unpack-cons d0 d1 d2 d3 d4 d5 d6 d7 d8 payload p h in
    let m = make-fields _ _ _ _ _ _ p e in
    (
      make-IsPacket _ _ _ _ _ _ p e,
      rw (ap (λ (q : Packet). q.seq) m) (
          join32-IsInt32 d5 d6 d7 d8 b.1.1.1.1.1.0 b.1.1.1.1.1.1.0 b.1.1.1.1.1.1.1.0
            b.1.1.1.1.1.1.1.1.0),
    )
unpack-IsPacket _ p b h = cc

-- If `unpack` accepts a list of bytes, then `pack` of the result writes the very same list.
pub pack-unpack_packet :
    (bytes : List ℕ) (p : Packet) → All IsByte bytes → unpack bytes ≡ some p → pack p ≡ bytes
unfolding unpack pack
pack-unpack_packet (d0 ∷ d1 ∷ d2 ∷ d3 ∷ d4 ∷ d5 ∷ d6 ∷ d7 ∷ d8 ∷ payload) p b h =
    let (size, e) = unpack-cons d0 d1 d2 d3 d4 d5 d6 d7 d8 payload p h in
    rw (make-fields _ _ _ _ _ _ p e) (ground (arith, shr-join32 d5 d6 d7 d8))
pack-unpack_packet _ p b h = cc
