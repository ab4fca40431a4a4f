-- ===== src/Net/EmulatorPacket/RoundTrip.antt =====
-- The wire format of datagrams: from datagrams to bytes and back.
use cpp_tcp.Base.{
  ℕ, ◌+◌, ◌-◌, ◌≤◌, ◌≡◌, some, List, ◌++◌, length, length-append, take-append_self, arith,
}
use cpp_tcp.Base.Int.{pos, ◌≤ℤ◌}
use cpp_tcp.Base.Bytes.{byte_of, byte_of_lem}
use cpp_tcp.Net.EmulatorPacket.{EmulatorPacket, make, pack, unpack, header_size, max_packet_size}

-- Two addresses that fit a byte, and a payload that is a network packet at most.
pub record IsEmulatorPacket (p : EmulatorPacket) : Type 0 where
  pub dest_nonneg : pos 0 ≤ℤ p.dest_addr
  pub dest_le : p.dest_addr ≤ℤ pos 255
  pub src_nonneg : pos 0 ≤ℤ p.src_addr
  pub src_le : p.src_addr ≤ℤ pos 255
  pub size_le : header_size + length p.payload ≤ max_packet_size

-- The bytes of a datagram with addresses from 0 to 255 and a payload of at most a network packet
-- are read back as that datagram, and bytes that follow it are ignored.
pub unpack-pack_datagram :
    (p : EmulatorPacket) (more : List ℕ) → IsEmulatorPacket p → unpack (pack p ++ more) ≡ some p
unfolding unpack pack make
unpack-pack_datagram p more h =
    let n : byte_of (pos (header_size + length p.payload)) ≡ header_size + length p.payload =
      omega (arith, h.size_le) in
    let m : header_size + length p.payload - header_size ≡ length p.payload = omega arith in
    rw
      (
        byte_of_lem p.dest_addr h.dest_nonneg h.dest_le,
        byte_of_lem p.src_addr h.src_nonneg h.src_le,
        n,
        m,
        take-append_self p.payload more,
      )
      (ground (arith, length-append p.payload more))
