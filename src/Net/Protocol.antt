-- ===== src/Net/Protocol.antt =====
-- include/nb/protocol.hpp: the protocol numbers that a packet carries.
use cpp_tcp.Base.{Bool, ◌||◌}
use cpp_tcp.Base.Int.{ℤ, pos, ◌==ℤ◌}

abbrev pub ping_pkt : ℤ
ping_pkt = pos 0

abbrev pub ping_reply_pkt : ℤ
ping_reply_pkt = pos 1

abbrev pub link_info_pkt : ℤ
link_info_pkt = pos 2

abbrev pub name_pkt : ℤ
name_pkt = pos 3

abbrev pub transport_pkt : ℤ
transport_pkt = pos 4

abbrev pub is_valid : ℤ → Bool
is_valid protocol =
    protocol ==ℤ ping_pkt
    || protocol ==ℤ ping_reply_pkt
    || protocol ==ℤ link_info_pkt
    || protocol ==ℤ name_pkt
    || protocol ==ℤ transport_pkt
