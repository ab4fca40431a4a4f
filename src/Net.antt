-- ===== src/Net.antt =====
-- The wire formats: include/nb/packet.hpp, transport.hpp, emulator_packet.hpp, link_state.hpp and
-- protocol.hpp, with src/net/*.cpp. Bytes are native numbers below 256; a constructor that throws
-- `std::invalid_argument` returns `none`.
pub mod Protocol
pub mod Packet
pub mod Transport
pub mod EmulatorPacket
pub mod LinkState
