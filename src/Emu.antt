-- ===== src/Emu.antt =====
-- src/emu: the side of the emulation, its text commands and the Trawler service.
pub mod ArpCommands
pub mod Emulator
pub mod Trawler
