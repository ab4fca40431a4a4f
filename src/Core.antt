-- ===== src/Core.antt =====
-- include/nb/runtime_manager.hpp, ordered_event_queue.hpp and scheduled_event.hpp, with src/core/*.cpp:
-- the event queue and the part that the simulator and the emulator share.
pub mod EventQueue
pub mod Runtime
