-- ===== src/Lib.antt =====
-- NetBridge: a simulator and an emulator of small networks, with a TCP-like transport on every node.
--
-- The parts and how they interact. Applications call the methods of a `TcpSocket`. Its `TcpManager`
-- finds the socket of an arriving segment, packs what is sent into network packets and hands these to
-- the `RuntimeManager`, which also runs the timers that the manager asks for. The simulator carries a
-- packet over the edges of the `Topology`, each an `Edge` that paces, drops and loses, and queues its
-- arrival in the `OrderedEventQueue`; its loop runs the events in virtual time. Scripts of commands
-- change the topology, start the transfer applications on the nodes, and defer what follows. Trawler
-- gives the nodes of an emulation their addresses and tells them their neighbours by lines of text.
--
-- Which file models which code:
-- Net/Protocol, Net/Packet: include/nb/protocol.hpp, include/nb/packet.hpp, src/net/packet.cpp.
-- Net/Transport: include/nb/transport.hpp, src/net/transport.cpp.
-- Net/EmulatorPacket: include/nb/emulator_packet.hpp, src/net/emulator_packet.cpp.
-- Net/LinkState: include/nb/link_state.hpp, src/net/link_state.cpp.
-- Core/EventQueue: include/nb/ordered_event_queue.hpp, src/core/ordered_event_queue.cpp.
-- Core/Runtime: include/nb/runtime_manager.hpp, src/core/runtime_manager.cpp.
-- Sim/Edge: include/nb/edge.hpp, src/sim/edge.cpp, and src/emu/emulated_link.cpp.
-- Sim/Topology: include/nb/topology.hpp, src/sim/topology.cpp.
-- Node/Socket: the state of include/nb/tcp_socket.hpp, and the methods of src/node/tcp_socket.cpp
--   that touch nothing but the socket; Node/Manager/Connection: those that call the manager.
-- Node/Manager: the state, senders and registrations of src/node/tcp_manager.cpp;
--   Node/Manager/Receive: its handlers, from `receiveTransport` on; Node/Manager/Timer: `start` and
--   `retransmissionTick`; Node/Manager/Resending and its child: what that tick sends again; Node/Manager/Calls: the
--   calls that reach a manager, as data.
-- Sim/Parser: include/nb/commands_parser.hpp, src/sim/commands_parser.cpp; its virtual methods are a
--   record of hooks.
-- Sim/Simulator: include/nb/simulator.hpp, src/sim/simulator.cpp and
--   src/sim/simulation_commands_parser.cpp; Sim/Simulator/Loop: the constructor and `start`.
-- Sim/Console: src/sim/console_io_thread.cpp, its two threads as a step relation.
-- Node/Stack: src/node/stack_node.cpp, the dispatch of packets and the pings; Node/Stack/Commands: the
--   commands that start applications; Node/Stack/Process: a node with the tasks that it has started, as
--   the operations that the simulator and the emulator are given; Sim/Simulator/Network:
--   what the operations of such a node keep.
-- Node/Apps: src/apps, the periodic tasks and the client, server and workers of a transfer.
-- Emu/ArpCommands: src/emu/trawler_node_arp_commands.cpp.
-- Emu/Emulator: the table, the datagrams and the sending of src/emu/emulator.cpp, and
--   src/sim/emulation_commands_parser.cpp; Emu/Emulator/Loop: `start` and `pollIO`.
-- Emu/Trawler: src/emu/trawler_service.cpp and emulated_node.cpp, with the hooks of
--   src/sim/trawler_commands_parser.cpp; Emu/Trawler/Accept: the rounds of `run`.
-- Node/Delivery: one direction of a connection between two sockets, as a step relation.
-- Programs: src/main.cpp and src/trawler_main.cpp, from the arguments to the state that is started.
-- Base: numbers, bytes, text, lists and lookup tables. Tests: the theorems at concrete inputs.
--
-- How state and operations correspond. A function of the source keeps its name in snake case; a part
-- of one that stands alone is named for what it does. A class is a record of its fields, and a method
-- takes the record last and returns it with its result. `int`, `long` and `int64_t` are integers
-- without bounds, since the overflow of a signed number is undefined there; a cast to a byte keeps the
-- value modulo 256, and four bytes are read as a signed number of 32 bits. A constructor or a call
-- that throws `std::invalid_argument` returns `none`. A pointer to a socket is its index in
-- `allSockets_`, and an `unordered_map` is a list of pairs whose first entry with the key counts; the
-- order of the tick over the established sockets is the order of that list. What the manager asks of
-- the runtime manager is recorded as an effect: a packet sent, or a timer. The clock is read once in a
-- call. A draw of the random generator is an argument, and `double` with its operations is a
-- parameter, `DoubleOps`. So are the conversions between numbers and text, `TextOps` and `FormatOps`,
-- and, for the simulator and the emulator, what a node does, `NodeOps`, which Node/Stack/Process fills;
-- for Trawler, whether a line to a node is sent whole, `delivers`, and what is read of each new
-- connection, `Connection`. An open file is the list of its lines that are not read yet, and `opens`
-- gives the lines of a file by its name.
--
-- The loop of `write` runs on fuel, `len` + 1 rounds: each round takes at least one byte, and a result
-- of its own, `stuck`, stands for fuel that is used up.
--
-- A step of the simulator's loop is one round of the outer loop up to its inner loop, or one round of
-- the inner loop, so it needs no fuel; what was typed, and the time that passed, are its input. The
-- loop of an emulator is cut in the same way, and the clock, `poll` and the sockets are its input. The
-- digits of a double are sought over the precisions 1 to 17, as in the source.
--
-- Not modelled: logging and most of what is printed, ending the process, opening files, the making of
-- threads, locks and system sockets, the failure of a system call on a socket, the real time for which
-- the simulator waits, and the usage that the programs print.
pub mod Base
pub mod Net
pub mod Core
pub mod Sim
pub mod Node
pub mod Programs
pub mod Emu
pub mod Tests
