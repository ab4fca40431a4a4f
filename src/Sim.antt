-- ===== src/Sim.antt =====
-- include/nb/edge.hpp, edge_options.hpp, emulated_link.hpp and topology.hpp with their sources: the
-- links between nodes; commands_parser.hpp and simulator.hpp with theirs: scripts and virtual time.
pub mod Edge
pub mod Topology
pub mod Parser
pub mod Simulator
pub mod Console
