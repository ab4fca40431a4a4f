-- ===== src/Node.antt =====
-- include/nb/tcp_socket.hpp and tcp_manager.hpp, with src/node/tcp_socket.cpp and tcp_manager.cpp: the
-- transport layer of a node. A pointer to a socket is its index in `allSockets_`, which only grows.
pub mod Socket
pub mod Manager
pub mod Delivery
pub mod Apps
pub mod Stack
