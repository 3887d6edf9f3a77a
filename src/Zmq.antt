-- ===== src/Zmq.antt =====
-- The ZeroMQ transport (fairmq/zeromq): its messages and its sockets.
pub mod Message
pub mod Socket
pub mod Containers
pub mod Peers
