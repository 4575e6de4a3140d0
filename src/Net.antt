-- ===== src/Net.antt =====
-- include/cppload/net and core/net: clients and the pool of connections.
pub mod Contract
pub mod Network
pub mod Pool
pub mod Protocol
pub mod HttpMessage
pub mod Http
pub mod Factory
pub mod Raw
pub mod Settled
pub mod Tests
pub mod WebSocket
