-- ===== src/Tunnel.antt =====
-- src/tunnel: the routing broker and the parts that it is built from.
pub mod Protocol
pub mod Headers
pub mod Limits
pub mod Relay
pub mod Broker
pub mod Session
