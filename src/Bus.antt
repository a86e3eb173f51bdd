-- ===== src/Bus.antt =====
-- bus/bus.go, the publish and subscribe bus: tokens and topics, the trie of subscriptions and
-- retained messages, delivery into bounded channels, and the operations of a connection.
pub mod Topic
pub mod Trie
pub mod Channel
pub mod Broker
mod Tests
