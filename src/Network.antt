-- ===== src/Network.antt =====
-- src/network: the messages between nodes, and what a node does with them.
pub mod Tracker
pub mod Node
