-- ===== src/EdgeAgent.antt =====
-- http_network_relay/edge_agent.py: the agent's side of the tunnel.
pub mod World
pub mod Streams
pub mod Hooks
pub mod Session
pub mod Tunnel
pub mod Release
pub mod Reconnect
pub mod Main
pub mod Arrival
pub mod Writing
pub mod Sample
mod Tests
