-- ===== src/Example.antt =====
-- The example programs: http_network_relay/network_relay_example.py and
-- http_network_relay/edge_agent_example.py.
pub mod Credentials
pub mod Registration
pub mod Clients
pub mod Harmless
pub mod Relay
pub mod Agent
pub mod Main
mod Tests
