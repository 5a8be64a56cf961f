-- ===== src/Relay.antt =====
-- http_network_relay/network_relay.py: the state of the relay, its methods, and what they keep.
pub mod World
pub mod Hooks
pub mod Guarantee
pub mod Invariant
pub mod Close
pub mod Connection
pub mod Agents
pub mod MsgLoop
pub mod Create
pub mod Register
pub mod AccessClients
pub mod Threads
pub mod Sending
pub mod Sample
mod Tests
