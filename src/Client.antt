-- ===== src/Client.antt =====
-- http_network_relay/access_client.py: the client that pipes its standard input and output through
-- the relay.
pub mod Session
pub mod Output
pub mod Input
pub mod Pipeline
pub mod Flow
pub mod Downstream
mod Tests
