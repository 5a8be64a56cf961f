-- ===== src/EdgeAgent/Tunnel.antt =====
-- What http_network_relay/edge_agent.py sends for the bytes of a TCP connection, and what
-- http_network_relay/network_relay.py makes of it.
use http_network_relay.Prelude.{ℕ, ◌≡◌, true, some, Text, text_key, Bool-cases, inl, inr, ◌∙◌}
use http_network_relay.Prelude.Dict
use http_network_relay.Exception.{ok}
use http_network_relay.Frame.Hex.{Bytes, IsBytes}
use http_network_relay.Frame.Uuid.{IsUuid}
use http_network_relay.Frame.RoundTrip.{decode-encode}
use http_network_relay.Messages.{
  EdgeAgentToRelayMessage, RtEInitiateConnectionMessage, Wire, binary,
}
use http_network_relay.Relay.World.{World, Env, done, message}
use http_network_relay.Relay.Connection.{fill_recv, handle_tcp_binary_data}
use http_network_relay.Relay.MsgLoop.{handle_raw}
use http_network_relay.Relay.MsgLoop.Multiplex.{Carries, in_binary, in_json, handle_raw-Carries}
use http_network_relay.EdgeAgent.World.{EdgeEnv}
use http_network_relay.EdgeAgent.Streams.{frame_data}

-- The relay validates the TCP data messages that the agent dumps for one connection.
abbrev pub Agree : EdgeEnv → Env → Text → Type 0
Agree edge env id =
    (t : Text)
    → env.from_agent.validate (edge.to_relay.dump (EdgeAgentToRelayMessage.tcp_data id t))
      ≡ ok (EdgeAgentToRelayMessage.tcp_data id t)

handle-fill :
    (id : Text) (content : Bytes) (w : World) (address : ℕ)
    → Dict.lookup id w.active_relayed_connections ≡ some address
    → (handle_tcp_binary_data id content w).1 ≡ fill_recv address content w
unfolding handle_tcp_binary_data
handle-fill id content w address e = rw (handle_tcp_binary_data, e)

module _ (edge : EdgeEnv) (env : Env) (m : RtEInitiateConnectionMessage)
    (agree : Agree edge env m.connection_id) where
  pub frame_data-Carries :
      (content : Bytes)
      → IsUuid m.connection_id
      → IsBytes content
      → (wire : Wire) × (frame_data edge m content ≡ ok wire)
        × Carries env m.connection_id content (message wire)
  unfolding frame_data
  frame_data-Carries content u bytes = elim (Bool-cases m.supports_binary) [
    | inl b ↦
        let (frame, encodes, _, _) = decode-encode m.connection_id content u in
        (binary frame, rw (b, encodes), in_binary frame u encodes)
    | inr t ↦ (_, rw t, in_json _ bytes (agree _))
  ]

  -- From the target to the relay's buffer: for a canonical connection id and any bytes, in either
  -- framing, the agent has one message to send, and the relay, if it validates what the agent
  -- dumps and has the connection active, appends exactly these bytes to its buffer, sets its event
  -- and goes on with its loop.
  frame_data-handle_raw :
      (content : Bytes) (agent : Text) (w : World) (address : ℕ)
      → IsUuid m.connection_id
      → IsBytes content
      → Dict.lookup m.connection_id w.active_relayed_connections ≡ some address
      → (wire : Wire) × (frame_data edge m content ≡ ok wire)
        × (handle_raw env agent (message wire) w ≡ (done true, fill_recv address content w))
  frame_data-handle_raw content agent w address u bytes e =
      let (wire, sent, carried) = frame_data-Carries content u bytes in
      (
        wire,
        sent,
        handle_raw-Carries env agent m.connection_id content (message wire) w carried
            ∙ rw (handle-fill m.connection_id content w address e),
      )
