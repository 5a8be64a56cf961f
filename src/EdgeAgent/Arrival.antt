-- ===== src/EdgeAgent/Arrival.antt =====
-- What http_network_relay/network_relay.py sends for the bytes of a connection, and what
-- http_network_relay/edge_agent.py makes of it.
use http_network_relay.Prelude.{◌≡◌, refl, true, false, Text, Bool-cases, inl, inr}
use http_network_relay.Exception.{ok}
use http_network_relay.Frame.{encode_tcp_binary_frame, decode_tcp_binary_frame}
use http_network_relay.Frame.Hex.{Bytes, IsBytes}
use http_network_relay.Frame.Uuid.{IsUuid}
use http_network_relay.Frame.RoundTrip.{decode-encode}
use http_network_relay.Base64.{b64encode}
use http_network_relay.Base64.RoundTrip.{b64decode-b64encode}
use http_network_relay.Messages.{RelayToEdgeAgentMessage, Wire, text, binary}
use http_network_relay.Relay.World.{WebSocket, Connection, World, Env, Call, send_text, send_bytes}
use http_network_relay.Relay.Close.{send_locked}
use http_network_relay.Relay.Connection.{
  send_framed, send_connection_message, send_connection_binary,
}
use http_network_relay.EdgeAgent.World.{Agent, EdgeEnv}
use http_network_relay.EdgeAgent.Streams.{write_to_connection}
use http_network_relay.EdgeAgent.Session.{handle_message, handle_wire, parse_message}

-- The WebSocket message of a send.
pub data Sends (ws : WebSocket) : Call → Wire → Type 0 where
  as_text : (t : Text) → Sends ws (send_text ws t) (text t)
  as_bytes : (content : Bytes) → Sends ws (send_bytes ws content) (binary content)

-- The agent validates the TCP data messages that the relay dumps for one connection.
abbrev pub AgentAgrees : Env → EdgeEnv → Text → Type 0
AgentAgrees env edge id =
    (t : Text)
    → edge.from_relay.validate (env.to_agent.dump (RelayToEdgeAgentMessage.tcp_data id t))
      ≡ ok (RelayToEdgeAgentMessage.tcp_data id t)

-- One message of the relay, with what it is for the agent.
pub record Arrives (env : Env) (edge : EdgeEnv) (c : Connection) (content : Bytes) : Type 0 where
  pub call : Call
  pub wire : Wire
  pub sends : Sends c.agent_connection call wire
  -- the relay sends it, and nothing else
  pub sent : (w : World) → send_framed env c content w ≡ send_locked env c.agent_connection call w
  -- the agent writes the bytes to the connection
  pub handled :
      (ws : WebSocket) (a : Agent)
      → handle_wire edge ws wire a ≡ write_to_connection edge c.id content ws a

module _ (env : Env) (edge : EdgeEnv) where
  handle-binary :
      (id : Text) (content frame : Bytes) (ws : WebSocket) (a : Agent)
      → decode_tcp_binary_frame frame ≡ ok (id, content)
      → handle_wire edge ws (binary frame) a ≡ write_to_connection edge id content ws a
  unfolding handle_wire
  handle-binary id content frame ws a e = rw e

  handle-json :
      (id : Text) (content : Bytes) (ws : WebSocket) (a : Agent)
      → AgentAgrees env edge id
      → IsBytes content
      → handle_wire edge ws
          (text (env.to_agent.dump (RelayToEdgeAgentMessage.tcp_data id (b64encode content))))
          a
        ≡ write_to_connection edge id content ws a
  unfolding handle_wire handle_message parse_message
  handle-json id content ws a agree bytes =
      rw (agree (b64encode content), b64decode-b64encode content bytes)

  send-binary :
      (c : Connection) (content frame : Bytes) (w : World)
      → c.agent_supports_binary ≡ true
      → encode_tcp_binary_frame c.id content ≡ ok frame
      → send_framed env c content w
        ≡ send_locked env c.agent_connection (send_bytes c.agent_connection frame) w
  unfolding send_framed send_connection_binary send_locked
  send-binary c content frame w flag e = rw (flag, send_connection_binary, e) refl

  send-json :
      (c : Connection) (content : Bytes) (w : World)
      → c.agent_supports_binary ≡ false
      → send_framed env c content w
        ≡ send_locked env c.agent_connection
            (send_text c.agent_connection
              (env.to_agent.dump (RelayToEdgeAgentMessage.tcp_data c.id (b64encode content))))
            w
  unfolding send_framed send_connection_message
  send-json c content w flag = rw flag refl

  -- From the relay to the target: for a connection with a canonical id and any bytes, in either
  -- framing, the relay has one message to send to the agent, under the agent's lock, and the agent,
  -- if it validates what the relay dumps, writes exactly these bytes to the TCP connection.
  pub send_framed-Arrives :
      (c : Connection) (content : Bytes)
      → AgentAgrees env edge c.id
      → IsUuid c.id
      → IsBytes content
      → Arrives env edge c content
  send_framed-Arrives c content agree uuid bytes = elim (Bool-cases c.agent_supports_binary) [
    | inl flag ↦
        let (frame, encodes, _, decodes) = decode-encode c.id content uuid in
        record {
          call = send_bytes c.agent_connection frame;
          wire = binary frame;
          sends = as_bytes frame;
          sent = λ w. send-binary c content frame w flag encodes;
          handled = λ ws a. handle-binary c.id content frame ws a decodes;
        }
    | inr flag ↦
        let json = env.to_agent.dump (RelayToEdgeAgentMessage.tcp_data c.id (b64encode content)) in
        record {
          call = send_text c.agent_connection json;
          wire = text json;
          sends = as_text json;
          sent = λ w. send-json c content w flag;
          handled = λ ws a. handle-json c.id content ws a agree bytes;
        }
  ]
