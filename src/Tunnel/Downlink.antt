-- ===== src/Tunnel/Downlink.antt =====
-- The relay (http_network_relay/network_relay.py) and the agent (http_network_relay/edge_agent.py)
-- at the two ends of their WebSocket, in the other direction. A step is what a task of one of the
-- two does, where the whole handling of a message by the agent is one step, whose awaits let the
-- agent's other tasks run.
use http_network_relay.Prelude.{◌≡◌, List, [], ◌∷◌, ◌++◌, some, Text, text_key}
use http_network_relay.Prelude.Dict
use http_network_relay.Frame.Hex.{Bytes, IsBytes}
use http_network_relay.Frame.Uuid.{IsUuid}
use http_network_relay.Exception.{ok}
use http_network_relay.Messages.{RelayToEdgeAgentMessage, RtEInitiateConnectionMessage, Wire, text}
use http_network_relay.Relay.World.{Env, Connection, WebSocket}
use http_network_relay.EdgeAgent.World.{Agent, EdgeEnv, Stream}
use http_network_relay.EdgeAgent.Session.{handle_wire}
use http_network_relay.EdgeAgent.Arrival.{AgentAgrees, send_framed-Arrives}
use http_network_relay.EdgeAgent.Writing.{written}
use http_network_relay.Tunnel.{joined_to}

-- `down` is what the relay has sent and the agent has not received, oldest first, and `given` is
-- what the connection objects of each id were told to send.
pub record Downlink : Type 0 where
  pub agent : Agent
  pub down : List Wire
  pub given : Text → Bytes

-- From `a` to `b` nothing is written to the stream, and no id gets it.
pub record KeepsStream (stream : Stream) (a b : Agent) : Type 0 where
  pub bytes : written stream b.trace ≡ written stream a.trace
  pub active :
      (j : Text)
      → Dict.lookup j b.active_connections ≡ some stream
      → Dict.lookup j a.active_connections ≡ some stream

-- A message of the relay that is not data.
pub data IsOrder : RelayToEdgeAgentMessage → Type 0 where
  opens :
      (m : RtEInitiateConnectionMessage) → IsOrder (RelayToEdgeAgentMessage.initiate_connection m)
  closes : (t id : Text) → IsOrder (RelayToEdgeAgentMessage.connection_close t id)
  keeps_alive : IsOrder RelayToEdgeAgentMessage.keep_alive

-- The steps, as the connection with the stream `watched` sees them.
module _ (edge : EdgeEnv) (env : Env) (agree : (j : Text) → AgentAgrees env edge j) (ws : WebSocket)
    (watched : Stream) where
  pub data DownStep (t : Downlink) : Downlink → Type 0 where
    -- A connection object sends bytes in its framing.
    send :
        (c : Connection) (content : Bytes) (uuid : IsUuid c.id) (bytes : IsBytes content)
        → DownStep t (record t {
          down =
              t.down ++ (send_framed-Arrives env edge c content (agree c.id) uuid bytes).wire ∷ [];
          given = joined_to t.given c.id content;
        })
    -- Another task of the relay sends a message that is not data, and that the agent will validate.
    send_message :
        (m : RelayToEdgeAgentMessage)
        → IsOrder m
        → edge.from_relay.validate (env.to_agent.dump m) ≡ ok m
        → DownStep t (record t { down = t.down ++ text (env.to_agent.dump m) ∷ [] })
    -- The agent's loop receives the next message, and handles it.
    handle :
        (wire : Wire) (rest : List Wire)
        → t.down ≡ wire ∷ rest
        → DownStep t (record t { agent = (handle_wire edge ws wire t.agent).1; down = rest })
    -- The agent does something else, for example for other connections.
    elsewhere : (b : Agent) → KeepsStream watched t.agent b → DownStep t (record t { agent = b })

  pub data DownReach (t : Downlink) : Downlink → Type 0 where
    here : DownReach t t
    next : {u v : Downlink} → DownReach t u → DownStep u v → DownReach t v

-- Nothing was sent yet.
abbrev pub quiet_link : Agent → Downlink
quiet_link a = record { agent = a; down = []; given = λ id. [] }
