-- ===== src/Tunnel.antt =====
-- The agent (http_network_relay/edge_agent.py) and the relay
-- (http_network_relay/network_relay.py) at the two ends of their WebSocket, with the messages that
-- are on their way. A step is what a task of one of the two does; the relay's handling of a message
-- is one step, whose awaits let the relay's other tasks run.
pub mod Control
pub mod Faithful
pub mod Filling
pub mod Downlink
pub mod Writes
pub mod Orders
pub mod Kept
pub mod Writing
pub mod Downward
pub mod Upward
pub mod Drained
mod Tests
use http_network_relay.Prelude.{
  ℕ, ◌≡◌, Bool, Option, List, [], ◌∷◌, ◌++◌, Text, text_key, take, if◌then◌else◌, some,
}
use http_network_relay.Prelude.Dict
use http_network_relay.Exception.{ok}
use http_network_relay.Frame.Hex.{Bytes, IsBytes}
use http_network_relay.Frame.Uuid.{IsUuid}
use http_network_relay.Messages.{RtEInitiateConnectionMessage, EdgeAgentToRelayMessage, Wire, text}
use http_network_relay.Relay.World.{World, Env, message, update}
use http_network_relay.Relay.Close.{drop_relayed_connection}
use http_network_relay.Relay.Connection.{take_bytes}
use http_network_relay.Relay.MsgLoop.{handle_raw}
use http_network_relay.EdgeAgent.World.{EdgeEnv}
use http_network_relay.EdgeAgent.Streams.{frame_data}

-- `up` is what the agent has sent and the relay has not received, oldest first. `read` is what the
-- agent has read from the TCP connection of each id, and `delivered` what was taken out of the
-- buffer of the relay's object at each address.
pub record Tunnel : Type 0 where
  pub relay : World
  pub up : List Wire
  pub read : Text → Bytes
  pub delivered : ℕ → Bytes

abbrev pub joined_to : (Text → Bytes) → Text → Bytes → Text → Bytes
joined_to f id content j = f j ++ (if text_key.same id j then content else [])

-- From `u` to `v` the buffer at the address is the same, and no id gets the object there.
pub record Spares (address : ℕ) (u v : World) : Type 0 where
  pub buffer : (v.objects address).recv_buffer ≡ (u.objects address).recv_buffer
  pub active :
      (j : Text)
      → Dict.lookup j v.active_relayed_connections ≡ some address
      → Dict.lookup j u.active_relayed_connections ≡ some address

-- A message of the agent in its loop that is not data.
pub data IsControl : EdgeAgentToRelayMessage → Type 0 where
  resets : (t id : Text) → IsControl (EdgeAgentToRelayMessage.connection_reset t id)
  answers_error : (t id : Text) → IsControl (EdgeAgentToRelayMessage.initiate_connection_error t id)
  answers_ok : (id : Text) → IsControl (EdgeAgentToRelayMessage.initiate_connection_ok id)
  keeps_alive : IsControl EdgeAgentToRelayMessage.keep_alive

-- The steps, as the connection whose object is at `watched` sees them.
module _ (edge : EdgeEnv) (env : Env) (agent : Text) (watched : ℕ) where
  pub data TunnelStep (t : Tunnel) : Tunnel → Type 0 where
    -- `read_from_tcp_and_send` of a connection has read bytes, and sends them.
    read_and_send :
        (m : RtEInitiateConnectionMessage) (content : Bytes) (wire : Wire)
        → IsUuid m.connection_id
        → IsBytes content
        → frame_data edge m content ≡ ok wire
        → TunnelStep t
            (record t { up = t.up ++ wire ∷ []; read = joined_to t.read m.connection_id content })
    -- Another task of the agent sends a message that is not data, and that the relay will validate.
    send_message :
        (m : EdgeAgentToRelayMessage)
        → IsControl m
        → env.from_agent.validate (edge.to_relay.dump m) ≡ ok m
        → TunnelStep t (record t { up = t.up ++ text (edge.to_relay.dump m) ∷ [] })
    -- `_msg_loop` receives the next message, and handles it.
    handle :
        (wire : Wire) (rest : List Wire)
        → t.up ≡ wire ∷ rest
        → TunnelStep t
            (record t { up = rest; relay = (handle_raw env agent (message wire) t.relay).1 })
    -- A reader of the relay takes at most `n` bytes out of a buffer.
    deliver :
        (address n : ℕ)
        → TunnelStep t (record t {
          relay = (take_bytes address n t.relay).1;
          delivered =
              update t.delivered address
                (t.delivered address ++ take n (t.relay.objects address).recv_buffer);
        })
    drop_it :
        (id : Text) → TunnelStep t (record t { relay = (drop_relayed_connection id t.relay).1 })
    -- The relay does something else, for example for other connections.
    elsewhere : (v : World) → Spares watched t.relay v → TunnelStep t (record t { relay = v })

  pub data TunnelReach (t : Tunnel) : Tunnel → Type 0 where
    here : TunnelReach t t
    next : {u v : Tunnel} → TunnelReach t u → TunnelStep u v → TunnelReach t v

-- Nothing was read or sent yet.
abbrev pub quiet_tunnel : World → Tunnel
quiet_tunnel w = record { relay = w; up = []; read = λ id. []; delivered = λ address. [] }
