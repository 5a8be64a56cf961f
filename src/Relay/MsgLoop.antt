-- ===== src/Relay/MsgLoop.antt =====
-- `_msg_loop` of http_network_relay/network_relay.py, one round and the loop, and `keep_alive`.
pub mod Rounds
pub mod Multiplex
use http_network_relay.Prelude.{ℕ, zero, suc, Bool, true, false, Text, if◌then◌else◌}
use http_network_relay.Exception.{Exception, websocket_disconnect, runtime_error}
use http_network_relay.Frame.{decode_tcp_binary_frame}
use http_network_relay.Messages.{RelayToEdgeAgentMessage, Wire, text, binary}
use http_network_relay.Relay.World.{
  WebSocket, World, Relay, Env, Outcome, done, raised, pending, pure, fail, lift, try, recover,
  continue, ◌>>=◌, ◌>>◌, Raw, disconnected, message, send_text, suspend,
}
use http_network_relay.Relay.Close.{is_closed_error, send_locked, edge_agent_connection_close}
use http_network_relay.Relay.Connection.{handle_tcp_binary_data}
use http_network_relay.Relay.Agents.{handle_edge_agent_message, receive_raw, parse_message}

module _ (env : Env) where
  -- What one received message does; the result says whether the loop goes on.
  unfoldable pub handle_raw : Text → Raw → Relay Bool
  handle_raw agent disconnected = do edge_agent_connection_close env agent; pure false
  handle_raw agent (message (binary frame)) = do
    (id, payload) ← lift (decode_tcp_binary_frame frame)
    handle_tcp_binary_data id payload
    pure true
  handle_raw agent (message (text json)) = do
    m ← lift (parse_message env json)
    try (handle_edge_agent_message env m agent) (λ _. pure tt)
    pure true

  -- `except WebSocketDisconnect` around `receive`
  abbrev pub as_disconnect : Exception → Relay Raw
  as_disconnect websocket_disconnect = pure disconnected
  as_disconnect x = fail x

  unfoldable pub msg_round : WebSocket → Text → Relay Bool
  msg_round ws agent = do raw ← try (receive_raw env ws) as_disconnect; handle_raw agent raw

  -- The loop, as far as `rounds` messages; after them it waits for the next.
  unfoldable pub msg_loop : ℕ → WebSocket → Text → Relay (Unit {0})
  msg_loop zero ws agent w = (pending, w)
  msg_loop (suc rounds) ws agent w =
      continue (msg_round ws agent w)
        (λ goes_on. if goes_on then msg_loop rounds ws agent else pure tt)

  -- `keep_alive` of the relay: one round, after the sleep; the result says whether it goes on.
  abbrev pub keep_alive_ends : Exception → Relay Bool
  keep_alive_ends (runtime_error m) =
      if is_closed_error m then pure false else fail (runtime_error m)
  keep_alive_ends websocket_disconnect = pure false
  keep_alive_ends x = fail x

  abbrev pub send_keep_alive : WebSocket → Relay Bool
  send_keep_alive ws = do
    send_locked env ws (send_text ws (env.to_agent.dump RelayToEdgeAgentMessage.keep_alive))
    pure true

  unfoldable pub keep_alive_round : WebSocket → Relay Bool
  keep_alive_round ws = do
    suspend env
    connected ← (λ w. (done (env.is_connected w.trace ws), w))
    if connected then try (send_keep_alive ws) keep_alive_ends else pure false
