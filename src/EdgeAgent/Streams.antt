-- ===== src/EdgeAgent/Streams.antt =====
-- The TCP connections of http_network_relay/edge_agent.py: `initiate_connection`,
-- `read_from_tcp_and_send` and `write_to_connection`.
use http_network_relay.Prelude.{
  Option, none, some, List, [], ◌∷◌, ◌++◌, Text, codes, text_key, text_eqb, if◌then◌else◌,
}
use http_network_relay.Prelude.Dict
use http_network_relay.Exception.{
  Exception, Result, ok, not_implemented_error, connection_reset_error, key_error,
}
use http_network_relay.Frame.Hex.{Bytes}
use http_network_relay.Frame.{encode_tcp_binary_frame}
use http_network_relay.Base64.{b64encode}
use http_network_relay.Messages.{
  EdgeAgentToRelayMessage, RtEInitiateConnectionMessage, Wire, text, binary,
}
use http_network_relay.Relay.World.{WebSocket, done, raised, pending}
use http_network_relay.EdgeAgent.World.{
  Stream, read_task, send, open_connection, write, drain, close_writer, create_task, Edge, EdgeEnv,
  pure, fail, lift, try, modify, continue, ◌>>=◌, ◌>>◌, finally, note, perform,
}

abbrev framed : Result Bytes → Result Wire
framed (Result.ok frame) = ok (binary frame)
framed (Result.raise x) = Result.raise x

-- `del self.active_connections[connection_id]`
unfoldable pub delete_connection : Text → Edge (Unit {0})
delete_connection id w =
    if Dict.contains id w.active_connections
    then (done tt, record w { active_connections = Dict.erase id w.active_connections })
    else (raised key_error, w)

module _ (env : EdgeEnv) where
  -- `websocket.send(EdgeAgentToRelayMessage(inner=…).model_dump_json())`
  abbrev pub send_message : WebSocket → EdgeAgentToRelayMessage → Edge (Unit {0})
  send_message ws m = perform env (send ws (text (env.to_relay.dump m)))

  -- The framing of the bytes read from a TCP connection.
  unfoldable pub frame_data : RtEInitiateConnectionMessage → Bytes → Result Wire
  frame_data m content =
      if m.supports_binary
      then framed (encode_tcp_binary_frame m.connection_id content)
      else ok (
          text (
            env.to_relay.dump
              (EdgeAgentToRelayMessage.tcp_data m.connection_id (b64encode content))))

  -- The `while True` of `read_from_tcp_and_send`, on the results of `reader.read` in their order;
  -- after them the reader waits for more. Each read is an `await`.
  unfoldable pub read_loop :
      RtEInitiateConnectionMessage → WebSocket → List (Result Bytes) → Edge (Unit {0})
  unfolding frame_data
  read_loop m ws [] w = (pending, env.others w)
  read_loop m ws (Result.raise x ∷ reads) w = (raised x, env.others w)
  read_loop m ws (Result.ok [] ∷ reads) w = (done tt, env.others w)
  read_loop m ws (Result.ok (b ∷ bs) ∷ reads) w =
      continue (lift (frame_data m (b ∷ bs)) (env.others w))
        (λ wire. perform env (send ws wire) >> read_loop m ws reads)

  -- The `finally` of `read_from_tcp_and_send`
  unfoldable pub release : RtEInitiateConnectionMessage → Stream → WebSocket → Edge (Unit {0})
  release m stream ws = do
    note (close_writer stream)
    modify (λ w. record w { active_connections = Dict.erase m.connection_id w.active_connections })
    try
        (send_message ws (
          EdgeAgentToRelayMessage.connection_reset (codes "Connection closed by target")
            m.connection_id))
        (λ _. pure tt)

  unfoldable pub read_from_tcp_and_send :
      RtEInitiateConnectionMessage → Stream → WebSocket → List (Result Bytes) → Edge (Unit {0})
  read_from_tcp_and_send m stream ws reads w =
      finally (read_loop m ws reads w) (release m stream ws)

  -- `asyncio.open_connection`
  unfoldable pub open_stream : RtEInitiateConnectionMessage → Edge Stream
  open_stream m w =
      lift (env.opened w.trace m.target_ip m.target_port)
        (env.others (record w { trace = open_connection m.target_ip m.target_port ∷ w.trace }))

  unfoldable pub initiate_connection : RtEInitiateConnectionMessage → WebSocket → Edge (Unit {0})
  initiate_connection m ws =
      if text_eqb m.protocol (codes "tcp")
      then (do
        stream ← open_stream m
        modify (λ w. record w {
          active_connections = Dict.insert m.connection_id stream w.active_connections;
        })
        send_message ws (EdgeAgentToRelayMessage.initiate_connection_ok m.connection_id)
        note (create_task (read_task m stream ws)))
      else fail (not_implemented_error (codes "Unsupported protocol: " ++ m.protocol))

  -- The `except ConnectionResetError` of `write_to_connection`
  abbrev pub drop_connection : Text → Stream → WebSocket → Exception → Edge (Unit {0})
  drop_connection id stream ws connection_reset_error = do
    note (close_writer stream)
    delete_connection id
    send_message ws
        (EdgeAgentToRelayMessage.connection_reset (codes "Connection reset while writing data") id)
  drop_connection id stream ws x = fail x

  abbrev write_over : Option Stream → Text → Bytes → WebSocket → Edge (Unit {0})
  write_over none id content ws = pure tt
  write_over (some stream) id content ws = do
    note (write stream content)
    try (perform env (drain stream)) (drop_connection id stream ws)

  unfoldable pub write_to_connection : Text → Bytes → WebSocket → Edge (Unit {0})
  unfolding delete_connection
  write_to_connection id content ws w =
      write_over (Dict.lookup id w.active_connections) id content ws w
