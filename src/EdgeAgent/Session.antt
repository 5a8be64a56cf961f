-- ===== src/EdgeAgent/Session.antt =====
-- `connect_to_server` and `async_main` of http_network_relay/edge_agent.py.
use http_network_relay.Prelude.{
  ℕ, zero, suc, ◌*◌, ◌-◌, min, leb, Bool, true, false, Option, none, some, [], ◌∷◌, Text, text_key,
  if◌then◌else◌,
}
use http_network_relay.Prelude.Dict
use http_network_relay.Prelude.Dict.{Dict}
use http_network_relay.Exception.{Exception, Result, ok, raise, validation_error, connection_closed}
use http_network_relay.Frame.{decode_tcp_binary_frame}
use http_network_relay.Base64.{b64decode}
use http_network_relay.Messages.{
  EdgeAgentToRelayMessage, RelayToEdgeAgentMessage, initiate_connection, connection_close, Wire,
  text, binary,
}
use http_network_relay.Relay.World.{WebSocket, pending}
use http_network_relay.EdgeAgent.World.{
  Stream, keep_alive_task, close_websocket, receive, close_writer, create_task, Edge, EdgeEnv, pure,
  fail, lift, gets, try, modify, continue, ◌>>=◌, ◌>>◌, note, perform,
}
use http_network_relay.EdgeAgent.Streams.{
  delete_connection, send_message, initiate_connection as initiate, write_to_connection,
}

-- A JSON message after validation: one of the relay's, one of the subclass's, or one that neither
-- accepts and that is logged and passed over.
pub data Incoming : Type 0 where
  standard : RelayToEdgeAgentMessage → Incoming
  custom : Text → Incoming
  invalid : Incoming

abbrev custom_result : Result Text → Result Incoming
custom_result (ok m) = ok (custom m)
custom_result (raise (validation_error e)) = ok invalid
custom_result (raise x) = raise x

abbrev parse_custom : Option (Text → Result Text) → Text → Text → Result Incoming
parse_custom none e json = raise (validation_error e)
parse_custom (some validate) e json = custom_result (validate json)

abbrev parse_result :
    Option (Text → Result Text) → Result RelayToEdgeAgentMessage → Text → Result Incoming
parse_result validate (ok m) json = ok (standard m)
parse_result validate (raise (validation_error e)) json = parse_custom validate e json
parse_result validate (raise x) json = raise x

-- The `for` loop of `async_main` over the copy of `active_connections`.
unfoldable pub close_streams : Dict Text Stream → Edge (Unit {0})
unfolding delete_connection
close_streams [] = pure tt
close_streams ((id, stream) ∷ rest) = do
  note (close_writer stream)
  delete_connection id
  close_streams rest

-- 60 seconds, in microseconds
abbrev pub minute : ℕ
minute = 60 * 1000000

-- The delay before the next attempt, and the one after it, in seconds; `now` and `last` are
-- `time.time()`, and a difference below 0 counts as 0, which is below 60 seconds as well.
unfoldable pub delay_now : ℕ → ℕ → ℕ → ℕ
delay_now now last delay = if leb minute (now - last) then 1 else delay

unfoldable pub delay_next : ℕ → ℕ
delay_next delay = min (2 * delay) 60

module _ (env : EdgeEnv) where
  unfoldable pub parse_message : Text → Result Incoming
  parse_message json = parse_result env.validate_custom (env.from_relay.validate json) json

  abbrev pub close_over : Option Stream → Text → Edge (Unit {0})
  close_over none id = pure tt
  close_over (some stream) id = do note (close_writer stream); delete_connection id

  -- The `if`s on the message's class.
  unfoldable pub handle_message : WebSocket → Incoming → Edge (Unit {0})
  handle_message ws (standard (initiate_connection m)) = try (initiate env m ws) (λ x.
      send_message env ws
        (EdgeAgentToRelayMessage.initiate_connection_error (env.str x) m.connection_id))
  handle_message ws (standard (RelayToEdgeAgentMessage.tcp_data id data_base64)) = do
    content ← lift (b64decode data_base64)
    write_to_connection env id content ws
  handle_message ws (standard (connection_close m id)) = do
    o ← gets (λ w. Dict.lookup id w.active_connections)
    close_over o id
  handle_message ws (standard RelayToEdgeAgentMessage.keep_alive) = pure tt
  handle_message ws (custom json) = try (env.handle_custom_relay_message json) (λ _. pure tt)
  handle_message ws invalid = pure tt

  unfoldable pub handle_wire : WebSocket → Wire → Edge (Unit {0})
  handle_wire ws (binary frame) = do
    (id, payload) ← lift (decode_tcp_binary_frame frame)
    write_to_connection env id payload ws
  handle_wire ws (text json) = do m ← lift (parse_message json); handle_message ws m

  abbrev receive_wire : WebSocket → Edge Wire
  receive_wire ws w =
      lift (env.received w.trace ws) (env.others (record w { trace = receive ws ∷ w.trace }))

  abbrev received_wire : Option Wire → WebSocket → Edge Bool
  received_wire none ws = pure false
  received_wire (some m) ws = handle_wire ws m >> pure true

  abbrev as_end : Exception → Edge (Option Wire)
  as_end connection_closed = pure none
  as_end x = fail x

  -- One round of the `while True`; the result says whether the loop goes on.
  unfoldable pub session_round : WebSocket → Edge Bool
  unfolding handle_wire
  session_round ws = do
    o ← try (receive_wire ws >>= (λ m. pure (some m))) as_end
    received_wire o ws

  -- The loop, as far as `rounds` messages; after them it waits for the next.
  unfoldable pub session_loop : ℕ → WebSocket → Edge (Unit {0})
  unfolding session_round
  session_loop zero ws w = (pending, w)
  session_loop (suc rounds) ws w =
      continue (session_round ws w) (λ goes_on. if goes_on then session_loop rounds ws else pure tt)

  -- The body of `connect_to_server` on the open WebSocket.
  unfoldable pub session : ℕ → WebSocket → Option Text → Edge (Unit {0})
  session rounds ws last_error = do
    m ← env.start_message last_error
    send_message env ws (EdgeAgentToRelayMessage.start (record m { supports_binary = true }))
    modify (λ w. record w { websocket = some ws; signal_connected = true })
    note (create_task (keep_alive_task ws))
    session_loop rounds ws

  abbrev close_own : Option WebSocket → Edge (Unit {0})
  close_own none = pure tt
  close_own (some ws) = perform env (close_websocket ws)

  -- What `async_main` does after `connect_to_server` has returned or raised, up to
  -- `on_connection_closed`.
  unfoldable pub disconnect : Edge (Unit {0})
  unfolding close_streams
  disconnect = do
    active ← gets (λ w. w.active_connections)
    close_streams active
    own ← gets (λ w. w.websocket)
    close_own own
    modify (λ w. record w { signal_connected = false; websocket = none })
