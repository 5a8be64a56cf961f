-- ===== src/Relay/AccessClients.antt =====
-- The access clients of http_network_relay/network_relay.py: `ws_for_access_clients`,
-- `access_client_receive_thread` and `_await_reader`. A cancellation is a call; what it does to the
-- reader is among what the other tasks do.
pub mod Thread
pub mod Reader
pub mod Refusal
pub mod Leaving
pub mod Confirmed
pub mod Opening
mod Tests
use http_network_relay.Prelude.{
  ℕ, zero, suc, Bool, true, false, Option, none, some, [], ◌∷◌, Text, codes, text_key,
  if◌then◌else◌,
}
use http_network_relay.Prelude.Dict
use http_network_relay.Exception.{
  Exception, value_error, validation_error, unbound_local_error, timeout_error,
}
use http_network_relay.Frame.{read_chunk_size}
use http_network_relay.Frame.Hex.{Bytes}
use http_network_relay.Base64.{b64encode, b64decode}
use http_network_relay.Messages.{
  AtRStartMessage, AccessClientToRelayMessage, RelayToAccessClientMessage, start_ok, error, Wire,
  text, binary,
}
use http_network_relay.Relay.World.{
  WebSocket, Connection, World, Relay, Env, accept, close, send_text, send_bytes, reader_task,
  Outcome, done, raised, pending, pure, fail, lift, gets, modify, try, recover, continue, ◌>>=◌,
  ◌>>◌, perform, start_task, join_reader, cancel_reader, Raw, disconnected, message,
}
use http_network_relay.Relay.Close.{
  access_client_connection_close, drop_relayed_connection, ignore_closed,
}
use http_network_relay.Relay.Connection.{read, send_data, close_connection}
use http_network_relay.Relay.Agents.{receive_raw, receive_first}
use http_network_relay.Relay.MsgLoop.{as_disconnect}
use http_network_relay.Relay.Create.{create_connection_async}

-- `if access_client_supports_binary`, where `None` counts as false
abbrev pub supports : Option Bool → Bool
supports none = false
supports (some b) = b

-- `str(e)` of a `ValueError`; pydantic's `ValidationError` is one.
abbrev pub value_error_message : Exception → Option Text
value_error_message (value_error m) = some m
value_error_message (validation_error m) = some m
value_error_message x = none

module _ (env : Env) where
  abbrev pub send_to_client : WebSocket → RelayToAccessClientMessage → Relay (Unit {0})
  send_to_client ws m = perform env (send_text ws (env.to_client.dump m))

  -- `await connection.close()`, where the name is bound only if `create_connection_async` returned.
  abbrev pub close_bound : Option ℕ → Relay (Unit {0})
  close_bound none = fail unbound_local_error
  close_bound (some address) = close_connection env address

  -- The `except ValueError` of `ws_for_access_clients`.
  abbrev pub report_error : Option Text → Option ℕ → WebSocket → Exception → Relay (Option ℕ)
  report_error none bound ws x = fail x
  report_error (some m) bound ws x = do
    send_to_client ws (error m)
    close_bound bound
    try (perform env (close ws)) ignore_closed
    pure none

  unfoldable pub refuse_client : Option ℕ → WebSocket → Exception → Relay (Option ℕ)
  refuse_client bound ws x = report_error (value_error_message x) bound ws x

  abbrev pub start_reply : WebSocket → ℕ → Relay (Option ℕ)
  start_reply ws address = do
    c ← gets (λ w. w.objects address)
    send_to_client ws (start_ok (some c.agent_supports_binary))
    pure (some address)

  abbrev pub after_create : Outcome ℕ × World → WebSocket → Outcome (Option ℕ) × World
  after_create (done address, w) ws =
      recover (start_reply ws address w) (refuse_client (some address) ws)
  after_create (raised x, w) ws = refuse_client none ws x w
  after_create (pending, w) ws = (pending, w)

  -- The `try` of `ws_for_access_clients`; the result is the address of the connection, if any.
  unfoldable pub connect_client : Text → AtRStartMessage → WebSocket → Relay (Option ℕ)
  unfolding refuse_client
  connect_client agent m ws w =
      after_create (create_connection_async env agent m.target_ip m.target_port m.protocol w) ws

  -- The check that the agent is registered, and what follows.
  abbrev pub open_registered : Bool → Text → AtRStartMessage → WebSocket → Relay (Option ℕ)
  open_registered false agent m ws = do
    send_to_client ws (error (codes "Agent not registered"))
    perform env (close ws)
    pure none
  open_registered true agent m ws = connect_client agent m ws

  abbrev pub open_permitted : Bool → AtRStartMessage → WebSocket → Relay (Option ℕ)
  open_permitted false m ws = do perform env (close ws); pure none
  open_permitted true m ws = do
    agent ← env.get_agent_connection_id_for_access_client m.connection_target
    registered ← gets (λ w. Dict.contains agent w.registered_agent_connections)
    open_registered registered agent m ws

  -- From the check of the credentials on.
  unfoldable pub open_client : AtRStartMessage → WebSocket → Relay (Option ℕ)
  unfolding connect_client
  open_client m ws = do allowed ← env.get_access_client_permission m ws; open_permitted allowed m ws

  abbrev pub handle_client_message : ℕ → AccessClientToRelayMessage → Relay (Unit {0})
  handle_client_message address (AccessClientToRelayMessage.tcp_data data_base64) = do
    content ← lift (b64decode data_base64)
    send_data env address content
  handle_client_message address m = pure tt

  -- What one received message does; the result says whether the loop goes on.
  unfoldable pub handle_client_raw : Text → ℕ → Raw → Relay Bool
  handle_client_raw id address disconnected = do drop_relayed_connection id; pure false
  handle_client_raw id address (message (binary content)) = do
    send_data env address content
    pure true
  handle_client_raw id address (message (text json)) = do
    m ← lift (env.from_client.validate json)
    handle_client_message address m
    pure true

  abbrev pub client_round : WebSocket → Text → ℕ → Relay Bool
  client_round ws id address = do
    raw ← try (receive_raw env ws) (as_disconnect env)
    handle_client_raw id address raw

  -- The `while` of `ws_for_access_clients`, as far as `rounds` messages.
  unfoldable pub client_loop : ℕ → WebSocket → Text → ℕ → Relay (Unit {0})
  unfolding handle_client_raw
  client_loop zero ws id address w = (pending, w)
  client_loop (suc rounds) ws id address w =
      let next = λ (p : Outcome Bool × World).
        continue p (λ goes_on. if goes_on then client_loop rounds ws id address else pure tt) in
      if Dict.contains id w.active_access_client_connections
      then next (client_round ws id address w)
      else (done tt, w)

  -- The handlers of `_await_reader`: a reader that lingers is cancelled and awaited again, and
  -- whatever the second wait raises is passed over.
  abbrev pub linger : WebSocket → Exception → Relay (Unit {0})
  linger ws timeout_error = do
    modify (λ w. record w { trace = cancel_reader ws ∷ w.trace })
    try (perform env (join_reader ws)) (λ _. pure tt)
  linger ws x = fail x

  -- `_await_reader`; the wait for the reader ends with it, or by a timeout.
  unfoldable pub await_reader : WebSocket → Relay (Unit {0})
  await_reader ws = try (perform env (join_reader ws)) (linger ws)

  -- What `ws_for_access_clients` does after its loop.
  unfoldable pub leave_client : WebSocket → Text → ℕ → Relay (Unit {0})
  unfolding await_reader
  leave_client ws id address = do
    access_client_connection_close id
    close_connection env address
    try (perform env (close ws)) ignore_closed
    await_reader ws

  unfoldable pub serve_client : ℕ → WebSocket → Bool → ℕ → Relay (Unit {0})
  unfolding client_loop leave_client
  serve_client rounds ws binary_wanted address = do
    c ← gets (λ w. w.objects address)
    modify (λ w. record w {
      active_access_client_connections = Dict.insert c.id ws w.active_access_client_connections;
    })
    start_task (reader_task ws address binary_wanted)
    client_loop rounds ws c.id address
    leave_client ws c.id address

  abbrev pub serve_opened : ℕ → WebSocket → Bool → Option ℕ → Relay (Unit {0})
  serve_opened rounds ws binary_wanted none = pure tt
  serve_opened rounds ws binary_wanted (some address) = serve_client rounds ws binary_wanted address

  abbrev pub start_client : ℕ → WebSocket → AccessClientToRelayMessage → Relay (Unit {0})
  start_client rounds ws (AccessClientToRelayMessage.start m) = do
    opened ← open_client m ws
    serve_opened rounds ws (supports m.supports_binary) opened
  start_client rounds ws m = pure tt

  -- `ws_for_access_clients`
  unfoldable pub ws_for_access_clients : ℕ → WebSocket → Relay (Unit {0})
  unfolding open_client serve_client
  ws_for_access_clients rounds ws = do
    perform env (accept ws)
    json ← receive_first env ws
    m ← lift (env.from_client.validate json)
    start_client rounds ws m
