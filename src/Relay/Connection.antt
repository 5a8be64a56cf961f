-- ===== src/Relay/Connection.antt =====
-- The connection objects of http_network_relay/network_relay.py, `TcpConnection` and
-- `TcpConnectionAsync`, as methods on the object at an address, and the handlers of incoming TCP
-- data. `recv`, whose steps interleave with another thread, is in Relay/Threads.
pub mod Delivery
pub mod Managed
pub mod Waiting
pub mod Framing
mod Tests
use http_network_relay.Prelude.{
  ℕ, zero, suc, Bool, true, false, not, Option, none, some, List, [], ◌∷◌, ◌++◌, Text, codes,
  length, take, drop, ltb, nat_eqb, text_key, if◌then◌else◌,
}
use http_network_relay.Prelude.Dict
use http_network_relay.Exception.{Exception, Result, ok, eof_error}
use http_network_relay.Frame.Hex.{Bytes}
use http_network_relay.Frame.{encode_tcp_binary_frame}
use http_network_relay.Base64.{b64encode, b64decode}
use http_network_relay.Messages.{RelayToEdgeAgentMessage}
use http_network_relay.Relay.World.{
  WebSocket, Connection, ConnectionClass, tcp_connection, tcp_connection_async, World, Relay, Env,
  Call, Task, close_task, send_task, send_text, send_bytes, Outcome, done, raised, pending, pure,
  fail, lift, gets, modify, continue, ◌>>=◌, ◌>>◌, set_object, start_task, perform, acquire_lock,
}
use http_network_relay.Relay.Close.{
  agent_send_lock, send_locked, close_relayed_connection, wake_readers,
}

-- `closed`
unfoldable pub closed : ℕ → World → Bool
closed address w = not (Dict.contains (w.objects address).id w.active_relayed_connections)

-- `fill_recv`
unfoldable pub fill_recv : ℕ → Bytes → World → World
fill_recv address bytes w =
    let c = w.objects address in
    set_object address (record c { recv_buffer = c.recv_buffer ++ bytes; event = true }) w

-- `settimeout`
unfoldable pub settimeout : ℕ → Option ℕ → World → World
settimeout address timeout w =
    set_object address (record (w.objects address) { timeout = timeout }) w

-- `event.clear()`
unfoldable pub clear_event : ℕ → World → World
clear_event address w = set_object address (record (w.objects address) { event = false }) w

-- `handle_tcp_data_message`
unfoldable pub handle_tcp_data_message : Text → Text → Relay (Unit {0})
unfolding fill_recv
handle_tcp_data_message id data_base64 w = elim (Dict.lookup id w.active_relayed_connections) [
  | none ↦ (done tt, w)
  | some address ↦ (do bytes ← lift (b64decode data_base64); modify (fill_recv address bytes)) w
]

-- `handle_tcp_binary_data`
unfoldable pub handle_tcp_binary_data : Text → Bytes → Relay (Unit {0})
unfolding fill_recv
handle_tcp_binary_data id payload w = elim (Dict.lookup id w.active_relayed_connections) [
  | none ↦ (done tt, w)
  | some address ↦ (done tt, fill_recv address payload w)
]

-- `recv_buffer[:n]`, and the rest of the buffer stays
unfoldable pub take_bytes : ℕ → ℕ → Relay Bytes
take_bytes address n w =
    let c = w.objects address in
    (
      done (take n c.recv_buffer),
      set_object address (record c { recv_buffer = drop n c.recv_buffer }) w,
    )

module _ (env : Env) where
  -- `send_connection_message` and `send_connection_binary`
  unfoldable pub send_connection_message : WebSocket → RelayToEdgeAgentMessage → Relay (Unit {0})
  send_connection_message ws m = send_locked env ws (send_text ws (env.to_agent.dump m))

  unfoldable pub send_connection_binary : WebSocket → Text → Bytes → Relay (Unit {0})
  send_connection_binary ws id payload = do
    agent_send_lock ws
    perform env (acquire_lock ws)
    frame ← lift (encode_tcp_binary_frame id payload)
    perform env (send_bytes ws frame)

  -- The framing that the two `send` methods share.
  unfoldable pub send_framed : Connection → Bytes → Relay (Unit {0})
  unfolding send_connection_message send_connection_binary
  send_framed c content =
      if c.agent_supports_binary
      then send_connection_binary c.agent_connection c.id content
      else send_connection_message c.agent_connection
          (RelayToEdgeAgentMessage.tcp_data c.id (b64encode content))

  -- `TcpConnectionAsync.send`
  unfoldable pub send_data : ℕ → Bytes → Relay (Unit {0})
  unfolding send_framed
  send_data address content = do c ← gets (λ w. w.objects address); send_framed c content

  -- `TcpConnection.send_async`
  unfoldable pub send_async : ℕ → Relay (Unit {0})
  unfolding send_framed
  send_async address = do
    c ← gets (λ w. w.objects address)
    modify (λ w. set_object address (record (w.objects address) { send_buffer = [] }) w)
    send_framed c c.send_buffer

  -- `TcpConnection.send`, with the task that runs `send_async`; the result is the number of bytes.
  unfoldable pub send_sync : ℕ → Bytes → Relay ℕ
  unfolding closed
  send_sync address content = do
    modify (λ w.
        set_object address
          (record (w.objects address) { send_buffer = (w.objects address).send_buffer ++ content })
          w)
    shut ← gets (closed address)
    if shut then fail eof_error else pure (length content)

  -- `event.wait()`: suspended until another task sets the event.
  unfoldable pub wait_event : ℕ → Relay (Unit {0})
  wait_event address w =
      let v = env.others w in
      if (w.objects address).event
      then (done tt, w)
      else if (v.objects address).event
      then (done tt, v)
      else (pending, v)

  -- `while len(self.recv_buffer) == 0` of `TcpConnectionAsync.read`, with the rounds that are left.
  -- `true`: there is data; `false`: the connection is closed.
  unfoldable pub await_data : ℕ → ℕ → Relay Bool
  unfolding closed wait_event clear_event
  await_data zero address w = (pending, w)
  await_data (suc fuel) address w =
      let next = λ (p : Outcome (Unit {0}) × World).
        continue p (λ _ v. await_data fuel address (clear_event address v)) in
      if ltb 0 (length (w.objects address).recv_buffer)
      then (done true, w)
      else if closed address w
      then (done false, w)
      else next (wait_event address w)

  -- `while not self.closed` of `read(-1)`
  unfoldable pub await_close : ℕ → ℕ → Relay (Unit {0})
  unfolding closed wait_event clear_event
  await_close zero address w = (pending, w)
  await_close (suc fuel) address w =
      let next = λ (p : Outcome (Unit {0}) × World).
        continue p (λ _ v. await_close fuel address (clear_event address v)) in
      if closed address w then (done tt, w) else next (wait_event address w)

  -- `TcpConnectionAsync.read`; `none` is the default `n = -1`.
  unfoldable pub read : ℕ → ℕ → Option ℕ → Relay Bytes
  unfolding await_data await_close take_bytes
  read fuel address none = do
    await_close fuel address
    n ← gets (λ w. length (w.objects address).recv_buffer)
    take_bytes address n
  read fuel address (some zero) = pure []
  read fuel address (some (suc n)) = do
    there_is ← await_data fuel address
    if there_is then take_bytes address (suc n) else pure []

  abbrev pub close_as : ConnectionClass → Text → WebSocket → Relay (Unit {0})
  close_as tcp_connection id ws = start_task (close_task id ws)
  close_as tcp_connection_async id ws = close_relayed_connection env id ws

  -- `close` of a connection object: a coroutine for `TcpConnectionAsync`, and for `TcpConnection` a
  -- task on the event loop.
  unfoldable pub close_connection : ℕ → Relay (Unit {0})
  close_connection address = do
    c ← gets (λ w. w.objects address)
    close_as c.connection_class c.id c.agent_connection

  -- `handle_connection_reset_message`
  unfoldable pub handle_connection_reset_message : Text → Relay (Unit {0})
  unfolding close_connection
  handle_connection_reset_message id w = elim (Dict.lookup id w.active_relayed_connections) [
    | none ↦ (done tt, w)
    | some address ↦ close_connection address w
  ]
