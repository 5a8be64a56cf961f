-- ===== src/Relay/Close.antt =====
-- Ending connections in http_network_relay/network_relay.py: `close_relayed_connection`,
-- `_drop_relayed_connection`, `edge_agent_connection_open`, `edge_agent_connection_close`,
-- `access_client_connection_close`, and what they call.
pub mod Steps
pub mod Returns
pub mod Teardown
use http_network_relay.Prelude.{
  ℕ, Bool, true, false, ◌&&◌, ◌||◌, Option, none, some, List, [], ◌∷◌, Text, codes, nat_eqb, ◌==◌,
  text_key, nat_key, if◌then◌else◌,
}
use http_network_relay.Prelude.Dict
use http_network_relay.Prelude.Dict.{Dict}
use http_network_relay.Exception.{Exception, runtime_error, websocket_disconnect}
use http_network_relay.Messages.{RelayToEdgeAgentMessage}
use http_network_relay.Relay.World.{
  WebSocket, Connection, World, Relay, Env, Call, close, acquire_lock, send_text, send_bytes, done,
  raised, pending, pure, fail, gets, modify, try, recover, continue, ◌>>=◌, ◌>>◌, set_object,
  perform,
}

unfoldable pub is_prefix : Text → Text → Bool
is_prefix [] s = true
is_prefix (c ∷ t) [] = false
is_prefix (c ∷ t) (d ∷ s) = nat_eqb c d && is_prefix t s

-- `t in s`
unfoldable pub contains_text : Text → Text → Bool
unfolding is_prefix
contains_text t [] = is_prefix t []
contains_text t (c ∷ s) = is_prefix t (c ∷ s) || contains_text t s

-- `is_closed_error`, on the message of the error
unfoldable pub is_closed_error : Text → Bool
unfolding contains_text
is_closed_error message =
    (contains_text (codes "Unexpected ASGI message") message
      && contains_text (codes "after sending 'websocket.close'") message)
    || (message == codes "Cannot call \"send\" once a close message has been sent.")

-- `_agent_send_lock`
unfoldable pub agent_send_lock : WebSocket → Relay (Unit {0})
agent_send_lock ws w = elim (Dict.lookup ws w.agent_connection_locks) [
  | none ↦
      (done tt, record w { agent_connection_locks = Dict.insert ws tt w.agent_connection_locks })
  | some _ ↦ (done tt, w)
]

-- `wake_readers` of the object at an address
unfoldable pub wake_readers : ℕ → World → World
wake_readers address w = set_object address (record (w.objects address) { event = true }) w

-- `_drop_relayed_connection`
unfoldable pub drop_relayed_connection : Text → Relay (Unit {0})
unfolding wake_readers
drop_relayed_connection id w = elim (Dict.lookup id w.active_relayed_connections) [
  | none ↦ (done tt, w)
  | some address ↦ (
    done tt,
    wake_readers address
        (record w { active_relayed_connections = Dict.erase id w.active_relayed_connections }),
  )
]

-- `access_client_connection_close`
unfoldable pub access_client_connection_close : Text → Relay (Unit {0})
access_client_connection_close id = modify λ w. record w {
  active_access_client_connections = Dict.erase id w.active_access_client_connections;
}

-- `edge_agent_connection_open`
unfoldable pub edge_agent_connection_open : Text → WebSocket → Relay (Unit {0})
edge_agent_connection_open id ws = modify λ w. record w {
  registered_agent_connections = Dict.insert id ws w.registered_agent_connections;
}

-- The `except` clauses of `close_relayed_connection`.
unfoldable pub ignore_closed : Exception → Relay (Unit {0})
ignore_closed (runtime_error message) =
    if is_closed_error message then pure tt else fail (runtime_error message)
ignore_closed x = fail x

unfoldable pub ignore_gone : Exception → Relay (Unit {0})
unfolding ignore_closed
ignore_gone websocket_disconnect = pure tt
ignore_gone x = ignore_closed x

-- `list.remove`, where a missing item is no error
unfoldable pub remove_first : WebSocket → List WebSocket → List WebSocket
remove_first ws [] = []
remove_first ws (x ∷ xs) = if nat_eqb x ws then xs else x ∷ remove_first ws xs

module _ (env : Env) where
  -- A send to an agent under its lock.
  unfoldable pub send_locked : WebSocket → Call → Relay (Unit {0})
  send_locked ws call = do agent_send_lock ws; perform env (acquire_lock ws); perform env call

  unfoldable pub close_access_client : Option WebSocket → Relay (Unit {0})
  close_access_client none = pure tt
  close_access_client (some ws) = perform env (close ws)

  unfoldable pub close_relayed_connection : Text → WebSocket → Relay (Unit {0})
  unfolding send_locked close_access_client ignore_gone
  close_relayed_connection id ws = do
    try
        (send_locked ws (
          send_text ws (
            env.to_agent.dump
              (RelayToEdgeAgentMessage.connection_close (codes "Connection closed by relay") id))))
        ignore_gone
    access_client ← gets (λ w. Dict.lookup id w.active_access_client_connections)
    try (close_access_client access_client) ignore_closed
    drop_relayed_connection id

  -- The loop over the copy of `active_relayed_connections`.
  unfoldable pub close_connections : WebSocket → Dict Text ℕ → Relay (Unit {0})
  close_connections ws [] = pure tt
  close_connections ws ((id, address) ∷ rest) = do
    connection ← gets (λ w. w.objects address)
    if nat_eqb connection.agent_connection ws then close_relayed_connection id ws else pure tt
    close_connections ws rest

  unfoldable pub forget_agent : Option WebSocket → Relay (Unit {0})
  forget_agent none = pure tt
  forget_agent (some ws) = do
    modify (λ w. record w { agent_connections = remove_first ws w.agent_connections })
    active ← gets (λ w. w.active_relayed_connections)
    close_connections ws active
    modify (λ w. record w { agent_connection_locks = Dict.erase ws w.agent_connection_locks })

  unfoldable pub edge_agent_connection_close : Text → Relay (Unit {0})
  edge_agent_connection_close id = do
    agent_connection ← gets (λ w. Dict.lookup id w.registered_agent_connections)
    modify (λ w. record w {
      registered_agent_connections = Dict.erase id w.registered_agent_connections;
      agent_connection_id_to_supports_binary =
          Dict.erase id w.agent_connection_id_to_supports_binary;
    })
    forget_agent agent_connection
