-- ===== src/Relay/Register.antt =====
-- `accept_ws_and_start_msg_loop_for_edge_agents` of http_network_relay/network_relay.py.
pub mod Admission
pub mod Flags
pub mod Registry
pub mod Endpoint
mod Tests
use http_network_relay.Prelude.{
  Bool, true, false, Option, none, some, List, [], ◌∷◌, ◌++◌, Text, text_key, if◌then◌else◌,
}
use http_network_relay.Prelude.Dict
use http_network_relay.Messages.{EtRStartMessage, EdgeAgentToRelayMessage, start}
use http_network_relay.Relay.World.{
  WebSocket, World, Relay, Env, accept, close, keep_alive_task, msg_loop_task, Outcome, done,
  raised, pending, pure, fail, lift, gets, modify, continue, ◌>>=◌, ◌>>◌, perform, start_task,
}
use http_network_relay.Relay.Close.{edge_agent_connection_open, edge_agent_connection_close}
use http_network_relay.Relay.Agents.{wants_keep_alive, receive_first}

module _ (env : Env) where
  -- The second half: the agent is registered, and its tasks are started.
  unfoldable pub admit : WebSocket → Text → EtRStartMessage → Relay (Option Text)
  admit ws agent m = do
    edge_agent_connection_open agent ws
    if wants_keep_alive m.last_error then start_task (keep_alive_task ws) else pure tt
    start_task (msg_loop_task ws agent)
    pure (some agent)

  abbrev pub refuse : WebSocket → Relay (Option Text)
  refuse ws = do perform env (close ws); pure none

  -- The check for an agent that is registered already.
  abbrev pub check_registered :
      Option WebSocket → WebSocket → Text → EtRStartMessage → Relay (Option Text)
  check_registered none ws agent m = admit ws agent m
  check_registered (some old) ws agent m = do
    gone ← (λ w. lift (env.is_closed w.trace old) w)
    if gone then (edge_agent_connection_close env agent >> admit ws agent m) else refuse ws

  -- From the permission on; the framing flag is that of the message as it was received.
  abbrev pub permitted : Option Text → Bool → WebSocket → EtRStartMessage → Relay (Option Text)
  permitted none supports ws m = refuse ws
  permitted (some []) supports ws m = refuse ws
  permitted (some (c ∷ s)) supports ws m = do
    modify (λ w. record w {
      agent_connection_id_to_supports_binary =
          Dict.insert (c ∷ s) supports w.agent_connection_id_to_supports_binary;
    })
    registered ← gets (λ w. Dict.lookup (c ∷ s) w.registered_agent_connections)
    check_registered registered ws (c ∷ s) m

  unfoldable pub start_agent : WebSocket → EdgeAgentToRelayMessage → Relay (Option Text)
  unfolding admit
  start_agent ws (start m) = do
    m' ← lift (env.validate_start m)
    agent ← env.get_agent_msg_loop_permission_and_create_connection_id m' ws
    permitted agent m.supports_binary ws m'
  start_agent ws m = pure none

  -- The whole method: the agent's connection id if the message loop was started.
  unfoldable pub accept_edge_agent : WebSocket → Relay (Option Text)
  unfolding start_agent
  accept_edge_agent ws = do
    perform env (accept ws)
    modify (λ w. record w { agent_connections = w.agent_connections ++ ws ∷ [] })
    json ← receive_first env ws
    m ← lift (env.from_agent.validate json)
    start_agent ws m
