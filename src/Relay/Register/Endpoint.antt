-- ===== src/Relay/Register/Endpoint.antt =====
-- `ws_for_edge_agents` of http_network_relay/network_relay.py. It waits for the task of the message
-- loop, so the loop runs while it waits, and ends as the loop does.
use http_network_relay.Prelude.{ℕ, Option, none, some, Text}
use http_network_relay.Relay.World.{WebSocket, Relay, Env, pure, ◌>>=◌}
use http_network_relay.Relay.MsgLoop.{msg_loop}
use http_network_relay.Relay.Register.{accept_edge_agent}

module _ (env : Env) where
  abbrev pub await_loop : ℕ → WebSocket → Option Text → Relay (Unit {0})
  await_loop rounds ws none = pure tt
  await_loop rounds ws (some agent) = msg_loop env rounds ws agent

  unfoldable pub ws_for_edge_agents : ℕ → WebSocket → Relay (Unit {0})
  ws_for_edge_agents rounds ws = do agent ← accept_edge_agent env ws; await_loop rounds ws agent
