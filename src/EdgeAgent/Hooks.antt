-- ===== src/EdgeAgent/Hooks.antt =====
-- The methods of `EdgeAgent` in http_network_relay/edge_agent.py that a subclass is meant to
-- override, as the class itself has them.
use http_network_relay.Prelude.{[], none, Option, Text, ◌≡◌, refl, ℕ}
use http_network_relay.Exception.{not_implemented_error}
use http_network_relay.Messages.{EtRStartMessage}
use http_network_relay.Relay.World.{WebSocket, raised}
use http_network_relay.EdgeAgent.World.{Agent, Edge, EdgeEnv, pure, fail}
use http_network_relay.EdgeAgent.Session.{session}

abbrev pub no_start_message : Option Text → Edge EtRStartMessage
no_start_message last_error = fail (not_implemented_error [])

abbrev pub handle_custom_relay_message : Text → Edge (Unit {0})
handle_custom_relay_message json = fail (not_implemented_error [])

abbrev pub on_connection_closed : Edge (Unit {0})
on_connection_closed = pure tt

-- The class as it stands, with `None` for its message class.
abbrev pub base_agent : EdgeEnv → EdgeEnv
base_agent env = record env {
  validate_custom = none;
  start_message = no_start_message;
  handle_custom_relay_message = handle_custom_relay_message;
  on_connection_closed = on_connection_closed;
}

-- An agent that does not override `create_start_message` sends nothing: its session raises at once.
base_agent-sends_nothing :
    (env : EdgeEnv) (rounds : ℕ) (ws : WebSocket) (last_error : Option Text) (w : Agent)
    → session (base_agent env) rounds ws last_error w ≡ (raised (not_implemented_error []), w)
unfolding session
base_agent-sends_nothing env rounds ws last_error w = refl
