-- ===== src/Relay/Hooks.antt =====
-- The methods of `NetworkRelay` in http_network_relay/network_relay.py that a subclass is meant to
-- override, as the class itself has them.
use http_network_relay.Prelude.{ℕ, ◌≢◌, Bool, [], Option, none, some, Text, arith}
use http_network_relay.Exception.{ok, not_implemented_error}
use http_network_relay.Messages.{EtRStartMessage, AtRStartMessage, EdgeAgentToRelayMessage}
use http_network_relay.Relay.World.{WebSocket, World, Relay, Env, done, pure, fail}
use http_network_relay.Relay.Guarantee.{Guarantee-pure, Guarantee-fail}
use http_network_relay.Relay.Invariant.{Evolves-Rely}
use http_network_relay.Relay.Invariant.Nested.{HasTameHooks}
use http_network_relay.Relay.Register.{start_agent}
use http_network_relay.Relay.Register.Admission.{start_agent-IsPermitted}
use http_network_relay.Relay.AccessClients.{open_client}
use http_network_relay.Relay.AccessClients.Opening.{open_client-IsOpened}

abbrev pub handle_custom_agent_message : Text → Text → Relay (Unit {0})
handle_custom_agent_message json agent = fail (not_implemented_error [])

abbrev pub no_agent_permission : EtRStartMessage → WebSocket → Relay (Option Text)
no_agent_permission m ws = fail (not_implemented_error [])

abbrev pub get_access_client_permission : AtRStartMessage → WebSocket → Relay Bool
get_access_client_permission m ws = fail (not_implemented_error [])

abbrev pub get_agent_connection_id_for_access_client : Text → Relay Text
get_agent_connection_id_for_access_client target = pure target

-- The class as it stands, with `None` for its two message classes.
abbrev pub base_class : Env → Env
base_class env = record env {
  validate_custom = none;
  validate_start = λ m. ok m;
  handle_custom_agent_message = handle_custom_agent_message;
  get_agent_msg_loop_permission_and_create_connection_id = no_agent_permission;
  get_access_client_permission = get_access_client_permission;
  get_agent_connection_id_for_access_client = get_agent_connection_id_for_access_client;
}

-- These methods do no harm.
pub base_class-HasTameHooks : (env : Env) → HasTameHooks (base_class env)
base_class-HasTameHooks env = record {
  tame = λ others.
      let rely = Evolves-Rely (base_class env) others in
      record {
        others = others;
        custom_message = λ json agent. Guarantee-fail rely (not_implemented_error []);
        agent_permission = λ m ws. Guarantee-fail rely (not_implemented_error []);
        client_permission = λ m ws. Guarantee-fail rely (not_implemented_error []);
        client_target = λ target. Guarantee-pure rely target;
      };
}

-- A relay that does not override the methods lets nobody in: whatever an agent's first message is,
-- the agent is not registered, and no access client gets a connection.
base_class-refuses :
    (env : Env) (ws : WebSocket) (message : EdgeAgentToRelayMessage) (m : AtRStartMessage)
    (agent : Text) (address : ℕ) (w v : World)
    → (start_agent (base_class env) ws message w ≢ (done (some agent), v))
      × (open_client (base_class env) m ws w ≢ (done (some address), v))
base_class-refuses env ws message m agent address w v = (
  λ h.
      let (start, is_start, p, registered) =
        start_agent-IsPermitted (base_class env) ws message w v agent h in
      let raises = p.allowed in ground arith,
  λ h.
      let raises = (open_client-IsOpened (base_class env) m ws w v address h).allowed in
      ground arith,
)
