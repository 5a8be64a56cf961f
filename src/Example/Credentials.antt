-- ===== src/Example/Credentials.antt =====
-- `NetworkRelayForAccessClients` of http_network_relay/network_relay_example.py, a relay that knows
-- its agents and its access clients by their secrets, and the start message of
-- http_network_relay/edge_agent_example.py.
use http_network_relay.Prelude.{
  Bool, true, false, Option, none, some, List, [], ◌∷◌, ◌||◌, Text, codes, text_key, text_eqb,
  if◌then◌else◌,
}
use http_network_relay.Prelude.Dict
use http_network_relay.Prelude.Dict.{Dict}
use http_network_relay.Exception.{attribute_error}
use http_network_relay.Messages.{EtRStartMessage, AtRStartMessage, error}
use http_network_relay.Relay.World.{WebSocket, Relay, Env, send_text, pure, fail, ◌>>◌, perform}

-- The JSON of the credentials file, with its two entries.
pub record Credentials : Type 0 where
  pub access_client_secrets : List Text
  pub edge_agents : Dict Text Text

-- `secret in secrets`
unfoldable pub is_listed : Text → List Text → Bool
is_listed secret [] = false
is_listed secret (s ∷ secrets) = text_eqb s secret || is_listed secret secrets

-- `start_message.name` and `start_message.secret`
abbrev pub name_of : EtRStartMessage → Option Text
name_of m = Dict.lookup (codes "name") m.extra

abbrev pub secret_of : EtRStartMessage → Option Text
secret_of m = Dict.lookup (codes "secret") m.extra

abbrev pub compare_secrets : Text → Text → Option Text → Relay (Option Text)
compare_secrets name right none = fail attribute_error
compare_secrets name right (some secret) =
    if text_eqb right secret then pure (some name) else pure none

abbrev pub check_agent : Option Text → Text → Option Text → Relay (Option Text)
check_agent none name secret = pure none
check_agent (some right) name secret = compare_secrets name right secret

abbrev pub permit : Credentials → Option Text → Option Text → Relay (Option Text)
permit credentials none secret = fail attribute_error
permit credentials (some name) secret =
    check_agent (Dict.lookup name credentials.edge_agents) name secret

-- `get_agent_msg_loop_permission_and_create_connection_id`
unfoldable pub get_agent_permission :
    Credentials → EtRStartMessage → WebSocket → Relay (Option Text)
get_agent_permission credentials m ws = permit credentials (name_of m) (secret_of m)

-- `get_access_client_permission`
unfoldable pub get_client_permission : Credentials → Env → AtRStartMessage → WebSocket → Relay Bool
get_client_permission credentials env m ws =
    if is_listed m.secret credentials.access_client_secrets then pure true else (do
      perform env (send_text ws (env.to_client.dump (error (codes "Invalid access client secret"))))
      pure false)

-- The relay with these two methods in place of those of `NetworkRelay`.
abbrev pub with_credentials : Credentials → Env → Env
with_credentials credentials env = record env {
  get_agent_msg_loop_permission_and_create_connection_id = get_agent_permission credentials;
  get_access_client_permission = get_client_permission credentials env;
}

-- `EdgeAgentForAccessClients.create_start_message`
unfoldable pub create_start_message : Text → Text → Option Text → EtRStartMessage
create_start_message name secret last_error = record {
  last_error = last_error;
  supports_binary = false;
  extra = (codes "name", name) ∷ (codes "secret", secret) ∷ [];
}
