-- ===== src/Relay/Register/Tests.antt =====
-- A second agent under a registered id.
use http_network_relay.Prelude.{◌≡◌, ◌⊎◌, refl, true, false, some, [], codes, text_key, text_eqb}
use http_network_relay.Prelude.Dict
use http_network_relay.Exception.{ok, raise, attribute_error}
use http_network_relay.Messages.{EtRStartMessage, start, start_message_defaults}
use http_network_relay.Relay.World.{World, Env, raised, start_task, disconnected}
use http_network_relay.Relay.Close.{edge_agent_connection_open}
use http_network_relay.Relay.Agents.{wants_keep_alive}
use http_network_relay.Relay.Register.{admit, start_agent}
use http_network_relay.Relay.Register.Registry.{IsAdmitted, start_agent-registers_only}
use http_network_relay.Relay.Register.Flags.{IsDuplicate, duplicate_replaces_flag}
use http_network_relay.Relay.Sample.{sample, alone, busy}

abbrev live_env : Env
live_env = sample (ok disconnected) (ok false) alone

abbrev binary_start : EtRStartMessage
binary_start = record start_message_defaults { supports_binary = true }

-- The relay before any agent.
abbrev empty : World
empty = record busy {
  agent_connections = [];
  registered_agent_connections = [];
  active_relayed_connections = [];
  agent_connection_id_to_supports_binary = [];
}

abbrev started : World
started = (start_agent live_env 2 (start binary_start) empty).1

agent_registered : Dict.lookup (codes "agent") started.registered_agent_connections ≡ some 2
unfolding start_agent admit edge_agent_connection_open start_task wants_keep_alive Dict.lookup
    Dict.insert text_eqb
agent_registered = refl

start_agent-registers_only_example :
    (Dict.lookup (codes "agent") empty.registered_agent_connections ≡ some 2)
    ⊎ IsAdmitted live_env 2 (start binary_start) empty (codes "agent") 2
start_agent-registers_only_example =
    start_agent-registers_only {env = live_env}
      (record {
        others = λ w. record { at = λ a s h. h };
        hook = λ m ws w. record { at = λ a s h. h };
      })
      2 (start binary_start) empty (codes "agent") 2 agent_registered

-- The first agent's WebSocket has no attribute `closed`.
abbrev starlette : Env
starlette = sample (ok disconnected) (raise attribute_error) alone

duplicate : IsDuplicate starlette 2 1 start_message_defaults busy (codes "agent")
unfolding Dict.lookup text_eqb
duplicate = record {
  permitted = record {
    message = start_message_defaults;
    validated = refl;
    after = busy;
    allowed = refl;
    not_empty = λ e. cc;
  };
  registered = refl;
  no_attribute = refl;
}

duplicate_replaces_flag_example :
    let r = (start_agent starlette 2 (start start_message_defaults) busy) in
    (r.0 ≡ raised attribute_error)
    × (r.1.trace ≡ duplicate.permitted.after.trace)
    × (Dict.lookup (codes "agent") r.1.registered_agent_connections ≡ some 1)
    × (Dict.lookup (codes "agent") r.1.agent_connection_id_to_supports_binary ≡ some false)
duplicate_replaces_flag_example =
    duplicate_replaces_flag starlette 2 1 start_message_defaults busy (codes "agent") duplicate
