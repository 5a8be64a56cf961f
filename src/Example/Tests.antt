-- ===== src/Example/Tests.antt =====
-- An agent and an access client of the example programs.
use http_network_relay.Prelude.{
  ◌≡◌, ◌⊎◌, refl, true, false, none, some, [], ◌∷◌, codes, text_key, text_eqb,
}
use http_network_relay.Prelude.Dict
use http_network_relay.Exception.{ok}
use http_network_relay.Messages.{EtRStartMessage, EdgeAgentToRelayMessage, AtRStartMessage, start}
use http_network_relay.Relay.World.{World, WebSocket, Env, done, disconnected, start_task}
use http_network_relay.Relay.Close.{edge_agent_connection_open}
use http_network_relay.Relay.Agents.{wants_keep_alive}
use http_network_relay.Relay.Register.{admit, start_agent}
use http_network_relay.Relay.Sample.{sample, alone, busy}
use http_network_relay.Example.Credentials.{
  Credentials, with_credentials, create_start_message, get_agent_permission,
}
use http_network_relay.Example.Registration.{
  IsRegistered, HasSecret, sent_start, start_agent-HasSecret,
}
use http_network_relay.Messages.{text}
use http_network_relay.EdgeAgent.World.{Agent, Edge, send}
use http_network_relay.EdgeAgent.World as Agents
use http_network_relay.EdgeAgent.Sample.{edge, idle}
use http_network_relay.EdgeAgent.Session.{session}
use http_network_relay.Relay.Register.{accept_edge_agent}
use http_network_relay.Example.Relay.{example_relay}
use http_network_relay.Example.Agent.{example_agent, start_json, session-registers}

abbrev env : Env
env = sample (ok disconnected) (ok false) alone

abbrev credentials : Credentials
credentials = record {
  access_client_secrets = codes "key" ∷ [];
  edge_agents = (codes "box", codes "hush") ∷ [];
}

abbrev box_start : EtRStartMessage
box_start = sent_start (codes "box") (codes "hush") none

abbrev started : World
started = (start_agent (with_credentials credentials env) 2 (start box_start) busy).1

box_registered : Dict.lookup (codes "box") started.registered_agent_connections ≡ some 2
unfolding start_agent get_agent_permission create_start_message admit edge_agent_connection_open
    start_task wants_keep_alive Dict.lookup Dict.insert text_eqb
box_registered = refl

start_agent-HasSecret_example :
    (Dict.lookup (codes "box") busy.registered_agent_connections ≡ some 2)
    ⊎ ((◌≡◌ {A = WebSocket} 2 2)
        × (m : EtRStartMessage) × (m' : EtRStartMessage) × (◌≡◌ {A = EdgeAgentToRelayMessage}
            (start box_start)
            (start m))
        × (env.validate_start m ≡ ok m')
        × HasSecret credentials m' (codes "box"))
start_agent-HasSecret_example =
    start_agent-HasSecret credentials env 2 (start box_start) busy (codes "box") 2
      (λ v. record { at = λ a s h. h }) box_registered

abbrev stranger : AtRStartMessage
stranger = record {
  connection_target = codes "box";
  target_ip = codes "127.0.0.1";
  target_port = 22;
  protocol = codes "tcp";
  secret = codes "guess";
  supports_binary = some true;
}

-- A relay that reads every text as the start message of the box, and an agent without connections.
abbrev reading : Env
reading = record env {
  from_agent = record { dump = λ m. []; validate = λ t. ok (start box_start) };
}

abbrev new_agent : Agent
new_agent = record {
  active_connections = [];
  websocket = none;
  signal_connected = false;
  trace = [];
}

session-registers_example :
    (rest : Unit {0} → Edge (Unit {0})) × (session
        (example_agent (codes "box") (codes "hush") (edge idle))
        3
        1
        none
        new_agent
      ≡ Agents.continue
          (Agents.perform
            (example_agent (codes "box") (codes "hush") (edge idle))
            (send 1 (text (start_json (edge idle) (codes "box") (codes "hush") none)))
            new_agent)
          rest)
    × (v : World) × (accept_edge_agent (example_relay credentials reading) 2 busy
        ≡ (done (some (codes "box")), v))
    × IsRegistered (codes "box") 2 v
unfolding Dict.lookup text_eqb
session-registers_example =
    session-registers (edge idle) reading credentials b'b' (codes "ox") (codes "hush") none 3 1 2
      new_agent busy
      (record {
        accepts = λ h. refl;
        receives = λ h. refl;
        validates = refl;
        validates_start = refl;
        others = λ w free. free;
      })
      refl refl
