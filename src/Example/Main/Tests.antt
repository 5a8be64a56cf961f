-- ===== src/Example/Main/Tests.antt =====
-- The three programs of the example at small command lines.
use http_network_relay.Prelude.{
  ℕ, ◌≡◌, ◌≢◌, refl, false, Option, none, some, List, [], ◌∷◌, Text, codes, text_key,
}
use http_network_relay.Prelude.Dict
use http_network_relay.Exception.{Result, ok, raise, value_error}
use http_network_relay.Messages.{start}
use http_network_relay.Relay.World.{
  World, Env, Connection, disconnected, close, done, pure, continue, perform,
}
use http_network_relay.Relay.Register.{start_agent}
use http_network_relay.Relay.Sample.{sample, alone, busy}
use http_network_relay.Example.Credentials.{Credentials, with_credentials}
use http_network_relay.Example.Registration.{sent_start, IsRegistered}
use http_network_relay.Example.Main.{
  fails, runs, EdgeOptions, EdgeAgentForAccessClients, ClientOptions, RelayOptions, Server,
  edge_main, relay_main,
}
use http_network_relay.Example.Main.Programs.{IsServing, edge_main-decides}

-- No variable is set.
abbrev unset : Text → Option Text
unset name = none

-- The first word is the agent's name, and the second one its secret.
abbrev edge_words : List Text → Option EdgeOptions
edge_words [] = some (record { relay_url = none; name = none; secret = none })
edge_words (n ∷ []) = some (record { relay_url = none; name = some n; secret = none })
edge_words (n ∷ s ∷ rest) = some (record { relay_url = none; name = some n; secret = some s })

-- The first word is the target, and the second one the secret.
abbrev client_words : List Text → Option ClientOptions
client_words [] = none
client_words (target ∷ []) = none
client_words (target ∷ s ∷ rest) = some (record {
  target_host_identifier = target;
  target_ip = codes "127.0.0.1";
  target_port = 22;
  protocol = codes "tcp";
  relay_url = none;
  secret = some s;
})

abbrev no_options : List Text → Option RelayOptions
no_options argv = some (record { host = none; port = none; credentials_file = none })

abbrev only_number : Text → Result ℕ
only_number t = elim t [
  | [] ↦ raise (value_error (codes "invalid literal for int()"))
  | _ ∷ _ ↦ ok 8000
]

abbrev credentials : Credentials
credentials = record {
  access_client_secrets = codes "key" ∷ [];
  edge_agents = (codes "box", codes "hush") ∷ [];
}

abbrev from_file : Text → Result Credentials
from_file name = ok credentials

abbrev objects : ℕ → Connection
objects = busy.objects

abbrev env : Env
env = sample (ok disconnected) (ok false) alone

-- The port of the environment is converted even where the command line gives another one.
port_run :
    relay_main
      (λ argv. some (record { host = none; port = some 9000; credentials_file = none }))
      (λ name. some [])
      only_number
      from_file
      objects
      []
    ≡ fails (value_error (codes "invalid literal for int()"))
unfolding relay_main
port_run = refl

abbrev serves : IsServing no_options unset only_number from_file objects [] credentials
serves = record {
  args = record { host = none; port = none; credentials_file = none };
  port = 8000;
  default = refl;
  parses = refl;
  loads = refl;
}

edge_main-decides_example :
    (agent : EdgeAgentForAccessClients) × (relay : Server) × (edge_main edge_words unset
        (codes "host")
        (1 ∷ 2 ∷ 3 ∷ 4 ∷ [])
        (codes "box" ∷ codes "hush" ∷ [])
      ≡ runs agent)
    × (relay_main no_options unset only_number from_file objects [] ≡ runs relay)
    × (Dict.lookup (codes "box") credentials.edge_agents ≡ some (codes "hush")
        → (v : World) × (start_agent
              (with_credentials relay.credentials env)
              2
              (start (sent_start agent.name agent.secret none))
              relay.relay
            ≡ (done (some (codes "box")), v))
          × IsRegistered (codes "box") 2 v)
    × (Dict.lookup (codes "box") credentials.edge_agents ≢ some (codes "hush")
        → start_agent
            (with_credentials relay.credentials env)
            2
            (start (sent_start agent.name agent.secret none))
            relay.relay
          ≡ continue (perform env (close 2) relay.relay) (λ _. pure none))
edge_main-decides_example =
    edge_main-decides no_options unset only_number from_file objects [] credentials edge_words unset
      (codes "host") (1 ∷ 2 ∷ 3 ∷ 4 ∷ []) (codes "box" ∷ codes "hush" ∷ [])
      (record { relay_url = none; name = some (codes "box"); secret = some (codes "hush") })
      (codes "hush") b'b' (codes "ox") env 2 serves refl refl refl refl
