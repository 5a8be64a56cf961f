-- ===== src/Example/Main.antt =====
-- The `main` functions of http_network_relay/network_relay_example.py,
-- http_network_relay/edge_agent_example.py and http_network_relay/access_client_example.py. argparse
-- is a parameter: from the command line it gives the options that were given, or ends the program.
-- So are the environment's variables, the host's name, the random bytes and the credentials file.
pub mod Secrets
pub mod Programs
mod Tests
use http_network_relay.Prelude.{ℕ, Option, none, some, List, [], ◌∷◌, ◌++◌, Text, codes, text_key}
use http_network_relay.Prelude.Dict.{Dict}
use http_network_relay.Exception.{Exception, Result, ok, raise, value_error}
use http_network_relay.Frame.Hex.{Bytes, to_hex}
use http_network_relay.Relay.World.{World, Connection}
use http_network_relay.Relay.Invariant.Reachable.{new_relay}
use http_network_relay.Client.Session.{AccessClient}
use http_network_relay.Example.Credentials.{Credentials}

-- What `main` comes to: `exits` is argparse's SystemExit, `fails` an exception, and `runs` the
-- object that it runs.
pub data Startup (A : Type 0) : Type 0 where
  exits : Startup A
  fails : Exception → Startup A
  runs : A → Startup A

-- A value, or the default where there is none; and the same for the default `None`, or for one that
-- may be `None`.
abbrev pub with_default : Option Text → Text → Text
with_default none default = default
with_default (some value) default = value

abbrev pub or_else : Option Text → Option Text → Option Text
or_else none default = default
or_else (some value) default = some value

abbrev pub parsed : {A B : Type 0} → Option A → (A → Startup B) → Startup B
parsed none rest = exits
parsed (some options) rest = rest options

abbrev pub evaluated : {A B : Type 0} → Result A → (A → Startup B) → Startup B
evaluated (raise x) rest = fails x
evaluated (ok a) rest = rest a

-- The options of the agent that the command line gives.
pub record EdgeOptions : Type 0 where
  pub relay_url : Option Text
  pub name : Option Text
  pub secret : Option Text

-- The attributes of an `EdgeAgentForAccessClients`.
pub record EdgeAgentForAccessClients : Type 0 where
  pub relay_url : Text
  pub name : Text
  pub secret : Text

abbrev pub check_edge_secret : Option Text → Text → Text → Startup EdgeAgentForAccessClients
check_edge_secret none url name = fails (value_error (codes "secret is required"))
check_edge_secret (some secret) url name =
    runs (record { relay_url = url; name = name; secret = secret })

abbrev pub check_edge_args : Option Text → Option Text → Text → Startup EdgeAgentForAccessClients
check_edge_args none secret name = fails (value_error (codes "relay_url is required"))
check_edge_args (some url) secret name = check_edge_secret secret url name

module _ (parse_args : List Text → Option EdgeOptions) (getenv : Text → Option Text)
    (getfqdn : Text) (randbytes : Bytes) where
  abbrev pub unnamed : Text
  unnamed = codes "unnamed-fqdn-" ++ (getfqdn ++ (codes "-edge-agent-" ++ to_hex randbytes))

  abbrev pub agent_name : EdgeOptions → Text
  agent_name args =
      with_default args.name (with_default (getenv (codes "HTTP_NETWORK_RELAY_NAME")) unnamed)

  abbrev pub agent_url : EdgeOptions → Option Text
  agent_url args = or_else args.relay_url (
      or_else (getenv (codes "HTTP_NETWORK_RELAY_URL"))
        (some (codes "ws://127.0.0.1:8000/ws_for_edge_agents")))

  -- `main` of the agent
  unfoldable pub edge_main : List Text → Startup EdgeAgentForAccessClients
  edge_main argv = parsed (parse_args argv) (λ args.
      check_edge_args (agent_url args)
        (or_else args.secret (getenv (codes "HTTP_NETWORK_RELAY_SECRET"))) (agent_name args))

-- The arguments of the access client that the command line gives.
pub record ClientOptions : Type 0 where
  pub target_host_identifier : Text
  pub target_ip : Text
  pub target_port : ℕ
  pub protocol : Text
  pub relay_url : Option Text
  pub secret : Option Text

-- `main` of the access client
unfoldable pub client_main :
    (List Text → Option ClientOptions) → (Text → Option Text) → List Text → Startup AccessClient
client_main parse_args getenv argv = parsed (parse_args argv) (λ args. runs (record {
  target_host_identifier = args.target_host_identifier;
  target_ip = args.target_ip;
  target_port = args.target_port;
  protocol = args.protocol;
  relay_url = or_else args.relay_url (
      or_else (getenv (codes "HTTP_NETWORK_RELAY_URL"))
        (some (codes "ws://127.0.0.1:8000/ws_for_access_clients")));
  secret = or_else args.secret (getenv (codes "HTTP_NETWORK_RELAY_SECRET"));
}))

-- The options of the relay that the command line gives, the port as a number.
pub record RelayOptions : Type 0 where
  pub host : Option Text
  pub port : Option ℕ
  pub credentials_file : Option Text

pub data Handler : Type 0 where
  ws_for_edge_agents ws_for_access_clients : Handler

-- What `uvicorn.run` serves.
pub record Server : Type 0 where
  pub host : Text
  pub port : ℕ
  pub routes : Dict Text Handler
  pub credentials : Credentials
  pub relay : World

abbrev pub port_or : Option ℕ → ℕ → ℕ
port_or none default = default
port_or (some port) default = port

module _ (parse_args : List Text → Option RelayOptions) (getenv : Text → Option Text)
    (int : Text → Result ℕ) (load : Text → Result Credentials) (objects : ℕ → Connection) where
  -- `int(os.getenv(…))`, which is evaluated for the option's default
  abbrev pub default_port : Result ℕ
  default_port = int (with_default (getenv (codes "HTTP_NETWORK_RELAY_SERVER_PORT")) (codes "8000"))

  abbrev pub credentials_file_of : RelayOptions → Text
  credentials_file_of args = with_default args.credentials_file (
      with_default (getenv (codes "HTTP_NETWORK_RELAY_CREDENTIALS_FILE"))
        (codes "credentials.json"))

  abbrev pub server : RelayOptions → ℕ → Credentials → Server
  server args port credentials = record {
    host =
        with_default args.host
          (with_default (getenv (codes "HTTP_NETWORK_RELAY_SERVER_HOST")) (codes "127.0.0.1"));
    port = port_or args.port port;
    routes =
        (codes "/ws_for_edge_agents", ws_for_edge_agents)
        ∷ (codes "/ws_for_access_clients", ws_for_access_clients)
        ∷ [];
    credentials = credentials;
    relay = new_relay objects;
  }

  -- `main` of the relay; `load` opens the file and reads its JSON.
  unfoldable pub relay_main : List Text → Startup Server
  relay_main argv = evaluated default_port (λ port. parsed (parse_args argv) (λ args.
      evaluated (load (credentials_file_of args))
        (λ credentials. runs (server args port credentials))))
