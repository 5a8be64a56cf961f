-- ===== src/Example/Main/Secrets.antt =====
-- How the `main` functions of http_network_relay/edge_agent_example.py and
-- http_network_relay/access_client_example.py come to a secret.
use http_network_relay.Prelude.{◌≡◌, Option, none, some, List, Text, codes, refl, ℕ, true}
use http_network_relay.Exception.{Exception, Result, value_error, ok}
use http_network_relay.Frame.Hex.{Bytes}
use http_network_relay.Messages.{AtRStartMessage}
use http_network_relay.Relay.World.{Connection}
use http_network_relay.Example.Credentials.{Credentials}
use http_network_relay.Client.Session.{AccessClient, start_message}
use http_network_relay.Example.Main.{
  Startup, exits, fails, runs, or_else, with_default, EdgeOptions, EdgeAgentForAccessClients,
  ClientOptions, edge_main, client_main, agent_name, agent_url, parsed, check_edge_secret,
  check_edge_args, RelayOptions, server, relay_main, default_port, credentials_file_of,
}

abbrev pub secret_variable : Text
secret_variable = codes "HTTP_NETWORK_RELAY_SECRET"

-- Of three values the first that is there, where the last one always is.
url-some :
    (given variable : Option Text) (default : Text)
    → or_else given (or_else variable (some default))
      ≡ some (with_default given (with_default variable default))
url-some none none default = refl
url-some none (some url) default = refl
url-some (some url) variable default = refl

or_else-none : (a b : Option Text) → or_else a b ≡ none → (a ≡ none) × (b ≡ none)
or_else-none none b e = (refl, e)
or_else-none (some a) b e = absurd (some_none e)
  where
    some_none : ◌≡◌ {A = Option Text} (some a) none → ⊥
    some_none e' = cc

runs_fails :
    (agent : EdgeAgentForAccessClients) (e : Exception)
    → ◌≡◌ {A = Startup EdgeAgentForAccessClients} (runs agent) (fails e)
    → ⊥
runs_fails agent e h = cc

exits_fails : (e : Exception) → ◌≡◌ {A = Startup EdgeAgentForAccessClients} exits (fails e) → ⊥
exits_fails e h = cc

module _ (parse_args : List Text → Option EdgeOptions) (getenv : Text → Option Text)
    (getfqdn : Text) (randbytes : Bytes) where
  -- A secret that was given, or that the environment has, is the agent's, under the agent's name.
  pub edge_main-runs :
      (argv : List Text) (args : EdgeOptions) (secret : Text)
      → parse_args argv ≡ some args
      → or_else args.secret (getenv secret_variable) ≡ some secret
      → (agent : EdgeAgentForAccessClients) × (edge_main parse_args getenv getfqdn randbytes argv
          ≡ runs agent)
        × (agent_url parse_args getenv getfqdn randbytes args ≡ some agent.relay_url)
        × (agent.name ≡ agent_name parse_args getenv getfqdn randbytes args)
        × (agent.secret ≡ secret)
  unfolding edge_main
  edge_main-runs argv args secret p s =
      let url =
        url-some args.relay_url (getenv (codes "HTTP_NETWORK_RELAY_URL"))
          (codes "ws://127.0.0.1:8000/ws_for_edge_agents") in
      (_, rw (p, s, url) refl, url, refl, refl)

  -- The agent can end before it connects by one exception only: if `main` raises, then it raises the
  -- ValueError "secret is required", and there is no secret on the command line or in the
  -- environment. In particular it never raises "relay_url is required".
  edge_main-fails :
      (argv : List Text) (e : Exception)
      → edge_main parse_args getenv getfqdn randbytes argv ≡ fails e
      → (args : EdgeOptions) × (parse_args argv ≡ some args)
        × (args.secret ≡ none)
        × (getenv secret_variable ≡ none)
        × (e ≡ value_error (codes "secret is required"))
  unfolding edge_main
  edge_main-fails argv e h = by_args (parse_args argv) refl h
    where
      by_secret :
          (args : EdgeOptions) (secret : Option Text) (url name : Text)
          → or_else args.secret (getenv secret_variable) ≡ secret
          → check_edge_secret secret url name ≡ fails e
          → (args.secret ≡ none)
            × (getenv secret_variable ≡ none)
            × (e ≡ value_error (codes "secret is required"))
      by_secret args none url name s h' =
          let (given, variable) = or_else-none args.secret (getenv secret_variable) s in
          (given, variable, cc (h'))
      by_secret args (some secret) url name s h' = absurd (runs_fails _ e h')

      by_args :
          (o : Option EdgeOptions)
          → parse_args argv ≡ o
          → parsed o (λ args.
            check_edge_args
              (agent_url parse_args getenv getfqdn randbytes args)
              (or_else args.secret (getenv secret_variable))
              (agent_name parse_args getenv getfqdn randbytes args))
            ≡ fails e
          → (args : EdgeOptions) × (parse_args argv ≡ some args)
            × (args.secret ≡ none)
            × (getenv secret_variable ≡ none)
            × (e ≡ value_error (codes "secret is required"))
      by_args none p h' = absurd (exits_fails e h')
      by_args (some args) p h' =
          let url =
            url-some args.relay_url (getenv (codes "HTTP_NETWORK_RELAY_URL"))
              (codes "ws://127.0.0.1:8000/ws_for_edge_agents") in
          let (given, variable, error) =
            by_secret args _ _ (agent_name parse_args getenv getfqdn randbytes args) refl
              (rw url at h') in
          (args, p, given, variable, error)

abbrev client_of : ClientOptions → Text → Text → AccessClient
client_of args secret url = record {
  target_host_identifier = args.target_host_identifier;
  target_ip = args.target_ip;
  target_port = args.target_port;
  protocol = args.protocol;
  relay_url = some url;
  secret = some secret;
}

abbrev start_of : ClientOptions → Text → AtRStartMessage
start_of args secret = record {
  connection_target = args.target_host_identifier;
  target_ip = args.target_ip;
  target_port = args.target_port;
  protocol = args.protocol;
  secret = secret;
  supports_binary = some true;
}

-- The access client with a secret gets through the checks of `async_main`, and sends the secret.
pub client_main-runs :
    (parse_args : List Text → Option ClientOptions) (getenv : Text → Option Text) (argv : List Text)
    (args : ClientOptions) (secret : Text)
    → parse_args argv ≡ some args
    → or_else args.secret (getenv secret_variable) ≡ some secret
    → (c : AccessClient) × (m : AtRStartMessage) × (client_main parse_args getenv argv ≡ runs c)
      × (start_message c ≡ ok m)
      × (m.secret ≡ secret)
      × (m.connection_target ≡ args.target_host_identifier)
unfolding client_main start_message
client_main-runs parse_args getenv argv args secret p s =
    let url =
      url-some args.relay_url (getenv (codes "HTTP_NETWORK_RELAY_URL"))
        (codes "ws://127.0.0.1:8000/ws_for_access_clients") in
    (
      client_of args secret (
          with_default args.relay_url (
            with_default (getenv (codes "HTTP_NETWORK_RELAY_URL"))
              (codes "ws://127.0.0.1:8000/ws_for_access_clients"))),
      start_of args secret,
      rw (p, s, url) refl,
      refl,
      refl,
      refl,
    )

-- A port, options and a credentials file that can be read make a server with these credentials.
pub relay_main-runs :
    (parse_args : List Text → Option RelayOptions) (getenv : Text → Option Text)
    (int : Text → Result ℕ) (load : Text → Result Credentials) (objects : ℕ → Connection)
    (argv : List Text) (args : RelayOptions) (port : ℕ) (credentials : Credentials)
    → default_port parse_args getenv int load objects ≡ ok port
    → parse_args argv ≡ some args
    → load (credentials_file_of parse_args getenv int load objects args) ≡ ok credentials
    → relay_main parse_args getenv int load objects argv
      ≡ runs (server parse_args getenv int load objects args port credentials)
unfolding relay_main
relay_main-runs parse_args getenv int load objects argv args port credentials d p l =
    rw (d, p, l) refl
