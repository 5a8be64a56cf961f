-- ===== src/Example/Main/Programs.antt =====
-- The three programs of the example together.
use http_network_relay.Prelude.{
  ℕ, ◌≡◌, ◌≢◌, refl, ap, ◌∙◌, true, false, Option, none, some, List, ◌∷◌, Text, codes, text_key,
}
use http_network_relay.Prelude.Dict
use http_network_relay.Exception.{Result, ok}
use http_network_relay.Frame.Hex.{Bytes}
use http_network_relay.Messages.{AtRStartMessage, start, error}
use http_network_relay.Relay.World.{
  WebSocket, World, Env, Connection, close, send_text, done, pure, continue, perform,
}
use http_network_relay.Relay.Register.{start_agent}
use http_network_relay.Relay.AccessClients.{open_client, open_permitted}
use http_network_relay.Client.Session.{AccessClient, start_message}
use http_network_relay.Example.Credentials.{Credentials, is_listed, with_credentials}
use http_network_relay.Example.Registration.{sent_start, IsRegistered, start_agent-decides}
use http_network_relay.Example.Clients.{open_client-decides}
use http_network_relay.Example.Main.{
  runs, or_else, EdgeOptions, EdgeAgentForAccessClients, ClientOptions, RelayOptions, Server,
  edge_main, agent_name, client_main, relay_main, default_port, credentials_file_of, server,
}
use http_network_relay.Example.Main.Secrets.{
  secret_variable, edge_main-runs, client_main-runs, relay_main-runs,
}

module _ (parse_relay : List Text → Option RelayOptions) (relay_env : Text → Option Text)
    (int : Text → Result ℕ) (load : Text → Result Credentials) (objects : ℕ → Connection) where
  -- The relay's program is started, and reads its credentials.
  pub record IsServing (argv : List Text) (credentials : Credentials) : Type 0 where
    pub args : RelayOptions
    pub port : ℕ
    pub default : default_port parse_relay relay_env int load objects ≡ ok port
    pub parses : parse_relay argv ≡ some args
    pub loads :
        load (credentials_file_of parse_relay relay_env int load objects args) ≡ ok credentials

  abbrev pub serving :
      (argv : List Text) (credentials : Credentials) → IsServing argv credentials → Server
  serving argv credentials s =
      server parse_relay relay_env int load objects s.args s.port credentials

  serving-runs :
      (argv : List Text) (credentials : Credentials) (s : IsServing argv credentials)
      → relay_main parse_relay relay_env int load objects argv ≡ runs (serving argv credentials s)
  serving-runs argv credentials s =
      relay_main-runs parse_relay relay_env int load objects argv s.args s.port credentials
        s.default s.parses s.loads

  -- The agent's program against the relay's. If the relay is started and reads its credentials, and
  -- the agent is started with a secret, on its command line or in its environment, then both run,
  -- and the agent's first start message decides: with the secret that the credentials have for the
  -- agent's name, the relay registers it under this name, with the binary framing; with any other
  -- secret or an unknown name the relay closes its WebSocket and does nothing else. Provided that
  -- the name is not empty, and that the relay validates the message that the agent sends.
  pub edge_main-decides :
      (relay_argv : List Text) (credentials : Credentials)
      (parse_args : List Text → Option EdgeOptions) (getenv : Text → Option Text) (getfqdn : Text)
      (randbytes : Bytes) (argv : List Text) (args : EdgeOptions) (secret : Text) (c : ℕ) (s : Text)
      (env : Env) (ws : WebSocket)
      → IsServing relay_argv credentials
      → parse_args argv ≡ some args
      → or_else args.secret (getenv secret_variable) ≡ some secret
      → agent_name parse_args getenv getfqdn randbytes args ≡ c ∷ s
      → env.validate_start (sent_start (c ∷ s) secret none) ≡ ok (sent_start (c ∷ s) secret none)
      → (agent : EdgeAgentForAccessClients) × (relay : Server) × (edge_main parse_args getenv
            getfqdn randbytes argv
          ≡ runs agent)
        × (relay_main parse_relay relay_env int load objects relay_argv ≡ runs relay)
        × (Dict.lookup (c ∷ s) credentials.edge_agents ≡ some secret
            → (v : World) × (start_agent
                  (with_credentials relay.credentials env)
                  ws
                  (start (sent_start agent.name agent.secret none))
                  relay.relay
                ≡ (done (some (c ∷ s)), v))
              × IsRegistered (c ∷ s) ws v)
        × (Dict.lookup (c ∷ s) credentials.edge_agents ≢ some secret
            → start_agent
                (with_credentials relay.credentials env)
                ws
                (start (sent_start agent.name agent.secret none))
                relay.relay
              ≡ continue (perform env (close ws) relay.relay) (λ _. pure none))
  unfolding Dict.lookup
  edge_main-decides relay_argv credentials parse_args getenv getfqdn randbytes argv args secret c s
        env ws serves p given named valid =
      let (agent, agent_runs, _, name, same) =
        edge_main-runs parse_args getenv getfqdn randbytes argv args secret p given in
      let relay = serving relay_argv credentials serves in
      let (right, wrong) =
        start_agent-decides credentials env ws c s secret none relay.relay valid refl in
      (
        agent,
        relay,
        agent_runs,
        serving-runs relay_argv credentials serves,
        rw (name, same, named) right,
        rw (name, same, named) wrong,
      )

  -- The access client's program against the relay's. If the relay is started and reads its
  -- credentials, and the client is started with a secret, on its command line or in its environment,
  -- then both run, the client gets to its start message, and this decides: with a listed secret the
  -- relay goes on to the agent that the client asks for; with any other it sends the client an
  -- error, closes its WebSocket, and neither looks for an agent nor creates a connection.
  client_main-decides :
      (relay_argv : List Text) (credentials : Credentials)
      (parse_args : List Text → Option ClientOptions) (getenv : Text → Option Text)
      (argv : List Text) (args : ClientOptions) (secret : Text) (env : Env) (ws : WebSocket)
      → IsServing relay_argv credentials
      → parse_args argv ≡ some args
      → or_else args.secret (getenv secret_variable) ≡ some secret
      → (client : AccessClient) × (m : AtRStartMessage) × (relay : Server) × (client_main parse_args
            getenv argv
          ≡ runs client)
        × (start_message client ≡ ok m)
        × (m.connection_target ≡ args.target_host_identifier)
        × (relay_main parse_relay relay_env int load objects relay_argv ≡ runs relay)
        × (is_listed secret credentials.access_client_secrets ≡ true
            → open_client (with_credentials relay.credentials env) m ws relay.relay
              ≡ open_permitted (with_credentials relay.credentials env) true m ws relay.relay)
        × (is_listed secret credentials.access_client_secrets ≡ false
            → open_client (with_credentials relay.credentials env) m ws relay.relay
              ≡ continue
                  (continue
                    (perform env
                      (send_text ws
                        (env.to_client.dump (error (codes "Invalid access client secret"))))
                      relay.relay)
                    (λ _. perform (with_credentials relay.credentials env) (close ws)))
                  (λ _. pure none))
  client_main-decides relay_argv credentials parse_args getenv argv args secret env ws serves p
        given =
      let (client, m, client_runs, starts, same, target) =
        client_main-runs parse_args getenv argv args secret p given in
      let relay = serving relay_argv credentials serves in
      let (listed, unlisted) = open_client-decides credentials env m ws relay.relay in
      (
        client,
        m,
        relay,
        client_runs,
        starts,
        target,
        serving-runs relay_argv credentials serves,
        λ h. listed (ap (λ t. is_listed t credentials.access_client_secrets) same ∙ h),
        λ h. unlisted (ap (λ t. is_listed t credentials.access_client_secrets) same ∙ h),
      )
