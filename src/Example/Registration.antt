-- ===== src/Example/Registration.antt =====
-- Which agents http_network_relay/network_relay_example.py registers.
use http_network_relay.Prelude.{
  ◌≡◌, ◌≢◌, refl, ◌∙◌, true, Option, none, some, ◌∷◌, Text, text_key, text_eqb, text_eqb_iff, arith,
  ℕ, ap, subst, ◌⊎◌, Option-cases, Bool-cases, inl, inr, if◌then◌else◌,
}
use http_network_relay.Prelude.Dict
use http_network_relay.Exception.{ok}
use http_network_relay.Messages.{EtRStartMessage, EdgeAgentToRelayMessage, start}
use http_network_relay.Relay.World.{
  WebSocket, World, Env, done, pure, close, continue, perform, start_task,
}
use http_network_relay.Relay.Close.{edge_agent_connection_open}
use http_network_relay.Relay.Register.{admit, start_agent}
use http_network_relay.Relay.Register.Registry.{
  NoNewcomer, LeavesRegistry, start_agent-registers_only,
}
use http_network_relay.Example.Credentials.{
  Credentials, name_of, secret_of, compare_secrets, check_agent, permit, get_agent_permission,
  with_credentials, create_start_message,
}

-- The message names the agent and has the secret that the credentials have for it.
pub record HasSecret (credentials : Credentials) (m : EtRStartMessage) (agent : Text) : Type 0 where
  pub secret : Text
  pub named : name_of m ≡ some agent
  pub known : Dict.lookup agent credentials.edge_agents ≡ some secret
  pub given : secret_of m ≡ some secret

module _ (credentials : Credentials) where
  compared-HasSecret :
      (m : EtRStartMessage) (name right : Text) (o : Option Text) (w v : World) (agent : Text)
      → name_of m ≡ some name
      → Dict.lookup name credentials.edge_agents ≡ some right
      → secret_of m ≡ o
      → compare_secrets name right o w ≡ (done (some agent), v)
      → HasSecret credentials m agent
  compared-HasSecret m name right none w v agent n k g h = ground arith
  compared-HasSecret m name right (some s) w v agent n k g h = record {
    secret = s;
    named = ground (arith, n);
    known = ground (arith, k, text_eqb_iff right s);
    given = g;
  }

  permission-HasSecret :
      (m : EtRStartMessage) (ws : WebSocket) (w v : World) (agent : Text)
      → get_agent_permission credentials m ws w ≡ (done (some agent), v)
      → HasSecret credentials m agent
  unfolding get_agent_permission
  permission-HasSecret m ws w v agent h = by_name (name_of m) refl h
    where
      by_known :
          (name : Text) (o : Option Text)
          → name_of m ≡ some name
          → Dict.lookup name credentials.edge_agents ≡ o
          → check_agent o name (secret_of m) w ≡ (done (some agent), v)
          → HasSecret credentials m agent
      by_known name none n k h' = ground arith
      by_known name (some right) n k h' =
          compared-HasSecret m name right (secret_of m) w v agent n k refl h'

      by_name :
          (o : Option Text)
          → name_of m ≡ o
          → permit credentials o (secret_of m) w ≡ (done (some agent), v)
          → HasSecret credentials m agent
      by_name none n h' = ground arith
      by_name (some name) n h' = by_known name (Dict.lookup name credentials.edge_agents) n refl h'

  permission-state :
      (m : EtRStartMessage) (ws : WebSocket) (w : World)
      → (get_agent_permission credentials m ws w).1 ≡ w
  unfolding get_agent_permission
  permission-state m ws w = ground arith

  -- An agent is registered only with its secret: however the example relay's handling of a first
  -- message ends, who is registered after it was registered before, over the same WebSocket, or it
  -- is this WebSocket, and the message is a start message that, as it validated, names this agent
  -- and has the secret that the credentials file has for it. Provided that the other tasks register
  -- nobody.
  pub start_agent-HasSecret :
      (env : Env) (ws : WebSocket) (message : EdgeAgentToRelayMessage) (w : World) (agent : Text)
      (s : WebSocket)
      → ((v : World) → NoNewcomer v (env.others v))
      → Dict.lookup agent
          (start_agent
            (with_credentials credentials env)
            ws
            message
            w).1.registered_agent_connections
        ≡ some s
      → (Dict.lookup agent w.registered_agent_connections ≡ some s)
        ⊎ ((s ≡ ws)
            × (m : EtRStartMessage) × (m' : EtRStartMessage) × (message ≡ start m)
            × (env.validate_start m ≡ ok m')
            × HasSecret credentials m' agent)
  start_agent-HasSecret env ws message w agent s quiet h =
      let leaves : LeavesRegistry (with_credentials credentials env) = record {
        others = quiet;
        hook = λ m x v. record {
          at = λ a r e.
              subst (λ u. Dict.lookup a u.registered_agent_connections ≡ some r)
                (permission-state m x v) e;
        };
      } in
      elim (start_agent-registers_only leaves ws message w agent s h) [
        | inl before ↦ inl before
        | inr new ↦
            let p = new.permission in
            inr (
              new.same,
              new.m,
              p.message,
              new.is_start,
              p.validated,
              permission-HasSecret p.message ws w p.after agent p.allowed,
            )
      ]

-- What an agent of the example sends: the start message, with the flag that `connect_to_server` sets.
abbrev pub sent_start : Text → Text → Option Text → EtRStartMessage
sent_start name secret last_error = record (create_start_message name secret last_error) {
  supports_binary = true;
}

-- The registration of an agent in a state, with the framing flag.
pub record IsRegistered (agent : Text) (ws : WebSocket) (w : World) : Type 0 where
  pub registration : Dict.lookup agent w.registered_agent_connections ≡ some ws
  pub flag : Dict.lookup agent w.agent_connection_id_to_supports_binary ≡ some true

admit-IsRegistered :
    (env : Env) (ws : WebSocket) (agent : Text) (m : EtRStartMessage) (w : World)
    → Dict.lookup agent w.agent_connection_id_to_supports_binary ≡ some true
    → (v : World) × (admit env ws agent m w ≡ (done (some agent), v)) × IsRegistered agent ws v
unfolding admit edge_agent_connection_open start_task
admit-IsRegistered env ws agent m w flag = (
  (admit env ws agent m w).1,
  ground arith,
  record {
    registration = ground (
      arith,
      Dict.lookup-insert agent agent ws w.registered_agent_connections,
      Dict.eq_self agent,
    );
    flag = ground (arith, flag);
  },
)

module _ (credentials : Credentials) (env : Env) (ws : WebSocket) where
  permission-right :
      (name secret right : Text) (e : Option Text) (w : World)
      → Dict.lookup name credentials.edge_agents ≡ some right
      → get_agent_permission credentials (sent_start name secret e) ws w
        ≡ (done (if text_eqb right secret then some name else none), w)
  unfolding get_agent_permission create_start_message Dict.lookup text_eqb
  permission-right name secret right e w k = rw k (ground arith)

  permission-allowed :
      (name secret : Text) (e : Option Text) (w : World)
      → Dict.lookup name credentials.edge_agents ≡ some secret
      → get_agent_permission credentials (sent_start name secret e) ws w ≡ (done (some name), w)
  permission-allowed name secret e w k =
      permission-right name secret secret e w k ∙ rw ((text_eqb_iff secret secret).1 refl) refl

  permission-unknown :
      (name secret : Text) (e : Option Text) (w : World)
      → Dict.lookup name credentials.edge_agents ≡ none
      → get_agent_permission credentials (sent_start name secret e) ws w ≡ (done none, w)
  unfolding get_agent_permission create_start_message Dict.lookup text_eqb
  permission-unknown name secret e w k = rw k

  permission-wrong :
      (name secret : Text) (e : Option Text) (w : World)
      → Dict.lookup name credentials.edge_agents ≢ some secret
      → get_agent_permission credentials (sent_start name secret e) ws w ≡ (done none, w)
  permission-wrong name secret e w wrong =
      elim (Option-cases (Dict.lookup name credentials.edge_agents)) [
        | inl k ↦ permission-unknown name secret e w k
        | inr (right, k) ↦ elim (Bool-cases (text_eqb right secret)) [
          | inl same ↦ absurd (wrong (k ∙ ap some ((text_eqb_iff right secret).0 same)))
          | inr other ↦ permission-right name secret right e w k ∙ rw other refl
        ]
      ]

  -- What an agent of the example sends decides: with the secret that the credentials have for its
  -- name, an agent that is not registered yet is registered, with the binary framing; with any
  -- other secret or an unknown name the relay closes its WebSocket and does nothing else.
  pub start_agent-decides :
      (c : ℕ) (s secret : Text) (e : Option Text) (w : World)
      → env.validate_start (sent_start (c ∷ s) secret e) ≡ ok (sent_start (c ∷ s) secret e)
      → Dict.lookup (c ∷ s) w.registered_agent_connections ≡ none
      → (Dict.lookup (c ∷ s) credentials.edge_agents ≡ some secret
          → (v : World) × (start_agent
                (with_credentials credentials env)
                ws
                (start (sent_start (c ∷ s) secret e))
                w
              ≡ (done (some (c ∷ s)), v))
            × IsRegistered (c ∷ s) ws v)
        × (Dict.lookup (c ∷ s) credentials.edge_agents ≢ some secret
            → start_agent
                (with_credentials credentials env)
                ws
                (start (sent_start (c ∷ s) secret e))
                w
              ≡ continue (perform env (close ws) w) (λ _. pure none))
  unfolding start_agent perform
  start_agent-decides c s secret e w valid free = (right, wrong)
    where
      right :
          Dict.lookup (c ∷ s) credentials.edge_agents ≡ some secret
          → (v : World) × (start_agent
                (with_credentials credentials env)
                ws
                (start (sent_start (c ∷ s) secret e))
                w
              ≡ (done (some (c ∷ s)), v))
            × IsRegistered (c ∷ s) ws v
      right k =
          let u : World = record w {
            agent_connection_id_to_supports_binary =
                Dict.insert (c ∷ s) true w.agent_connection_id_to_supports_binary;
          } in
          let flag : Dict.lookup (c ∷ s) u.agent_connection_id_to_supports_binary ≡ some true =
            Dict.lookup-insert (c ∷ s) (c ∷ s) true w.agent_connection_id_to_supports_binary
            ∙ rw (Dict.eq_self (c ∷ s)) in
          let (v, admitted, registered) =
            admit-IsRegistered (with_credentials credentials env) ws (c ∷ s)
              (sent_start (c ∷ s) secret e) u flag in
          let allowed = permission-allowed (c ∷ s) secret e w k in
          (v, rw (valid, allowed, free) admitted, registered)

      wrong :
          Dict.lookup (c ∷ s) credentials.edge_agents ≢ some secret
          → start_agent
              (with_credentials credentials env)
              ws
              (start (sent_start (c ∷ s) secret e))
              w
            ≡ continue (perform env (close ws) w) (λ _. pure none)
      wrong k = rw (valid, permission-wrong (c ∷ s) secret e w k) refl
