-- ===== src/Relay/Register/Admission.antt =====
-- For whom `accept_ws_and_start_msg_loop_for_edge_agents` of http_network_relay/network_relay.py
-- starts a message loop.
use http_network_relay.Prelude.{
  ◌≡◌, ◌≢◌, refl, Bool, true, false, Option, none, some, [], ◌∷◌, Text, text_key, arith,
  if◌then◌else◌,
}
use http_network_relay.Prelude.Dict
use http_network_relay.Exception.{Result, ok, raise}
use http_network_relay.Messages.{EtRStartMessage, EdgeAgentToRelayMessage, start}
use http_network_relay.Relay.World.{
  WebSocket, World, Env, close, Outcome, done, raised, pending, pure, lift, continue, ◌>>=◌, ◌>>◌,
  perform, start_task,
}
use http_network_relay.Relay.Close.{edge_agent_connection_open, edge_agent_connection_close}
use http_network_relay.Relay.Register.{admit, refuse, check_registered, permitted, start_agent}

-- The hook allowed the agent under this id, which is not empty.
pub record IsPermitted (env : Env) (ws : WebSocket) (m : EtRStartMessage) (w : World) (agent : Text)
    : Type 0 where
  pub message : EtRStartMessage
  pub validated : env.validate_start m ≡ ok message
  pub after : World
  pub allowed :
      env.get_agent_msg_loop_permission_and_create_connection_id message ws w
      ≡ (done (some agent), after)
  pub not_empty : agent ≢ []

module _ (env : Env) (ws : WebSocket) where
  admit-eq :
      (agent : Text) (m : EtRStartMessage) (w v : World) (a : Text)
      → admit env ws agent m w ≡ (done (some a), v)
      → (a ≡ agent) × (Dict.lookup agent v.registered_agent_connections ≡ some ws)
  unfolding admit edge_agent_connection_open start_task
  admit-eq agent m w v a h =
      ground (
        arith,
        Dict.lookup-insert agent agent ws w.registered_agent_connections,
        Dict.eq_self agent,
      )

  refuse-eq : (w v : World) (a : Text) → refuse env ws w ≡ (done (some a), v) → ⊥
  refuse-eq w v a h = go (perform env (close ws) w) h
    where
      go :
          (p : Outcome (Unit {0}) × World)
          → continue p (λ _. pure {A = Option Text} none) ≡ (done (some a), v)
          → ⊥
      go (done u, x) e = ground arith
      go (raised x, y) e = ground arith
      go (pending, y) e = ground arith

  check-eq :
      (o : Option WebSocket) (agent : Text) (m : EtRStartMessage) (w v : World) (a : Text)
      → check_registered env o ws agent m w ≡ (done (some a), v)
      → (a ≡ agent) × (Dict.lookup agent v.registered_agent_connections ≡ some ws)
  check-eq none agent m w v a h = admit-eq agent m w v a h
  check-eq (some old) agent m w v a h = by_state (env.is_closed w.trace old) h
    where
      closed_first :
          (p : Outcome (Unit {0}) × World)
          → continue p (λ _. admit env ws agent m) ≡ (done (some a), v)
          → (a ≡ agent) × (Dict.lookup agent v.registered_agent_connections ≡ some ws)
      closed_first (done u, x) e = admit-eq agent m x v a e
      closed_first (raised x, y) e = ground arith
      closed_first (pending, y) e = ground arith

      by_state :
          (r : Result Bool)
          → continue (lift r w) (λ gone.
            if gone
            then (edge_agent_connection_close env agent >> admit env ws agent m)
            else refuse env ws)
            ≡ (done (some a), v)
          → (a ≡ agent) × (Dict.lookup agent v.registered_agent_connections ≡ some ws)
      by_state (ok true) e = closed_first (edge_agent_connection_close env agent w) e
      by_state (ok false) e = absurd (refuse-eq w v a e)
      by_state (raise x) e = ground arith

  -- A message loop runs only as the permission hook allows: if a message makes the relay run one
  -- under an id, it is a start message that validated, the hook returned this id for it, the id is
  -- not empty, and it is registered for this WebSocket.
  pub start_agent-IsPermitted :
      (message : EdgeAgentToRelayMessage) (w v : World) (agent : Text)
      → start_agent env ws message w ≡ (done (some agent), v)
      → (m : EtRStartMessage) × (message ≡ start m)
        × IsPermitted env ws m w agent
        × (Dict.lookup agent v.registered_agent_connections ≡ some ws)
  unfolding start_agent
  start_agent-IsPermitted (start m) w v agent h = by_validation (env.validate_start m) refl h
    where
      Goal : Type 0
      Goal =
          (m' : EtRStartMessage) × (◌≡◌ {A = EdgeAgentToRelayMessage} (start m) (start m'))
          × IsPermitted env ws m' w agent
          × (Dict.lookup agent v.registered_agent_connections ≡ some ws)

      by_permission :
          (m' : EtRStartMessage)
          → env.validate_start m ≡ ok m'
          → (p : Outcome (Option Text) × World)
          → env.get_agent_msg_loop_permission_and_create_connection_id m' ws w ≡ p
          → continue p (λ o. permitted env o m.supports_binary ws m') ≡ (done (some agent), v)
          → Goal
      by_permission m' valid (done none, x) e h' = absurd (refuse-eq x v agent h')
      by_permission m' valid (done (some []), x) e h' = absurd (refuse-eq x v agent h')
      by_permission m' valid (done (some (c ∷ s)), x) e h' =
          let flagged : World = record x {
            agent_connection_id_to_supports_binary =
                Dict.insert (c ∷ s) m.supports_binary x.agent_connection_id_to_supports_binary;
          } in
          let (same, registered) =
            check-eq (Dict.lookup (c ∷ s) x.registered_agent_connections) (c ∷ s) m' flagged v agent
              h' in
          (
            m,
            refl,
            record {
              message = m';
              validated = valid;
              after = x;
              allowed = rw same e;
              not_empty = λ z. cc (same, z);
            },
            rw same registered,
          )
      by_permission m' valid (raised x, y) e h' = ground arith
      by_permission m' valid (pending, y) e h' = ground arith

      by_validation :
          (r : Result EtRStartMessage)
          → env.validate_start m ≡ r
          → continue (lift r w) (λ m'.
            env.get_agent_msg_loop_permission_and_create_connection_id m' ws
            >>= (λ o. permitted env o m.supports_binary ws m'))
            ≡ (done (some agent), v)
          → Goal
      by_validation (ok m') e h' =
          by_permission m' e (env.get_agent_msg_loop_permission_and_create_connection_id m' ws w)
            refl h'
      by_validation (raise x) e h' = ground arith
  start_agent-IsPermitted message w v agent h = ground arith
