-- ===== src/Example/Relay.antt =====
-- The relay of http_network_relay/network_relay_example.py: `NetworkRelay` with the methods that
-- `NetworkRelayForAccessClients` overrides.
mod Tests
use http_network_relay.Prelude.{
  ℕ, ◌≡◌, refl, Bool, true, false, some, Text, text_key, arith, subst, sym, Bool-cases, inl, inr,
  if◌then◌else◌,
}
use http_network_relay.Prelude.Dict
use http_network_relay.Messages.{AtRStartMessage}
use http_network_relay.Relay.World.{
  WebSocket, World, Relay, Env, Connection, done, Outcome, pure, fail, continue, raised, pending,
}
use http_network_relay.Relay.Hooks.{base_class, base_class-HasTameHooks}
use http_network_relay.Relay.Invariant.{IsValid}
use http_network_relay.Relay.Invariant.Reachable.{new_relay, Reach}
use http_network_relay.Relay.Invariant.Nested.{HasTameHooks, IsNested, nested-IsValid}
use http_network_relay.Relay.AccessClients.{open_client}
use http_network_relay.Relay.AccessClients.Opening.{IsAgreed, open_client-IsOpened}
use http_network_relay.Example.Credentials.{
  Credentials, is_listed, get_client_permission, with_credentials,
}
use http_network_relay.Example.Harmless.{with_credentials-HasTameHooks}

-- `validate_start` is the parameter's, for `CustomAgentToRelayStartMessage`.
abbrev pub class : Env → Env
class env = record (base_class env) { validate_start = env.validate_start }

abbrev pub example_relay : Credentials → Env → Env
example_relay credentials env = with_credentials credentials (class env)

class-HasTameHooks : (env : Env) → HasTameHooks (class env)
class-HasTameHooks env = record {
  tame = λ others.
      let t = (base_class-HasTameHooks env).tame others in
      record {
        others = t.others;
        custom_message = t.custom_message;
        agent_permission = t.agent_permission;
        client_permission = t.client_permission;
        client_target = t.client_target;
      };
}

module _ (credentials : Credentials) (env : Env) where
  -- The hooks of the example keep the relay's tables and objects in order, so that nothing has to be
  -- assumed of them.
  example-IsValid :
      (depth : ℕ) (objects : ℕ → Connection) (w : World)
      → IsNested depth (example_relay credentials env)
      → Reach (example_relay credentials env) (new_relay objects) w
      → IsValid w
  example-IsValid depth objects w runs r =
      nested-IsValid depth (example_relay credentials env) objects w
        (with_credentials-HasTameHooks credentials (class env) (class-HasTameHooks env)) runs r

  permission-listed :
      (m : AtRStartMessage) (ws : WebSocket) (w v : World)
      → get_client_permission credentials (class env) m ws w ≡ (done true, v)
      → (is_listed m.secret credentials.access_client_secrets ≡ true) × (v ≡ w)
  unfolding get_client_permission
  permission-listed m ws w v h = elim (Bool-cases listed) [
    | inl e ↦ (e, cc (rw e at h))
    | inr e ↦ absurd (refused _ (rw e at h))
  ]
    where
      listed : Bool
      listed = is_listed m.secret credentials.access_client_secrets

      refused : (p : Outcome (Unit {0}) × World) → continue p (λ _. pure false) ≡ (done true, v) → ⊥
      refused (done u, x) e = ground arith
      refused (raised x, y) e = ground arith
      refused (pending, x) e = ground arith

  -- Who gets a connection from the example relay: if an access client does, then the secret in its
  -- start message is in the credentials file, an agent is registered under the very name that the
  -- client asks for, the request for the client's target address was sent over this agent's
  -- WebSocket, and an OK for the new connection's id was put into its answer queue.
  pub open_client-IsNamed :
      (m : AtRStartMessage) (ws : WebSocket) (w v : World) (address : ℕ)
      → open_client (example_relay credentials env) m ws w ≡ (done (some address), v)
      → (u : World) × (is_listed m.secret credentials.access_client_secrets ≡ true)
        × IsAgreed (example_relay credentials env) m.connection_target m address w u
  open_client-IsNamed m ws w v address h =
      let o = open_client-IsOpened (example_relay credentials env) m ws w v address h in
      let (listed, same) = permission-listed m ws w o.allowed_in o.allowed in
      (o.created_in, listed, agreed_at o.agent o.named_in o.named same o.agreed)
    where
      agreed_at :
          {u x y : World} (agent : Text) (z : World)
          → ◌≡◌ {A = Outcome Text × World} (done m.connection_target, y) (done agent, z)
          → y ≡ x
          → IsAgreed (example_relay credentials env) agent m address z u
          → IsAgreed (example_relay credentials env) m.connection_target m address x u
      agreed_at {u} {x} agent z named same a =
          let target : agent ≡ m.connection_target = cc named in
          let state : z ≡ x = cc (named, same) in
          subst (λ t. IsAgreed (example_relay credentials env) t m address x u) target
            (subst (λ t. IsAgreed (example_relay credentials env) agent m address t u) state a)
