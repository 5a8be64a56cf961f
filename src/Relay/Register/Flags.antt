-- ===== src/Relay/Register/Flags.antt =====
-- A second agent under an id that is registered, in http_network_relay/network_relay.py.
use http_network_relay.Prelude.{◌≡◌, ◌≢◌, refl, ◌∙◌, Bool, some, [], ◌∷◌, Text, text_key}
use http_network_relay.Prelude.Dict
use http_network_relay.Exception.{raise, attribute_error}
use http_network_relay.Messages.{EtRStartMessage, start}
use http_network_relay.Relay.World.{WebSocket, World, Env, raised}
use http_network_relay.Relay.Register.{check_registered, permitted, start_agent}
use http_network_relay.Relay.Register.Admission.{IsPermitted}

-- A start message that the hook allows under an id that `old` has. Starlette's WebSocket has no
-- attribute `closed`, so that reading it raises.
pub record IsDuplicate (env : Env) (ws old : WebSocket) (m : EtRStartMessage) (w : World)
    (agent : Text) : Type 0 where
  pub permitted : IsPermitted env ws m w agent
  pub registered : Dict.lookup agent permitted.after.registered_agent_connections ≡ some old
  pub no_attribute : env.is_closed permitted.after.trace old ≡ raise attribute_error

module _ (env : Env) (ws old : WebSocket) where
  flagged : Text → Bool → World → World
  flagged agent supports w = record w {
    agent_connection_id_to_supports_binary =
        Dict.insert agent supports w.agent_connection_id_to_supports_binary;
  }

  permitted-eq :
      (agent : Text) (supports : Bool) (m : EtRStartMessage) (w : World)
      → agent ≢ []
      → Dict.lookup agent w.registered_agent_connections ≡ some old
      → permitted env (some agent) supports ws m w
        ≡ check_registered env (some old) ws agent m (flagged agent supports w)
  unfolding flagged
  permitted-eq [] supports m w not_empty registered = absurd (not_empty refl)
  permitted-eq (c ∷ s) supports m w not_empty registered = rw registered

  start-eq :
      (m : EtRStartMessage) (w : World) (agent : Text)
      → (d : IsDuplicate env ws old m w agent)
      → start_agent env ws (start m) w
        ≡ check_registered env
            (some old)
            ws
            agent
            d.permitted.message
            (flagged agent m.supports_binary d.permitted.after)
  unfolding start_agent
  start-eq m w agent d =
      rw (d.permitted.validated, d.permitted.allowed)
        (permitted-eq agent m.supports_binary d.permitted.message d.permitted.after
          d.permitted.not_empty d.registered)

  -- A second agent under a registered id is neither refused nor put in the place of the first:
  -- reading `closed` of the first's WebSocket raises `AttributeError`, which ends the handler of the
  -- second with its WebSocket left open (no call was made since the hook) and the first still
  -- registered, but with the framing flag of the second.
  pub duplicate_replaces_flag :
      (m : EtRStartMessage) (w : World) (agent : Text)
      → (d : IsDuplicate env ws old m w agent)
      → let r = start_agent env ws (start m) w in
        (r.0 ≡ raised attribute_error)
        × (r.1.trace ≡ d.permitted.after.trace)
        × (Dict.lookup agent r.1.registered_agent_connections ≡ some old)
        × (Dict.lookup agent r.1.agent_connection_id_to_supports_binary ≡ some m.supports_binary)
  unfolding flagged
  duplicate_replaces_flag m w agent d =
      rw (start-eq m w agent d, d.no_attribute)
        (
          refl,
          refl,
          d.registered,
          Dict.lookup-insert agent agent m.supports_binary
                d.permitted.after.agent_connection_id_to_supports_binary
              ∙ rw (Dict.eq_self agent),
        )
