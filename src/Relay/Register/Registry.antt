-- ===== src/Relay/Register/Registry.antt =====
-- What `accept_ws_and_start_msg_loop_for_edge_agents` of http_network_relay/network_relay.py does to
-- the registry of agents, however it ends.
use http_network_relay.Prelude.{
  ◌≡◌, refl, ◌⊎◌, inl, inr, Bool, true, false, Option, none, some, [], ◌∷◌, Text, text_key, nat_key,
  arith, if◌then◌else◌,
}
use http_network_relay.Prelude.Dict
use http_network_relay.Exception.{Result, ok, raise}
use http_network_relay.Messages.{EtRStartMessage, EdgeAgentToRelayMessage, start}
use http_network_relay.Relay.World.{
  WebSocket, World, Env, close, Outcome, done, raised, pending, modify, lift, continue, ◌>>=◌, ◌>>◌,
  start_task,
}
use http_network_relay.Relay.Guarantee.{
  Rely, Guarantee, Guarantee-pure, Guarantee-bind, Guarantee-perform, Guarantee-modify,
}
use http_network_relay.Relay.Close.{
  agent_send_lock, drop_relayed_connection, wake_readers, remove_first, close_connections,
  forget_agent, edge_agent_connection_open, edge_agent_connection_close,
}
use http_network_relay.Relay.Close.Steps.{close_connections-Guarantee}
use http_network_relay.Relay.Register.{admit, refuse, check_registered, permitted, start_agent}
use http_network_relay.Relay.Register.Admission.{IsPermitted}

-- Nobody is registered in `v` who was not in `u`, over the same WebSocket.
pub record NoNewcomer (u v : World) : Type 0 where
  pub at :
      (agent : Text) (s : WebSocket)
      → Dict.lookup agent v.registered_agent_connections ≡ some s
      → Dict.lookup agent u.registered_agent_connections ≡ some s

-- Neither the other tasks nor the permission hook register anybody.
pub record LeavesRegistry (env : Env) : Type 0 where
  pub others : (w : World) → NoNewcomer w (env.others w)
  pub hook :
      (m : EtRStartMessage) (ws : WebSocket) (w : World)
      → NoNewcomer w (env.get_agent_msg_loop_permission_and_create_connection_id m ws w).1

-- The start message asks for this: the hook allowed the agent, and `s` is its WebSocket.
pub record IsAdmitted (env : Env) (ws : WebSocket) (message : EdgeAgentToRelayMessage) (w : World)
    (agent : Text) (s : WebSocket) : Type 0 where
  pub same : s ≡ ws
  pub m : EtRStartMessage
  pub is_start : message ≡ start m
  pub permission : IsPermitted env ws m w agent

module _ {env : Env} (leaves : LeavesRegistry env) where
  registry : Rely env NoNewcomer
  registry = record {
    same = λ w. record { at = λ a s h. h };
    both = λ p q. record { at = λ a s h. p.at a s (q.at a s h) };
    called = λ w c. record { at = λ a s h. h };
    others = leaves.others;
  }

  lock-NoNewcomer : (ws : WebSocket) → Guarantee NoNewcomer (agent_send_lock ws)
  unfolding agent_send_lock
  lock-NoNewcomer ws = record { at = λ w. record { at = λ a s h. ground (arith, h) } }

  drop-NoNewcomer : (id : Text) → Guarantee NoNewcomer (drop_relayed_connection id)
  unfolding drop_relayed_connection wake_readers
  drop-NoNewcomer id = record { at = λ w. record { at = λ a s h. ground (arith, h) } }

  forget-NoNewcomer : (o : Option WebSocket) → Guarantee NoNewcomer (forget_agent env o)
  unfolding forget_agent
  forget-NoNewcomer none = Guarantee-pure registry tt
  forget-NoNewcomer (some ws) =
      let unlock = λ (w : World). record w {
        agent_connection_locks = Dict.erase ws w.agent_connection_locks;
      } in
      record {
        at = λ w.
            let u : World = record w { agent_connections = remove_first ws w.agent_connections } in
            record {
              at = λ a s h.
                  ((Guarantee-bind registry (close_connections env ws u.active_relayed_connections)
                        (λ _. modify unlock)
                        (close_connections-Guarantee registry lock-NoNewcomer drop-NoNewcomer ws
                          u.active_relayed_connections)
                        (λ _. Guarantee-modify unlock (λ v. record { at = λ a' s' h'. h' }))).at
                      u).at
                    a s h;
            };
      }

  close-NoNewcomer : (id : Text) → Guarantee NoNewcomer (edge_agent_connection_close env id)
  unfolding edge_agent_connection_close
  close-NoNewcomer id = record {
    at = λ w.
        let u : World = record w {
          registered_agent_connections = Dict.erase id w.registered_agent_connections;
          agent_connection_id_to_supports_binary =
              Dict.erase id w.agent_connection_id_to_supports_binary;
        } in
        record {
          at = λ a s h.
              let before =
                ((forget-NoNewcomer (Dict.lookup id w.registered_agent_connections)).at u).at a s
                  h in
              ground (arith, before, Dict.lookup-erase a id w.registered_agent_connections);
        };
  }

  module _ (ws : WebSocket) where
    refuse-NoNewcomer : Guarantee NoNewcomer (refuse env ws)
    refuse-NoNewcomer =
        Guarantee-bind registry _ _ (Guarantee-perform registry (close ws))
          (λ _. Guarantee-pure registry none)

    admit-only :
        (own : Text) (m : EtRStartMessage) (w : World) (a : Text) (s : WebSocket)
        → Dict.lookup a (admit env ws own m w).1.registered_agent_connections ≡ some s
        → (Dict.lookup a w.registered_agent_connections ≡ some s) ⊎ ((own ≡ a) × (ws ≡ s))
    unfolding admit edge_agent_connection_open start_task
    admit-only own m w a s h = ground (
      arith,
      h,
      Dict.lookup-insert a own ws w.registered_agent_connections,
      text_key.same_iff a own,
    )

    check-only :
        (o : Option WebSocket) (own : Text) (m : EtRStartMessage) (w : World) (a : Text)
        (s : WebSocket)
        → Dict.lookup a (check_registered env o ws own m w).1.registered_agent_connections ≡ some s
        → (Dict.lookup a w.registered_agent_connections ≡ some s) ⊎ ((own ≡ a) × (ws ≡ s))
    check-only none own m w a s h = admit-only own m w a s h
    check-only (some old) own m w a s h = by_state (env.is_closed w.trace old) h
      where
        Only : Type 0
        Only = (Dict.lookup a w.registered_agent_connections ≡ some s) ⊎ ((own ≡ a) × (ws ≡ s))

        closed_first :
            (p : Outcome (Unit {0}) × World)
            → NoNewcomer w p.1
            → Dict.lookup a (continue p (λ _. admit env ws own m)).1.registered_agent_connections
              ≡ some s
            → Only
        closed_first (done u, x) k e = elim (admit-only own m x a s e) [
          | inl before ↦ inl (k.at a s before)
          | inr new ↦ inr new
        ]
        closed_first (raised x, y) k e = inl (k.at a s e)
        closed_first (pending, y) k e = inl (k.at a s e)

        by_state :
            (r : Result Bool)
            → Dict.lookup a
                (continue (lift r w) (λ gone.
                  if gone
                  then (edge_agent_connection_close env own >> admit env ws own m)
                  else refuse env ws)).1.registered_agent_connections
              ≡ some s
            → Only
        by_state (ok true) e =
            closed_first (edge_agent_connection_close env own w) ((close-NoNewcomer own).at w) e
        by_state (ok false) e = inl ((refuse-NoNewcomer.at w).at a s e)
        by_state (raise x) e = inl e

    -- However the handling of an agent's first message ends, with a message loop, without one or by
    -- an exception: who is registered after it was registered before, over the same WebSocket, or
    -- it is this WebSocket, the message is a start message that validated, and the permission hook
    -- returned the id under which it is registered, which is not empty. Provided that neither the
    -- other tasks nor the hook register anybody.
    pub start_agent-registers_only :
        (message : EdgeAgentToRelayMessage) (w : World) (a : Text) (s : WebSocket)
        → Dict.lookup a (start_agent env ws message w).1.registered_agent_connections ≡ some s
        → (Dict.lookup a w.registered_agent_connections ≡ some s) ⊎ IsAdmitted env ws message w a s
    unfolding start_agent
    start_agent-registers_only (start m) w a s h = by_validation (env.validate_start m) refl h
      where
        Goal : Type 0
        Goal =
            (Dict.lookup a w.registered_agent_connections ≡ some s)
            ⊎ IsAdmitted env ws (start m) w a s

        by_permission :
            (m' : EtRStartMessage)
            → env.validate_start m ≡ ok m'
            → (p : Outcome (Option Text) × World)
            → env.get_agent_msg_loop_permission_and_create_connection_id m' ws w ≡ p
            → NoNewcomer w p.1
            → Dict.lookup a
                (continue p
                  (λ o. permitted env o m.supports_binary ws m')).1.registered_agent_connections
              ≡ some s
            → Goal
        by_permission m' valid (done none, x) e k h' =
            inl (k.at a s ((refuse-NoNewcomer.at x).at a s h'))
        by_permission m' valid (done (some []), x) e k h' =
            inl (k.at a s ((refuse-NoNewcomer.at x).at a s h'))
        by_permission m' valid (done (some (c ∷ t)), x) e k h' =
            let flagged : World = record x {
              agent_connection_id_to_supports_binary =
                  Dict.insert (c ∷ t) m.supports_binary x.agent_connection_id_to_supports_binary;
            } in
            elim (check-only (Dict.lookup (c ∷ t) x.registered_agent_connections) (c ∷ t) m' flagged
              a s h') [
                | inl before ↦ inl (k.at a s before)
                | inr (named, over) ↦ inr (record {
                  same = cc over;
                  m = m;
                  is_start = refl;
                  permission = record {
                    message = m';
                    validated = valid;
                    after = x;
                    allowed = rw named at e;
                    not_empty = λ z. cc (named, z);
                  };
                })
              ]
        by_permission m' valid (raised x, y) e k h' = inl (k.at a s h')
        by_permission m' valid (pending, y) e k h' = inl (k.at a s h')

        by_validation :
            (r : Result EtRStartMessage)
            → env.validate_start m ≡ r
            → Dict.lookup a
                (continue (lift r w) (λ m'.
                  env.get_agent_msg_loop_permission_and_create_connection_id m' ws >>= (λ o.
                    permitted env o m.supports_binary ws m'))).1.registered_agent_connections
              ≡ some s
            → Goal
        by_validation (ok m') e h' =
            by_permission m' e (env.get_agent_msg_loop_permission_and_create_connection_id m' ws w)
              refl (leaves.hook m' ws w) h'
        by_validation (raise x) e h' = inl h'
    start_agent-registers_only message w a s h = inl h
