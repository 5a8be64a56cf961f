-- ===== src/Relay/Invariant/Registration.antt =====
-- The registration of agents in http_network_relay/network_relay.py keeps the relay's invariant.
use http_network_relay.Prelude.{
  Bool, Option, none, some, [], ◌∷◌, ◌++◌, Text, text_key, refl, if◌then◌else◌,
}
use http_network_relay.Prelude.Dict
use http_network_relay.Messages.{EtRStartMessage, EdgeAgentToRelayMessage, start}
use http_network_relay.Relay.World.{
  WebSocket, World, Env, lift, ◌>>=◌, ◌>>◌, close, accept, msg_loop_task, keep_alive_task, perform,
}
use http_network_relay.Relay.Guarantee.{
  Guarantee, Guarantee-pure, Guarantee-bind, Guarantee-perform, Guarantee-if,
}
use http_network_relay.Relay.Close.{edge_agent_connection_close}
use http_network_relay.Relay.Agents.{receive_first, wants_keep_alive}
use http_network_relay.Relay.Register.{
  admit, refuse, check_registered, permitted, start_agent, accept_edge_agent,
}
use http_network_relay.Relay.Invariant.{
  Evolves, Evolves-frame, Evolves-same, Evolves-both, Guarantee-lift, IsTame, tame-Rely,
}
use http_network_relay.Relay.Invariant.Connections.{
  open-Evolves, start-Evolves, agent_close-Evolves,
}
use http_network_relay.Relay.Invariant.Agents.{first-Evolves}

module _ {env : Env} (tame : IsTame env) where
  admit-Evolves :
      (ws : WebSocket) (agent : Text) (m : EtRStartMessage)
      → Guarantee Evolves (admit env ws agent m)
  unfolding admit
  admit-Evolves ws agent m = Guarantee-bind (tame-Rely tame) _ _ (open-Evolves agent ws) (λ _.
      Guarantee-bind (tame-Rely tame) _ _
        (Guarantee-if (wants_keep_alive m.last_error) _ _ (start-Evolves (keep_alive_task ws))
          (Guarantee-pure (tame-Rely tame) tt))
        (λ _.
          Guarantee-bind (tame-Rely tame) _ _ (start-Evolves (msg_loop_task ws agent))
            (λ _. Guarantee-pure (tame-Rely tame) (some agent))))

  refuse-Evolves : (ws : WebSocket) → Guarantee Evolves (refuse env ws)
  refuse-Evolves ws =
      Guarantee-bind (tame-Rely tame) _ _ (Guarantee-perform (tame-Rely tame) (close ws))
        (λ _. Guarantee-pure (tame-Rely tame) none)

  check-Evolves :
      (o : Option WebSocket) (ws : WebSocket) (agent : Text) (m : EtRStartMessage)
      → Guarantee Evolves (check_registered env o ws agent m)
  check-Evolves none ws agent m = admit-Evolves ws agent m
  check-Evolves (some old) ws agent m = record {
    at = λ w.
        (Guarantee-bind (tame-Rely tame) (lift (env.is_closed w.trace old))
            (λ gone.
              if gone
              then (edge_agent_connection_close env agent >> admit env ws agent m)
              else refuse env ws)
            (Guarantee-lift _)
            (λ gone.
              Guarantee-if gone _ _
                (Guarantee-bind (tame-Rely tame) _ _ (agent_close-Evolves tame agent)
                  (λ _. admit-Evolves ws agent m))
                (refuse-Evolves ws))).at
          w;
  }

  permitted-Evolves :
      (o : Option Text) (supports : Bool) (ws : WebSocket) (m : EtRStartMessage)
      → Guarantee Evolves (permitted env o supports ws m)
  permitted-Evolves none supports ws m = refuse-Evolves ws
  permitted-Evolves (some []) supports ws m = refuse-Evolves ws
  permitted-Evolves (some (c ∷ s)) supports ws m = record {
    at = λ w.
        let u : World = record w {
          agent_connection_id_to_supports_binary =
              Dict.insert (c ∷ s) supports w.agent_connection_id_to_supports_binary;
        } in
        Evolves-both (Evolves-frame w u refl refl refl)
          ((check-Evolves (Dict.lookup (c ∷ s) w.registered_agent_connections) ws (c ∷ s) m).at u);
  }

  start_agent-Evolves :
      (ws : WebSocket) (m : EdgeAgentToRelayMessage) → Guarantee Evolves (start_agent env ws m)
  unfolding start_agent
  start_agent-Evolves ws (start m) =
      Guarantee-bind (tame-Rely tame) (lift (env.validate_start m))
        (λ m'.
          env.get_agent_msg_loop_permission_and_create_connection_id m' ws
          >>= (λ o. permitted env o m.supports_binary ws m'))
        (Guarantee-lift _)
        (λ m'.
          Guarantee-bind (tame-Rely tame) _ _ (tame.agent_permission m' ws)
            (λ o. permitted-Evolves o m.supports_binary ws m'))
  start_agent-Evolves ws m = record { at = Evolves-same }

  pub accept-Evolves : (ws : WebSocket) → Guarantee Evolves (accept_edge_agent env ws)
  unfolding accept_edge_agent
  accept-Evolves ws =
      Guarantee-bind (tame-Rely tame) (perform env (accept ws)) _
        (Guarantee-perform (tame-Rely tame) (accept ws))
        (λ _. record {
          at = λ w.
              let u : World = record w { agent_connections = w.agent_connections ++ ws ∷ [] } in
              Evolves-both (Evolves-frame w u refl refl refl) (
                (Guarantee-bind (tame-Rely tame) (receive_first env ws)
                    (λ json. lift (env.from_agent.validate json) >>= start_agent env ws)
                    (first-Evolves tame ws)
                    (λ json.
                      Guarantee-bind (tame-Rely tame) (lift (env.from_agent.validate json))
                        (start_agent env ws) (Guarantee-lift _) (start_agent-Evolves ws))).at
                  u);
        })
