-- ===== src/Example/Harmless.antt =====
-- The methods of `NetworkRelayForAccessClients` (http_network_relay/network_relay_example.py) keep
-- the relay's invariant.
use http_network_relay.Prelude.{Option, none, some, Text, text_key, text_eqb}
use http_network_relay.Prelude.Dict
use http_network_relay.Exception.{attribute_error}
use http_network_relay.Messages.{EtRStartMessage, AtRStartMessage}
use http_network_relay.Relay.World.{WebSocket, Env}
use http_network_relay.Relay.Guarantee.{
  Rely, Guarantee, Guarantee-pure, Guarantee-fail, Guarantee-bind, Guarantee-perform, Guarantee-if,
}
use http_network_relay.Relay.Invariant.{Evolves, Evolves-Rely}
use http_network_relay.Relay.Invariant.Nested.{HasTameHooks}
use http_network_relay.Example.Credentials.{
  Credentials, is_listed, permit, check_agent, compare_secrets, get_agent_permission,
  get_client_permission, with_credentials, secret_of, name_of,
}

module _ (credentials : Credentials) (env : Env) (rely : Rely env Evolves) where
  compared-Evolves :
      (name right : Text) (secret : Option Text)
      → Guarantee Evolves (compare_secrets name right secret)
  compared-Evolves name right none = Guarantee-fail rely attribute_error
  compared-Evolves name right (some secret) =
      Guarantee-if (text_eqb right secret) _ _ (Guarantee-pure rely (some name))
        (Guarantee-pure rely none)

  permit-Evolves : (name secret : Option Text) → Guarantee Evolves (permit credentials name secret)
  permit-Evolves none secret = Guarantee-fail rely attribute_error
  permit-Evolves (some name) secret = by_known (Dict.lookup name credentials.edge_agents)
    where
      by_known : (o : Option Text) → Guarantee Evolves (check_agent o name secret)
      by_known none = Guarantee-pure rely none
      by_known (some right) = compared-Evolves name right secret

  agent-Evolves :
      (m : EtRStartMessage) (ws : WebSocket)
      → Guarantee Evolves (get_agent_permission credentials m ws)
  unfolding get_agent_permission
  agent-Evolves m ws = permit-Evolves (name_of m) (secret_of m)

  client-Evolves :
      (m : AtRStartMessage) (ws : WebSocket)
      → Guarantee Evolves (get_client_permission credentials env m ws)
  unfolding get_client_permission
  client-Evolves m ws =
      Guarantee-if (is_listed m.secret credentials.access_client_secrets) _ _
        (Guarantee-pure rely _)
        (Guarantee-bind rely _ _ (Guarantee-perform rely _) (λ _. Guarantee-pure rely _))

-- The example relay does no harm, if the methods that it leaves as they are do none.
pub with_credentials-HasTameHooks :
    (credentials : Credentials) (env : Env)
    → HasTameHooks env
    → HasTameHooks (with_credentials credentials env)
with_credentials-HasTameHooks credentials env hooks = record {
  tame = λ others.
      let t = hooks.tame others in
      record {
        others = others;
        custom_message = t.custom_message;
        agent_permission = agent-Evolves credentials env (Evolves-Rely env others);
        client_permission = client-Evolves credentials env (Evolves-Rely env others);
        client_target = t.client_target;
      };
}
