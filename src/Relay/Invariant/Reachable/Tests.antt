-- ===== src/Relay/Invariant/Reachable/Tests.antt =====
-- A relay that an agent and an access client come to.
use http_network_relay.Prelude.{
  ℕ, ◌≡◌, refl, true, false, some, [], codes, text_key, text_eqb, arith,
}
use http_network_relay.Prelude.Dict
use http_network_relay.Exception.{ok}
use http_network_relay.Messages.{text}
use http_network_relay.Relay.World.{World, Env, disconnected, message, Connection}
use http_network_relay.Relay.Guarantee.{Guarantee-pure}
use http_network_relay.Relay.MsgLoop.{handle_raw}
use http_network_relay.Relay.MsgLoop.Multiplex.{in_json}
use http_network_relay.Relay.Register.{accept_edge_agent}
use http_network_relay.Relay.AccessClients.{ws_for_access_clients}
use http_network_relay.Relay.Invariant.{IsValid, Evolves-Rely}
use http_network_relay.Relay.Invariant.Reachable.{
  new_relay, here, then, accept, serve, handle_raw-other,
}
use http_network_relay.Relay.Invariant.Nested.{HasTameHooks, nested-IsValid}
use http_network_relay.Example.Credentials.{with_credentials}
use http_network_relay.Example.Harmless.{with_credentials-HasTameHooks}
use http_network_relay.Relay.Sample.{first_id, second_id, sample, alone, busy, greeting, connection}

abbrev env : Env
env = sample (ok disconnected) (ok false) alone

sample-HasTameHooks :
    (others : World → World) → HasTameHooks (sample (ok disconnected) (ok false) others)
sample-HasTameHooks others = record {
  tame = λ tame.
      let rely = Evolves-Rely (sample (ok disconnected) (ok false) others) tame in
      record {
        others = tame;
        custom_message = λ json agent. Guarantee-pure rely tt;
        agent_permission = λ m ws. Guarantee-pure rely (some (codes "agent"));
        client_permission = λ m ws. Guarantee-pure rely true;
        client_target = λ target. Guarantee-pure rely target;
      };
}

abbrev none_yet : ℕ → Connection
none_yet a = connection first_id 0

-- At every await another agent connects.
abbrev crowded : Env
crowded = sample (ok disconnected) (ok false) (λ w. (accept_edge_agent env 7 w).1)

-- The example relay: an agent connects, then an access client.
abbrev example : Env
example = with_credentials (record { access_client_secrets = []; edge_agents = [] }) crowded

abbrev visited : World
visited = (ws_for_access_clients example 3 2 (accept_edge_agent example 1 (new_relay none_yet)).1).1

nested-IsValid_example : IsValid visited
nested-IsValid_example =
    nested-IsValid 1 example none_yet visited
      (with_credentials-HasTameHooks _ crowded (sample-HasTameHooks _))
      (λ w. (env, sample-HasTameHooks alone, (λ v. refl), then here (accept 7)))
      (then (then here (accept 1)) (serve 3 2))

busy-IsValid : IsValid busy
unfolding Dict.lookup text_eqb
busy-IsValid = record {
  exists = λ id a h. ground arith;
  named = λ id a h. ground (arith, text_key.same_iff id first_id, text_key.same_iff id second_id);
}

handle_raw-other_example :
    ((handle_raw env (codes "agent") (message (text (codes "json"))) busy).1.objects 0).recv_buffer
    ≡ (busy.objects 0).recv_buffer
unfolding Dict.lookup text_eqb
handle_raw-other_example =
    handle_raw-other env (codes "agent") second_id first_id greeting (message (text (codes "json")))
      busy 0 busy-IsValid (in_json (codes "json") (omega arith) refl) refl (λ e. ground arith)
