-- ===== src/Relay/Invariant/Creation.antt =====
-- The creation of connections in http_network_relay/network_relay.py keeps the relay's invariant.
use http_network_relay.Prelude.{
  ℕ, Bool, Option, none, some, ◌∷◌, Text, text_key, Option-cases, inl, inr, arith,
}
use http_network_relay.Prelude.Dict
use http_network_relay.Messages.{
  EdgeAgentToRelayMessage, initiate_connection_error, initiate_connection_ok,
  RtEInitiateConnectionMessage, RelayToEdgeAgentMessage,
}
use http_network_relay.Relay.World.{
  WebSocket, ConnectionClass, World, Env, get_answer, send_text, ◌>>=◌,
}
use http_network_relay.Relay.Guarantee.{Guarantee, Guarantee-bind}
use http_network_relay.Relay.Close.{send_locked}
use http_network_relay.Relay.Agents.{set_queue, or_false}
use http_network_relay.Relay.Create.{
  add_connection, wait_answer, taken, send_message_and_wait_for_answer, match_response, create,
  request, create_over,
}
use http_network_relay.Relay.Invariant.{Evolves, Evolves-same, Evolves-both, IsTame, tame-Rely}
use http_network_relay.Relay.Invariant.Connections.{locked-Evolves}
use http_network_relay.Relay.Invariant.Agents.{queue-Evolves, delete-Evolves, trace-Evolves}

-- The new object is at an address that no active connection has.
add-Evolves :
    (id : Text) (class : ConnectionClass) (ws : WebSocket) (supports : Bool)
    → Guarantee Evolves (add_connection id class ws supports)
unfolding add_connection
add-Evolves id class ws supports = record {
  at = λ w. record {
    grows = omega arith;
    same_id = λ a h. ground arith;
    same_agent = λ a h. ground arith;
    same_class = λ a h. ground arith;
    keeps = λ i. record {
      exists = λ j a h.
          ground (
            arith,
            Dict.lookup-insert j id w.next_object w.active_relayed_connections,
            i.exists j a,
          );
      named = λ j a h. ground (
        arith,
        Dict.lookup-insert j id w.next_object w.active_relayed_connections,
        i.exists j a,
        i.named j a,
        text_key.same_iff j id,
      );
    };
  };
}

module _ {env : Env} (tame : IsTame env) where
  taken-Evolves :
      (id : Text) (o : Option (Option EdgeAgentToRelayMessage)) (w : World)
      → Evolves w (taken env id o w).1
  taken-Evolves id none w = Evolves-same w
  taken-Evolves id (some none) w = Evolves-same w
  taken-Evolves id (some (some m)) w = delete-Evolves id w

  wait_answer-Evolves : (id : Text) → Guarantee Evolves (wait_answer env id)
  unfolding wait_answer
  wait_answer-Evolves id = record {
    at = λ w. elim (Option-cases (Dict.lookup id w.initiate_connection_answer_queues)) [
      | inl e ↦ rw (wait_answer, e) (waited w)
      | inr (none, e) ↦ rw (wait_answer, e) (waited w)
      | inr (some m, e) ↦ rw (wait_answer, e) (delete-Evolves id w)
    ];
  }
    where
      waited :
          (w : World)
          → Evolves w
              (taken env id
                (Dict.lookup id
                  (env.others (record w {
                    trace = get_answer id ∷ w.trace;
                  })).initiate_connection_answer_queues)
                (env.others (record w { trace = get_answer id ∷ w.trace }))).1
      waited w =
          Evolves-both (trace-Evolves (get_answer id) w)
            (Evolves-both (tame.others _) (taken-Evolves id _ _))

  ask-Evolves :
      (ws : WebSocket) (m : RtEInitiateConnectionMessage)
      → Guarantee Evolves (send_message_and_wait_for_answer env ws m)
  unfolding send_message_and_wait_for_answer
  ask-Evolves ws m = record {
    at = λ w. Evolves-both (queue-Evolves m.connection_id none w) (
        (Guarantee-bind (tame-Rely tame)
            (send_locked env ws
              (send_text ws (env.to_agent.dump (RelayToEdgeAgentMessage.initiate_connection m))))
            (λ _. wait_answer env m.connection_id) (locked-Evolves tame ws _)
            (λ _. wait_answer-Evolves m.connection_id)).at
          (set_queue m.connection_id none w));
  }

  match-Evolves :
      (address : ℕ) (id : Text) (m : EdgeAgentToRelayMessage)
      → Guarantee Evolves (match_response env address id m)
  unfolding match_response
  match-Evolves address id (initiate_connection_error e j) = record { at = Evolves-same }
  match-Evolves address id (initiate_connection_ok j) = record { at = Evolves-same }
  match-Evolves address id m = record { at = Evolves-same }

  over-Evolves :
      (o : Option WebSocket) (agent target_ip : Text) (target_port : ℕ) (protocol : Text)
      (class : ConnectionClass)
      → Guarantee Evolves (create_over env o agent target_ip target_port protocol class)
  over-Evolves none agent target_ip target_port protocol class = record { at = Evolves-same }
  over-Evolves (some ws) agent target_ip target_port protocol class = record {
    at = λ w.
        let id = env.uuid4 w.trace in
        let supports = or_false (Dict.lookup agent w.agent_connection_id_to_supports_binary) in
        (Guarantee-bind (tame-Rely tame) (add_connection id class ws supports)
            (λ address.
              send_message_and_wait_for_answer env ws (request target_ip target_port protocol id)
              >>= match_response env address id)
            (add-Evolves id class ws supports)
            (λ address.
              Guarantee-bind (tame-Rely tame) _ _ (ask-Evolves ws _) (match-Evolves address id))).at
          w;
  }

  pub create-Evolves :
      (agent target_ip : Text) (target_port : ℕ) (protocol : Text) (class : ConnectionClass)
      → Guarantee Evolves (create env agent target_ip target_port protocol class)
  unfolding create
  create-Evolves agent target_ip target_port protocol class = record {
    at = λ w.
        (over-Evolves (Dict.lookup agent w.registered_agent_connections) agent target_ip target_port
            protocol class).at
          w;
  }
