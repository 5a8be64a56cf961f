-- ===== src/Relay/Create/Unanswered.antt =====
-- What becomes of a task that waits in `_create_connection` of http_network_relay/network_relay.py
-- when its agent is gone.
use http_network_relay.Prelude.{
  ◌≡◌, refl, sym, ◌∙◌, subst, ℕ, Option, none, some, List, ◌∷◌, Text, text_key, nat_key, arith,
}
use http_network_relay.Prelude.Dict
use http_network_relay.Messages.{RelayToEdgeAgentMessage}
use http_network_relay.Relay.World.{
  WebSocket, ConnectionClass, World, Env, Call, acquire_lock, send_text, get_answer, done, pending,
  perform, modify,
}
use http_network_relay.Relay.Guarantee.{
  Rely, Guarantee, Guarantee-pure, Guarantee-bind, Guarantee-modify,
}
use http_network_relay.Relay.Close.{
  agent_send_lock, drop_relayed_connection, wake_readers, send_locked, remove_first,
  close_connections, forget_agent, edge_agent_connection_close,
}
use http_network_relay.Relay.Close.Steps.{close_connections-Guarantee}
use http_network_relay.Relay.Agents.{set_queue, or_false}
use http_network_relay.Relay.Create.{
  add_connection, wait_answer, send_message_and_wait_for_answer, request, create,
}

-- An answer queue that is there and empty stays so.
pub record Unanswered (id : Text) (u v : World) : Type 0 where
  pub kept :
      Dict.lookup id u.initiate_connection_answer_queues ≡ some none
      → Dict.lookup id v.initiate_connection_answer_queues ≡ some none

module _ (id : Text) where
  Unanswered-Rely :
      (env : Env) → ((w : World) → Unanswered id w (env.others w)) → Rely env (Unanswered id)
  Unanswered-Rely env quiet = record {
    same = λ w. record { kept = λ h. h };
    both = λ p q. record { kept = λ h. q.kept (p.kept h) };
    called = λ w c. record { kept = λ h. h };
    others = quiet;
  }

  lock-Unanswered : (ws : WebSocket) → Guarantee (Unanswered id) (agent_send_lock ws)
  unfolding agent_send_lock
  lock-Unanswered ws = record { at = λ w. record { kept = λ h. ground arith } }

  drop-Unanswered : (j : Text) → Guarantee (Unanswered id) (drop_relayed_connection j)
  unfolding drop_relayed_connection wake_readers
  drop-Unanswered j = record { at = λ w. record { kept = λ h. ground arith } }

-- The teardown of an agent answers nothing.
module _ (env : Env) (id : Text) (quiet : (w : World) → Unanswered id w (env.others w)) where
  forget-Unanswered : (o : Option WebSocket) → Guarantee (Unanswered id) (forget_agent env o)
  unfolding forget_agent
  forget-Unanswered none = Guarantee-pure (Unanswered-Rely id env quiet) tt
  forget-Unanswered (some ws) = record {
    at = λ w.
        let u : World = record w { agent_connections = remove_first ws w.agent_connections } in
        let rest =
          (Guarantee-bind (Unanswered-Rely id env quiet)
              (close_connections env ws u.active_relayed_connections)
              (λ _.
                modify (λ v. record v {
                  agent_connection_locks = Dict.erase ws v.agent_connection_locks;
                }))
              (close_connections-Guarantee (Unanswered-Rely id env quiet) (lock-Unanswered id)
                (drop-Unanswered id) ws u.active_relayed_connections)
              (λ _. Guarantee-modify _ (λ v. record { kept = λ h. h }))).at
            u in
        record { kept = rest.kept };
  }

  teardown-Unanswered :
      (agent : Text) → Guarantee (Unanswered id) (edge_agent_connection_close env agent)
  unfolding edge_agent_connection_close
  teardown-Unanswered agent = record {
    at = λ w.
        let rest =
          (forget-Unanswered (Dict.lookup agent w.registered_agent_connections)).at (record w {
            registered_agent_connections = Dict.erase agent w.registered_agent_connections;
            agent_connection_id_to_supports_binary =
                Dict.erase agent w.agent_connection_id_to_supports_binary;
          }) in
        record { kept = rest.kept };
  }

module _ (env : Env) (id : Text) (succeeds : (h : List Call) (c : Call) → env.answer h c ≡ none)
    (silent : (w : World) → Unanswered id w (env.others w)) where
  locked : (ws : WebSocket) (w : World) → agent_send_lock ws w ≡ (done tt, (agent_send_lock ws w).1)
  unfolding agent_send_lock
  locked ws w = ground arith

  performs :
      (c : Call) (w : World)
      → perform env c w ≡ (done tt, env.others (record w { trace = c ∷ w.trace }))
  unfolding perform
  performs c w = rw succeeds refl

  send-waits :
      (ws : WebSocket) (c : Call) (w : World)
      → Dict.lookup id w.initiate_connection_answer_queues ≡ some none
      → (v : World) × (send_locked env ws c w ≡ (done tt, v))
        × (Dict.lookup id v.initiate_connection_answer_queues ≡ some none)
  unfolding send_locked
  send-waits ws c w h =
      let u = (agent_send_lock ws w).1 in
      let asking : World = record u { trace = acquire_lock ws ∷ u.trace } in
      let v = env.others asking in
      let sending : World = record v { trace = c ∷ v.trace } in
      (
        env.others sending,
        rw (locked ws w, performs (acquire_lock ws) u, performs c v) refl,
        (silent sending).kept ((silent asking).kept (((lock-Unanswered id ws).at w).kept h)),
      )

  wait-pending :
      (w : World)
      → Dict.lookup id w.initiate_connection_answer_queues ≡ some none
      → (v : World) × (wait_answer env id w ≡ (pending, v))
        × (Dict.lookup id v.initiate_connection_answer_queues ≡ some none)
  unfolding wait_answer
  wait-pending w h =
      let asking : World = record w { trace = get_answer id ∷ w.trace } in
      let still = (silent asking).kept h in (env.others asking, ground (arith, h, still), still)

  ask-pending :
      (ws : WebSocket) (target_ip : Text) (target_port : ℕ) (protocol : Text) (w : World)
      → (v : World) × (send_message_and_wait_for_answer env ws
            (request target_ip target_port protocol id)
            w
          ≡ (pending, v))
        × (Dict.lookup id v.initiate_connection_answer_queues ≡ some none)
  unfolding send_message_and_wait_for_answer
  ask-pending ws target_ip target_port protocol w =
      let message = send_text ws (
        env.to_agent.dump (
          RelayToEdgeAgentMessage.initiate_connection
            (request target_ip target_port protocol id))) in
      let (u, sent, empty) = send-waits ws message (set_queue id none w) (
        Dict.lookup-insert id id none w.initiate_connection_answer_queues ∙ rw (Dict.eq_self id)) in
      let (v, waits, still) = wait-pending u empty in (v, rw (sent, waits) refl, still)

-- The teardown of an agent does not end the wait for its answer: asked for a connection over a
-- registered agent, with calls that succeed, `_create_connection` is still suspended, and its queue
-- still empty, if what the other tasks do at each await is the whole of
-- `edge_agent_connection_close` for this agent, with nobody else answering during it.
pub create-pending :
    (env torn : Env) (agent target_ip : Text) (target_port : ℕ) (protocol : Text)
    (class : ConnectionClass) (w : World) (ws : WebSocket)
    → Dict.lookup agent w.registered_agent_connections ≡ some ws
    → ((h : List Call) (c : Call) → env.answer h c ≡ none)
    → ((v : World) → env.others v ≡ (edge_agent_connection_close torn agent v).1)
    → ((v : World) → Unanswered (env.uuid4 w.trace) v (torn.others v))
    → (v : World) × (create env agent target_ip target_port protocol class w ≡ (pending, v))
      × (Dict.lookup (env.uuid4 w.trace) v.initiate_connection_answer_queues ≡ some none)
unfolding create add_connection
create-pending env torn agent target_ip target_port protocol class w ws registered succeeds teardown
      quiet =
    let id = env.uuid4 w.trace in
    let (v, asks, empty) =
      ask-pending env id succeeds
        (λ x.
          subst (λ y. Unanswered id x y) (sym (teardown x))
            ((teardown-Unanswered torn id quiet agent).at x))
        ws target_ip target_port protocol
        (add_connection id class ws
          (or_false (Dict.lookup agent w.agent_connection_id_to_supports_binary)) w).1 in
    (v, rw (registered, asks) refl, empty)
