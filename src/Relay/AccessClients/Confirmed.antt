-- ===== src/Relay/AccessClients/Confirmed.antt =====
-- What an answer in http_network_relay/network_relay.py says of what was done for it.
use http_network_relay.Prelude.{
  ◌⊎◌, inl, inr, ◌∷◌, ◌≡◌, refl, ◌∙◌, Option, none, some, Text, text_key, arith,
}
use http_network_relay.Prelude.Dict
use http_network_relay.Exception.{Exception}
use http_network_relay.Messages.{
  EdgeAgentToRelayMessage, initiate_connection_ok, RtEInitiateConnectionMessage,
  RelayToEdgeAgentMessage,
}
use http_network_relay.Relay.World.{
  WebSocket, World, Relay, Env, Outcome, done, raised, pending, continue, perform, Call,
  acquire_lock, send_text, get_answer, answered, ◌>>◌,
}
use http_network_relay.Relay.Close.{agent_send_lock, send_locked}
use http_network_relay.Relay.Agents.{set_queue, delete_queue}
use http_network_relay.Relay.Create.{send_message_and_wait_for_answer, wait_answer, taken}

-- A sequence of actions that returns has a first action that returned, and a rest that did.
pub record Returned {A B : Type 0} (p : Outcome A × World) (f : A → Relay B) (b : B) (v : World)
    : Type 0 where
  pub result : A
  pub between : World
  pub first : p ≡ (done result, between)
  pub then : f result between ≡ (done b, v)

pub continue-Returned :
    {A B : Type 0} (p : Outcome A × World) (f : A → Relay B) (b : B) (v : World)
    → continue p f ≡ (done b, v)
    → Returned p f b v
continue-Returned (done a, x) f b v h = record { result = a; between = x; first = refl; then = h }
continue-Returned (raised x, y) f b v h = ground arith
continue-Returned (pending, y) f b v h = ground arith

-- The request for a connection was sent over `own`, and an OK for the connection was in its answer
-- queue, which had been made empty before, when the relay looked or was woken; the queue is gone.
pub record IsConfirmed (env : Env) (own : WebSocket) (m : RtEInitiateConnectionMessage)
    (u v : World) : Type 0 where
  pub locked : World
  pub before : World
  pub lock : agent_send_lock own (set_queue m.connection_id none u) ≡ (done tt, locked)
  pub acquired : perform env (acquire_lock own) locked ≡ (done tt, before)
  -- The send succeeds, and `asked` is the state after it.
  pub asked : World
  pub succeeds :
      env.answer before.trace
        (send_text own (env.to_agent.dump (RelayToEdgeAgentMessage.initiate_connection m)))
      ≡ none
  pub sent :
      asked
      ≡ env.others (record before {
        trace =
            send_text own (env.to_agent.dump (RelayToEdgeAgentMessage.initiate_connection m))
            ∷ before.trace;
      })
  pub answered_in : World
  pub waited :
      (answered_in ≡ asked)
      ⊎ (answered_in
          ≡ env.others (record asked { trace = get_answer m.connection_id ∷ asked.trace }))
  pub json : Text
  pub queued :
      Dict.lookup m.connection_id answered_in.initiate_connection_answer_queues
      ≡ some (some (initiate_connection_ok json))
  pub final : v ≡ delete_queue m.connection_id answered_in

module _ (env : Env) where
  -- A call that returned was made, and did not fail.
  perform-Succeeds :
      (c : Call) (w v : World)
      → perform env c w ≡ (done tt, v)
      → (env.answer w.trace c ≡ none) × (v ≡ env.others (record w { trace = c ∷ w.trace }))
  unfolding perform
  perform-Succeeds c w v h = by_answer (env.answer w.trace c) refl h
    where
      by_answer :
          (o : Option Exception)
          → env.answer w.trace c ≡ o
          → answered o (env.others (record w { trace = c ∷ w.trace })) ≡ (done tt, v)
          → (env.answer w.trace c ≡ none) × (v ≡ env.others (record w { trace = c ∷ w.trace }))
      by_answer none e h' = (e, cc h')
      by_answer (some x) e h' = ground arith

  -- The answer that a wait gives was in the queue, and the queue is deleted.
  wait-Queued :
      (id : Text) (m : EdgeAgentToRelayMessage) (w v : World)
      → wait_answer env id w ≡ (done m, v)
      → (x : World) × ((x ≡ w) ⊎ (x ≡ env.others (record w { trace = get_answer id ∷ w.trace })))
        × (Dict.lookup id x.initiate_connection_answer_queues ≡ some (some m))
        × (v ≡ delete_queue id x)
  unfolding wait_answer
  wait-Queued id m w v h = at_once (Dict.lookup id w.initiate_connection_answer_queues) refl h
    where
      after : World
      after = env.others (record w { trace = get_answer id ∷ w.trace })

      Goal : Type 0
      Goal =
          (x : World) × ((x ≡ w) ⊎ (x ≡ after))
          × (Dict.lookup id x.initiate_connection_answer_queues ≡ some (some m))
          × (v ≡ delete_queue id x)

      later :
          (o : Option (Option EdgeAgentToRelayMessage))
          → Dict.lookup id after.initiate_connection_answer_queues ≡ o
          → taken env id o after ≡ (done m, v)
          → Goal
      later none e h' = ground arith
      later (some none) e h' = ground arith
      later (some (some m')) e h' = (after, inr refl, e ∙ cc h', cc h')

      at_once :
          (o : Option (Option EdgeAgentToRelayMessage))
          → Dict.lookup id w.initiate_connection_answer_queues ≡ o
          → elim o [
            | some (some m') ↦ (done m', delete_queue id w)
            | _ ↦ taken env id (Dict.lookup id after.initiate_connection_answer_queues) after
          ]
            ≡ (done m, v)
          → Goal
      at_once none e h' = later _ refl h'
      at_once (some none) e h' = later _ refl h'
      at_once (some (some m')) e h' = (w, inl refl, e ∙ cc h', cc h')

  pub ask-IsConfirmed :
      (own : WebSocket) (m : RtEInitiateConnectionMessage) (json : Text) (u v : World)
      → send_message_and_wait_for_answer env own m u ≡ (done (initiate_connection_ok json), v)
      → IsConfirmed env own m u v
  unfolding send_message_and_wait_for_answer send_locked
  ask-IsConfirmed own m json u v h =
      let asks =
        send_text own (env.to_agent.dump (RelayToEdgeAgentMessage.initiate_connection m)) in
      let empty = set_queue m.connection_id none u in
      let sending =
        continue-Returned (send_locked env own asks empty) (λ _. wait_answer env m.connection_id)
          (initiate_connection_ok json) v h in
      let locking =
        continue-Returned (agent_send_lock own empty)
          (λ _. perform env (acquire_lock own) >> perform env asks) tt sending.between
          sending.first in
      let acquiring =
        continue-Returned (perform env (acquire_lock own) locking.between) (λ _. perform env asks)
          tt sending.between locking.then in
      let (succeeds, sent) =
        perform-Succeeds asks acquiring.between sending.between acquiring.then in
      let (answered_in, waited, queued, final) =
        wait-Queued m.connection_id (initiate_connection_ok json) sending.between v sending.then in
      record {
        locked = locking.between;
        before = acquiring.between;
        lock = locking.first;
        acquired = acquiring.first;
        asked = sending.between;
        succeeds = succeeds;
        sent = sent;
        answered_in = answered_in;
        waited = waited;
        json = json;
        queued = queued;
        final = final;
      }
