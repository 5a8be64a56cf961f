-- ===== src/Relay/Create/Answers.antt =====
-- What becomes of a connection that `_create_connection` of http_network_relay/network_relay.py
-- asks an agent for.
use http_network_relay.Prelude.{
  ℕ, ◌≡◌, refl, ◌∙◌, ◌⊎◌, inl, inr, Bool, none, some, List, ◌∷◌, ◌++◌, Text, codes, text_key,
  nat_key, arith,
}
use http_network_relay.Prelude.Dict
use http_network_relay.Exception.{value_error}
use http_network_relay.Messages.{
  EdgeAgentToRelayMessage, initiate_connection_error, initiate_connection_ok,
  RelayToEdgeAgentMessage,
}
use http_network_relay.Relay.World.{
  WebSocket, ConnectionClass, World, Env, Call, acquire_lock, send_text, get_answer, Outcome, done,
  raised, perform,
}
use http_network_relay.Relay.Close.{agent_send_lock, send_locked}
use http_network_relay.Relay.Agents.{set_queue, delete_queue, or_false}
use http_network_relay.Relay.Create.{
  add_connection, wait_answer, send_message_and_wait_for_answer, match_response, request, create,
}

added-active :
    (id : Text) (class : ConnectionClass) (ws : WebSocket) (supports : Bool) (w : World)
    → Dict.lookup id (add_connection id class ws supports w).1.active_relayed_connections
      ≡ some w.next_object
unfolding add_connection
added-active id class ws supports w =
    Dict.lookup-insert id id w.next_object w.active_relayed_connections ∙ rw (Dict.eq_self id)

added-address :
    (id : Text) (class : ConnectionClass) (ws : WebSocket) (supports : Bool) (w : World)
    → add_connection id class ws supports w
      ≡ (done w.next_object, (add_connection id class ws supports w).1)
unfolding add_connection
added-address id class ws supports w = refl

-- The answer queue of `id` is there, with no message or with `m`.
abbrev Awaits : Text → EdgeAgentToRelayMessage → World → Type 0
Awaits id m w =
    (Dict.lookup id w.initiate_connection_answer_queues ≡ some none)
    ⊎ (Dict.lookup id w.initiate_connection_answer_queues ≡ some (some m))

-- Calls succeed, and the other tasks put `m` into the queue of `id`, at the latest while the
-- creating task waits for it, and do not touch the connection.
pub record IsAnswered (env : Env) (id : Text) (m : EdgeAgentToRelayMessage) : Type 0 where
  pub succeeds : (h : List Call) (c : Call) → env.answer h c ≡ none
  pub keeps_queue : (w : World) → Awaits id m w → Awaits id m (env.others w)
  pub answers :
      (w : World)
      → Dict.lookup id w.initiate_connection_answer_queues ≡ some none
      → Dict.lookup id
          (env.others
            (record w { trace = get_answer id ∷ w.trace })).initiate_connection_answer_queues
        ≡ some (some m)
  pub keeps_active :
      (w : World) (address : ℕ)
      → Dict.lookup id w.active_relayed_connections ≡ some address
      → Dict.lookup id (env.others w).active_relayed_connections ≡ some address

module _ {env : Env} {id : Text} {m : EdgeAgentToRelayMessage} (answered : IsAnswered env id m)
    (address : ℕ) where
  -- Kept from the moment at which the connection is asked for.
  record IsAsked (w : World) : Type 0 where
    awaits : Awaits id m w
    active : Dict.lookup id w.active_relayed_connections ≡ some address

  others-IsAsked : (w : World) → IsAsked w → IsAsked (env.others w)
  others-IsAsked w h = record {
    awaits = answered.keeps_queue w h.awaits;
    active = answered.keeps_active w address h.active;
  }

  perform-IsAsked :
      (c : Call) (w : World)
      → IsAsked w
      → (v : World) × (perform env c w ≡ (done tt, v)) × IsAsked v
  unfolding perform
  perform-IsAsked c w h = (
    env.others (record w { trace = c ∷ w.trace }),
    rw answered.succeeds,
    others-IsAsked _ (record { awaits = h.awaits; active = h.active }),
  )

  lock-IsAsked :
      (ws : WebSocket) (w : World)
      → IsAsked w
      → (v : World) × (agent_send_lock ws w ≡ (done tt, v)) × IsAsked v
  unfolding agent_send_lock
  lock-IsAsked ws w h = (
    (agent_send_lock ws w).1,
    ground arith,
    record { awaits = ground (arith, h.awaits); active = ground (arith, h.active) },
  )

  send-IsAsked :
      (ws : WebSocket) (c : Call) (w : World)
      → IsAsked w
      → (v : World) × (send_locked env ws c w ≡ (done tt, v)) × IsAsked v
  unfolding send_locked
  send-IsAsked ws c w h =
      let (t, o, j) = lock-IsAsked ws w h in
      let (u, p, k) = perform-IsAsked (acquire_lock ws) t j in
      let (v, q, l) = perform-IsAsked c u k in (v, rw (o, p, q), l)

  -- The answer is taken, its queue is gone, and the connection is where it was.
  record IsTaken (v : World) : Type 0 where
    no_queue : Dict.lookup id v.initiate_connection_answer_queues ≡ none
    active : Dict.lookup id v.active_relayed_connections ≡ some address

  delete-IsTaken : (w : World) → IsAsked w → IsTaken (delete_queue id w)
  delete-IsTaken w h = record {
    no_queue = Dict.lookup-erase id id w.initiate_connection_answer_queues ∙ rw (Dict.eq_self id);
    active = h.active;
  }

  wait-IsTaken :
      (w : World) → IsAsked w → (v : World) × (wait_answer env id w ≡ (done m, v)) × IsTaken v
  unfolding wait_answer
  wait-IsTaken w h = elim h.awaits [
    | inl empty ↦
        let v = env.others (record w { trace = get_answer id ∷ w.trace }) in
        (
          delete_queue id v,
          ground (arith, answered.answers w empty),
          delete-IsTaken v (others-IsAsked _ (record { awaits = h.awaits; active = h.active })),
        )
    | inr full ↦ (delete_queue id w, ground (arith, full), delete-IsTaken w h)
  ]

  ask-IsTaken :
      (ws : WebSocket) (target_ip : Text) (target_port : ℕ) (protocol : Text) (w : World)
      → Dict.lookup id w.active_relayed_connections ≡ some address
      → (v : World) × (send_message_and_wait_for_answer env ws
            (request target_ip target_port protocol id)
            w
          ≡ (done m, v))
        × IsTaken v
  unfolding send_message_and_wait_for_answer
  ask-IsTaken ws target_ip target_port protocol w active =
      let asked : IsAsked (set_queue id none w) = record {
        awaits = inl (
            Dict.lookup-insert id id none w.initiate_connection_answer_queues
            ∙ rw (Dict.eq_self id));
        active = active;
      } in
      let message = send_text ws (
        env.to_agent.dump (
          RelayToEdgeAgentMessage.initiate_connection
            (request target_ip target_port protocol id))) in
      let (u, p, k) = send-IsAsked ws message (set_queue id none w) asked in
      let (v, q, l) = wait-IsTaken u k in (v, rw (p, q), l)

module _ {env : Env} {m : EdgeAgentToRelayMessage} (agent target_ip : Text) (target_port : ℕ)
    (protocol : Text) (class : ConnectionClass) (w : World) (ws : WebSocket)
    (registered : Dict.lookup agent w.registered_agent_connections ≡ some ws)
    (answered : IsAnswered env (env.uuid4 w.trace) m) where
  -- Asked for a connection over a registered agent that answers, the relay reads the answer in
  -- `match_response`; the queue is gone then, and the new connection is active.
  create-answered :
      (v : World) × (create env agent target_ip target_port protocol class w
        ≡ match_response env w.next_object (env.uuid4 w.trace) m v)
      × (Dict.lookup (env.uuid4 w.trace) v.initiate_connection_answer_queues ≡ none)
      × (Dict.lookup (env.uuid4 w.trace) v.active_relayed_connections ≡ some w.next_object)
  unfolding create
  create-answered =
      let id = env.uuid4 w.trace in
      let supports = or_false (Dict.lookup agent w.agent_connection_id_to_supports_binary) in
      let u = (add_connection id class ws supports w).1 in
      let (v, asked, taken) =
        ask-IsTaken answered w.next_object ws target_ip target_port protocol u
          (added-active id class ws supports w) in
      (
        v,
        rw (registered, added-address id class ws supports w, asked),
        taken.no_queue,
        taken.active,
      )

-- What a caller gets for an answer: the new connection, or a `ValueError`.
abbrev pub outcome_of : Env → Text → ℕ → EdgeAgentToRelayMessage → Outcome ℕ
outcome_of env id address (initiate_connection_ok j) = done address
outcome_of env id address (initiate_connection_error message j) =
    raised (value_error (codes "Error initiating connection: " ++ message))
outcome_of env id address m = raised (
    value_error (
      codes "Unknown response: "
      ++ (env.show m ++ (codes " to initiate connection message for connection_id: " ++ id))))

match-outcome :
    (env : Env) (address : ℕ) (id : Text) (m : EdgeAgentToRelayMessage) (v : World)
    → match_response env address id m v ≡ (outcome_of env id address m, v)
unfolding match_response
match-outcome env address id (initiate_connection_error e j) v = refl
match-outcome env address id (initiate_connection_ok j) v = refl
match-outcome env address id m v = refl

-- A registered agent is asked for a connection, and answers, before or while the relay waits for
-- it. On an OK the caller gets the new connection; on an error or another message a `ValueError`
-- with its text. In all three cases the answer queue is gone, and the connection is in
-- `active_relayed_connections`: the failed one stays there too.
pub create-outcome :
    {env : Env} {m : EdgeAgentToRelayMessage} (agent target_ip : Text) (target_port : ℕ)
    (protocol : Text) (class : ConnectionClass) (w : World) (ws : WebSocket)
    → Dict.lookup agent w.registered_agent_connections ≡ some ws
    → IsAnswered env (env.uuid4 w.trace) m
    → (v : World) × (create env agent target_ip target_port protocol class w
        ≡ (outcome_of env (env.uuid4 w.trace) w.next_object m, v))
      × (Dict.lookup (env.uuid4 w.trace) v.initiate_connection_answer_queues ≡ none)
      × (Dict.lookup (env.uuid4 w.trace) v.active_relayed_connections ≡ some w.next_object)
create-outcome {env} {m} agent target_ip target_port protocol class w ws registered answered =
    let (v, e, q, a) =
      create-answered agent target_ip target_port protocol class w ws registered answered in
    (v, e ∙ match-outcome env w.next_object (env.uuid4 w.trace) m v, q, a)
