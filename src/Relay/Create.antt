-- ===== src/Relay/Create.antt =====
-- `_create_connection` of http_network_relay/network_relay.py, with `create_connection`,
-- `create_connection_async` and `send_message_and_wait_for_answer`.
pub mod Answers
pub mod Unanswered
mod Tests
use http_network_relay.Prelude.{
  ℕ, suc, Bool, true, false, Option, none, some, ◌∷◌, ◌++◌, Text, codes, text_key,
}
use http_network_relay.Prelude.Dict
use http_network_relay.Exception.{Exception, value_error}
use http_network_relay.Messages.{
  EdgeAgentToRelayMessage, initiate_connection_error, initiate_connection_ok,
  RtEInitiateConnectionMessage, RelayToEdgeAgentMessage,
}
use http_network_relay.Relay.World.{
  WebSocket, Connection, ConnectionClass, tcp_connection, tcp_connection_async, World, Relay, Env,
  send_text, get_answer, Outcome, done, raised, pending, pure, fail, gets, modify, continue, ◌>>=◌,
  ◌>>◌, set_object,
}
use http_network_relay.Relay.Close.{send_locked}
use http_network_relay.Relay.Agents.{set_queue, delete_queue, new_connection, or_false}

-- A new object, in `active_relayed_connections` under its id; the result is its address.
unfoldable pub add_connection : Text → ConnectionClass → WebSocket → Bool → Relay ℕ
add_connection id class ws supports w = (
  done w.next_object,
  set_object w.next_object (new_connection id class ws supports) (record w {
    active_relayed_connections = Dict.insert id w.next_object w.active_relayed_connections;
    next_object = suc w.next_object;
  }),
)

-- The message that asks for a connection.
abbrev pub request : Text → ℕ → Text → Text → RtEInitiateConnectionMessage
request target_ip target_port protocol id = record {
  target_ip = target_ip;
  target_port = target_port;
  protocol = protocol;
  connection_id = id;
  supports_binary = true;
}

module _ (env : Env) where
  -- `response_queue.get()` and the `del` after it.
  abbrev pub taken :
      Text
      → Option (Option EdgeAgentToRelayMessage)
      → World
      → Outcome EdgeAgentToRelayMessage × World
  taken id (some (some m)) w = (done m, delete_queue id w)
  taken id _ w = (pending, w)

  -- Suspended until another task puts an answer; an answer that is there is taken at once.
  unfoldable pub wait_answer : Text → Relay EdgeAgentToRelayMessage
  wait_answer id w = elim (Dict.lookup id w.initiate_connection_answer_queues) [
    | some (some m) ↦ (done m, delete_queue id w)
    | _ ↦
        let v = env.others (record w { trace = get_answer id ∷ w.trace }) in
        taken id (Dict.lookup id v.initiate_connection_answer_queues) v
  ]

  -- `send_message_and_wait_for_answer`
  unfoldable pub send_message_and_wait_for_answer :
      WebSocket → RtEInitiateConnectionMessage → Relay EdgeAgentToRelayMessage
  send_message_and_wait_for_answer ws m = do
    modify (set_queue m.connection_id none)
    send_locked env ws
        (send_text ws (env.to_agent.dump (RelayToEdgeAgentMessage.initiate_connection m)))
    wait_answer m.connection_id

  -- The `match` on the response; the result is the address of the connection.
  unfoldable pub match_response : ℕ → Text → EdgeAgentToRelayMessage → Relay ℕ
  match_response address id (initiate_connection_error m j) =
      fail (value_error (codes "Error initiating connection: " ++ m))
  match_response address id (initiate_connection_ok j) = pure address
  match_response address id m = fail (
      value_error (
        codes "Unknown response: "
        ++ (env.show m ++ (codes " to initiate connection message for connection_id: " ++ id))))

  abbrev pub create_over : Option WebSocket → Text → Text → ℕ → Text → ConnectionClass → Relay ℕ
  create_over none agent target_ip target_port protocol class =
      fail (value_error (codes "Unknown agent: " ++ agent))
  create_over (some ws) agent target_ip target_port protocol class = do
    id ← gets (λ w. env.uuid4 w.trace)
    supports ← gets (λ w. or_false (Dict.lookup agent w.agent_connection_id_to_supports_binary))
    address ← add_connection id class ws supports
    response ← send_message_and_wait_for_answer ws (request target_ip target_port protocol id)
    match_response address id response

  -- `_create_connection`
  unfoldable pub create : Text → Text → ℕ → Text → ConnectionClass → Relay ℕ
  create agent target_ip target_port protocol class w =
      create_over (Dict.lookup agent w.registered_agent_connections) agent target_ip target_port
        protocol class w

  abbrev pub create_connection : Text → Text → ℕ → Text → Relay ℕ
  create_connection agent target_ip target_port protocol =
      create agent target_ip target_port protocol tcp_connection

  abbrev pub create_connection_async : Text → Text → ℕ → Text → Relay ℕ
  create_connection_async agent target_ip target_port protocol =
      create agent target_ip target_port protocol tcp_connection_async
