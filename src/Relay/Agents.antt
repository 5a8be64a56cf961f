-- ===== src/Relay/Agents.antt =====
-- The edge agents' side of http_network_relay/network_relay.py: registration, the message loop and
-- its handlers, and the creation of a relayed connection.
use http_network_relay.Prelude.{
  Bool, true, false, not, ◌||◌, Option, none, some, [], ◌∷◌, Text, codes, text_key, nat_key,
}
use http_network_relay.Prelude.Dict
use http_network_relay.Exception.{Result, ok, raise, validation_error, attribute_error}
use http_network_relay.Messages.{
  EtRStartMessage, EdgeAgentToRelayMessage, start, initiate_connection_error,
  initiate_connection_ok, tcp_data, connection_reset, keep_alive,
}
use http_network_relay.Relay.World.{
  WebSocket, Connection, ConnectionClass, World, Relay, Env, receive, receive_text, done, pending,
  pure, fail, lift, try, Raw,
}
use http_network_relay.Relay.Close.{contains_text}
use http_network_relay.Relay.Connection.{handle_tcp_data_message, handle_connection_reset_message}

-- A message of the protocol, or one of `CustomAgentToRelayMessage`, as its JSON.
pub data Incoming : Type 0 where
  standard : EdgeAgentToRelayMessage → Incoming
  custom : Text → Incoming

-- `initiate_connection_answer_queues[id] = queue`
abbrev pub set_queue : Text → Option EdgeAgentToRelayMessage → World → World
set_queue id m w = record w {
  initiate_connection_answer_queues = Dict.insert id m w.initiate_connection_answer_queues;
}

abbrev pub delete_queue : Text → World → World
delete_queue id w = record w {
  initiate_connection_answer_queues = Dict.erase id w.initiate_connection_answer_queues;
}

-- The object that `_create_connection` makes.
abbrev pub new_connection : Text → ConnectionClass → WebSocket → Bool → Connection
new_connection id class ws supports = record {
  id = id;
  connection_class = class;
  agent_connection = ws;
  recv_buffer = [];
  event = false;
  send_buffer = [];
  timeout = none;
  agent_supports_binary = supports;
}

-- `dict.get(key, False)`
abbrev pub or_false : Option Bool → Bool
or_false none = false
or_false (some b) = b

-- Whether an optional text is empty or `None`.
is_falsy : Option Text → Bool
is_falsy none = true
is_falsy (some []) = true
is_falsy (some (c ∷ s)) = false

-- Whether an agent's last error says that it does not know the keep-alive message.
unfoldable pub knows_no_keep_alive : Text → Bool
knows_no_keep_alive e =
    contains_text
      (codes
        "Input tag 'successfully_ssh_connected' found using 'kind' does not match any of the expected tags")
      e
    || contains_text
        (codes "Input tag 'keep_alive' found using 'kind' does not match any of the expected tags")
        e

-- The condition under which the relay starts `keep_alive`.
unfoldable pub wants_keep_alive : Option Text → Bool
unfolding knows_no_keep_alive
wants_keep_alive none = true
wants_keep_alive (some []) = true
wants_keep_alive (some (c ∷ s)) = not (knows_no_keep_alive (c ∷ s))

module _ (env : Env) where
  -- The end of `handle_edge_agent_message` for an answer. Where the queue is full, `put` waits; the
  -- task that takes the first answer also deletes the queue, and nobody reads the second.
  unfoldable pub put_answer : Text → EdgeAgentToRelayMessage → Relay (Unit {0})
  put_answer id m w = elim (Dict.lookup id w.initiate_connection_answer_queues) [
    | none ↦ (done tt, w)
    | some none ↦ (done tt, set_queue id (some m) w)
    | some (some first) ↦
        let v = env.others w in
        elim (Dict.lookup id v.initiate_connection_answer_queues) [
          | some (some waiting) ↦ (pending, v)
          | _ ↦ (done tt, v)
        ]
  ]

  -- A start message in the loop has a `connection_id` only as one of its extra fields.
  abbrev pub answer_with_extra : Option Text → EtRStartMessage → Relay (Unit {0})
  answer_with_extra none m = fail attribute_error
  answer_with_extra (some id) m = put_answer id (start m)

  -- `handle_edge_agent_message`
  unfoldable pub handle_edge_agent_message : Incoming → Text → Relay (Unit {0})
  unfolding put_answer
  handle_edge_agent_message (standard (tcp_data id data_base64)) agent =
      handle_tcp_data_message id data_base64
  handle_edge_agent_message (standard (connection_reset m id)) agent =
      handle_connection_reset_message env id
  handle_edge_agent_message (standard keep_alive) agent = pure tt
  handle_edge_agent_message (standard (initiate_connection_error m id)) agent =
      put_answer id (initiate_connection_error m id)
  handle_edge_agent_message (standard (initiate_connection_ok id)) agent =
      put_answer id (initiate_connection_ok id)
  handle_edge_agent_message (standard (start m)) agent =
      answer_with_extra (Dict.lookup (codes "connection_id") m.extra) m
  handle_edge_agent_message (custom json) agent =
      try (env.handle_custom_agent_message json agent) (λ _. pure tt)

  -- `websocket.receive()` and `websocket.receive_text()`
  unfoldable pub receive_raw : WebSocket → Relay Raw
  receive_raw ws w =
      lift (env.received w.trace ws) (env.others (record w { trace = receive ws ∷ w.trace }))

  unfoldable pub receive_first : WebSocket → Relay Text
  receive_first ws w =
      lift (env.received_text w.trace ws)
        (env.others (record w { trace = receive_text ws ∷ w.trace }))

  abbrev wrap : Result Text → Result Incoming
  wrap (ok m) = ok (custom m)
  wrap (raise x) = raise x

  -- The `ValidationError` handler of `_msg_loop`.
  abbrev parse_custom : Option (Text → Result Text) → Text → Text → Result Incoming
  parse_custom none e json = raise (validation_error e)
  parse_custom (some validate) e json = wrap (validate json)

  abbrev parse_result : Result EdgeAgentToRelayMessage → Text → Result Incoming
  parse_result (ok m) json = ok (standard m)
  parse_result (raise (validation_error e)) json = parse_custom env.validate_custom e json
  parse_result (raise x) json = raise x

  -- How `_msg_loop` reads a text message.
  unfoldable pub parse_message : Text → Result Incoming
  parse_message json = parse_result (env.from_agent.validate json) json
