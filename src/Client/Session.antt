-- ===== src/Client/Session.antt =====
-- `AccessClient` of http_network_relay/access_client.py. The task that reads stdin and the loop that
-- writes stdout share nothing but the WebSocket, so each is a function of what it receives, in the
-- order of arrival; after that it waits.
use http_network_relay.Prelude.{
  ℕ, Bool, true, false, Option, none, some, List, [], ◌∷◌, ◌++◌, Text, codes, if◌then◌else◌,
}
use http_network_relay.Exception.{
  Exception, Result, ok, raise, ◌>>=◌, value_error, connection_closed,
}
use http_network_relay.Frame.Hex.{Bytes}
use http_network_relay.Base64.{b64encode, b64decode}
use http_network_relay.Messages.{
  AtRStartMessage, AccessClientToRelayMessage, RelayToAccessClientMessage, start_ok, Wire, text,
  binary, Codec,
}
use http_network_relay.Relay.World.{Outcome, done, raised, pending}

-- The attributes of an `AccessClient`.
pub record AccessClient : Type 0 where
  pub target_host_identifier : Text
  pub target_ip : Text
  pub target_port : ℕ
  pub protocol : Text
  pub relay_url : Option Text
  pub secret : Option Text

-- What the client does not implement: pydantic, and whether a send raises, by the messages that were
-- sent before it.
pub record ClientEnv : Type 0 where
  pub answer : List Wire → Wire → Option Exception
  pub to_relay : Codec AccessClientToRelayMessage
  pub from_relay : Codec RelayToAccessClientMessage
  -- `model_validate_json` of a binary message
  pub validate_bytes : Bytes → Result RelayToAccessClientMessage

abbrev with_secret : AccessClient → Option Text → Result AtRStartMessage
with_secret c none = raise (value_error (codes "secret is required"))
with_secret c (some secret) = ok (record {
  connection_target = c.target_host_identifier;
  target_ip = c.target_ip;
  target_port = c.target_port;
  protocol = c.protocol;
  secret = secret;
  supports_binary = some true;
})

abbrev with_url : AccessClient → Option Text → Result AtRStartMessage
with_url c none = raise (value_error (codes "relay_url is required"))
with_url c (some url) = with_secret c c.secret

-- The checks of `async_main`, and the start message.
unfoldable pub start_message : AccessClient → Result AtRStartMessage
start_message c = with_url c c.relay_url

-- `if relay_supports_binary`, where `None` counts as false
abbrev pub truthy : Option Bool → Bool
truthy none = false
truthy (some b) = b

module _ (env : ClientEnv) where
  abbrev pub validate_wire : Wire → Result RelayToAccessClientMessage
  validate_wire (text json) = env.from_relay.validate json
  validate_wire (binary content) = env.validate_bytes content

  -- The message for the bytes that were read from stdin.
  unfoldable pub frame_stdin : Bool → Bytes → Wire
  frame_stdin relay_supports_binary content =
      if relay_supports_binary
      then binary content
      else text (env.to_relay.dump (AccessClientToRelayMessage.tcp_data (b64encode content)))

  abbrev sent_over : Option Exception → List Wire → Outcome (Unit {0}) × List Wire
  sent_over none sent = (done tt, sent)
  sent_over (some x) sent = (raised x, sent)

  -- `websocket.send`, with the messages that were sent.
  unfoldable pub send : Wire → List Wire → Outcome (Unit {0}) × List Wire
  send wire sent = sent_over (env.answer sent wire) (sent ++ wire ∷ [])

  abbrev pub after_send :
      Outcome (Unit {0}) × List Wire
      → (List Wire → Outcome (Unit {0}) × List Wire)
      → Outcome (Unit {0}) × List Wire
  after_send (done u, sent) rest = rest sent
  after_send (raised x, sent) rest = (raised x, sent)
  after_send (pending, sent) rest = (pending, sent)

  -- `read_stdin_and_send`, on the results of `reader.read`.
  unfoldable pub stdin_loop :
      Bool → List (Result Bytes) → List Wire → Outcome (Unit {0}) × List Wire
  unfolding frame_stdin send
  stdin_loop flag [] sent = (pending, sent)
  stdin_loop flag (raise x ∷ reads) sent = (raised x, sent)
  stdin_loop flag (ok [] ∷ reads) sent = (done tt, sent)
  stdin_loop flag (ok (b ∷ bs) ∷ reads) sent =
      after_send (send (frame_stdin flag (b ∷ bs)) sent) (λ sent'. stdin_loop flag reads sent')

  -- The task that reads stdin, if the relay's first message is an OK; on any other the client ends
  -- without it.
  unfoldable pub stdin_task :
      RelayToAccessClientMessage → List (Result Bytes) → List Wire → Outcome (Unit {0}) × List Wire
  unfolding stdin_loop
  stdin_task (start_ok flag) reads sent = stdin_loop (truthy flag) reads sent
  stdin_task m reads sent = (done tt, sent)

  -- The bytes that a message adds to stdout.
  abbrev pub payload_of : RelayToAccessClientMessage → Result Bytes
  payload_of (RelayToAccessClientMessage.tcp_data data_base64) = b64decode data_base64
  payload_of m = ok []

  unfoldable pub output_of : Wire → Result Bytes
  output_of (binary content) = ok content
  output_of (text json) = env.from_relay.validate json >>= payload_of

  abbrev pub closes : Exception → Outcome (Unit {0})
  closes connection_closed = done tt
  closes x = raised x

  abbrev pub written :
      Result Bytes → Bytes → (Bytes → Outcome (Unit {0}) × Bytes) → Outcome (Unit {0}) × Bytes
  written (ok content) stdout rest = rest (stdout ++ content)
  written (raise x) stdout rest = (raised x, stdout)

  -- The `while True` of `async_main`, on the results of `websocket.recv`, with what stdout has got.
  unfoldable pub receive_loop : List (Result Wire) → Bytes → Outcome (Unit {0}) × Bytes
  unfolding output_of
  receive_loop [] stdout = (pending, stdout)
  receive_loop (raise x ∷ received) stdout = (closes x, stdout)
  receive_loop (ok wire ∷ received) stdout =
      written (output_of wire) stdout (λ stdout'. receive_loop received stdout')

  abbrev pub after_response :
      Result RelayToAccessClientMessage → List (Result Wire) → Outcome (Unit {0}) × Bytes
  after_response (raise x) received = (raised x, [])
  after_response (ok (start_ok flag)) received = receive_loop received []
  after_response (ok m) received = (done tt, [])

  -- From the answer to the start message on.
  abbrev pub respond : List (Result Wire) → Outcome (Unit {0}) × Bytes
  respond [] = (pending, [])
  respond (raise x ∷ received) = (raised x, [])
  respond (ok wire ∷ received) = after_response (validate_wire wire) received

  abbrev pub after_start :
      Outcome (Unit {0}) × List Wire → List (Result Wire) → Outcome (Unit {0}) × Bytes
  after_start (done u, sent) received = respond received
  after_start (raised x, sent) received = (raised x, [])
  after_start (pending, sent) received = (pending, [])

  abbrev pub after_checks :
      Result AtRStartMessage → Result (Unit {0}) → List (Result Wire) → Outcome (Unit {0}) × Bytes
  after_checks (raise x) connected received = (raised x, [])
  after_checks (ok m) (raise x) received = (raised x, [])
  after_checks (ok m) (ok u) received =
      after_start (send (text (env.to_relay.dump (AccessClientToRelayMessage.start m))) []) received

  -- `async_main`, from how `connect` ends and what `websocket.recv` gives, to what is on stdout.
  unfoldable pub async_main :
      AccessClient → Result (Unit {0}) → List (Result Wire) → Outcome (Unit {0}) × Bytes
  unfolding start_message receive_loop send
  async_main c connected received = after_checks (start_message c) connected received
