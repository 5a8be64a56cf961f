-- ===== src/Relay/World.antt =====
-- The state of `NetworkRelay` (http_network_relay/network_relay.py) with the objects that it points
-- to, what the relay takes from elsewhere, and its methods as actions on that state.
use http_network_relay.Prelude.{
  ℕ, Bool, Option, none, some, List, ◌∷◌, Text, nat_eqb, if◌then◌else◌,
}
use http_network_relay.Prelude.Dict.{Dict}
use http_network_relay.Exception.{Exception, Result}
use http_network_relay.Frame.Hex.{Bytes}
use http_network_relay.Messages.{
  EtRStartMessage, EdgeAgentToRelayMessage, RelayToEdgeAgentMessage, AtRStartMessage,
  AccessClientToRelayMessage, RelayToAccessClientMessage, Wire, Codec,
}

-- A WebSocket object of FastAPI, by its identity.
abbrev pub WebSocket : Type 0
WebSocket = ℕ

pub data ConnectionClass : Type 0 where
  tcp_connection tcp_connection_async : ConnectionClass

-- A `TcpConnection` or `TcpConnectionAsync`. `event` says whether `recv_event`, or `event`, is set;
-- a `TcpConnectionAsync` has no `send_buffer`, and leaves it empty.
pub record Connection : Type 0 where
  pub id : Text
  pub connection_class : ConnectionClass
  pub agent_connection : WebSocket
  pub recv_buffer : Bytes
  pub event : Bool
  pub send_buffer : Bytes
  pub timeout : Option ℕ
  pub agent_supports_binary : Bool

-- The coroutines that the relay starts as tasks of their own.
pub data Task : Type 0 where
  keep_alive_task : WebSocket → Task
  msg_loop_task : WebSocket → Text → Task
  -- the reader of an access client's connection object
  reader_task : WebSocket → ℕ → Bool → Task
  -- the coroutines of `TcpConnection.send` and `TcpConnection.close`
  send_task : ℕ → Task
  close_task : Text → WebSocket → Task

-- What the relay does to the outside, in order.
pub data Call : Type 0 where
  accept close receive receive_text acquire_lock : WebSocket → Call
  send_text : WebSocket → Text → Call
  send_bytes : WebSocket → Bytes → Call
  get_answer : Text → Call
  create_task : Task → Call
  -- for the reader task of an access client: it is awaited, and it is cancelled
  join_reader cancel_reader : WebSocket → Call

-- The dictionaries and the list of a `NetworkRelay`. Connection objects are on a heap, by address,
-- since tasks hold them after they have left `active_relayed_connections`; an answer queue, of
-- size 1, is the message in it; a lock is only its presence. `trace` is newest first.
pub record World : Type 0 where
  pub agent_connections : List WebSocket
  pub registered_agent_connections : Dict Text WebSocket
  pub initiate_connection_answer_queues : Dict Text (Option EdgeAgentToRelayMessage)
  pub active_relayed_connections : Dict Text ℕ
  pub active_access_client_connections : Dict Text WebSocket
  pub agent_connection_id_to_supports_binary : Dict Text Bool
  pub agent_connection_locks : Dict WebSocket (Unit {0})
  pub objects : ℕ → Connection
  pub next_object : ℕ
  pub trace : List Call

-- `pending`: the task is suspended in an `await` that nothing has ended.
pub data Outcome {ℓ} (A : Type ℓ) : Type ℓ where
  done : A → Outcome A
  raised : Exception → Outcome A
  pending : Outcome A

abbrev pub Relay {ℓ} : Type ℓ → Type ℓ
Relay A = World → Outcome A × World

module _ {ℓ} {A : Type ℓ} where
  abbrev pub pure : A → Relay A
  pure a w = (done a, w)

  abbrev pub fail : Exception → Relay A
  fail x w = (raised x, w)

  abbrev pub lift : Result A → Relay A
  lift (Result.ok a) w = (done a, w)
  lift (Result.raise x) w = (raised x, w)

  abbrev pub gets : (World → A) → Relay A
  gets f w = (done (f w), w)

  -- `try: m except …: handler`, where the handler raises again what it does not catch
  abbrev pub recover : Outcome A × World → (Exception → Relay A) → Outcome A × World
  recover (done a, w) handler = (done a, w)
  recover (raised x, w) handler = handler x w
  recover (pending, w) handler = (pending, w)

  abbrev pub try : Relay A → (Exception → Relay A) → Relay A
  try m handler w = recover (m w) handler

abbrev pub modify : (World → World) → Relay (Unit {0})
modify f w = (done tt, f w)

module _ {ℓ κ} {A : Type ℓ} {B : Type κ} where
  abbrev pub continue : Outcome A × World → (A → Relay B) → Outcome B × World
  continue (done a, w) f = f a w
  continue (raised x, w) f = (raised x, w)
  continue (pending, w) f = (pending, w)

  infixl 5 ◌>>=◌ ◌>>◌
  abbrev pub ◌>>=◌ : Relay A → (A → Relay B) → Relay B
  ◌>>=◌ m f w = continue (m w) f

  abbrev pub ◌>>◌ : Relay A → Relay B → Relay B
  ◌>>◌ m n w = continue (m w) (λ _. n)

-- What `receive()` returns: a disconnect, a text or a binary message.
pub data Raw : Type 0 where
  disconnected : Raw
  message : Wire → Raw

-- What the relay does not implement: FastAPI's WebSockets, pydantic, `uuid4`, the hooks that a
-- subclass overrides, and the other tasks, which run while a method is suspended.
pub record Env : Type 0 where
  -- whether a call raises, by the calls before it; the list is newest first in all of these
  pub answer : List Call → Call → Option Exception
  pub received : List Call → WebSocket → Result Raw
  pub received_text : List Call → WebSocket → Result Text
  -- `websocket.closed`, which Starlette's WebSocket does not have, and
  -- `application_state == CONNECTED`
  pub is_closed : List Call → WebSocket → Result Bool
  pub is_connected : List Call → WebSocket → Bool
  -- what the other tasks do to the relay during one `await`
  pub others : World → World
  pub uuid4 : List Call → Text
  pub from_agent : Codec EdgeAgentToRelayMessage
  pub to_agent : Codec RelayToEdgeAgentMessage
  pub from_client : Codec AccessClientToRelayMessage
  pub to_client : Codec RelayToAccessClientMessage
  -- `f"{response}"`
  pub show : EdgeAgentToRelayMessage → Text
  -- `CustomAgentToRelayStartMessage.model_validate`, or the message itself where that is `None`
  pub validate_start : EtRStartMessage → Result EtRStartMessage
  -- `CustomAgentToRelayMessage.model_validate_json`, or `none` where that is `None`; a custom
  -- message is kept as its JSON
  pub validate_custom : Option (Text → Result Text)
  pub handle_custom_agent_message : Text → Text → Relay (Unit {0})
  pub get_agent_msg_loop_permission_and_create_connection_id :
      EtRStartMessage → WebSocket → Relay (Option Text)
  pub get_access_client_permission : AtRStartMessage → WebSocket → Relay Bool
  pub get_agent_connection_id_for_access_client : Text → Relay Text

abbrev pub update {ℓ} : {A : Type ℓ} → (ℕ → A) → ℕ → A → ℕ → A
update f i a j = if nat_eqb i j then a else f j

-- A write to the connection object at an address.
abbrev pub set_object : ℕ → Connection → World → World
set_object address c w = record w { objects = update w.objects address c }

abbrev pub answered : Option Exception → World → Outcome (Unit {0}) × World
answered none w = (done tt, w)
answered (some x) w = (raised x, w)

module _ (env : Env) where
  -- The other tasks run.
  abbrev pub suspend : Relay (Unit {0})
  suspend w = (done tt, env.others w)

  -- An awaited call: it is made, the other tasks run, and it returns or raises.
  unfoldable pub perform : Call → Relay (Unit {0})
  perform c w = answered (env.answer w.trace c) (env.others (record w { trace = c ∷ w.trace }))

-- A task is started and not awaited.
unfoldable pub start_task : Task → Relay (Unit {0})
start_task t w = (done tt, record w { trace = create_task t ∷ w.trace })
