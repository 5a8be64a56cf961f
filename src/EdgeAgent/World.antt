-- ===== src/EdgeAgent/World.antt =====
-- The state of `EdgeAgent` (http_network_relay/edge_agent.py), what the agent takes from elsewhere,
-- and its methods as actions on that state.
use http_network_relay.Prelude.{ℕ, Bool, Option, none, some, List, ◌∷◌, Text}
use http_network_relay.Prelude.Dict.{Dict}
use http_network_relay.Exception.{Exception, Result}
use http_network_relay.Frame.Hex.{Bytes}
use http_network_relay.Messages.{
  EtRStartMessage, EdgeAgentToRelayMessage, RtEInitiateConnectionMessage, RelayToEdgeAgentMessage,
  Wire, Codec,
}
use http_network_relay.Relay.World.{WebSocket, Outcome, done, raised, pending}

-- The `StreamReader` and the `StreamWriter` of one TCP connection, by their identity.
abbrev pub Stream : Type 0
Stream = ℕ

pub data Task : Type 0 where
  keep_alive_task : WebSocket → Task
  read_task : RtEInitiateConnectionMessage → Stream → WebSocket → Task

-- What the agent does to the outside, in order.
pub data Call : Type 0 where
  send : WebSocket → Wire → Call
  close_websocket receive : WebSocket → Call
  open_connection : Text → ℕ → Call
  write : Stream → Bytes → Call
  drain close_writer : Stream → Call
  create_task : Task → Call
  sleep : ℕ → Call
  connect : Call

-- The attributes of an `EdgeAgent`; `trace` is newest first.
pub record Agent : Type 0 where
  pub active_connections : Dict Text Stream
  pub websocket : Option WebSocket
  pub signal_connected : Bool
  pub trace : List Call

abbrev pub Edge {ℓ} : Type ℓ → Type ℓ
Edge A = Agent → Outcome A × Agent

module _ {ℓ} {A : Type ℓ} where
  abbrev pub pure : A → Edge A
  pure a w = (done a, w)

  abbrev pub fail : Exception → Edge A
  fail x w = (raised x, w)

  abbrev pub lift : Result A → Edge A
  lift (Result.ok a) w = (done a, w)
  lift (Result.raise x) w = (raised x, w)

  abbrev pub gets : (Agent → A) → Edge A
  gets f w = (done (f w), w)

  -- `try: m except …: handler`, where the handler raises again what it does not catch
  abbrev pub recover : Outcome A × Agent → (Exception → Edge A) → Outcome A × Agent
  recover (done a, w) handler = (done a, w)
  recover (raised x, w) handler = handler x w
  recover (pending, w) handler = (pending, w)

  abbrev pub try : Edge A → (Exception → Edge A) → Edge A
  try m handler w = recover (m w) handler

abbrev pub modify : (Agent → Agent) → Edge (Unit {0})
modify f w = (done tt, f w)

module _ {ℓ κ} {A : Type ℓ} {B : Type κ} where
  abbrev pub continue : Outcome A × Agent → (A → Edge B) → Outcome B × Agent
  continue (done a, w) f = f a w
  continue (raised x, w) f = (raised x, w)
  continue (pending, w) f = (pending, w)

  infixl 5 ◌>>=◌ ◌>>◌
  abbrev pub ◌>>=◌ : Edge A → (A → Edge B) → Edge B
  ◌>>=◌ m f w = continue (m w) f

  abbrev pub ◌>>◌ : Edge A → Edge B → Edge B
  ◌>>◌ m n w = continue (m w) (λ _. n)

-- `try: … finally: cleanup`; an exception is raised again when the cleanup has returned.
abbrev pub finally : Outcome (Unit {0}) × Agent → Edge (Unit {0}) → Outcome (Unit {0}) × Agent
finally (done a, w) cleanup = cleanup w
finally (raised x, w) cleanup = continue (cleanup w) (λ _. fail x)
finally (pending, w) cleanup = (pending, w)

-- What the agent does not implement: the WebSocket client, the TCP streams, pydantic, the clock,
-- the methods that a subclass overrides, and the other tasks, which run while a method is
-- suspended.
pub record EdgeEnv : Type 0 where
  -- whether a call raises, by the calls before it, newest first
  pub answer : List Call → Call → Option Exception
  pub connected : List Call → Result WebSocket
  pub opened : List Call → Text → ℕ → Result Stream
  pub received : List Call → WebSocket → Result Wire
  -- `time.time()`, in microseconds
  pub time : List Call → ℕ
  -- what the other tasks do to the agent during one `await`
  pub others : Agent → Agent
  pub to_relay : Codec EdgeAgentToRelayMessage
  pub from_relay : Codec RelayToEdgeAgentMessage
  -- `str(e)`
  pub str : Exception → Text
  -- `CustomRelayToAgentMessage.model_validate_json`, or `none` where that is `None`
  pub validate_custom : Option (Text → Result Text)
  pub handle_custom_relay_message : Text → Edge (Unit {0})
  -- `create_start_message` with the last error, and its result's `model_validate`
  pub start_message : Option Text → Edge EtRStartMessage
  pub on_connection_closed : Edge (Unit {0})

abbrev pub answered : Option Exception → Agent → Outcome (Unit {0}) × Agent
answered none w = (done tt, w)
answered (some x) w = (raised x, w)

-- A call that is not awaited.
abbrev pub note : Call → Edge (Unit {0})
note c w = (done tt, record w { trace = c ∷ w.trace })

module _ (env : EdgeEnv) where
  -- An awaited call: it is made, the other tasks run, and it returns or raises.
  unfoldable pub perform : Call → Edge (Unit {0})
  perform c w = answered (env.answer w.trace c) (env.others (record w { trace = c ∷ w.trace }))
