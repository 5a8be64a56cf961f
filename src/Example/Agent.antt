-- ===== src/Example/Agent.antt =====
-- The agent of http_network_relay/edge_agent_example.py before the relay of
-- http_network_relay/network_relay_example.py: from its start message to its registration.
use http_network_relay.Prelude.{
  ℕ, ◌≡◌, refl, Option, none, some, List, [], ◌∷◌, ◌++◌, Text, text_key,
}
use http_network_relay.Prelude.Dict
use http_network_relay.Exception.{ok}
use http_network_relay.Messages.{EdgeAgentToRelayMessage, EtRStartMessage, text, start}
use http_network_relay.Relay.World.{
  WebSocket, World, Env, Call, accept, done, receive_text, perform,
}
use http_network_relay.Relay.Agents.{receive_first}
use http_network_relay.Relay.Register.{accept_edge_agent}
use http_network_relay.EdgeAgent.World.{Agent, Edge, EdgeEnv, send, pure}
use http_network_relay.EdgeAgent.World
use http_network_relay.EdgeAgent.Hooks.{base_agent}
use http_network_relay.EdgeAgent.Session.{session}
use http_network_relay.Example.Credentials.{Credentials, create_start_message}
use http_network_relay.Example.Registration.{sent_start, IsRegistered, start_agent-decides}
use http_network_relay.Example.Relay.{class, example_relay}

-- `EdgeAgentForAccessClients`, which overrides `create_start_message`
abbrev pub example_agent : Text → Text → EdgeEnv → EdgeEnv
example_agent name secret env = record (base_agent env) {
  start_message = λ last_error. pure (create_start_message name secret last_error);
}

-- The text of the start message.
abbrev pub start_json : EdgeEnv → Text → Text → Option Text → Text
start_json edge name secret last_error =
    edge.to_relay.dump (EdgeAgentToRelayMessage.start (sent_start name secret last_error))

-- A session begins by sending the start message, and goes on if this succeeds.
session-begins :
    (edge : EdgeEnv) (name secret : Text) (e : Option Text) (rounds : ℕ) (ws : WebSocket)
    (a : Agent)
    → (rest : Unit {0} → Edge (Unit {0})) × (session (example_agent name secret edge) rounds ws e a
        ≡ World.continue
            (World.perform
              (example_agent name secret edge)
              (send ws (text (start_json edge name secret e)))
              a)
            rest)
unfolding session
session-begins edge name secret e rounds ws a = (_, refl)

-- The relay reads this text as the start message, with a WebSocket that is accepted, and the other
-- tasks do not register the name.
pub record IsRead (env : Env) (ws : WebSocket) (name : Text) (json : Text) (m : EtRStartMessage)
    : Type 0 where
  pub accepts : (h : List Call) → env.answer h (accept ws) ≡ none
  pub receives : (h : List Call) → env.received_text h ws ≡ ok json
  pub validates : env.from_agent.validate json ≡ ok (start m)
  pub validates_start : env.validate_start m ≡ ok m
  pub others :
      (w : World)
      → Dict.lookup name w.registered_agent_connections ≡ none
      → Dict.lookup name (env.others w).registered_agent_connections ≡ none

-- An agent of the example comes in: its session begins by sending the text of its start message over
-- its WebSocket; and if the relay receives this text as the first one over a new WebSocket, and the
-- credentials have the agent's secret for its name, then it registers the WebSocket under the name,
-- with the binary framing. Provided that the name is not empty and not registered before, that the
-- relay accepts the WebSocket and validates the message, and that its other tasks do not register
-- the name.
pub session-registers :
    (edge : EdgeEnv) (env : Env) (credentials : Credentials) (c : ℕ) (s secret : Text)
    (e : Option Text) (rounds : ℕ) (agent_ws ws : WebSocket) (a : Agent) (w : World)
    → IsRead env ws (c ∷ s) (start_json edge (c ∷ s) secret e) (sent_start (c ∷ s) secret e)
    → Dict.lookup (c ∷ s) w.registered_agent_connections ≡ none
    → Dict.lookup (c ∷ s) credentials.edge_agents ≡ some secret
    → (rest : Unit {0} → Edge (Unit {0})) × (session
          (example_agent (c ∷ s) secret edge)
          rounds
          agent_ws
          e
          a
        ≡ World.continue
            (World.perform
              (example_agent (c ∷ s) secret edge)
              (send agent_ws (text (start_json edge (c ∷ s) secret e)))
              a)
            rest)
      × (v : World) × (accept_edge_agent (example_relay credentials env) ws w
          ≡ (done (some (c ∷ s)), v))
      × IsRegistered (c ∷ s) ws v
unfolding accept_edge_agent receive_first perform
session-registers edge env credentials c s secret e rounds agent_ws ws a w read free known =
    let (rest, begins) = session-begins edge (c ∷ s) secret e rounds agent_ws a in
    let accepted : World = env.others (record w { trace = accept ws ∷ w.trace }) in
    let listed : World = record accepted {
      agent_connections = accepted.agent_connections ++ ws ∷ [];
      trace = receive_text ws ∷ accepted.trace;
    } in
    let (right, wrong) =
      start_agent-decides credentials (class env) ws c s secret e (env.others listed)
        read.validates_start (read.others listed (read.others _ free)) in
    let (v, registers, registered) = right known in
    (rest, begins, v, rw (read.accepts, read.receives, read.validates) registers, registered)
