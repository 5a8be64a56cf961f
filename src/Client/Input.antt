-- ===== src/Client/Input.antt =====
-- From the stdin of an access client (http_network_relay/access_client.py) through the relay
-- (http_network_relay/network_relay.py) to the agent (http_network_relay/edge_agent.py).
use http_network_relay.Prelude.{
  ℕ, ◌≡◌, refl, sym, ◌∙◌, ap, Bool, true, false, Option, none, Option-cases, inl, inr, List, [],
  ◌∷◌, ◌++◌, append-nil, append_assoc, Text,
}
use http_network_relay.Exception.{ok}
use http_network_relay.Reads.{Chunks, nothing, one_more, until_end}
use http_network_relay.Frame.Hex.{Bytes, IsBytes}
use http_network_relay.Frame.Uuid.{IsUuid}
use http_network_relay.Base64.{b64encode}
use http_network_relay.Base64.RoundTrip.{b64decode-b64encode}
use http_network_relay.Messages.{AccessClientToRelayMessage, Wire, start_ok}
use http_network_relay.Relay.World.{World, Env, pure, continue, message, Outcome, done}
use http_network_relay.Relay.Close.{send_locked}
use http_network_relay.Relay.Connection.{send_data, send_framed}
use http_network_relay.Relay.AccessClients.{handle_client_raw}
use http_network_relay.EdgeAgent.World.{EdgeEnv}
use http_network_relay.EdgeAgent.Arrival.{AgentAgrees, Arrives, send_framed-Arrives}
use http_network_relay.Client.Session.{ClientEnv, frame_stdin, stdin_loop, stdin_task, send, truthy}

-- The relay validates the TCP data messages that the client dumps.
abbrev pub RelayAgrees : ClientEnv → Env → Type 0
RelayAgrees client env =
    (t : Text)
    → env.from_client.validate (client.to_relay.dump (AccessClientToRelayMessage.tcp_data t))
      ≡ ok (AccessClientToRelayMessage.tcp_data t)

module _ (client : ClientEnv) (env : Env) (agree : RelayAgrees client env) where
  pub stdin-send :
      (flag : Bool) (content : Bytes) (id : Text) (address : ℕ) (w : World)
      → IsBytes content
      → handle_client_raw env id address (message (frame_stdin client flag content)) w
        ≡ continue (send_data env address content w) (λ _. pure true)
  unfolding frame_stdin handle_client_raw
  stdin-send true content id address w bytes = refl
  stdin-send false content id address w bytes =
      rw (agree (b64encode content), b64decode-b64encode content bytes) refl

  pub send-framed :
      (content : Bytes) (address : ℕ) (w : World)
      → send_data env address content w ≡ send_framed env (w.objects address) content w
  unfolding send_data
  send-framed content address w = refl

  -- From the client's stdin to the target, in either framing on either hop: what the client sends
  -- for bytes that it read makes the relay send one message to the agent of the connection, and
  -- nothing else, and the agent writes exactly these bytes to the TCP connection; provided that the
  -- connection's id is canonical, and that relay and agent validate what they are sent.
  frame_stdin-Arrives :
      (edge : EdgeEnv) (flag : Bool) (content : Bytes) (id : Text) (address : ℕ) (w : World)
      → AgentAgrees env edge (w.objects address).id
      → IsUuid (w.objects address).id
      → IsBytes content
      → (a : Arrives env edge (w.objects address) content) × (handle_client_raw env id address
            (message (frame_stdin client flag content))
            w
          ≡ continue
              (send_locked env (w.objects address).agent_connection a.call w)
              (λ _. pure true))
  frame_stdin-Arrives edge flag content id address w agrees uuid bytes =
      let a = send_framed-Arrives env edge (w.objects address) content agrees uuid bytes in
      (
        a,
        rw (stdin-send flag content id address w bytes, send-framed content address w, a.sent w)
            refl,
      )

unfoldable pub frames : ClientEnv → Bool → List Bytes → List Wire
frames client flag [] = []
frames client flag (content ∷ rest) = frame_stdin client flag content ∷ frames client flag rest

-- The end of a task that has these chunks to send: it has begun to send some of them, in order.
pub record Sent (client : ClientEnv) (flag : Bool) (chunks : List Bytes) (sent : List Wire)
    (p : Outcome (Unit {0}) × List Wire) : Type 0 where
  pub begun : List Bytes
  pub rest : List Bytes
  pub split : chunks ≡ begun ++ rest
  pub messages : p.1 ≡ sent ++ frames client flag begun
  pub all_sent : p.0 ≡ done tt → rest ≡ []
  pub ends : ((h : List Wire) (wire : Wire) → client.answer h wire ≡ none) → p.0 ≡ done tt

module _ (client : ClientEnv) where
  loop-Sent :
      (flag : Bool) (chunks : List Bytes) (sent : List Wire)
      → Chunks chunks
      → Sent client flag chunks sent (stdin_loop client flag (until_end chunks) sent)
  unfolding stdin_loop until_end frames send
  loop-Sent flag _ sent nothing = record {
    begun = [];
    rest = [];
    split = refl;
    messages = sym (append-nil sent);
    all_sent = λ e. refl;
    ends = λ h. refl;
  }
  loop-Sent flag _ sent (one_more {b = b} {bs = bs} {rest = rest} more) =
      let wire = frame_stdin client flag (b ∷ bs) in
      elim (Option-cases (client.answer sent wire)) [
        | inl e ↦
            let m = loop-Sent flag rest (sent ++ wire ∷ []) more in
            rw (send, e)
              (record {
                begun = (b ∷ bs) ∷ m.begun;
                rest = m.rest;
                split = ap (λ r. (b ∷ bs) ∷ r) m.split;
                messages = m.messages ∙ append_assoc sent (wire ∷ []) (frames client flag m.begun);
                all_sent = m.all_sent;
                ends = m.ends;
              })
        | inr (x, e) ↦
            rw (send, e)
              (record {
                begun = (b ∷ bs) ∷ [];
                rest = rest;
                split = refl;
                messages = refl;
                all_sent = λ d. cc d;
                ends = λ h. cc (e, h sent wire);
              })
      ]

  -- The task that reads stdin sends what it read, framed as the relay's OK asks for, in order: if
  -- stdin comes to its end after these chunks, then what the task has begun to send is a message
  -- for each chunk of a prefix of them; for all of them if it ends without an exception, which it
  -- does if no send raises.
  stdin_task-Sent :
      (flag : Option Bool) (chunks : List Bytes) (sent : List Wire)
      → Chunks chunks
      → Sent client
          (truthy flag)
          chunks
          sent
          (stdin_task client (start_ok flag) (until_end chunks) sent)
  unfolding stdin_task
  stdin_task-Sent flag chunks sent c = loop-Sent (truthy flag) chunks sent c
