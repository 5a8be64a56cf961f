-- ===== src/Client/Pipeline.antt =====
-- A stream of bytes from the stdin of an access client (http_network_relay/access_client.py)
-- through the relay (http_network_relay/network_relay.py) to the TCP connection of the agent
-- (http_network_relay/edge_agent.py).
use http_network_relay.Prelude.{
  ℕ, ◌≡◌, refl, sym, ◌∙◌, Bool, true, List, [], ◌∷◌, ◌++◌, append-nil, append_assoc, All, Text,
  text_key, nat_key, if◌then◌else◌,
}
use http_network_relay.Prelude.Dict
use http_network_relay.Frame.Hex.{Bytes, IsBytes}
use http_network_relay.Frame.Uuid.{IsUuid}
use http_network_relay.Messages.{Wire}
use http_network_relay.Relay.World.{
  WebSocket, Connection, World, Relay, Env, Call, pure, continue, Outcome, done, raised, pending,
  message, ◌>>◌,
}
use http_network_relay.Relay.Close.{send_locked}
use http_network_relay.Relay.Close.Steps.{send-Guarantee}
use http_network_relay.Relay.AccessClients.{handle_client_raw}
use http_network_relay.EdgeAgent.World.{Agent, EdgeEnv, Stream}
use http_network_relay.EdgeAgent.Arrival.{Sends, AgentAgrees, Arrives, send_framed-Arrives}
use http_network_relay.Client.Session.{ClientEnv, frame_stdin}
use http_network_relay.Client.Input.{RelayAgrees, frames, stdin-send, send-framed}
use http_network_relay.Reads.{joined}
use http_network_relay.Relay.Connection.Framing.{
  Steady, Link, Steady-Rely, lock-Steady, drop-Steady, send_framed-Link,
}
use http_network_relay.EdgeAgent.Writing.{handle_wires, IsWritten, IsOwn, write-IsWritten}

-- The relay's side: the rounds of the loop for messages of the client that have come, as long as
-- the loop goes on, and sends to an agent in order.
unfoldable pub handle_client_all : Env → Text → ℕ → List Wire → Relay (Unit {0})
handle_client_all env id address [] w = (done tt, w)
handle_client_all env id address (wire ∷ wires) w =
    let next = λ (p : Outcome Bool × World).
      continue p (λ goes_on. if goes_on then handle_client_all env id address wires else pure tt) in
    if Dict.contains id w.active_access_client_connections
    then next (handle_client_raw env id address (message wire) w)
    else (done tt, w)

unfoldable pub send_all : Env → WebSocket → List Call → Relay (Unit {0})
send_all env ws [] = pure tt
send_all env ws (call ∷ calls) = send_locked env ws call >> send_all env ws calls

pub data AllSends (ws : WebSocket) : List Call → List Wire → Type 0 where
  no_sends : AllSends ws [] []
  one_send :
      {call : Call} {wire : Wire} {calls : List Call} {wires : List Wire}
      → Sends ws call wire
      → AllSends ws calls wires
      → AllSends ws (call ∷ calls) (wire ∷ wires)

module _ (client : ClientEnv) (env : Env) (edge : EdgeEnv) (agree : RelayAgrees client env)
    (flag : Bool) (id : Text) (address : ℕ) (c : Connection) (stream : Stream) (ws : WebSocket)
    (steady : (w : World) → Steady id address w (env.others w)) (own : IsOwn edge c.id stream) where
  -- The messages for some chunks at the relay and at the agent.
  record Delivery (chunks : List Bytes) : Type 0 where
    calls : List Call
    wires : List Wire
    sends : AllSends c.agent_connection calls wires
    relayed :
        (w : World)
        → Link c (w.objects address)
        → Dict.contains id w.active_access_client_connections ≡ true
        → handle_client_all env id address (frames client flag chunks) w
          ≡ send_all env c.agent_connection calls w
    handled :
        (total : Bytes) (a : Agent)
        → IsWritten c.id stream total a
        → (b : Agent) × (handle_wires edge ws wires a ≡ (done tt, b))
          × IsWritten c.id stream (total ++ joined chunks) b

  relay-frame :
      (content : Bytes) (a : Arrives env edge c content) (w : World)
      → IsBytes content
      → Link c (w.objects address)
      → handle_client_raw env id address (message (frame_stdin client flag content)) w
        ≡ continue (send_locked env c.agent_connection a.call w) (λ _. pure true)
  relay-frame content a w bytes l =
      stdin-send client env agree flag content id address w bytes
      ∙ rw
          (
            send-framed client env agree content address w,
            send_framed-Link env c (w.objects address) content w l,
            a.sent w,
          )
          refl

  relay-rest :
      (wires : List Wire) (calls : List Call) (p : Outcome (Unit {0}) × World)
      → Link c (p.1.objects address)
      → Dict.contains id p.1.active_access_client_connections ≡ true
      → ((v : World)
          → Link c (v.objects address)
          → Dict.contains id v.active_access_client_connections ≡ true
          → handle_client_all env id address wires v ≡ send_all env c.agent_connection calls v)
      → continue
          (continue p (λ _. pure true))
          (λ goes_on. if goes_on then handle_client_all env id address wires else pure tt)
        ≡ continue p (λ _. send_all env c.agent_connection calls)
  relay-rest wires calls (done u, v) l here k = k v l here
  relay-rest wires calls (raised x, v) l here k = refl
  relay-rest wires calls (pending, v) l here k = refl

  one_more :
      (content : Bytes) (rest : List Bytes)
      → IsBytes content
      → Arrives env edge c content
      → Delivery rest
      → Delivery (content ∷ rest)
  unfolding frames handle_client_all send_all handle_wires joined
  one_more content rest bytes a d = record {
    calls = a.call ∷ d.calls;
    wires = a.wire ∷ d.wires;
    sends = one_send a.sends d.sends;
    relayed = λ w l here.
        let sent =
          (send-Guarantee (Steady-Rely id address env steady) (lock-Steady id address)
              (drop-Steady id address) c.agent_connection a.call).at
            w in
        rw (here, relay-frame content a w bytes l)
          (relay-rest (frames client flag rest) d.calls
            (send_locked env c.agent_connection a.call w)
            (record {
              same_id = sent.link.same_id ∙ l.same_id;
              same_agent = sent.link.same_agent ∙ l.same_agent;
              same_flag = sent.link.same_flag ∙ l.same_flag;
            })
            (sent.listed here) d.relayed);
    handled = λ total b h.
        let (u, wrote, k) = write-IsWritten edge c.id stream content total ws b own h in
        let (v, wrote_rest, j) = d.handled (total ++ content) u k in
        (
          v,
          rw (a.handled ws b, wrote) wrote_rest,
          record {
            is_open = j.is_open;
            bytes = j.bytes ∙ append_assoc total content (joined rest);
          },
        );
  }

  deliver :
      (chunks : List Bytes)
      → All IsBytes chunks
      → AgentAgrees env edge c.id
      → IsUuid c.id
      → Delivery chunks
  unfolding frames handle_client_all send_all handle_wires joined
  deliver [] bytes agrees uuid = record {
    calls = [];
    wires = [];
    sends = no_sends;
    relayed = λ w l here. refl;
    handled = λ total a h.
        (a, refl, record { is_open = h.is_open; bytes = h.bytes ∙ sym (append-nil total) });
  }
  deliver (content ∷ rest) (b, bs) agrees uuid =
      one_more content rest b (send_framed-Arrives env edge c content agrees uuid b)
        (deliver rest bs agrees uuid)

-- From the stdin of an access client to the target, whole and in order, in either framing on either
-- hop: for what the client sends for chunks that it read, the relay's loop goes through all of the
-- messages and makes one send to the connection's agent for each and nothing else; and when the agent handles the messages of these
-- sends, it returns, and has written to the TCP stream the bytes of all chunks, after what was there
-- before. Provided that each side validates what the other dumps, that the connection's id is
-- canonical, that the relay's other tasks leave its id, agent and framing alone and do not end the
-- access client's connection, that the agent's other tasks leave the stream alone, and that the
-- stream is open and its drains succeed.
pub frames-IsWritten :
    (client : ClientEnv) (env : Env) (edge : EdgeEnv) (flag : Bool) (chunks : List Bytes)
    (id : Text) (address : ℕ) (w : World) (stream : Stream) (total : Bytes) (ws : WebSocket)
    (a : Agent)
    → RelayAgrees client env
    → AgentAgrees env edge (w.objects address).id
    → IsUuid (w.objects address).id
    → All IsBytes chunks
    → ((v : World) → Steady id address v (env.others v))
    → IsOwn edge (w.objects address).id stream
    → IsWritten (w.objects address).id stream total a
    → Dict.contains id w.active_access_client_connections ≡ true
    → (calls : List Call) × (wires : List Wire) × AllSends
        (w.objects address).agent_connection
        calls
        wires
      × (handle_client_all env id address (frames client flag chunks) w
          ≡ send_all env (w.objects address).agent_connection calls w)
      × (b : Agent) × (handle_wires edge ws wires a ≡ (done tt, b))
      × IsWritten (w.objects address).id stream (total ++ joined chunks) b
frames-IsWritten client env edge flag chunks id address w stream total ws a agree agrees uuid bytes
      steady own h here =
    let d =
      deliver client env edge agree flag id address (w.objects address) stream ws steady own chunks
        bytes agrees uuid in
    let (b, handled, total_written) = d.handled total a h in
    (
      d.calls,
      d.wires,
      d.sends,
      d.relayed w (record { same_id = refl; same_agent = refl; same_flag = refl }) here,
      b,
      handled,
      total_written,
    )
