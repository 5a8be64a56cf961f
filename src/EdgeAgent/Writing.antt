-- ===== src/EdgeAgent/Writing.antt =====
-- What http_network_relay/edge_agent.py writes to a TCP connection.
use http_network_relay.Prelude.{
  ◌≡◌, refl, none, some, List, [], ◌∷◌, ◌++◌, Text, text_key, nat_key, nat_eqb, nat_eqb_iff,
  if◌then◌else◌,
}
use http_network_relay.Prelude.Dict
use http_network_relay.Frame.Hex.{Bytes}
use http_network_relay.Messages.{Wire}
use http_network_relay.EdgeAgent.World as Agents
use http_network_relay.EdgeAgent.World.{Agent, EdgeEnv, Edge, Stream, write, drain}
use http_network_relay.EdgeAgent.Streams.{write_to_connection}
use http_network_relay.EdgeAgent.Session.{handle_wire}
use http_network_relay.Relay.World.{WebSocket, done}

-- The agent's side: the relay's messages in order.
unfoldable pub handle_wires : EdgeEnv → WebSocket → List Wire → Edge (Unit {0})
handle_wires edge ws [] = Agents.pure tt
handle_wires edge ws (wire ∷ wires) =
    Agents.◌>>◌ (handle_wire edge ws wire) (handle_wires edge ws wires)

-- What was written to a TCP stream, by the calls, newest first.
unfoldable pub written : Stream → List Agents.Call → Bytes
written stream [] = []
written stream (write s content ∷ h) =
    let before = written stream h in if nat_eqb s stream then before ++ content else before
written stream (c ∷ h) = written stream h

-- A connection of the agent is open, and this is what was written to its stream.
pub record IsWritten (id : Text) (stream : Stream) (total : Bytes) (a : Agent) : Type 0 where
  pub is_open : Dict.lookup id a.active_connections ≡ some stream
  pub bytes : written stream a.trace ≡ total

-- The writes of the agent to a stream succeed, and no other task writes to it or ends it.
pub record IsOwn (edge : EdgeEnv) (id : Text) (stream : Stream) : Type 0 where
  pub drains : (h : List Agents.Call) → edge.answer h (drain stream) ≡ none
  pub others :
      (total : Bytes) (a : Agent)
      → IsWritten id stream total a
      → IsWritten id stream total (edge.others a)

pub write-IsWritten :
    (edge : EdgeEnv) (id : Text) (stream : Stream) (content total : Bytes) (ws : WebSocket)
    (a : Agent)
    → IsOwn edge id stream
    → IsWritten id stream total a
    → (b : Agent) × (write_to_connection edge id content ws a ≡ (done tt, b))
      × IsWritten id stream (total ++ content) b
unfolding write_to_connection Agents.perform written
write-IsWritten edge id stream content total ws a own h =
    let v : Agent = record a { trace = drain stream ∷ write stream content ∷ a.trace } in
    (
      edge.others v,
      rw (h.is_open, own.drains) refl,
      own.others (total ++ content) v (record {
        is_open = h.is_open;
        bytes = rw ((nat_eqb_iff stream stream).1 refl, h.bytes) refl;
      }),
    )
