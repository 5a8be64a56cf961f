-- ===== src/Client/Downstream.antt =====
-- A stream of bytes from the buffer of a connection at the relay
-- (http_network_relay/network_relay.py) to the stdout of an access client
-- (http_network_relay/access_client.py).
use http_network_relay.Prelude.{ℕ, ◌≡◌, List, ◌++◌, text_key}
use http_network_relay.Prelude.Dict
use http_network_relay.Exception.{Exception}
use http_network_relay.Frame.Hex.{Bytes, IsBytes}
use http_network_relay.Reads.{joined}
use http_network_relay.Relay.World.{WebSocket, World, Relay, Env}
use http_network_relay.Client.Session.{ClientEnv}
use http_network_relay.Client.Output.{Agree, Carry}
use http_network_relay.Client.Flow.{sent_to, IsFlow, HasGrown}

module _ (env : Env) (client : ClientEnv) (ws : WebSocket) (address : ℕ) (agree : Agree env client)
    (brought : Bytes → Type 0)
    (others : (total : Bytes) (w : World)
      → IsFlow client ws address total w
      → HasGrown client ws address brought total (env.others w)) where
  abbrev Flows : Bytes → World → Type 0
  Flows total w = IsFlow client ws address total w

  abbrev Grows : Bytes → World → Type 0
  Grows total w = HasGrown client ws address brought total w

  -- `content` is out of the buffer and not sent yet.
  record IsTaken (total content : Bytes) (w : World) : Type 0 where
    contents : List Bytes
    carried : Carry client contents (sent_to ws w.trace)
    whole : joined contents ++ (content ++ (w.objects address).recv_buffer) ≡ total
    bytes : IsBytes content
    left : IsBytes (w.objects address).recv_buffer
