-- ===== src/Client/Output.antt =====
-- What an access client (http_network_relay/access_client.py) writes to its stdout.
use http_network_relay.Prelude.{
  ◌≡◌, refl, ◌∙◌, ap, Bool, true, false, Option, none, List, [], ◌∷◌, ◌++◌, append_assoc,
  append-nil, Text,
}
use http_network_relay.Exception.{Result, ok, raise, connection_closed}
use http_network_relay.Reads.{joined}
use http_network_relay.Frame.Hex.{Bytes, IsBytes}
use http_network_relay.Base64.{b64encode}
use http_network_relay.Base64.RoundTrip.{b64decode-b64encode}
use http_network_relay.Messages.{
  AtRStartMessage, AccessClientToRelayMessage, RelayToAccessClientMessage, start_ok, Wire, text,
}
use http_network_relay.Relay.World.{WebSocket, World, Env, Call, done, perform}
use http_network_relay.Relay.AccessClients.Thread.{forward}
use http_network_relay.EdgeAgent.Arrival.{Sends, as_text, as_bytes}
use http_network_relay.Client.Session.{
  AccessClient, ClientEnv, output_of, receive_loop, async_main, start_message, send, validate_wire,
}

-- The client validates the TCP data messages that the relay dumps.
abbrev pub Agree : Env → ClientEnv → Type 0
Agree env client =
    (t : Text)
    → client.from_relay.validate (env.to_client.dump (RelayToAccessClientMessage.tcp_data t))
      ≡ ok (RelayToAccessClientMessage.tcp_data t)

module _ (env : Env) (client : ClientEnv) (agree : Agree env client) where
  -- From the relay's buffer to the client's stdout: what the reader of an access client forwards is
  -- one message, in either framing, and the client writes exactly these bytes for it, if it
  -- validates what the relay dumps.
  pub forward-output_of :
      (ws : WebSocket) (binary_wanted : Bool) (content : Bytes)
      → IsBytes content
      → (c : Call) × (wire : Wire) × Sends ws c wire
        × ((w : World) → forward env ws binary_wanted content w ≡ perform env c w)
        × (output_of client wire ≡ ok content)
  unfolding output_of
  forward-output_of ws true content bytes = (_, _, as_bytes content, λ w. refl, refl)
  forward-output_of ws false content bytes = (
    _,
    _,
    as_text _,
    λ w. refl,
    rw (agree (b64encode content)) (b64decode-b64encode content bytes),
  )

-- Messages that add these bytes to stdout, one each.
pub data Carry (client : ClientEnv) : List Bytes → List Wire → Type 0 where
  nothing : Carry client [] []
  one_more :
      {content : Bytes} {rest : List Bytes} {wire : Wire} {wires : List Wire}
      → output_of client wire ≡ ok content
      → Carry client rest wires
      → Carry client (content ∷ rest) (wire ∷ wires)

-- The results of `recv` for messages that are followed by the end of the connection.
unfoldable pub then_closed : List Wire → List (Result Wire)
then_closed [] = raise connection_closed ∷ []
then_closed (wire ∷ wires) = ok wire ∷ then_closed wires

module _ (client : ClientEnv) where
  loop-joined :
      (contents : List Bytes) (wires : List Wire) (stdout : Bytes)
      → Carry client contents wires
      → receive_loop client (then_closed wires) stdout ≡ (done tt, stdout ++ joined contents)
  unfolding receive_loop joined then_closed
  loop-joined _ _ stdout nothing = rw (append-nil stdout) refl
  loop-joined _ _ stdout (one_more {content = content} {rest = rest} {wires = wires} e more) =
      rw e (
        loop-joined rest wires (stdout ++ content) more
        ∙ ap (λ out. (done tt, out)) (append_assoc stdout content (joined rest)))

  -- A session that the relay accepts: if the client has a URL and a secret, the connection opens, the
  -- start message is sent and answered by an OK, then `async_main` ends when the connection is
  -- closed, and what is on stdout by then is the bytes that the messages in between carried, whole
  -- and in order.
  pub async_main-joined :
      (c : AccessClient) (m : AtRStartMessage) (reply : Wire) (flag : Option Bool)
      (contents : List Bytes) (wires : List Wire)
      → start_message c ≡ ok m
      → client.answer [] (text (client.to_relay.dump (AccessClientToRelayMessage.start m))) ≡ none
      → validate_wire client reply ≡ ok (start_ok flag)
      → Carry client contents wires
      → async_main client c (ok tt) (ok reply ∷ then_closed wires) ≡ (done tt, joined contents)
  unfolding async_main send
  async_main-joined c m reply flag contents wires starts sent replied carry =
      rw (starts, sent, replied) (loop-joined contents wires [] carry)
