-- ===== src/Relay/MsgLoop/Multiplex.antt =====
-- How TCP data from an agent reaches the connections of http_network_relay/network_relay.py.
use http_network_relay.Prelude.{◌≡◌, true, Text, text_key, arith, subst}
use http_network_relay.Exception.{ok}
use http_network_relay.Frame.Hex.{Bytes, IsBytes}
use http_network_relay.Frame.{encode_tcp_binary_frame, decode_tcp_binary_frame}
use http_network_relay.Frame.Uuid.{IsUuid}
use http_network_relay.Frame.RoundTrip.{decode-encode}
use http_network_relay.Base64.{b64encode}
use http_network_relay.Messages.{tcp_data, text, binary}
use http_network_relay.Relay.World.{World, Env, done, Raw, message}
use http_network_relay.Relay.Connection.{handle_tcp_binary_data}
use http_network_relay.Relay.Connection.Delivery.{handle_tcp_data_message-b64encode}
use http_network_relay.Relay.Agents.{handle_edge_agent_message, parse_message}
use http_network_relay.Relay.MsgLoop.{handle_raw}

-- A message that brings a payload for a connection, in one of the two framings.
pub data Carries (env : Env) (id : Text) (payload : Bytes) : Raw → Type 0 where
  in_binary :
      (frame : Bytes)
      → IsUuid id
      → encode_tcp_binary_frame id payload ≡ ok frame
      → Carries env id payload (message (binary frame))
  in_json :
      (json : Text)
      → IsBytes payload
      → env.from_agent.validate json ≡ ok (tcp_data id (b64encode payload))
      → Carries env id payload (message (text json))

module _ (env : Env) (agent : Text) where
  handled :
      (id : Text) (payload : Bytes) (w : World)
      → handle_tcp_binary_data id payload w ≡ (done tt, (handle_tcp_binary_data id payload w).1)
  unfolding handle_tcp_binary_data
  handled id payload w = ground arith

  decoded :
      (id : Text) (payload frame : Bytes)
      → IsUuid id
      → encode_tcp_binary_frame id payload ≡ ok frame
      → decode_tcp_binary_frame frame ≡ ok (id, payload)
  decoded id payload frame u e =
      let (f, encodes, _, decodes) = decode-encode id payload u in
      let same : f ≡ frame = cc (encodes, e) in
      subst (λ g. decode_tcp_binary_frame g ≡ ok (id, payload)) same decodes

  pub handle_raw-Carries :
      (id : Text) (payload : Bytes) (raw : Raw) (w : World)
      → Carries env id payload raw
      → handle_raw env agent raw w ≡ (done true, (handle_tcp_binary_data id payload w).1)
  unfolding handle_raw handle_edge_agent_message parse_message
  handle_raw-Carries id payload raw w (in_binary frame u e) =
      rw (decoded id payload frame u e, handled id payload w)
  handle_raw-Carries id payload raw w (in_json json bytes e) =
      rw (e, handle_tcp_data_message-b64encode id payload w bytes, handled id payload w)
