-- ===== src/Relay/AccessClients/Thread.antt =====
-- `access_client_receive_thread` of http_network_relay/network_relay.py, the reader of an access
-- client.
use http_network_relay.Prelude.{
  ℕ, zero, suc, Bool, true, false, some, [], ◌∷◌, Text, text_key, if◌then◌else◌,
}
use http_network_relay.Prelude.Dict
use http_network_relay.Frame.{read_chunk_size}
use http_network_relay.Frame.Hex.{Bytes}
use http_network_relay.Base64.{b64encode}
use http_network_relay.Messages.{RelayToAccessClientMessage}
use http_network_relay.Relay.World.{
  WebSocket, World, Relay, Env, send_bytes, Outcome, done, pending, pure, gets, try, continue,
  ◌>>=◌, ◌>>◌, perform,
}
use http_network_relay.Relay.Close.{drop_relayed_connection}
use http_network_relay.Relay.Connection.{read}
use http_network_relay.Relay.AccessClients.{send_to_client}

module _ (env : Env) where
  -- One send of the reader.
  abbrev pub forward : WebSocket → Bool → Bytes → Relay (Unit {0})
  forward ws binary_wanted content =
      if binary_wanted
      then perform env (send_bytes ws content)
      else send_to_client env ws (RelayToAccessClientMessage.tcp_data (b64encode content))

  abbrev pub forward_some : WebSocket → Bool → Bytes → Relay Bool
  forward_some ws binary_wanted [] = pure false
  forward_some ws binary_wanted (b ∷ bs) = do forward ws binary_wanted (b ∷ bs); pure true

  -- One round of `access_client_receive_thread`; an exception ends the loop.
  unfoldable pub reader_round : ℕ → WebSocket → ℕ → Bool → Relay Bool
  reader_round fuel ws address binary_wanted =
      try (read env fuel address (some read_chunk_size) >>= forward_some ws binary_wanted)
        (λ _. pure false)

  unfoldable pub reader_loop : ℕ → ℕ → WebSocket → Text → ℕ → Bool → Relay (Unit {0})
  unfolding reader_round
  reader_loop zero fuel ws id address binary_wanted w = (pending, w)
  reader_loop (suc rounds) fuel ws id address binary_wanted w =
      let next = λ (p : Outcome Bool × World). continue p (λ goes_on.
        if goes_on then reader_loop rounds fuel ws id address binary_wanted else pure tt) in
      if Dict.contains id w.active_relayed_connections
      then next (reader_round fuel ws address binary_wanted w)
      else (done tt, w)

  -- `access_client_receive_thread`
  unfoldable pub access_client_receive_thread : ℕ → ℕ → WebSocket → ℕ → Bool → Relay (Unit {0})
  unfolding reader_loop
  access_client_receive_thread rounds fuel ws address binary_wanted = do
    c ← gets (λ w. w.objects address)
    reader_loop rounds fuel ws c.id address binary_wanted
    drop_relayed_connection c.id
