-- ===== src/Relay/Invariant/Service.antt =====
-- Serving an access client, and its reader, in http_network_relay/network_relay.py, keep the relay's
-- invariant.
use http_network_relay.Prelude.{
  ℕ, zero, suc, Bool, true, false, Option, none, some, [], ◌∷◌, Text, text_key, refl, if◌then◌else◌,
  Bool-cases, inl, inr,
}
use http_network_relay.Prelude.Dict
use http_network_relay.Exception.{Exception, timeout_error}
use http_network_relay.Frame.{read_chunk_size}
use http_network_relay.Frame.Hex.{Bytes}
use http_network_relay.Messages.{AccessClientToRelayMessage}
use http_network_relay.Relay.World.{
  WebSocket, World, Env, accept, reader_task, join_reader, cancel_reader, pure, lift, ◌>>=◌, ◌>>◌,
  perform, start_task,
}
use http_network_relay.Relay.Guarantee.{
  Guarantee, Guarantee-pure, Guarantee-bind, Guarantee-try, Guarantee-perform, Guarantee-if,
}
use http_network_relay.Relay.Close.{drop_relayed_connection}
use http_network_relay.Relay.Connection.{read}
use http_network_relay.Relay.Agents.{receive_first}
use http_network_relay.Relay.AccessClients.{
  supports, client_loop, linger, await_reader, leave_client, serve_client, serve_opened,
  start_client, ws_for_access_clients,
}
use http_network_relay.Relay.AccessClients.Thread.{
  forward, forward_some, reader_round, reader_loop, access_client_receive_thread,
}
use http_network_relay.Relay.Invariant.{
  Evolves, Evolves-frame, Evolves-same, Evolves-both, Guarantee-lift, drop-Evolves, IsTame,
  tame-Rely,
}
use http_network_relay.Relay.Invariant.Connections.{
  client_close-Evolves, start-Evolves, close_connection-Evolves,
}
use http_network_relay.Relay.Invariant.Reading.{read-Evolves}
use http_network_relay.Relay.Invariant.Agents.{trace-Evolves, first-Evolves}
use http_network_relay.Relay.Invariant.Clients.{
  shut-Evolves, open_client-Evolves, client_loop-Evolves,
}

module _ {env : Env} (tame : IsTame env) where
  linger-Evolves : (ws : WebSocket) (x : Exception) → Guarantee Evolves (linger env ws x)
  linger-Evolves ws timeout_error = record {
    at = λ w. Evolves-both (trace-Evolves (cancel_reader ws) w) (
        (Guarantee-try (tame-Rely tame) (perform env (join_reader ws)) (λ _. pure tt)
            (Guarantee-perform (tame-Rely tame) (join_reader ws))
            (λ _. Guarantee-pure (tame-Rely tame) tt)).at
          (record w { trace = cancel_reader ws ∷ w.trace }));
  }
  linger-Evolves ws x = record { at = Evolves-same }

  await_reader-Evolves : (ws : WebSocket) → Guarantee Evolves (await_reader env ws)
  unfolding await_reader
  await_reader-Evolves ws =
      Guarantee-try (tame-Rely tame) _ _ (Guarantee-perform (tame-Rely tame) (join_reader ws))
        (linger-Evolves ws)

  leave-Evolves :
      (ws : WebSocket) (id : Text) (address : ℕ)
      → Guarantee Evolves (leave_client env ws id address)
  unfolding leave_client
  leave-Evolves ws id address = Guarantee-bind (tame-Rely tame) _ _ (client_close-Evolves id) (λ _.
      Guarantee-bind (tame-Rely tame) _ _ (close_connection-Evolves tame address) (λ _.
        Guarantee-bind (tame-Rely tame) _ _ (shut-Evolves tame ws) (λ _. await_reader-Evolves ws)))

  serve-Evolves :
      (rounds : ℕ) (ws : WebSocket) (binary_wanted : Bool) (address : ℕ)
      → Guarantee Evolves (serve_client env rounds ws binary_wanted address)
  unfolding serve_client
  serve-Evolves rounds ws binary_wanted address = record {
    at = λ w.
        let id = (w.objects address).id in
        let u : World = record w {
          active_access_client_connections = Dict.insert id ws w.active_access_client_connections;
        } in
        Evolves-both (Evolves-frame w u refl refl refl) (
          (Guarantee-bind (tame-Rely tame) (start_task (reader_task ws address binary_wanted))
              (λ _. client_loop env rounds ws id address >> leave_client env ws id address)
              (start-Evolves (reader_task ws address binary_wanted))
              (λ _.
                Guarantee-bind (tame-Rely tame) _ _ (client_loop-Evolves tame rounds ws id address)
                  (λ _. leave-Evolves ws id address))).at
            u);
  }

  opened-Evolves :
      (rounds : ℕ) (ws : WebSocket) (binary_wanted : Bool) (o : Option ℕ)
      → Guarantee Evolves (serve_opened env rounds ws binary_wanted o)
  opened-Evolves rounds ws binary_wanted none = record { at = Evolves-same }
  opened-Evolves rounds ws binary_wanted (some address) =
      serve-Evolves rounds ws binary_wanted address

  started-Evolves :
      (rounds : ℕ) (ws : WebSocket) (m : AccessClientToRelayMessage)
      → Guarantee Evolves (start_client env rounds ws m)
  started-Evolves rounds ws (AccessClientToRelayMessage.start m) =
      Guarantee-bind (tame-Rely tame) _ _ (open_client-Evolves tame m ws)
        (opened-Evolves rounds ws (supports m.supports_binary))
  started-Evolves rounds ws (AccessClientToRelayMessage.tcp_data t) = record { at = Evolves-same }

  pub clients-Evolves :
      (rounds : ℕ) (ws : WebSocket) → Guarantee Evolves (ws_for_access_clients env rounds ws)
  unfolding ws_for_access_clients
  clients-Evolves rounds ws =
      Guarantee-bind (tame-Rely tame) _ _ (Guarantee-perform (tame-Rely tame) (accept ws)) (λ _.
        Guarantee-bind (tame-Rely tame) (receive_first env ws)
          (λ json. lift (env.from_client.validate json) >>= start_client env rounds ws)
          (first-Evolves tame ws)
          (λ json.
            Guarantee-bind (tame-Rely tame) (lift (env.from_client.validate json))
              (start_client env rounds ws) (Guarantee-lift _) (started-Evolves rounds ws)))

  forward-Evolves :
      (ws : WebSocket) (binary_wanted : Bool) (content : Bytes)
      → Guarantee Evolves (forward env ws binary_wanted content)
  forward-Evolves ws binary_wanted content =
      Guarantee-if binary_wanted _ _ (Guarantee-perform (tame-Rely tame) _)
        (Guarantee-perform (tame-Rely tame) _)

  some-Evolves :
      (ws : WebSocket) (binary_wanted : Bool) (content : Bytes)
      → Guarantee Evolves (forward_some env ws binary_wanted content)
  some-Evolves ws binary_wanted [] = record { at = Evolves-same }
  some-Evolves ws binary_wanted (b ∷ bs) =
      Guarantee-bind (tame-Rely tame) (forward env ws binary_wanted (b ∷ bs)) (λ _. pure true)
        (forward-Evolves ws binary_wanted (b ∷ bs)) (λ _. Guarantee-pure (tame-Rely tame) true)

  reader_round-Evolves :
      (fuel : ℕ) (ws : WebSocket) (address : ℕ) (binary_wanted : Bool)
      → Guarantee Evolves (reader_round env fuel ws address binary_wanted)
  unfolding reader_round
  reader_round-Evolves fuel ws address binary_wanted =
      Guarantee-try (tame-Rely tame)
        (read env fuel address (some read_chunk_size) >>= forward_some env ws binary_wanted)
        (λ _. pure false)
        (Guarantee-bind (tame-Rely tame) (read env fuel address (some read_chunk_size))
          (forward_some env ws binary_wanted)
          (read-Evolves tame fuel address (some read_chunk_size)) (some-Evolves ws binary_wanted))
        (λ _. Guarantee-pure (tame-Rely tame) false)

  reader_loop-Evolves :
      (rounds fuel : ℕ) (ws : WebSocket) (id : Text) (address : ℕ) (binary_wanted : Bool)
      → Guarantee Evolves (reader_loop env rounds fuel ws id address binary_wanted)
  unfolding reader_loop
  reader_loop-Evolves zero fuel ws id address binary_wanted = record { at = Evolves-same }
  reader_loop-Evolves (suc rounds) fuel ws id address binary_wanted = record {
    at = λ w. elim (Bool-cases (Dict.contains id w.active_relayed_connections)) [
      | inr gone ↦ rw gone (Evolves-same w)
      | inl here ↦ rw here (
          (Guarantee-bind (tame-Rely tame) (reader_round env fuel ws address binary_wanted)
              (λ goes_on.
                if goes_on
                then reader_loop env rounds fuel ws id address binary_wanted
                else pure tt)
              (reader_round-Evolves fuel ws address binary_wanted)
              (λ goes_on.
                Guarantee-if goes_on _ _
                  (reader_loop-Evolves rounds fuel ws id address binary_wanted)
                  (Guarantee-pure (tame-Rely tame) tt))).at
            w)
    ];
  }

  pub thread-Evolves :
      (rounds fuel : ℕ) (ws : WebSocket) (address : ℕ) (binary_wanted : Bool)
      → Guarantee Evolves (access_client_receive_thread env rounds fuel ws address binary_wanted)
  unfolding access_client_receive_thread
  thread-Evolves rounds fuel ws address binary_wanted = record {
    at = λ w.
        let id = (w.objects address).id in
        (Guarantee-bind (tame-Rely tame) (reader_loop env rounds fuel ws id address binary_wanted)
            (λ _. drop_relayed_connection id)
            (reader_loop-Evolves rounds fuel ws id address binary_wanted) (λ _. drop-Evolves id)).at
          w;
  }
