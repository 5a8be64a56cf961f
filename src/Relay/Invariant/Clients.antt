-- ===== src/Relay/Invariant/Clients.antt =====
-- The side of the access clients in http_network_relay/network_relay.py keeps the relay's invariant.
use http_network_relay.Prelude.{
  ℕ, zero, suc, Bool, true, false, Option, none, some, Text, text_key, if◌then◌else◌, Bool-cases,
  inl, inr,
}
use http_network_relay.Prelude.Dict
use http_network_relay.Exception.{Exception}
use http_network_relay.Base64.{b64decode}
use http_network_relay.Messages.{
  AtRStartMessage, AccessClientToRelayMessage, start_ok, error, text, binary,
}
use http_network_relay.Relay.World.{
  WebSocket, World, Env, close, Outcome, done, raised, pending, pure, lift, try, ◌>>◌, perform, Raw,
  disconnected, message,
}
use http_network_relay.Relay.Guarantee.{
  Guarantee, Guarantee-pure, Guarantee-bind, Guarantee-try, Guarantee-perform, Guarantee-if,
}
use http_network_relay.Relay.Close.{ignore_closed}
use http_network_relay.Relay.Close.Steps.{ignore_closed-Guarantee}
use http_network_relay.Relay.Connection.{send_data}
use http_network_relay.Relay.Create.{create_connection_async}
use http_network_relay.Relay.Agents.{receive_raw}
use http_network_relay.Relay.MsgLoop.{as_disconnect}
use http_network_relay.Relay.AccessClients.{
  value_error_message, close_bound, report_error, refuse_client, start_reply, after_create,
  connect_client, open_registered, open_permitted, open_client, handle_client_message,
  handle_client_raw, client_round, client_loop, send_to_client,
}
use http_network_relay.Relay.Invariant.{
  Evolves, Evolves-same, Evolves-both, Guarantee-lift, lock-Evolves, drop-Evolves, IsTame,
  tame-Rely,
}
use http_network_relay.Relay.Invariant.Connections.{send_data-Evolves, close_connection-Evolves}
use http_network_relay.Relay.Invariant.Agents.{raw-Evolves, as_disconnect-Evolves}
use http_network_relay.Relay.Invariant.Creation.{create-Evolves}

module _ {env : Env} (tame : IsTame env) where
  closed-Evolves : (x : Exception) → Guarantee Evolves (ignore_closed x)
  closed-Evolves x = ignore_closed-Guarantee (tame-Rely tame) lock-Evolves drop-Evolves x

  pub shut-Evolves :
      (ws : WebSocket) → Guarantee Evolves (try (perform env (close ws)) ignore_closed)
  shut-Evolves ws =
      Guarantee-try (tame-Rely tame) _ _ (Guarantee-perform (tame-Rely tame) (close ws))
        closed-Evolves

  bound-Evolves : (o : Option ℕ) → Guarantee Evolves (close_bound env o)
  bound-Evolves none = record { at = Evolves-same }
  bound-Evolves (some address) = close_connection-Evolves tame address

  report-Evolves :
      (o : Option Text) (bound : Option ℕ) (ws : WebSocket) (x : Exception)
      → Guarantee Evolves (report_error env o bound ws x)
  report-Evolves none bound ws x = record { at = Evolves-same }
  report-Evolves (some m) bound ws x =
      Guarantee-bind (tame-Rely tame) (send_to_client env ws (error m))
        (λ _. close_bound env bound >> (try (perform env (close ws)) ignore_closed >> pure none))
        (Guarantee-perform (tame-Rely tame) _)
        (λ _.
          Guarantee-bind (tame-Rely tame) (close_bound env bound)
            (λ _. try (perform env (close ws)) ignore_closed >> pure none) (bound-Evolves bound)
            (λ _.
              Guarantee-bind (tame-Rely tame) (try (perform env (close ws)) ignore_closed)
                (λ _. pure none) (shut-Evolves ws) (λ _. Guarantee-pure (tame-Rely tame) none)))

  refuse_client-Evolves :
      (bound : Option ℕ) (ws : WebSocket) (x : Exception)
      → Guarantee Evolves (refuse_client env bound ws x)
  unfolding refuse_client
  refuse_client-Evolves bound ws x = report-Evolves (value_error_message x) bound ws x

  reply-Evolves : (ws : WebSocket) (address : ℕ) → Guarantee Evolves (start_reply env ws address)
  reply-Evolves ws address = record {
    at = λ w.
        let m = start_ok (some (w.objects address).agent_supports_binary) in
        (Guarantee-bind (tame-Rely tame) (send_to_client env ws m) (λ _. pure (some address))
            (Guarantee-perform (tame-Rely tame) _)
            (λ _. Guarantee-pure (tame-Rely tame) (some address))).at
          w;
  }

  created-Evolves :
      (ws : WebSocket) (w : World) (p : Outcome ℕ × World)
      → Evolves w p.1
      → Evolves w (after_create env p ws).1
  created-Evolves ws w (done address, v) e = Evolves-both e (
      (Guarantee-try (tame-Rely tame) (start_reply env ws address)
          (refuse_client env (some address) ws) (reply-Evolves ws address)
          (refuse_client-Evolves (some address) ws)).at
        v)
  created-Evolves ws w (raised x, v) e = Evolves-both e ((refuse_client-Evolves none ws x).at v)
  created-Evolves ws w (pending, v) e = e

  connect-Evolves :
      (agent : Text) (m : AtRStartMessage) (ws : WebSocket)
      → Guarantee Evolves (connect_client env agent m ws)
  unfolding connect_client
  connect-Evolves agent m ws = record {
    at = λ w.
        created-Evolves ws w
          (create_connection_async env agent m.target_ip m.target_port m.protocol w)
          ((create-Evolves tame agent m.target_ip m.target_port m.protocol _).at w);
  }

  registered-Evolves :
      (b : Bool) (agent : Text) (m : AtRStartMessage) (ws : WebSocket)
      → Guarantee Evolves (open_registered env b agent m ws)
  registered-Evolves false agent m ws =
      Guarantee-bind (tame-Rely tame) _ _ (Guarantee-perform (tame-Rely tame) _) (λ _.
        Guarantee-bind (tame-Rely tame) _ _ (Guarantee-perform (tame-Rely tame) (close ws))
          (λ _. Guarantee-pure (tame-Rely tame) none))
  registered-Evolves true agent m ws = connect-Evolves agent m ws

  permitted-Evolves :
      (b : Bool) (m : AtRStartMessage) (ws : WebSocket)
      → Guarantee Evolves (open_permitted env b m ws)
  permitted-Evolves false m ws =
      Guarantee-bind (tame-Rely tame) _ _ (Guarantee-perform (tame-Rely tame) (close ws))
        (λ _. Guarantee-pure (tame-Rely tame) none)
  permitted-Evolves true m ws =
      Guarantee-bind (tame-Rely tame) _
        (λ agent w.
          open_registered env (Dict.contains agent w.registered_agent_connections) agent m ws w)
        (tame.client_target m.connection_target)
        (λ agent. record {
          at = λ w.
              (registered-Evolves (Dict.contains agent w.registered_agent_connections) agent m
                  ws).at
                w;
        })

  pub open_client-Evolves :
      (m : AtRStartMessage) (ws : WebSocket) → Guarantee Evolves (open_client env m ws)
  unfolding open_client
  open_client-Evolves m ws =
      Guarantee-bind (tame-Rely tame) _ _ (tame.client_permission m ws)
        (λ allowed. permitted-Evolves allowed m ws)

  handle_message-Evolves :
      (address : ℕ) (m : AccessClientToRelayMessage)
      → Guarantee Evolves (handle_client_message env address m)
  handle_message-Evolves address (AccessClientToRelayMessage.tcp_data t) =
      Guarantee-bind (tame-Rely tame) (lift (b64decode t)) (send_data env address)
        (Guarantee-lift _) (send_data-Evolves tame address)
  handle_message-Evolves address (AccessClientToRelayMessage.start m) = record { at = Evolves-same }

  handle_raw-Evolves :
      (id : Text) (address : ℕ) (raw : Raw)
      → Guarantee Evolves (handle_client_raw env id address raw)
  unfolding handle_client_raw
  handle_raw-Evolves id address disconnected =
      Guarantee-bind (tame-Rely tame) _ _ (drop-Evolves id)
        (λ _. Guarantee-pure (tame-Rely tame) false)
  handle_raw-Evolves id address (message (binary content)) =
      Guarantee-bind (tame-Rely tame) _ _ (send_data-Evolves tame address content)
        (λ _. Guarantee-pure (tame-Rely tame) true)
  handle_raw-Evolves id address (message (text json)) =
      Guarantee-bind (tame-Rely tame) (lift (env.from_client.validate json))
        (λ m. handle_client_message env address m >> pure true) (Guarantee-lift _)
        (λ m.
          Guarantee-bind (tame-Rely tame) _ _ (handle_message-Evolves address m)
            (λ _. Guarantee-pure (tame-Rely tame) true))

  pub client_loop-Evolves :
      (rounds : ℕ) (ws : WebSocket) (id : Text) (address : ℕ)
      → Guarantee Evolves (client_loop env rounds ws id address)
  unfolding client_loop
  client_loop-Evolves zero ws id address = record { at = Evolves-same }
  client_loop-Evolves (suc rounds) ws id address = record {
    at = λ w. elim (Bool-cases (Dict.contains id w.active_access_client_connections)) [
      | inr gone ↦ rw gone (Evolves-same w)
      | inl here ↦ rw here (
          (Guarantee-bind (tame-Rely tame) (client_round env ws id address)
              (λ goes_on. if goes_on then client_loop env rounds ws id address else pure tt)
              (Guarantee-bind (tame-Rely tame) (try (receive_raw env ws) (as_disconnect env))
                (handle_client_raw env id address)
                (Guarantee-try (tame-Rely tame) _ _ (raw-Evolves tame ws)
                  (as_disconnect-Evolves tame))
                (handle_raw-Evolves id address))
              (λ goes_on.
                Guarantee-if goes_on _ _ (client_loop-Evolves rounds ws id address)
                  (Guarantee-pure (tame-Rely tame) tt))).at
            w)
    ];
  }
