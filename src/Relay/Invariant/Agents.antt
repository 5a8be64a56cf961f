-- ===== src/Relay/Invariant/Agents.antt =====
-- The message loop of an agent, its handlers, registration and the creation of connections in
-- http_network_relay/network_relay.py keep the relay's invariant.
use http_network_relay.Prelude.{
  ℕ, zero, suc, true, false, Option, none, some, ◌∷◌, Text, text_key, refl, if◌then◌else◌,
  Option-cases, inl, inr,
}
use http_network_relay.Prelude.Dict
use http_network_relay.Exception.{Exception, Result, ok, raise, websocket_disconnect, runtime_error}
use http_network_relay.Frame.{decode_tcp_binary_frame}
use http_network_relay.Messages.{
  EtRStartMessage, EdgeAgentToRelayMessage, start, initiate_connection_error,
  initiate_connection_ok, tcp_data, connection_reset, keep_alive, text, binary,
}
use http_network_relay.Relay.World.{
  WebSocket, World, Env, Call, receive, receive_text, pure, lift, try, ◌>>◌, Raw, disconnected,
  message,
}
use http_network_relay.Relay.Guarantee.{
  Guarantee, Guarantee-pure, Guarantee-fail, Guarantee-bind, Guarantee-try, Guarantee-if,
}
use http_network_relay.Relay.Close.{is_closed_error}
use http_network_relay.Relay.Agents.{
  Incoming, standard, custom, set_queue, delete_queue, put_answer, handle_edge_agent_message,
  answer_with_extra, receive_raw, receive_first, parse_message,
}
use http_network_relay.Relay.MsgLoop.{
  as_disconnect, handle_raw, msg_round, msg_loop, keep_alive_round, keep_alive_ends,
  send_keep_alive,
}
use http_network_relay.Relay.Connection.{handle_tcp_binary_data}
use http_network_relay.Relay.Invariant.{
  Evolves, Evolves-frame, Evolves-same, Evolves-both, Guarantee-lift, IsTame, tame-Rely,
}
use http_network_relay.Relay.Invariant.Connections.{
  binary-Evolves, data-Evolves, locked-Evolves, agent_close-Evolves, reset-Evolves,
}

pub queue-Evolves :
    (id : Text) (o : Option EdgeAgentToRelayMessage) (w : World) → Evolves w (set_queue id o w)
queue-Evolves id o w = Evolves-frame w (set_queue id o w) refl refl refl

pub delete-Evolves : (id : Text) (w : World) → Evolves w (delete_queue id w)
delete-Evolves id w = Evolves-frame w (delete_queue id w) refl refl refl

pub trace-Evolves : (c : Call) (w : World) → Evolves w (record w { trace = c ∷ w.trace })
trace-Evolves c w = Evolves-frame w _ refl refl refl

module _ {env : Env} (tame : IsTame env) where
  put-Evolves : (id : Text) (m : EdgeAgentToRelayMessage) → Guarantee Evolves (put_answer env id m)
  unfolding put_answer
  put-Evolves id m = record {
    at = λ w. elim (Option-cases (Dict.lookup id w.initiate_connection_answer_queues)) [
      | inl e ↦ rw (put_answer, e) (Evolves-same w)
      | inr (none, e) ↦ rw (put_answer, e) (queue-Evolves id (some m) w)
      | inr (some first, e) ↦
          elim (Option-cases (Dict.lookup id (env.others w).initiate_connection_answer_queues)) [
            | inl f ↦ rw (put_answer, e, f) (tame.others w)
            | inr (none, f) ↦ rw (put_answer, e, f) (tame.others w)
            | inr (some waiting, f) ↦ rw (put_answer, e, f) (tame.others w)
          ]
    ];
  }

  answer-Evolves :
      (o : Option Text) (m : EtRStartMessage) → Guarantee Evolves (answer_with_extra env o m)
  answer-Evolves none m = Guarantee-fail (tame-Rely tame) _
  answer-Evolves (some id) m = put-Evolves id (start m)

  message-Evolves :
      (m : Incoming) (agent : Text) → Guarantee Evolves (handle_edge_agent_message env m agent)
  unfolding handle_edge_agent_message
  message-Evolves (standard (tcp_data id t)) agent = data-Evolves tame id t
  message-Evolves (standard (connection_reset m id)) agent = reset-Evolves tame id
  message-Evolves (standard keep_alive) agent = Guarantee-pure (tame-Rely tame) tt
  message-Evolves (standard (initiate_connection_error m id)) agent = put-Evolves id _
  message-Evolves (standard (initiate_connection_ok id)) agent = put-Evolves id _
  message-Evolves (standard (start m)) agent = answer-Evolves _ m
  message-Evolves (custom json) agent =
      Guarantee-try (tame-Rely tame) _ _ (tame.custom_message json agent)
        (λ _. Guarantee-pure (tame-Rely tame) tt)

  -- A wait that ends with a result or an exception.
  received-Evolves {ℓ} :
      {A : Type ℓ} (c : Call) (r : World → Result A)
      → Guarantee Evolves (λ w. lift (r w) (env.others (record w { trace = c ∷ w.trace })))
  received-Evolves {A = A} c r = record { at = λ w. by_result w (r w) }
    where
      by_result :
          (w : World) (x : Result A)
          → Evolves w (lift x (env.others (record w { trace = c ∷ w.trace }))).1
      by_result w (ok a) = Evolves-both (trace-Evolves c w) (tame.others _)
      by_result w (raise x) = Evolves-both (trace-Evolves c w) (tame.others _)

  pub raw-Evolves : (ws : WebSocket) → Guarantee Evolves (receive_raw env ws)
  unfolding receive_raw
  raw-Evolves ws = received-Evolves (receive ws) (λ w. env.received w.trace ws)

  pub first-Evolves : (ws : WebSocket) → Guarantee Evolves (receive_first env ws)
  unfolding receive_first
  first-Evolves ws = received-Evolves (receive_text ws) (λ w. env.received_text w.trace ws)

  pub as_disconnect-Evolves : (x : Exception) → Guarantee Evolves (as_disconnect env x)
  as_disconnect-Evolves websocket_disconnect = Guarantee-pure (tame-Rely tame) disconnected
  as_disconnect-Evolves x = Guarantee-fail (tame-Rely tame) x

  handle-Evolves : (agent : Text) (raw : Raw) → Guarantee Evolves (handle_raw env agent raw)
  unfolding handle_raw
  handle-Evolves agent disconnected =
      Guarantee-bind (tame-Rely tame) _ _ (agent_close-Evolves tame agent)
        (λ _. Guarantee-pure (tame-Rely tame) false)
  handle-Evolves agent (message (binary frame)) =
      Guarantee-bind (tame-Rely tame) (lift (decode_tcp_binary_frame frame))
        (λ (id, payload). handle_tcp_binary_data id payload >> pure true) (Guarantee-lift _)
        (λ (id, payload).
          Guarantee-bind (tame-Rely tame) _ _ (binary-Evolves id payload)
            (λ _. Guarantee-pure (tame-Rely tame) true))
  handle-Evolves agent (message (text json)) =
      Guarantee-bind (tame-Rely tame) (lift (parse_message env json))
        (λ m. try (handle_edge_agent_message env m agent) (λ _. pure tt) >> pure true)
        (Guarantee-lift _)
        (λ m.
          Guarantee-bind (tame-Rely tame) _ _
            (Guarantee-try (tame-Rely tame) _ _ (message-Evolves m agent)
              (λ _. Guarantee-pure (tame-Rely tame) tt))
            (λ _. Guarantee-pure (tame-Rely tame) true))

  round-Evolves : (ws : WebSocket) (agent : Text) → Guarantee Evolves (msg_round env ws agent)
  unfolding msg_round
  round-Evolves ws agent =
      Guarantee-bind (tame-Rely tame) _ _
        (Guarantee-try (tame-Rely tame) _ _ (raw-Evolves ws) as_disconnect-Evolves)
        (handle-Evolves agent)

  pub loop-Evolves :
      (rounds : ℕ) (ws : WebSocket) (agent : Text)
      → Guarantee Evolves (msg_loop env rounds ws agent)
  unfolding msg_loop
  loop-Evolves zero ws agent = record { at = Evolves-same }
  loop-Evolves (suc rounds) ws agent =
      Guarantee-bind (tame-Rely tame) (msg_round env ws agent)
        (λ goes_on. if goes_on then msg_loop env rounds ws agent else pure tt)
        (round-Evolves ws agent)
        (λ goes_on.
          Guarantee-if goes_on _ _ (loop-Evolves rounds ws agent)
            (Guarantee-pure (tame-Rely tame) tt))

  keep_alive_ends-Evolves : (x : Exception) → Guarantee Evolves (keep_alive_ends env x)
  keep_alive_ends-Evolves (runtime_error m) =
      Guarantee-if (is_closed_error m) _ _ (Guarantee-pure (tame-Rely tame) false)
        (Guarantee-fail (tame-Rely tame) _)
  keep_alive_ends-Evolves websocket_disconnect = Guarantee-pure (tame-Rely tame) false
  keep_alive_ends-Evolves x = Guarantee-fail (tame-Rely tame) x

  pub keep_alive-Evolves : (ws : WebSocket) → Guarantee Evolves (keep_alive_round env ws)
  unfolding keep_alive_round
  keep_alive-Evolves ws = record {
    at = λ w. Evolves-both (tame.others w) (
        (Guarantee-if (env.is_connected (env.others w).trace ws)
            (try (send_keep_alive env ws) (keep_alive_ends env)) (pure false)
            (Guarantee-try (tame-Rely tame) (send_keep_alive env ws) (keep_alive_ends env)
              (Guarantee-bind (tame-Rely tame) _ _ (locked-Evolves tame ws _)
                (λ _. Guarantee-pure (tame-Rely tame) true))
              keep_alive_ends-Evolves)
            (Guarantee-pure (tame-Rely tame) false)).at
          (env.others w));
  }
