-- ===== src/Tunnel/Control.antt =====
-- The messages of an agent that are not data, at http_network_relay/network_relay.py.
use http_network_relay.Prelude.{
  ℕ, true, ◌⊎◌, ◌≡◌, refl, ◌∙◌, some, none, Option-cases, inl, inr, Text, text_key, nat_key, arith,
}
use http_network_relay.Prelude.Dict
use http_network_relay.Exception.{ok}
use http_network_relay.Messages.{EdgeAgentToRelayMessage, text}
use http_network_relay.Relay.World.{
  WebSocket, ConnectionClass, tcp_connection, tcp_connection_async, World, Env, message, pure,
  start_task, Outcome, done, raised, pending, continue, recover,
}
use http_network_relay.Relay.Guarantee.{
  Rely, Guarantee, Guarantee-pure, Guarantee-try, Guarantee-bind,
}
use http_network_relay.Relay.Close.{agent_send_lock, drop_relayed_connection, wake_readers}
use http_network_relay.Relay.Close.Steps.{close-Guarantee}
use http_network_relay.Relay.Connection.{
  close_as, close_connection, handle_connection_reset_message,
}
use http_network_relay.Relay.Agents.{standard, put_answer, handle_edge_agent_message, parse_message}
use http_network_relay.Relay.MsgLoop.{handle_raw}
use http_network_relay.Tunnel.{Spares, IsControl, resets, answers_error, answers_ok, keeps_alive}

module _ (env : Env) (address : ℕ) (others : (w : World) → Spares address w (env.others w)) where
  spared : Rely env (Spares address)
  spared = record {
    same = λ w. record { buffer = refl; active = λ j h. h };
    both =
        λ p q. record { buffer = q.buffer ∙ p.buffer; active = λ j h. p.active j (q.active j h) };
    called = λ w c. record { buffer = refl; active = λ j h. h };
    others = others;
  }

  lock-Spares : (ws : WebSocket) → Guarantee (Spares address) (agent_send_lock ws)
  unfolding agent_send_lock
  lock-Spares ws = record {
    at = λ w. record { buffer = ground arith; active = λ j h. ground (arith, h) };
  }

  pub drop-Spares : (id : Text) → Guarantee (Spares address) (drop_relayed_connection id)
  unfolding drop_relayed_connection wake_readers
  drop-Spares id = record {
    at = λ w. record {
      buffer = ground arith;
      active = λ j h. ground (arith, h, Dict.lookup-erase j id w.active_relayed_connections);
    };
  }

  close_as-Spares :
      (class : ConnectionClass) (id : Text) (ws : WebSocket)
      → Guarantee (Spares address) (close_as env class id ws)
  unfolding start_task
  close_as-Spares tcp_connection id ws = record {
    at = λ w. record { buffer = refl; active = λ j h. h };
  }
  close_as-Spares tcp_connection_async id ws = close-Guarantee spared lock-Spares drop-Spares id ws

  reset-Spares : (id : Text) → Guarantee (Spares address) (handle_connection_reset_message env id)
  unfolding handle_connection_reset_message close_connection
  reset-Spares id = record {
    at = λ w. elim (Option-cases (Dict.lookup id w.active_relayed_connections)) [
      | inl e ↦ rw (handle_connection_reset_message, e) (spared.same w)
      | inr (a, e) ↦
          let c = w.objects a in
          rw (handle_connection_reset_message, e)
            ((close_as-Spares c.connection_class c.id c.agent_connection).at w)
    ];
  }

  put-Spares :
      (id : Text) (m : EdgeAgentToRelayMessage) → Guarantee (Spares address) (put_answer env id m)
  unfolding put_answer
  put-Spares id m = record {
    at = λ w. elim (Option-cases (Dict.lookup id w.initiate_connection_answer_queues)) [
      | inl e ↦ rw (put_answer, e) (spared.same w)
      | inr (none, e) ↦ rw (put_answer, e) (record { buffer = refl; active = λ j h. h })
      | inr (some first, e) ↦
          elim (Option-cases (Dict.lookup id (env.others w).initiate_connection_answer_queues)) [
            | inl f ↦ rw (put_answer, e, f) (others w)
            | inr (none, f) ↦ rw (put_answer, e, f) (others w)
            | inr (some waiting, f) ↦ rw (put_answer, e, f) (others w)
          ]
    ];
  }

  control-Spares :
      (m : EdgeAgentToRelayMessage) (agent : Text)
      → IsControl m
      → Guarantee (Spares address) (handle_edge_agent_message env (standard m) agent)
  unfolding handle_edge_agent_message
  control-Spares _ agent (resets t id) = reset-Spares id
  control-Spares _ agent (answers_error t id) = put-Spares id _
  control-Spares _ agent (answers_ok id) = put-Spares id _
  control-Spares _ agent keeps_alive = Guarantee-pure spared tt

  -- The loop's handling of such a message neither fills the buffer nor makes a connection active.
  pub handle_raw-Spares :
      (m : EdgeAgentToRelayMessage) (json agent : Text) (w : World)
      → IsControl m
      → env.from_agent.validate json ≡ ok m
      → Spares address w (handle_raw env agent (message (text json)) w).1
  unfolding handle_raw parse_message
  handle_raw-Spares m json agent w control e = rw e (
      (Guarantee-bind spared _ _
          (Guarantee-try spared _ (λ _. pure tt) (control-Spares m agent control)
            (λ _. Guarantee-pure spared tt))
          (λ _. Guarantee-pure spared true)).at
        w)

-- What such a message's handler raises is passed over, so that the loop goes on, unless the handler
-- stays suspended.
pub handle_raw-outcome :
    (env : Env) (m : EdgeAgentToRelayMessage) (json agent : Text) (w : World)
    → env.from_agent.validate json ≡ ok m
    → let o = (handle_raw env agent (message (text json)) w).0 in (o ≡ done true) ⊎ (o ≡ pending)
unfolding handle_raw parse_message
handle_raw-outcome env m json agent w e =
    rw e (swallowed (handle_edge_agent_message env (standard m) agent w))
  where
    swallowed :
        (p : Outcome (Unit {0}) × World)
        → let o = (continue (recover p (λ _. pure tt)) (λ _. pure true)).0 in
          (o ≡ done true) ⊎ (o ≡ pending)
    swallowed (done a, v) = inl refl
    swallowed (raised x, v) = inl refl
    swallowed (pending, v) = inr refl
