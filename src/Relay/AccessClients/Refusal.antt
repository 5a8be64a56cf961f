-- ===== src/Relay/AccessClients/Refusal.antt =====
-- What becomes of an access client of http_network_relay/network_relay.py whose agent refuses the
-- connection.
use http_network_relay.Prelude.{ℕ, ◌≡◌, refl, some, ◌∷◌, ◌++◌, Text, codes, text_key}
use http_network_relay.Prelude.Dict
use http_network_relay.Exception.{unbound_local_error}
use http_network_relay.Messages.{AtRStartMessage, error, initiate_connection_error}
use http_network_relay.Relay.World.{
  WebSocket, World, Env, tcp_connection_async, send_text, raised, perform,
}
use http_network_relay.Relay.Create.Answers.{IsAnswered, create-outcome}
use http_network_relay.Relay.AccessClients.{refuse_client, connect_client}

-- The text of the exception that an agent's error becomes.
abbrev pub refusal : Text → Text
refusal text = codes "Error initiating connection: " ++ text

-- The handler ended by `UnboundLocalError` after the client was sent the refusal: this was its last
-- call, so that the client's WebSocket is not closed, and the connection is still active.
pub record IsLeft (env : Env) (ws : WebSocket) (text id : Text) (address : ℕ) (final : World)
    : Type 0 where
  pub before : World
  pub sent :
      final
      ≡ env.others (record before {
        trace = send_text ws (env.to_client.dump (error (refusal text))) ∷ before.trace;
      })
  pub active : Dict.lookup id final.active_relayed_connections ≡ some address

module _ (env : Env) (agent : Text) (m : AtRStartMessage) (ws : WebSocket) where
  -- A refusal of the agent leaves everything open: if a registered agent is asked for an access
  -- client's connection and answers by an error, before or while the relay waits for it, and all
  -- calls succeed, then the handler sends the client the error's text as its last call and ends by
  -- `UnboundLocalError`; the client's WebSocket is not closed, and the connection that failed is in
  -- `active_relayed_connections`. Provided that the other tasks do not take it out.
  pub connect_client-unbound :
      (text j : Text) (w : World) (own : WebSocket)
      → Dict.lookup agent w.registered_agent_connections ≡ some own
      → IsAnswered env (env.uuid4 w.trace) (initiate_connection_error text j)
      → (v : World) × (connect_client env agent m ws w ≡ (raised unbound_local_error, v))
        × IsLeft env ws text (env.uuid4 w.trace) w.next_object v
  unfolding connect_client refuse_client perform
  connect_client-unbound text j w own registered answered =
      let (u, created, no_queue, active) =
        create-outcome agent m.target_ip m.target_port m.protocol tcp_connection_async w own
          registered answered in
      let asks = send_text ws (env.to_client.dump (error (refusal text))) in
      let called : World = record u { trace = asks ∷ u.trace } in
      (
        env.others called,
        rw (connect_client, created, refuse_client, perform, answered.succeeds u.trace asks) refl,
        record {
          before = u;
          sent = refl;
          active = answered.keeps_active called w.next_object active;
        },
      )
