-- ===== src/Tunnel/Orders.antt =====
-- The messages of the relay that are not data, at http_network_relay/edge_agent.py.
use http_network_relay.Prelude.{
  ℕ, true, false, ◌≡◌, ◌≢◌, refl, Bool, Option, some, none, List, ◌∷◌, ◌++◌, ap, Text, codes,
  text_key, text_eqb, arith, if◌then◌else◌,
}
use http_network_relay.Prelude.Dict
use http_network_relay.Exception.{Result, ok, raise, not_implemented_error}
use http_network_relay.Messages.{
  EdgeAgentToRelayMessage, RelayToEdgeAgentMessage, RtEInitiateConnectionMessage, text,
}
use http_network_relay.Relay.World.{WebSocket}
use http_network_relay.EdgeAgent.World.{
  Agent, EdgeEnv, Edge, Stream, Call, open_connection, close_writer, lift, fail, continue, modify,
  note, create_task, read_task, ◌>>◌,
}
use http_network_relay.EdgeAgent.Streams.{initiate_connection, open_stream, send_message}
use http_network_relay.EdgeAgent.Session.{
  close_over, standard, handle_message, handle_wire, parse_message,
}
use http_network_relay.EdgeAgent.Writing.{written}
use http_network_relay.Tunnel.Downlink.{KeepsStream, IsOrder, opens, closes, keeps_alive}
use http_network_relay.Tunnel.Writes.{
  keeps_both, keeps_same, keeps_on, keeps_handled, perform-KeepsStream, delete-KeepsStream,
}

module _ (edge : EdgeEnv) (stream : Stream)
    (others : (a : Agent) → KeepsStream stream a (edge.others a))
    (fresh : (h : List Call) (ip : Text) (port : ℕ) → edge.opened h ip port ≢ ok stream) where
  close-KeepsStream :
      (t id : Text) (ws : WebSocket) (a : Agent)
      → KeepsStream stream a
          (handle_message edge ws (standard (RelayToEdgeAgentMessage.connection_close t id)) a).1
  unfolding handle_message written
  close-KeepsStream t id ws a = by_stream (Dict.lookup id a.active_connections)
    where
      by_stream : (o : Option Stream) → KeepsStream stream a (close_over edge o id a).1
      by_stream none = keeps_same stream a
      by_stream (some s) =
          keeps_both (record { bytes = refl; active = λ j h. h })
            (delete-KeepsStream edge stream others id
              (record a { trace = close_writer s ∷ a.trace }))

  -- What follows `open_connection`.
  abbrev after_open : RtEInitiateConnectionMessage → WebSocket → Stream → Edge (Unit {0})
  after_open m ws s = do
    modify
        (λ w. record w { active_connections = Dict.insert m.connection_id s w.active_connections })
    send_message edge ws (EdgeAgentToRelayMessage.initiate_connection_ok m.connection_id)
    note (create_task (read_task m s ws))

  after_open-KeepsStream :
      (m : RtEInitiateConnectionMessage) (ws : WebSocket) (s : Stream) (a : Agent)
      → s ≢ stream
      → KeepsStream stream a (after_open m ws s a).1
  unfolding written
  after_open-KeepsStream m ws s a apart =
      let b : Agent = record a {
        active_connections = Dict.insert m.connection_id s a.active_connections;
      } in
      keeps_both
        (record {
          bytes = refl;
          active = λ j h.
              ground (arith, h, apart, Dict.lookup-insert j m.connection_id s a.active_connections);
        })
        (keeps_on stream b (send_message edge ws _ b) _
          (perform-KeepsStream edge stream others _ b (λ h. refl))
          (λ _ c. record { bytes = refl; active = λ j h. h }))

  opened-KeepsStream :
      (m : RtEInitiateConnectionMessage) (ws : WebSocket) (a : Agent)
      → KeepsStream stream a (initiate_connection edge m ws a).1
  unfolding initiate_connection open_stream written
  opened-KeepsStream m ws a = by_protocol (text_eqb m.protocol (codes "tcp"))
    where
      called : Agent
      called = record a { trace = open_connection m.target_ip m.target_port ∷ a.trace }

      waited : KeepsStream stream a (edge.others called)
      waited = keeps_both (record { bytes = refl; active = λ j h. h }) (others called)

      by_result :
          (r : Result Stream)
          → r ≢ ok stream
          → KeepsStream stream a (continue (lift r (edge.others called)) (after_open m ws)).1
      by_result (ok s) apart =
          keeps_both waited
            (after_open-KeepsStream m ws s (edge.others called) (λ e. apart (ap ok e)))
      by_result (raise x) apart = waited

      by_protocol :
          (b : Bool)
          → KeepsStream stream a
              ((if b
                  then (λ w. continue (open_stream edge m w) (after_open m ws))
                  else fail (not_implemented_error (codes "Unsupported protocol: " ++ m.protocol)))
                a).1
      by_protocol true =
          by_result (edge.opened a.trace m.target_ip m.target_port)
            (fresh a.trace m.target_ip m.target_port)
      by_protocol false = keeps_same stream a

  pub order-KeepsStream :
      (m : RelayToEdgeAgentMessage) (json : Text) (ws : WebSocket) (a : Agent)
      → IsOrder m
      → edge.from_relay.validate json ≡ ok m
      → KeepsStream stream a (handle_wire edge ws (text json) a).1
  unfolding handle_wire parse_message handle_message written
  order-KeepsStream _ json ws a (opens m) e = rw e (
      keeps_handled stream a (initiate_connection edge m ws a) _ (opened-KeepsStream m ws a)
        (λ x b. perform-KeepsStream edge stream others _ b (λ h. refl)))
  order-KeepsStream _ json ws a (closes t id) e = rw e (close-KeepsStream t id ws a)
  order-KeepsStream _ json ws a keeps_alive e = rw e (keeps_same stream a)
