-- ===== src/Relay/Invariant/Connections.antt =====
-- The methods of the connection objects in http_network_relay/network_relay.py, and the teardown,
-- keep the relay's invariant.
use http_network_relay.Prelude.{
  ℕ, Option, none, some, [], ◌++◌, Text, text_key, nat_key, length, Option-cases, inl, inr, refl,
}
use http_network_relay.Prelude.Dict
use http_network_relay.Exception.{eof_error}
use http_network_relay.Frame.Hex.{Bytes}
use http_network_relay.Relay.World.{
  WebSocket, Connection, ConnectionClass, tcp_connection, tcp_connection_async, World, Env, Call,
  Task, pure, fail, modify, start_task, close_task, set_object,
}
use http_network_relay.Relay.Guarantee.{
  Guarantee-perform, Guarantee, Guarantee-pure, Guarantee-fail, Guarantee-bind, Guarantee-if,
  Guarantee-modify,
}
use http_network_relay.Relay.Close.{
  access_client_connection_close, close_relayed_connection, edge_agent_connection_close,
  edge_agent_connection_open, forget_agent, send_locked, remove_first, close_connections,
}
use http_network_relay.Relay.Close.Steps.{
  send-Guarantee, close-Guarantee, close_connections-Guarantee,
}
use http_network_relay.Relay.Connection.{
  closed, close_as, fill_recv, handle_tcp_data_message, handle_tcp_binary_data, take_bytes,
  send_framed, send_data, send_async, send_sync, clear_event, close_connection,
  handle_connection_reset_message, send_connection_message, send_connection_binary, settimeout,
}
use http_network_relay.Relay.Invariant.{
  Evolves, Evolves-frame, Evolves-same, Evolves-both, Evolves-write, Guarantee-lift, lock-Evolves,
  drop-Evolves, IsTame, tame-Rely,
}

pub client_close-Evolves : (id : Text) → Guarantee Evolves (access_client_connection_close id)
unfolding access_client_connection_close
client_close-Evolves id = Guarantee-modify _ (λ w. Evolves-frame w _ refl refl refl)

pub open-Evolves :
    (id : Text) (ws : WebSocket) → Guarantee Evolves (edge_agent_connection_open id ws)
unfolding edge_agent_connection_open
open-Evolves id ws = Guarantee-modify _ (λ w. Evolves-frame w _ refl refl refl)

pub start-Evolves : (t : Task) → Guarantee Evolves (start_task t)
unfolding start_task
start-Evolves t = record { at = λ w. Evolves-frame w _ refl refl refl }

fill-Evolves : (address : ℕ) (content : Bytes) (w : World) → Evolves w (fill_recv address content w)
unfolding fill_recv
fill-Evolves address content w = Evolves-write address _ w refl refl refl

pub clear-Evolves : (address : ℕ) (w : World) → Evolves w (clear_event address w)
unfolding clear_event
clear-Evolves address w = Evolves-write address _ w refl refl refl

pub settimeout-Evolves :
    (address : ℕ) (timeout : Option ℕ) (w : World) → Evolves w (settimeout address timeout w)
unfolding settimeout
settimeout-Evolves address timeout w = Evolves-write address _ w refl refl refl

pub take-Evolves : (address n : ℕ) → Guarantee Evolves (take_bytes address n)
unfolding take_bytes
take-Evolves address n = record { at = λ w. Evolves-write address _ w refl refl refl }

pub binary-Evolves :
    (id : Text) (payload : Bytes) → Guarantee Evolves (handle_tcp_binary_data id payload)
unfolding handle_tcp_binary_data
binary-Evolves id payload = record {
  at = λ w. elim (Option-cases (Dict.lookup id w.active_relayed_connections)) [
    | inl e ↦ rw (handle_tcp_binary_data, e) (Evolves-same w)
    | inr (address, e) ↦ rw (handle_tcp_binary_data, e) (fill-Evolves address payload w)
  ];
}

module _ {env : Env} (tame : IsTame env) where
  pub data-Evolves :
      (id data_base64 : Text) → Guarantee Evolves (handle_tcp_data_message id data_base64)
  unfolding handle_tcp_data_message
  data-Evolves id data_base64 = record {
    at = λ w. elim (Option-cases (Dict.lookup id w.active_relayed_connections)) [
      | inl e ↦ rw (handle_tcp_data_message, e) (Evolves-same w)
      | inr (address, e) ↦
          rw (handle_tcp_data_message, e)
            ((Guarantee-bind (tame-Rely tame) _ _ (Guarantee-lift _) (λ bytes.
                Guarantee-modify (fill_recv address bytes) (fill-Evolves address bytes))).at
              w)
    ];
  }

  pub locked-Evolves : (ws : WebSocket) (c : Call) → Guarantee Evolves (send_locked env ws c)
  locked-Evolves ws c = send-Guarantee (tame-Rely tame) lock-Evolves drop-Evolves ws c

  close-Evolves :
      (id : Text) (ws : WebSocket) → Guarantee Evolves (close_relayed_connection env id ws)
  close-Evolves id ws = close-Guarantee (tame-Rely tame) lock-Evolves drop-Evolves id ws

  forget-Evolves : (o : Option WebSocket) → Guarantee Evolves (forget_agent env o)
  unfolding forget_agent
  forget-Evolves none = Guarantee-pure (tame-Rely tame) tt
  forget-Evolves (some ws) =
      let unlock = λ (w : World). record w {
        agent_connection_locks = Dict.erase ws w.agent_connection_locks;
      } in
      record {
        at = λ w.
            let u : World = record w { agent_connections = remove_first ws w.agent_connections } in
            Evolves-both (Evolves-frame w u refl refl refl) (
              (Guarantee-bind (tame-Rely tame)
                  (close_connections env ws u.active_relayed_connections) (λ _. modify unlock)
                  (close_connections-Guarantee (tame-Rely tame) lock-Evolves drop-Evolves ws
                    u.active_relayed_connections)
                  (λ _.
                    Guarantee-modify unlock (λ v. Evolves-frame v (unlock v) refl refl refl))).at
                u);
      }

  pub agent_close-Evolves : (id : Text) → Guarantee Evolves (edge_agent_connection_close env id)
  unfolding edge_agent_connection_close
  agent_close-Evolves id = record {
    at = λ w.
        let u : World = record w {
          registered_agent_connections = Dict.erase id w.registered_agent_connections;
          agent_connection_id_to_supports_binary =
              Dict.erase id w.agent_connection_id_to_supports_binary;
        } in
        Evolves-both (Evolves-frame w u refl refl refl)
          ((forget-Evolves (Dict.lookup id w.registered_agent_connections)).at u);
  }

  framed-Evolves :
      (c : Connection) (content : Bytes) → Guarantee Evolves (send_framed env c content)
  unfolding send_framed send_connection_message send_connection_binary
  framed-Evolves c content =
      Guarantee-if c.agent_supports_binary _ _
        (Guarantee-bind (tame-Rely tame) _ _ (lock-Evolves c.agent_connection) (λ _.
          Guarantee-bind (tame-Rely tame) _ _ (Guarantee-perform (tame-Rely tame) _) (λ _.
            Guarantee-bind (tame-Rely tame) _ _ (Guarantee-lift _)
              (λ frame. Guarantee-perform (tame-Rely tame) _))))
        (locked-Evolves _ _)

  pub send_data-Evolves :
      (address : ℕ) (content : Bytes) → Guarantee Evolves (send_data env address content)
  unfolding send_data
  send_data-Evolves address content = record {
    at = λ w. (framed-Evolves (w.objects address) content).at w;
  }

  pub send_async-Evolves : (address : ℕ) → Guarantee Evolves (send_async env address)
  unfolding send_async
  send_async-Evolves address = record {
    at = λ w.
        let c = w.objects address in
        let emptied = record c { send_buffer = [] } in
        Evolves-both (Evolves-write address emptied w refl refl refl)
          ((framed-Evolves c c.send_buffer).at (set_object address emptied w));
  }

  pub send_sync-Evolves :
      (address : ℕ) (content : Bytes) → Guarantee Evolves (send_sync env address content)
  unfolding send_sync
  send_sync-Evolves address content = record {
    at = λ w.
        let c = w.objects address in
        let more = record c { send_buffer = c.send_buffer ++ content } in
        let u = set_object address more w in
        Evolves-both (Evolves-write address more w refl refl refl) (
          (Guarantee-if (closed address u) (fail eof_error) (pure (length content))
              (Guarantee-fail (tame-Rely tame) eof_error)
              (Guarantee-pure (tame-Rely tame) (length content))).at
            u);
  }

  close_as-Evolves :
      (class : ConnectionClass) (id : Text) (ws : WebSocket)
      → Guarantee Evolves (close_as env class id ws)
  close_as-Evolves tcp_connection id ws = start-Evolves (close_task id ws)
  close_as-Evolves tcp_connection_async id ws = close-Evolves id ws

  pub close_connection-Evolves : (address : ℕ) → Guarantee Evolves (close_connection env address)
  unfolding close_connection
  close_connection-Evolves address = record {
    at = λ w.
        let c = w.objects address in
        (close_as-Evolves c.connection_class c.id c.agent_connection).at w;
  }

  pub reset-Evolves : (id : Text) → Guarantee Evolves (handle_connection_reset_message env id)
  unfolding handle_connection_reset_message
  reset-Evolves id = record {
    at = λ w. elim (Option-cases (Dict.lookup id w.active_relayed_connections)) [
      | inl e ↦ rw (handle_connection_reset_message, e) (Evolves-same w)
      | inr (address, e) ↦
          rw (handle_connection_reset_message, e) ((close_connection-Evolves address).at w)
    ];
  }
