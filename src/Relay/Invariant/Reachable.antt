-- ===== src/Relay/Invariant/Reachable.antt =====
-- The states that a `NetworkRelay` (http_network_relay/network_relay.py) comes to, from its
-- construction on, by runs of its methods.
mod Tests
use http_network_relay.Prelude.{
  ℕ, ◌≡◌, ◌≢◌, refl, Bool, true, false, Option, Option-cases, inl, inr, none, some, [], Text,
  text_key, arith,
}
use http_network_relay.Prelude.Dict
use http_network_relay.Frame.Hex.{Bytes}
use http_network_relay.Relay.World.{WebSocket, Connection, ConnectionClass, World, Relay, Env, Raw}
use http_network_relay.Relay.Guarantee.{Guarantee}
use http_network_relay.Relay.Connection.{
  fill_recv, handle_tcp_binary_data, send_data, send_async, send_sync, read, close_connection,
  settimeout, take_bytes,
}
use http_network_relay.Relay.MsgLoop.{handle_raw, msg_loop, keep_alive_round}
use http_network_relay.Relay.MsgLoop.Multiplex.{Carries, handle_raw-Carries}
use http_network_relay.Relay.Create.{create}
use http_network_relay.Relay.Register.{accept_edge_agent}
use http_network_relay.Relay.AccessClients.{ws_for_access_clients}
use http_network_relay.Relay.AccessClients.Thread.{access_client_receive_thread}
use http_network_relay.Relay.Invariant.{IsValid, Evolves, Evolves-same, Evolves-both, IsTame}
use http_network_relay.Relay.Invariant.Connections.{
  send_data-Evolves, send_async-Evolves, send_sync-Evolves, close_connection-Evolves,
  settimeout-Evolves, take-Evolves,
}
use http_network_relay.Relay.Invariant.Agents.{loop-Evolves, keep_alive-Evolves}
use http_network_relay.Relay.Invariant.Creation.{create-Evolves}
use http_network_relay.Relay.Invariant.Registration.{accept-Evolves}
use http_network_relay.Relay.Invariant.Reading.{read-Evolves}
use http_network_relay.Relay.Invariant.Service.{clients-Evolves, thread-Evolves}

-- A `NetworkRelay` after `__init__`; what is at addresses that no object has does not matter.
abbrev pub new_relay : (ℕ → Connection) → World
new_relay objects = record {
  agent_connections = [];
  registered_agent_connections = [];
  initiate_connection_answer_queues = [];
  active_relayed_connections = [];
  active_access_client_connections = [];
  agent_connection_id_to_supports_binary = [];
  agent_connection_locks = [];
  objects = objects;
  next_object = 0;
  trace = [];
}

-- A run of one method, by any task, for any arguments. The message loop of an agent and its
-- keep-alive task are started by `accept`, the reader of an access client by `serve`.
pub data Run (env : Env) (w : World) : World → Type 0 where
  accept : (ws : WebSocket) → Run env w (accept_edge_agent env ws w).1
  handle :
      (rounds : ℕ) (ws : WebSocket) (agent : Text) → Run env w (msg_loop env rounds ws agent w).1
  keep_alive : (ws : WebSocket) → Run env w (keep_alive_round env ws w).1
  connect :
      (agent target_ip : Text) (target_port : ℕ) (protocol : Text) (class : ConnectionClass)
      → Run env w (create env agent target_ip target_port protocol class w).1
  serve : (rounds : ℕ) (ws : WebSocket) → Run env w (ws_for_access_clients env rounds ws w).1
  receive :
      (rounds fuel : ℕ) (ws : WebSocket) (address : ℕ) (binary_wanted : Bool)
      → Run env w (access_client_receive_thread env rounds fuel ws address binary_wanted w).1
  send : (address : ℕ) (content : Bytes) → Run env w (send_data env address content w).1
  send_task : (address : ℕ) → Run env w (send_async env address w).1
  send_wait : (address : ℕ) (content : Bytes) → Run env w (send_sync env address content w).1
  fetch : (fuel address : ℕ) (n : Option ℕ) → Run env w (read env fuel address n w).1
  end : (address : ℕ) → Run env w (close_connection env address w).1
  set_timeout : (address : ℕ) (timeout : Option ℕ) → Run env w (settimeout address timeout w)

pub data Reach (env : Env) (u : World) : World → Type 0 where
  here : Reach env u u
  then : {v w : World} → Reach env u v → Run env v w → Reach env u w

module _ {env : Env} (tame : IsTame env) where
  Run-Evolves : {u v : World} → Run env u v → Evolves u v
  Run-Evolves {u = u} (accept ws) = (accept-Evolves tame ws).at u
  Run-Evolves {u = u} (handle rounds ws agent) = (loop-Evolves tame rounds ws agent).at u
  Run-Evolves {u = u} (keep_alive ws) = (keep_alive-Evolves tame ws).at u
  Run-Evolves {u = u} (connect agent target_ip target_port protocol class) =
      (create-Evolves tame agent target_ip target_port protocol class).at u
  Run-Evolves {u = u} (serve rounds ws) = (clients-Evolves tame rounds ws).at u
  Run-Evolves {u = u} (receive rounds fuel ws address binary_wanted) =
      (thread-Evolves tame rounds fuel ws address binary_wanted).at u
  Run-Evolves {u = u} (send address content) = (send_data-Evolves tame address content).at u
  Run-Evolves {u = u} (send_task address) = (send_async-Evolves tame address).at u
  Run-Evolves {u = u} (send_wait address content) = (send_sync-Evolves tame address content).at u
  Run-Evolves {u = u} (fetch fuel address n) = (read-Evolves tame fuel address n).at u
  Run-Evolves {u = u} (end address) = (close_connection-Evolves tame address).at u
  Run-Evolves {u = u} (set_timeout address timeout) = settimeout-Evolves address timeout u

  -- Whatever methods of the relay run, in whatever order, and whatever the sockets and the other
  -- tasks do meanwhile, if these keep it too: no connection object vanishes, none changes its id,
  -- its agent or its class, and a valid state stays valid.
  pub Reach-Evolves : {u v : World} → Reach env u v → Evolves u v
  Reach-Evolves {u = u} here = Evolves-same u
  Reach-Evolves (then r s) = Evolves-both (Reach-Evolves r) (Run-Evolves s)

  -- In every state that a new relay comes to by runs of its methods, each active connection is an
  -- object that exists and is listed under its own id.
  pub Reach-IsValid :
      (objects : ℕ → Connection) {w : World} → Reach env (new_relay objects) w → IsValid w
  Reach-IsValid objects r = (Reach-Evolves r).keeps (record {
    exists = λ id a h. cc (Dict.lookup-nil {V = ℕ} id, h);
    named = λ id a h. cc (Dict.lookup-nil {V = ℕ} id, h);
  })

module _ (env : Env) where
  other_buffer :
      (id j : Text) (payload : Bytes) (w : World) (a : ℕ)
      → IsValid w
      → Dict.lookup j w.active_relayed_connections ≡ some a
      → j ≢ id
      → ((handle_tcp_binary_data id payload w).1.objects a).recv_buffer ≡ (w.objects a).recv_buffer
  unfolding handle_tcp_binary_data fill_recv
  other_buffer id j payload w a i h ne =
      elim (Option-cases (Dict.lookup id w.active_relayed_connections)) [
        | inl e ↦ rw (handle_tcp_binary_data, e) refl
        | inr (b, e) ↦
            rw (handle_tcp_binary_data, e) (ground (arith, i.named j a h, i.named id b e))
      ]

  -- No cross-talk: in a valid state, a message that brings a payload for one connection, in either
  -- framing, leaves the buffer of every other active connection as it is, whichever agent sent it.
  pub handle_raw-other :
      (agent id j : Text) (payload : Bytes) (raw : Raw) (w : World) (a : ℕ)
      → IsValid w
      → Carries env id payload raw
      → Dict.lookup j w.active_relayed_connections ≡ some a
      → j ≢ id
      → ((handle_raw env agent raw w).1.objects a).recv_buffer ≡ (w.objects a).recv_buffer
  handle_raw-other agent id j payload raw w a i c h ne =
      rw (handle_raw-Carries env agent id payload raw w c) (other_buffer id j payload w a i h ne)
