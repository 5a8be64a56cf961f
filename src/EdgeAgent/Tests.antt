-- ===== src/EdgeAgent/Tests.antt =====
-- Runs of the agent of http_network_relay/edge_agent.py, and its theorems at small instances.
use http_network_relay.Prelude.{
  ◌≡◌, refl, true, false, none, some, [], ◌∷◌, codes, text_key, text_eqb, arith,
}
use http_network_relay.Prelude.Dict
use http_network_relay.Exception.{ok, key_error}
use http_network_relay.Messages.{RtEInitiateConnectionMessage}
use http_network_relay.Relay.World.{raised}
use http_network_relay.Relay.Sample.{first_id, second_id, greeting}
use http_network_relay.EdgeAgent.World.{
  close_websocket, write, drain, close_writer, sleep, connect, Agent, perform,
}
use http_network_relay.EdgeAgent.Sample.{edge, idle}
use http_network_relay.EdgeAgent.Streams.{
  delete_connection, read_from_tcp_and_send, write_to_connection,
}
use http_network_relay.EdgeAgent.Session.{close_streams, delay_now, delay_next, disconnect}
use http_network_relay.EdgeAgent.Release.{
  at_eof, later, IsOver, IsReleased, read_from_tcp_and_send-IsReleased,
}
use http_network_relay.EdgeAgent.Main.{
  Main, start_main, main_round, connect_to_server, pause, HasSlept, main_round-HasSlept,
}

-- The reader's task has taken its entry out.
abbrev reader_ends : Agent → Agent
reader_ends w = record w { active_connections = Dict.erase first_id w.active_connections }

abbrev connected_agent : Agent
connected_agent = record {
  active_connections = (first_id, 7) ∷ (second_id, 8) ∷ [];
  websocket = some 1;
  signal_connected = true;
  trace = [];
}

abbrev binary_request : RtEInitiateConnectionMessage
binary_request = record {
  target_ip = codes "127.0.0.1";
  target_port = 22;
  protocol = codes "tcp";
  connection_id = second_id;
  supports_binary = true;
}

read_from_tcp_and_send-IsReleased_example : IsOver (IsReleased (edge idle) binary_request 8 1) (
    read_from_tcp_and_send
      (edge idle)
      binary_request
      8
      1
      (ok greeting ∷ ok [] ∷ [])
      connected_agent)
read_from_tcp_and_send-IsReleased_example =
    read_from_tcp_and_send-IsReleased (edge idle) binary_request 8 1 (ok greeting ∷ ok [] ∷ [])
      connected_agent (later at_eof)

abbrev after_refusal : Main
after_refusal = record {
  connection_delay = 2;
  last_connection_attempt_time = 100;
  last_error = some (codes "refused");
}

abbrev refused_agent : Agent
refused_agent = record {
  active_connections = [];
  websocket = none;
  signal_connected = false;
  trace = sleep 1 ∷ close_websocket 1 ∷ close_writer 8 ∷ close_writer 7 ∷ connect ∷ [];
}

main_round-HasSlept_example : HasSlept (edge idle) after_refusal refused_agent
unfolding main_round connect_to_server pause disconnect close_streams delete_connection delay_now
    delay_next perform Dict.contains Dict.lookup Dict.erase text_eqb
main_round-HasSlept_example =
    main_round-HasSlept (edge idle) 0 start_main after_refusal connected_agent refused_agent
      (omega arith, omega arith) refl

-- The reader's task ran during `drain`: the write ends in a `KeyError`.
key_error_run : write_to_connection (edge reader_ends) first_id greeting 1 connected_agent ≡ (
  raised key_error,
  record connected_agent {
    active_connections = (second_id, 8) ∷ [];
    trace = close_writer 7 ∷ drain 7 ∷ write 7 greeting ∷ [];
  },
)
unfolding write_to_connection delete_connection perform Dict.contains Dict.lookup Dict.erase
    text_eqb
key_error_run = refl
