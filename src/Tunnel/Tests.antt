-- ===== src/Tunnel/Tests.antt =====
-- A run of the two ends of a WebSocket.
use http_network_relay.Prelude.{
  ◌≡◌, ◌≢◌, ◌⊎◌, refl, false, some, [], ◌∷◌, ◌++◌, codes, text_key, text_eqb, arith, take, drop,
  Text, length, take-append, drop-append,
}
use http_network_relay.Prelude.Dict
use http_network_relay.Exception.{ok, raise, validation_error}
use http_network_relay.Frame.Hex.{Bytes}
use http_network_relay.Base64.{b64encode}
use http_network_relay.Messages.{
  RtEInitiateConnectionMessage, EdgeAgentToRelayMessage, Wire, text, Codec,
}
use http_network_relay.Relay.World.{Env, disconnected, message, update}
use http_network_relay.Relay.Sample.{first_id, second_id, sample, alone, busy, greeting}
use http_network_relay.Relay.Connection.{take_bytes}
use http_network_relay.Relay.Connection.Delivery.{IsSole}
use http_network_relay.Relay.MsgLoop.{handle_raw}
use http_network_relay.EdgeAgent.World.{EdgeEnv}
use http_network_relay.EdgeAgent.Sample.{edge, idle}
use http_network_relay.EdgeAgent.Streams.{frame_data}
use http_network_relay.EdgeAgent.Tunnel.{Agree}
use http_network_relay.Tunnel.{
  Tunnel, TunnelReach, here, next, read_and_send, handle, deliver, quiet_tunnel, joined_to,
}
use http_network_relay.Tunnel.Upward.{Reach-delivered}
use http_network_relay.Tunnel.Drained.{Progress, IsSuspended, Reach-drains}
use http_network_relay.Prelude.{none, true}
use http_network_relay.Frame.Hex.{IsBytes}
use http_network_relay.Frame.Uuid.{IsUuid}
use http_network_relay.Messages.{RelayToEdgeAgentMessage}
use http_network_relay.EdgeAgent.World.{Agent}
use http_network_relay.EdgeAgent.Session.{handle_wire}
use http_network_relay.EdgeAgent.Arrival.{AgentAgrees, send_framed-Arrives}
use http_network_relay.EdgeAgent.Writing.{written}
use http_network_relay.Tunnel.Downlink.{Downlink, DownReach, DownStep, quiet_link}
use http_network_relay.Tunnel.Downward.{Reach-written}

-- TCP data as the length of the id, the id and then the content.
abbrev plain : Codec EdgeAgentToRelayMessage
plain = record {
  dump = λ m. elim m [
    | EdgeAgentToRelayMessage.tcp_data id content ↦ length id ∷ (id ++ content)
    | _ ↦ []
  ];
  validate = λ t. elim t [
    | [] ↦ raise (validation_error [])
    | n ∷ rest ↦ ok (EdgeAgentToRelayMessage.tcp_data (take n rest) (drop n rest))
  ];
}

abbrev sender : EdgeEnv
sender = record (edge idle) { to_relay = plain }

abbrev receiver : Env
receiver = record (sample (ok disconnected) (ok false) alone) { from_agent = plain }

sender-Agree : (id : Text) → Agree sender receiver id
sender-Agree id t = rw (take-append id t (length id) refl, drop-append id t (length id) refl)

second-IsSole : IsSole second_id 1 busy
unfolding Dict.lookup text_eqb
second-IsSole = record {
  active = refl;
  only = λ j h. ground (arith, text_key.same_iff j first_id, text_key.same_iff j second_id);
}

abbrev plain_request : RtEInitiateConnectionMessage
plain_request = record {
  target_ip = codes "127.0.0.1";
  target_port = 22;
  protocol = codes "tcp";
  connection_id = second_id;
  supports_binary = false;
}

abbrev greeting_wire : Wire
greeting_wire = text (plain.dump (EdgeAgentToRelayMessage.tcp_data second_id (b64encode greeting)))

-- The agent has read the greeting and sent it.
abbrev sent : Tunnel
sent = record {
  relay = busy;
  up = greeting_wire ∷ [];
  read = joined_to (λ id. []) second_id greeting;
  delivered = λ address. [];
}

-- The relay has handled it, and a reader has taken two bytes.
abbrev half_read : Tunnel
half_read =
    let received = (handle_raw receiver (codes "agent") (message greeting_wire) busy).1 in
    record {
      relay = (take_bytes 1 2 received).1;
      up = [];
      read = sent.read;
      delivered = update (λ address. []) 1 ([] ++ take 2 (received.objects 1).recv_buffer);
    }

reached : TunnelReach sender receiver (codes "agent") 1 (quiet_tunnel busy) half_read
unfolding frame_data
reached =
    next
      (next
        (next here
          (read_and_send plain_request greeting greeting_wire (omega arith) (omega arith) refl))
        (handle greeting_wire [] refl))
      (deliver 1 2)

Reach-delivered_example :
    (missing : Bytes) × (half_read.delivered 1
        ++ ((half_read.relay.objects 1).recv_buffer ++ missing)
      ≡ half_read.read second_id)
    × ((missing ≡ [])
        ⊎ ((half_read.up ≢ [])
            ⊎ (Dict.lookup second_id half_read.relay.active_relayed_connections ≢ some 1)))
Reach-delivered_example =
    Reach-delivered sender receiver (codes "agent") second_id 1 busy half_read sender-Agree
      (λ v. record { buffer = refl; active = λ j h. h }) second-IsSole refl reached

-- The same for the messages to the agent, whose drains succeed.
abbrev plain_down : Codec RelayToEdgeAgentMessage
plain_down = record {
  dump = λ m. elim m [
    | RelayToEdgeAgentMessage.tcp_data id content ↦ length id ∷ (id ++ content)
    | _ ↦ []
  ];
  validate = λ t. elim t [
    | [] ↦ raise (validation_error [])
    | n ∷ rest ↦ ok (RelayToEdgeAgentMessage.tcp_data (take n rest) (drop n rest))
  ];
}

abbrev writer : EdgeEnv
writer = record (edge idle) { answer = λ h c. none; from_relay = plain_down }

abbrev relay_env : Env
relay_env = record (sample (ok disconnected) (ok false) alone) { to_agent = plain_down }

relay_env-AgentAgrees : (id : Text) → AgentAgrees relay_env writer id
relay_env-AgentAgrees id t =
    rw (take-append id t (length id) refl, drop-append id t (length id) refl)

second-IsUuid : IsUuid second_id
second-IsUuid = omega arith

greeting-IsBytes : IsBytes greeting
greeting-IsBytes = omega arith

-- The second connection is open over the stream 8.
abbrev open_agent : Agent
open_agent = record {
  active_connections = (second_id, 8) ∷ [];
  websocket = some 1;
  signal_connected = true;
  trace = [];
}

abbrev greeting_down : Wire
greeting_down =
    (send_framed-Arrives relay_env writer (busy.objects 1) greeting
      (relay_env-AgentAgrees second_id) second-IsUuid greeting-IsBytes).wire

-- The relay has sent the greeting, and the agent has handled it.
abbrev greeted : Downlink
greeted = record {
  agent = (handle_wire writer 1 greeting_down open_agent).1;
  down = [];
  given = joined_to (λ id. []) second_id greeting;
}

greeted-Reach : DownReach writer relay_env relay_env-AgentAgrees 1 8 (quiet_link open_agent) greeted
greeted-Reach =
    DownReach.next
      (DownReach.next DownReach.here
        (DownStep.send (busy.objects 1) greeting second-IsUuid greeting-IsBytes))
      (DownStep.handle greeting_down [] refl)

only_second : (j : Text) → Dict.lookup j open_agent.active_connections ≡ some 8 → j ≡ second_id
unfolding Dict.lookup text_eqb
only_second j h = ground (arith, text_key.same_iff j second_id)

Reach-written_example :
    (missing : Bytes) × (written 8 greeted.agent.trace ++ missing ≡ greeted.given second_id)
    × ((missing ≡ [])
        ⊎ ((greeted.down ≢ []) ⊎ (Dict.lookup second_id greeted.agent.active_connections ≢ some 8)))
unfolding written
Reach-written_example =
    Reach-written writer relay_env 1 second_id 8 open_agent greeted relay_env-AgentAgrees
      (λ b. record { bytes = refl; active = λ j h. h }) (λ h ip port e. cc e) only_second refl
      greeted-Reach

sent-Reach : TunnelReach sender receiver (codes "agent") 1 (quiet_tunnel busy) sent
unfolding frame_data
sent-Reach =
    next here (read_and_send plain_request greeting greeting_wire (omega arith) (omega arith) refl)

Reach-drains_example :
    (u : Tunnel) × Progress sender receiver (codes "agent") 1 sent u
    × (u.read ≡ sent.read)
    × (((u.up ≡ [])
          × ((u.delivered 1 ≡ sent.read second_id)
              ⊎ (Dict.lookup second_id u.relay.active_relayed_connections ≢ some 1)))
        ⊎ IsSuspended sender receiver (codes "agent") 1 u)
Reach-drains_example =
    Reach-drains sender receiver (codes "agent") second_id 1 busy sent sender-Agree
      (λ v. record { buffer = refl; active = λ j h. h }) second-IsSole refl sent-Reach
