-- ===== src/EdgeAgent/Sample.antt =====
-- A small instance of what http_network_relay/edge_agent.py takes from elsewhere.
use http_network_relay.Prelude.{none, some, [], codes}
use http_network_relay.Exception.{
  ok, raise, validation_error, connection_refused_error, connection_reset_error,
}
use http_network_relay.Messages.{
  EdgeAgentToRelayMessage, RelayToEdgeAgentMessage, text, start_message_defaults,
}
use http_network_relay.Relay.Sample.{first_id}
use http_network_relay.EdgeAgent.World.{drain, Agent, EdgeEnv, pure}

-- Streams whose `drain` finds them reset, a relay that refuses connections and whose texts are all
-- TCP data for the first connection, and other tasks that do `others`.
abbrev pub edge : (Agent → Agent) → EdgeEnv
edge others = record {
  answer = λ h c. elim c [ drain s ↦ some connection_reset_error | _ ↦ none ];
  connected = λ h. raise connection_refused_error;
  time = λ h. 100;
  opened = λ h ip port. ok 7;
  received = λ h ws. ok (text []);
  others = others;
  to_relay = record {
    dump = λ m. elim m [ EdgeAgentToRelayMessage.tcp_data id content ↦ content | _ ↦ [] ];
    validate = λ t. raise (validation_error []);
  };
  from_relay = record {
    dump = λ m. [];
    validate = λ t. ok (RelayToEdgeAgentMessage.tcp_data first_id t);
  };
  str = λ x. codes "refused";
  validate_custom = none;
  handle_custom_relay_message = λ t. pure tt;
  start_message = λ e. pure start_message_defaults;
  on_connection_closed = pure tt;
}

abbrev pub idle : Agent → Agent
idle w = w
