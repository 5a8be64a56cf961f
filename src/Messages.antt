-- ===== src/Messages.antt =====
-- The messages of http_network_relay/pydantic_models.py and http_network_relay/access_client.py. A
-- constructor is a message class, its arguments the class's fields in their order; `kind`, which
-- names the class, is the constructor. An outer `…Message(inner=…)` is its `inner`.
use http_network_relay.Prelude.{ℕ, ◌≡◌, Bool, false, Option, none, [], Text}
use http_network_relay.Prelude.Dict.{Dict}
use http_network_relay.Frame.Hex.{Bytes}
use http_network_relay.Exception.{Result, ok}

-- `EtRStartMessage`; `extra` holds the further fields that `extra="allow"` keeps.
pub record EtRStartMessage : Type 0 where
  pub last_error : Option Text
  pub supports_binary : Bool
  pub extra : Dict Text Text

-- `EtRStartMessage(last_error=…)` leaves `supports_binary` at its default.
abbrev pub start_message_defaults : EtRStartMessage
start_message_defaults = record { last_error = none; supports_binary = false; extra = [] }

pub data EdgeAgentToRelayMessage : Type 0 where
  start : EtRStartMessage → EdgeAgentToRelayMessage
  initiate_connection_error : Text → Text → EdgeAgentToRelayMessage
  initiate_connection_ok : Text → EdgeAgentToRelayMessage
  tcp_data : Text → Text → EdgeAgentToRelayMessage
  connection_reset : Text → Text → EdgeAgentToRelayMessage
  keep_alive : EdgeAgentToRelayMessage

-- `RtEInitiateConnectionMessage`; port numbers are naturals.
pub record RtEInitiateConnectionMessage : Type 0 where
  pub target_ip : Text
  pub target_port : ℕ
  pub protocol : Text
  pub connection_id : Text
  pub supports_binary : Bool

pub data RelayToEdgeAgentMessage : Type 0 where
  initiate_connection : RtEInitiateConnectionMessage → RelayToEdgeAgentMessage
  tcp_data : Text → Text → RelayToEdgeAgentMessage
  connection_close : Text → Text → RelayToEdgeAgentMessage
  keep_alive : RelayToEdgeAgentMessage

-- `AtRStartMessage`; `supports_binary` is `bool | None`.
pub record AtRStartMessage : Type 0 where
  pub connection_target : Text
  pub target_ip : Text
  pub target_port : ℕ
  pub protocol : Text
  pub secret : Text
  pub supports_binary : Option Bool

pub data AccessClientToRelayMessage : Type 0 where
  start : AtRStartMessage → AccessClientToRelayMessage
  tcp_data : Text → AccessClientToRelayMessage

-- The relay also passes `connection_id=…` to two of these, which pydantic drops.
pub data RelayToAccessClientMessage : Type 0 where
  error : Text → RelayToAccessClientMessage
  start_ok : Option Bool → RelayToAccessClientMessage
  tcp_data : Text → RelayToAccessClientMessage

-- One WebSocket message.
pub data Wire : Type 0 where
  text : Text → Wire
  binary : Bytes → Wire

-- `model_dump_json` and `model_validate_json` of a message class, which pydantic gives.
pub record Codec (M : Type 0) : Type 0 where
  pub dump : M → Text
  pub validate : Text → Result M

-- What the code relies on: a dumped message validates to itself.
abbrev pub IsLawful : {M : Type 0} → Codec M → Type 0
IsLawful {M} c = (m : M) → c.validate (c.dump m) ≡ ok m
