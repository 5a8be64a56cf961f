-- ===== src/Relay/Sample.antt =====
-- Small instances of what http_network_relay/network_relay.py takes from elsewhere, and small
-- states, for the tests of the modules beside this one.
use http_network_relay.Prelude.{
  ℕ, ◌≡◌, refl, Bool, false, true, Option, none, some, List, [], ◌∷◌, Text, codes,
}
use http_network_relay.Exception.{Exception, Result, ok, raise, value_error}
use http_network_relay.Base64.{b64encode}
use http_network_relay.Messages.{tcp_data}
use http_network_relay.Relay.World.{
  WebSocket, Connection, tcp_connection_async, World, Env, pure, Raw,
}
use http_network_relay.Relay.Close.Steps.{NoNew-same}
use http_network_relay.Relay.Close.Returns.{IsPolite}
use http_network_relay.Relay.Close.Teardown.{IsQuiet}

abbrev pub first_id : Text
first_id = codes "00000000-0000-4000-8000-00000000000a"

abbrev pub second_id : Text
second_id = codes "00000000-0000-4000-8000-00000000000b"

abbrev pub greeting : List ℕ
greeting = 104 ∷ 105 ∷ []

-- WebSockets that never fail and receive `incoming`, other tasks that do `others`, an agent codec
-- that reads every text as a greeting on the second connection, and hooks that allow everything.
abbrev pub sample : Result Raw → Result Bool → (World → World) → Env
sample incoming closed others = record {
  answer = λ h c. none;
  received = λ h ws. incoming;
  received_text = λ h ws. ok [];
  is_closed = λ h ws. closed;
  is_connected = λ h ws. true;
  others = others;
  uuid4 = λ h. first_id;
  from_agent = record {
    dump = λ m. [];
    validate = λ t. ok (tcp_data second_id (b64encode greeting));
  };
  to_agent = record { dump = λ m. []; validate = λ t. raise (value_error []) };
  from_client = record { dump = λ m. []; validate = λ t. raise (value_error []) };
  to_client = record { dump = λ m. []; validate = λ t. raise (value_error []) };
  show = λ m. [];
  validate_start = λ m. ok m;
  validate_custom = none;
  handle_custom_agent_message = λ m agent. pure tt;
  get_agent_msg_loop_permission_and_create_connection_id = λ m ws. pure (some (codes "agent"));
  get_access_client_permission = λ m ws. pure true;
  get_agent_connection_id_for_access_client = λ target. pure target;
}

abbrev pub alone : World → World
alone w = w

abbrev pub connection : Text → WebSocket → Connection
connection id ws = record {
  id = id;
  connection_class = tcp_connection_async;
  agent_connection = ws;
  recv_buffer = [];
  event = false;
  send_buffer = [];
  timeout = none;
  agent_supports_binary = true;
}

-- Agent `agent` on WebSocket 1, with two connections.
abbrev pub busy : World
busy = record {
  agent_connections = 1 ∷ [];
  registered_agent_connections = (codes "agent", 1) ∷ [];
  initiate_connection_answer_queues = [];
  active_relayed_connections = (first_id, 0) ∷ (second_id, 1) ∷ [];
  active_access_client_connections = [];
  agent_connection_id_to_supports_binary = (codes "agent", true) ∷ [];
  agent_connection_locks = [];
  objects = λ a. elim a [ ℕ.zero ↦ connection first_id 1 | ℕ.suc b ↦ connection second_id 1 ];
  next_object = 2;
  trace = [];
}

pub sample-IsPolite :
    (incoming : Result Raw) (closed : Result Bool) (others : World → World)
    → IsPolite (sample incoming closed others)
sample-IsPolite incoming closed others = record {
  grants = λ h ws. refl;
  sends = λ h ws t x e. cc;
  closes = λ h ws x e. absurd (none_some x e);
}
  where
    none_some : (x : Exception) → ◌≡◌ {A = Option Exception} none (some x) → ⊥
    none_some x e = cc

pub alone-IsQuiet :
    (incoming : Result Raw) (closed : Result Bool) (id : Text) (ws : WebSocket)
    → IsQuiet (sample incoming closed alone) id ws
alone-IsQuiet incoming closed id ws = record {
  no_connection = λ w. NoNew-same ws w;
  no_listing = λ w. record { at = λ h. h };
}
