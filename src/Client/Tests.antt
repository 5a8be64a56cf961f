-- ===== src/Client/Tests.antt =====
-- Sessions of http_network_relay/access_client.py, and its theorems at small instances.
use http_network_relay.Prelude.{
  ◌≡◌, refl, true, false, none, some, List, [], ◌∷◌, ◌++◌, Text, codes, nat_eqb, if◌then◌else◌,
  arith, text_key, text_eqb,
}
use http_network_relay.Exception.{
  Result, ok, raise, validation_error, value_error, connection_closed,
}
use http_network_relay.Base64.{b64encode}
use http_network_relay.Base64.RoundTrip.{b64decode-b64encode}
use http_network_relay.Messages.{
  AccessClientToRelayMessage, RelayToAccessClientMessage, start_ok, error, Wire, text, binary,
  RelayToEdgeAgentMessage,
}
use http_network_relay.Relay.World.{World, Env, Call, done, raised, disconnected}
use http_network_relay.Relay.Sample.{first_id, sample, alone, busy, greeting}
use http_network_relay.EdgeAgent.Sample.{edge, idle}
use http_network_relay.EdgeAgent.World.{Agent, EdgeEnv, write}
use http_network_relay.Prelude.Dict
use http_network_relay.EdgeAgent.Writing.{IsWritten, written, handle_wires}
use http_network_relay.Client.Pipeline.{AllSends, handle_client_all, send_all, frames-IsWritten}
use http_network_relay.Reads.{until_end, joined}
use http_network_relay.Relay.Connection.{fill_recv}
use http_network_relay.Frame.Hex.{Bytes}
use http_network_relay.Client.Session.{
  AccessClient, ClientEnv, start_message, output_of, async_main, frame_stdin, stdin_task,
}
use http_network_relay.Client.Output.{Carry, nothing, one_more, then_closed, async_main-joined}
use http_network_relay.Client.Input.{frames}

abbrev dump_reply : RelayToAccessClientMessage → Text
dump_reply (RelayToAccessClientMessage.tcp_data t) = b't' ∷ t
dump_reply (start_ok flag) = codes "ok"
dump_reply (error m) = codes "error"

abbrev validate_reply : Text → Result RelayToAccessClientMessage
validate_reply [] = raise (validation_error [])
validate_reply (c ∷ t) =
    if nat_eqb c b't'
    then ok (RelayToAccessClientMessage.tcp_data t)
    else if nat_eqb c b'o'
    then ok (start_ok (some true))
    else ok (error t)

abbrev client : ClientEnv
client = record {
  answer = λ sent wire. none;
  to_relay = record {
    dump = λ m. elim m [ AccessClientToRelayMessage.tcp_data t ↦ t | _ ↦ [] ];
    validate = λ t. raise (validation_error []);
  };
  from_relay = record { dump = dump_reply; validate = validate_reply };
  validate_bytes = λ b. raise (validation_error []);
}

abbrev relay : Env
relay = record (sample (ok disconnected) (ok false) alone) {
  to_client = record { dump = dump_reply; validate = validate_reply };
  from_client = record {
    dump = λ m. [];
    validate = λ t. ok (AccessClientToRelayMessage.tcp_data t);
  };
  to_agent = record {
    dump = λ m. elim m [ RelayToEdgeAgentMessage.tcp_data id t ↦ t | _ ↦ [] ];
    validate = λ t. raise (validation_error []);
  };
}

abbrev ssh : AccessClient
ssh = record {
  target_host_identifier = codes "host";
  target_ip = codes "127.0.0.1";
  target_port = 22;
  protocol = codes "tcp";
  relay_url = some (codes "ws://relay");
  secret = some (codes "secret");
}

-- At every await two more bytes come in for the second connection.
abbrev filling : Env
filling = record relay { others = λ w. fill_recv 1 greeting w }

abbrev IsGreeting : Bytes → Type 0
IsGreeting piece = piece ≡ greeting

abbrev wires : List Wire
wires = binary greeting ∷ text (codes "error") ∷ text (b't' ∷ b64encode greeting) ∷ []

wires-Carry : Carry client (greeting ∷ [] ∷ greeting ∷ []) wires
unfolding output_of
wires-Carry =
    one_more refl (one_more refl (one_more (b64decode-b64encode greeting (omega arith)) nothing))

async_main-joined_example :
    async_main client ssh (ok tt) (ok (text (codes "ok")) ∷ then_closed wires)
    ≡ (done tt, greeting ++ greeting)
unfolding start_message joined
async_main-joined_example =
    async_main-joined client ssh _ (text (codes "ok")) (some true) (greeting ∷ [] ∷ greeting ∷ [])
      wires refl refl refl wires-Carry

no_secret_run :
    async_main client (record ssh { secret = none }) (ok tt) []
    ≡ (raised (value_error (codes "secret is required")), [])
unfolding async_main start_message
no_secret_run = refl

-- An agent with one TCP connection, which takes what is written to it.
abbrev draining : EdgeEnv
draining = record (edge idle) { answer = λ h c. none }

abbrev serving : Agent
serving = record {
  active_connections = (first_id, 7) ∷ [];
  websocket = some 1;
  signal_connected = true;
  trace = write 7 (b'.' ∷ []) ∷ [];
}

serving-IsWritten : IsWritten first_id 7 (b'.' ∷ []) serving
unfolding Dict.lookup text_eqb written
serving-IsWritten = record { is_open = refl; bytes = refl }

-- The first connection is an access client's.
abbrev served : World
served = record busy { active_access_client_connections = (first_id, 9) ∷ [] }

frames-IsWritten_example :
    (calls : List Call) × (wires : List Wire) × AllSends 1 calls wires
    × (handle_client_all relay first_id 0 (frames client false (greeting ∷ greeting ∷ [])) served
        ≡ send_all relay 1 calls served)
    × (b : Agent) × (handle_wires draining 1 wires serving ≡ (done tt, b))
    × IsWritten first_id 7 (b'.' ∷ [] ++ joined (greeting ∷ greeting ∷ [])) b
unfolding Dict.contains Dict.lookup text_eqb
frames-IsWritten_example =
    frames-IsWritten client relay draining false (greeting ∷ greeting ∷ []) first_id 0 served 7
      (b'.' ∷ []) 1 serving (λ t. refl) (λ t. refl) (omega arith) (omega arith)
      (λ v. record {
        link = record { same_id = refl; same_agent = refl; same_flag = refl };
        listed = λ h. h;
      })
      (record { drains = λ h. refl; others = λ total a h. h }) serving-IsWritten refl

-- A client that loses the connection on its second message.
abbrev cut : ClientEnv
cut = record client {
  answer = λ sent wire. elim sent [ [] ↦ none | _ ∷ _ ↦ some connection_closed ];
}

stdin_task_run :
    stdin_task cut (start_ok (some true)) (until_end (greeting ∷ greeting ∷ greeting ∷ [])) []
    ≡ (raised connection_closed, binary greeting ∷ binary greeting ∷ [])
unfolding stdin_task frame_stdin until_end
stdin_task_run = refl
