-- ===== src/Relay/AccessClients/Tests.antt =====
-- Runs of the relay's side of an access client.
use http_network_relay.Prelude.{
  ◌≡◌, inr, ◌∙◌, refl, true, false, Option, none, some, [], ◌∷◌, codes, text_key, text_eqb,
}
use http_network_relay.Prelude.Dict
use http_network_relay.Exception.{Exception, ok, unbound_local_error, timeout_error}
use http_network_relay.Messages.{AtRStartMessage, initiate_connection_ok, initiate_connection_error}
use http_network_relay.Relay.World.{
  World, Env, done, perform, raised, disconnected, set_object, join_reader,
}
use http_network_relay.Relay.Create.{
  create, add_connection, send_message_and_wait_for_answer, wait_answer, match_response,
}
use http_network_relay.Relay.Close.{send_locked, agent_send_lock}
use http_network_relay.Relay.AccessClients.{open_client, connect_client, leave_client}
use http_network_relay.Relay.AccessClients.Opening.{IsOpened, open_client-IsOpened}
use http_network_relay.Relay.AccessClients.Thread.{access_client_receive_thread}
use http_network_relay.Relay.AccessClients.Reader.{
  IsCalm, IsDropped, access_client_receive_thread-IsDropped,
}
use http_network_relay.Relay.AccessClients.Leaving.{IsGone, leave_client-IsGone}
use http_network_relay.Relay.Close.Returns.{Ends, IsPolite}
use http_network_relay.Relay.AccessClients.Refusal.{IsLeft, connect_client-unbound}
use http_network_relay.Relay.Create.Answers.{IsAnswered}
use http_network_relay.Relay.Sample.{first_id, second_id, sample, alone, busy, connection}

abbrev env : Env
env = sample (ok disconnected) (ok false) alone

-- The second connection has received two bytes.
abbrev filled : World
filled = set_object 1 (record (connection second_id 1) { recv_buffer = 104 ∷ 105 ∷ [] }) busy

abbrev client_start : AtRStartMessage
client_start = record {
  connection_target = codes "nobody";
  target_ip = codes "10.0.0.1";
  target_port = 22;
  protocol = codes "tcp";
  secret = codes "secret";
  supports_binary = some true;
}

access_client_receive_thread-IsDropped_example :
    IsCalm (IsDropped second_id) (access_client_receive_thread env 5 5 9 1 true filled)
access_client_receive_thread-IsDropped_example =
    access_client_receive_thread-IsDropped env 5 9 5 1 true filled

-- The agent's error is there as soon as the relay waits for it.
abbrev refusing : Env
refusing = record env {
  others = λ w. record w {
    initiate_connection_answer_queues =
        Dict.insert first_id (some (initiate_connection_error (codes "refused") first_id))
          w.initiate_connection_answer_queues;
  };
}

refusal_there :
    (w : World)
    → Dict.lookup first_id (refusing.others w).initiate_connection_answer_queues
      ≡ some (some (initiate_connection_error (codes "refused") first_id))
refusal_there w =
    Dict.lookup-insert first_id first_id
      (some (initiate_connection_error (codes "refused") first_id))
      w.initiate_connection_answer_queues
    ∙ rw (Dict.eq_self first_id)

refusing-IsAnswered :
    IsAnswered refusing first_id (initiate_connection_error (codes "refused") first_id)
refusing-IsAnswered = record {
  succeeds = λ h c. refl;
  keeps_queue = λ w h. inr (refusal_there w);
  answers = λ w h. refusal_there w;
  keeps_active = λ w address h. h;
}

connect_client-unbound_example :
    (v : World) × (connect_client refusing (codes "agent") client_start 9 busy
      ≡ (raised unbound_local_error, v))
    × IsLeft refusing 9 (codes "refused") first_id 2 v
unfolding Dict.lookup text_eqb
connect_client-unbound_example =
    connect_client-unbound refusing (codes "agent") client_start 9 (codes "refused") first_id busy 1
      refl refusing-IsAnswered

-- The reader is not done in time, and the second wait for it is cancelled.
abbrev lingering : Env
lingering = record env { answer = λ h c. elim c [ join_reader ws ↦ some timeout_error | _ ↦ none ] }

lingering-IsPolite : IsPolite lingering
lingering-IsPolite = record {
  grants = λ h ws. refl;
  sends = λ h ws t x e. cc;
  closes = λ h ws x e. absurd (none_some x e);
}
  where
    none_some : (x : Exception) → ◌≡◌ {A = Option Exception} none (some x) → ⊥
    none_some x e = cc

leave_client-IsGone_example : Ends (leave_client lingering 9 second_id 1 filled) (IsGone second_id)
leave_client-IsGone_example =
    leave_client-IsGone lingering-IsPolite second_id 9 (λ h x e. cc)
      (λ w. record { inactive = λ h. h; no_client = λ h. h }) 1 filled refl refl

-- The agent's OK is there as soon as the relay waits for it.
abbrev agreeing : Env
agreeing = record env {
  others = λ w. record w {
    initiate_connection_answer_queues =
        Dict.insert first_id (some (initiate_connection_ok first_id))
          w.initiate_connection_answer_queues;
  };
}

abbrev box_start : AtRStartMessage
box_start = record client_start { connection_target = codes "agent" }

abbrev opened : World
opened = (open_client agreeing box_start 9 busy).1

open_runs : open_client agreeing box_start 9 busy ≡ (done (some 2), opened)
unfolding open_client connect_client create add_connection send_message_and_wait_for_answer
    wait_answer send_locked agent_send_lock match_response Dict.lookup Dict.insert text_eqb perform
    Dict.contains
open_runs = refl

open_client-IsOpened_example : IsOpened agreeing box_start 9 busy 2
open_client-IsOpened_example = open_client-IsOpened agreeing box_start 9 busy opened 2 open_runs
