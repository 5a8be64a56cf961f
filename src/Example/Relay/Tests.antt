-- ===== src/Example/Relay/Tests.antt =====
-- An access client of the example relay that gets a connection.
use http_network_relay.Prelude.{◌≡◌, refl, true, false, some, [], ◌∷◌, codes, text_key, text_eqb}
use http_network_relay.Prelude.Dict
use http_network_relay.Exception.{ok}
use http_network_relay.Messages.{AtRStartMessage, initiate_connection_ok}
use http_network_relay.Relay.World.{World, Env, done, perform, disconnected}
use http_network_relay.Relay.Create.{
  create, add_connection, send_message_and_wait_for_answer, wait_answer, match_response,
}
use http_network_relay.Relay.Close.{send_locked, agent_send_lock}
use http_network_relay.Relay.AccessClients.{open_client, connect_client}
use http_network_relay.Relay.AccessClients.Opening.{IsAgreed}
use http_network_relay.Relay.Sample.{first_id, sample, busy}
use http_network_relay.Example.Credentials.{Credentials, is_listed, get_client_permission}
use http_network_relay.Example.Relay.{example_relay, open_client-IsNamed}

abbrev credentials : Credentials
credentials = record {
  access_client_secrets = codes "key" ∷ [];
  edge_agents = (codes "agent", codes "hush") ∷ [];
}

-- Another task puts the agent's OK into the queue.
abbrev answers : World → World
answers w = record w {
  initiate_connection_answer_queues =
      Dict.insert first_id (some (initiate_connection_ok first_id))
        w.initiate_connection_answer_queues;
}

abbrev env : Env
env = sample (ok disconnected) (ok false) answers

abbrev start : AtRStartMessage
start = record {
  connection_target = codes "agent";
  target_ip = codes "10.0.0.1";
  target_port = 22;
  protocol = codes "tcp";
  secret = codes "key";
  supports_binary = some true;
}

abbrev opened : World
opened = (open_client (example_relay credentials env) start 9 busy).1

open_runs : open_client (example_relay credentials env) start 9 busy ≡ (done (some 2), opened)
unfolding open_client connect_client create add_connection send_message_and_wait_for_answer
    wait_answer send_locked agent_send_lock match_response Dict.lookup Dict.insert text_eqb perform
    Dict.contains get_client_permission is_listed
open_runs = refl

open_client-IsNamed_example :
    (u : World) × (is_listed (codes "key") credentials.access_client_secrets ≡ true)
    × IsAgreed (example_relay credentials env) (codes "agent") start 2 busy u
open_client-IsNamed_example = open_client-IsNamed credentials env start 9 busy opened 2 open_runs
