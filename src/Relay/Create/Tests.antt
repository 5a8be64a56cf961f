-- ===== src/Relay/Create/Tests.antt =====
-- A connection that the agent refuses.
use http_network_relay.Prelude.{
  ◌≡◌, refl, ◌∙◌, inr, false, none, some, ◌++◌, codes, text_key, text_eqb,
}
use http_network_relay.Prelude.Dict
use http_network_relay.Exception.{ok, value_error}
use http_network_relay.Messages.{EdgeAgentToRelayMessage, initiate_connection_error}
use http_network_relay.Relay.World.{World, Env, tcp_connection_async, raised, pending, disconnected}
use http_network_relay.Relay.Create.{create}
use http_network_relay.Relay.Close.{edge_agent_connection_close}
use http_network_relay.Relay.Create.Unanswered.{create-pending}
use http_network_relay.Relay.Create.Answers.{IsAnswered, create-outcome}
use http_network_relay.Relay.Sample.{first_id, sample, alone, busy}

abbrev refusal : EdgeAgentToRelayMessage
refusal = initiate_connection_error (codes "refused") first_id

-- The message loop puts the refusal into the queue.
abbrev answering : World → World
answering w = record w {
  initiate_connection_answer_queues =
      Dict.insert first_id (some refusal) w.initiate_connection_answer_queues;
}

abbrev env : Env
env = sample (ok disconnected) (ok false) answering

queue_full :
    (w : World)
    → Dict.lookup first_id (answering w).initiate_connection_answer_queues ≡ some (some refusal)
queue_full w =
    Dict.lookup-insert first_id first_id (some refusal) w.initiate_connection_answer_queues
    ∙ rw (Dict.eq_self first_id)

env-IsAnswered : IsAnswered env first_id refusal
env-IsAnswered = record {
  succeeds = λ h c. refl;
  keeps_queue = λ w h. inr (queue_full w);
  answers = λ w h. queue_full w;
  keeps_active = λ w address h. h;
}

create-outcome_example :
    (v : World) × (create env
        (codes "agent")
        (codes "10.0.0.1")
        22
        (codes "tcp")
        tcp_connection_async
        busy
      ≡ (raised (value_error (codes "Error initiating connection: " ++ codes "refused")), v))
    × (Dict.lookup first_id v.initiate_connection_answer_queues ≡ none)
    × (Dict.lookup first_id v.active_relayed_connections ≡ some 2)
unfolding Dict.lookup text_eqb
create-outcome_example =
    create-outcome (codes "agent") (codes "10.0.0.1") 22 (codes "tcp") tcp_connection_async busy 1
      refl env-IsAnswered

-- All that happens while the relay waits is that the agent is torn down.
abbrev abandoned : Env
abandoned = sample (ok disconnected) (ok false) (λ w.
    (edge_agent_connection_close (sample (ok disconnected) (ok false) alone) (codes "agent") w).1)

create-pending_example :
    (v : World) × (create abandoned
        (codes "agent")
        (codes "10.0.0.1")
        22
        (codes "tcp")
        tcp_connection_async
        busy
      ≡ (pending, v))
    × (Dict.lookup first_id v.initiate_connection_answer_queues ≡ some none)
unfolding Dict.lookup text_eqb
create-pending_example =
    create-pending abandoned (sample (ok disconnected) (ok false) alone) (codes "agent")
      (codes "10.0.0.1") 22 (codes "tcp") tcp_connection_async busy 1 refl (λ h c. refl) (λ v. refl)
      (λ v. record { kept = λ h. h })
