-- ===== src/Relay/Tests.antt =====
-- Runs of the relay's methods, and their theorems at small states.
use http_network_relay.Prelude.{
  ◌≡◌, refl, inr, false, [], ◌∷◌, codes, arith, text_key, nat_key, text_eqb,
}
use http_network_relay.Prelude.Dict
use http_network_relay.Exception.{ok}
use http_network_relay.Frame.{too_short}
use http_network_relay.Base64.{b64encode}
use http_network_relay.Messages.{text, binary}
use http_network_relay.Relay.World.{Env, raised, disconnected, message}
use http_network_relay.Relay.Close.{edge_agent_connection_close}
use http_network_relay.Relay.Close.Returns.{Ends}
use http_network_relay.Relay.Close.Teardown.{IsForgotten, edge_agent_connection_close-IsForgotten}
use http_network_relay.Relay.Connection.{handle_tcp_data_message, handle_tcp_binary_data}
use http_network_relay.Relay.Connection.Delivery.{handle_tcp_data_message-b64encode}
use http_network_relay.Relay.MsgLoop.{msg_loop}
use http_network_relay.Relay.MsgLoop.Rounds.{
  after_receive, msg_loop-disconnect, msg_loop-short_frame,
}
use http_network_relay.Relay.Sample.{
  first_id, greeting, sample, alone, busy, sample-IsPolite, alone-IsQuiet,
}

abbrev env : Env
env = sample (ok disconnected) (ok false) alone

edge_agent_connection_close-IsForgotten_example :
    Ends (edge_agent_connection_close env (codes "agent") busy) (IsForgotten (codes "agent") 1)
unfolding Dict.lookup text_eqb
edge_agent_connection_close-IsForgotten_example =
    edge_agent_connection_close-IsForgotten (sample-IsPolite (ok disconnected) (ok false) alone)
      (alone-IsQuiet (ok disconnected) (ok false) (codes "agent") 1) busy refl

msg_loop-disconnect_example :
    Ends (msg_loop env 5 1 (codes "agent") busy) (IsForgotten (codes "agent") 1)
unfolding Dict.lookup text_eqb
msg_loop-disconnect_example =
    msg_loop-disconnect (sample-IsPolite (ok disconnected) (ok false) alone)
      (alone-IsQuiet (ok disconnected) (ok false) (codes "agent") 1) 4 busy (inr refl) refl

abbrev bad_env : Env
bad_env = sample (ok (message (binary (1 ∷ 2 ∷ [])))) (ok false) alone

msg_loop-short_frame_example :
    msg_loop bad_env 3 1 (codes "agent") busy ≡ (raised (too_short 2), after_receive bad_env 1 busy)
msg_loop-short_frame_example =
    msg_loop-short_frame bad_env 1 (codes "agent") 2 busy (1 ∷ 2 ∷ []) refl (omega arith)

abbrev text_env : Env
text_env = sample (ok (message (text []))) (ok false) alone

handle_tcp_data_message-b64encode_example :
    handle_tcp_data_message first_id (b64encode greeting) busy
    ≡ handle_tcp_binary_data first_id greeting busy
handle_tcp_data_message-b64encode_example =
    handle_tcp_data_message-b64encode first_id greeting busy (omega arith)
