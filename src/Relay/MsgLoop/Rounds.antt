-- ===== src/Relay/MsgLoop/Rounds.antt =====
-- What the rounds of `_msg_loop` in http_network_relay/network_relay.py do.
use http_network_relay.Prelude.{
  ℕ, suc, ◌<◌, ◌≡◌, refl, ◌⊎◌, inl, inr, true, some, ◌∷◌, Text, length, text_key,
}
use http_network_relay.Prelude.Dict
use http_network_relay.Exception.{ok, raise, websocket_disconnect}
use http_network_relay.Frame.Hex.{Bytes}
use http_network_relay.Frame.{too_short}
use http_network_relay.Frame.RoundTrip.{decode_raises_iff}
use http_network_relay.Messages.{text, binary}
use http_network_relay.Relay.World.{
  WebSocket, World, Env, receive, Outcome, done, raised, pending, pure, recover, continue,
  disconnected, message,
}
use http_network_relay.Relay.Close.{edge_agent_connection_close}
use http_network_relay.Relay.Close.Returns.{Ends, IsPolite}
use http_network_relay.Relay.Close.Teardown.{
  IsForgotten, IsQuiet, edge_agent_connection_close-IsForgotten,
}
use http_network_relay.Relay.Agents.{
  Incoming, handle_edge_agent_message, receive_raw, parse_message,
}
use http_network_relay.Relay.MsgLoop.{handle_raw, msg_round, msg_loop}

-- The state after the other tasks ran while the loop waited for a message.
abbrev pub after_receive : Env → WebSocket → World → World
after_receive env ws w = env.others (record w { trace = receive ws ∷ w.trace })

-- The two ways in which FastAPI reports that the agent is gone.
abbrev pub ReportsDisconnect : Env → WebSocket → World → Type 0
ReportsDisconnect env ws w =
    (env.received w.trace ws ≡ raise websocket_disconnect)
    ⊎ (env.received w.trace ws ≡ ok disconnected)

module _ {env : Env} {agent : Text} {own : WebSocket} (polite : IsPolite env)
    (quiet : IsQuiet env agent own) where
  -- The loop over `ws` ends by the teardown of the agent, whose socket may be another.
  loop-IsForgotten :
      (rounds : ℕ) (ws : WebSocket) (w : World)
      → ReportsDisconnect env ws w
      → Dict.lookup agent (after_receive env ws w).registered_agent_connections ≡ some own
      → Ends (msg_loop env (suc rounds) ws agent w) (IsForgotten agent own)
  unfolding msg_loop msg_round receive_raw handle_raw
  loop-IsForgotten rounds ws w report registered =
      let e =
        edge_agent_connection_close-IsForgotten polite quiet (after_receive env ws w) registered in
      record { final = e.final; returns = ends report e.returns; holds = e.holds }
    where
      ends :
          {v : World}
          → ReportsDisconnect env ws w
          → edge_agent_connection_close env agent (after_receive env ws w) ≡ (done tt, v)
          → msg_loop env (suc rounds) ws agent w ≡ (done tt, v)
      ends (inl raised_it) closed = rw (raised_it, closed)
      ends (inr said_it) closed = rw (said_it, closed)

  -- When the agent's WebSocket reports a disconnect, by an exception or by a message, the loop
  -- ends and the relay has forgotten the agent.
  pub msg_loop-disconnect :
      (rounds : ℕ) (w : World)
      → ReportsDisconnect env own w
      → Dict.lookup agent (after_receive env own w).registered_agent_connections ≡ some own
      → Ends (msg_loop env (suc rounds) own agent w) (IsForgotten agent own)
  msg_loop-disconnect rounds w report registered = loop-IsForgotten rounds own w report registered

module _ (env : Env) (ws : WebSocket) (agent : Text) where
  -- A binary message of fewer than 16 bytes ends the loop by an exception with no teardown: the
  -- tables are those that the loop found, and the agent stays registered.
  pub msg_loop-short_frame :
      (rounds : ℕ) (w : World) (frame : Bytes)
      → env.received w.trace ws ≡ ok (message (binary frame))
      → length frame < 16
      → msg_loop env (suc rounds) ws agent w
        ≡ (raised (too_short (length frame)), after_receive env ws w)
  unfolding msg_loop msg_round receive_raw handle_raw
  msg_loop-short_frame rounds w frame got short = rw (got, (decode_raises_iff frame).1 short)

  -- A well-formed text message never ends the loop by an exception, whatever its handler raises:
  -- the round goes on, or waits in the handler.
  msg_round-text :
      (w : World) (json : Text) (m : Incoming)
      → env.received w.trace ws ≡ ok (message (text json))
      → parse_message env json ≡ ok m
      → ((msg_round env ws agent w).0 ≡ done true) ⊎ ((msg_round env ws agent w).0 ≡ pending)
  unfolding msg_round receive_raw handle_raw
  msg_round-text w json m got parsed =
      rw (got, parsed) (swallowed (handle_edge_agent_message env m agent _))
    where
      swallowed :
          (p : Outcome (Unit {0}) × World)
          → ((continue (recover p (λ _. pure tt)) (λ _. pure true)).0 ≡ done true)
            ⊎ ((continue (recover p (λ _. pure tt)) (λ _. pure true)).0 ≡ pending)
      swallowed (done a, v) = inl refl
      swallowed (raised x, v) = inl refl
      swallowed (pending, v) = inr refl
