-- ===== src/EdgeAgent/Main.antt =====
-- `connect_to_server` with its `async with`, its `keep_alive`, and one round of the `while True` of
-- `async_main`, all of http_network_relay/edge_agent.py.
use http_network_relay.Prelude.{
  ℕ, ◌≡◌, refl, subst, Bool, true, false, Option, none, some, ◌∷◌, Text, nat_eqb, if◌then◌else◌,
}
use http_network_relay.Exception.{Exception, connection_closed}
use http_network_relay.Messages.{EdgeAgentToRelayMessage}
use http_network_relay.Relay.World.{WebSocket, Outcome, done, raised, pending}
use http_network_relay.EdgeAgent.World.{
  close_websocket, connect, sleep, Agent, Edge, EdgeEnv, pure, fail, lift, try, continue, ◌>>=◌,
  ◌>>◌, finally, perform,
}
use http_network_relay.EdgeAgent.Streams.{send_message}
use http_network_relay.EdgeAgent.Session.{session, disconnect, delay_now, delay_next}
use http_network_relay.EdgeAgent.Reconnect.{InRange, delay_now-InRange, delay_next-InRange}

-- The local variables of `async_main`.
pub record Main : Type 0 where
  pub connection_delay : ℕ
  pub last_connection_attempt_time : ℕ
  pub last_error : Option Text

-- Before the first attempt.
abbrev pub start_main : Main
start_main = record { connection_delay = 1; last_connection_attempt_time = 0; last_error = none }

module _ (env : EdgeEnv) where
  abbrev open_websocket : Edge WebSocket
  open_websocket w =
      lift (env.connected w.trace) (env.others (record w { trace = connect ∷ w.trace }))

  -- `async with connect(…)` closes the WebSocket when its body is left.
  abbrev within : ℕ → Option Text → WebSocket → Edge (Unit {0})
  within rounds last_error ws w =
      finally (session env rounds ws last_error w) (perform env (close_websocket ws))

  unfoldable pub connect_to_server : ℕ → Option Text → Edge (Unit {0})
  connect_to_server rounds last_error = open_websocket >>= within rounds last_error

  -- The `except` clauses around `connect_to_server`; the result is `last_error` from then on.
  abbrev pub attempted : Outcome (Unit {0}) × Agent → Option Text → Outcome (Option Text) × Agent
  attempted (done u, w) last_error = (done last_error, w)
  attempted (raised x, w) last_error = (done (some (env.str x)), w)
  attempted (pending, w) last_error = (pending, w)

  -- From the reading of the clock on. `time.sleep` blocks, so no other task runs.
  unfoldable pub pause : Main → Option Text → Edge Main
  pause s last_error w =
      let d = delay_now (env.time w.trace) s.last_connection_attempt_time s.connection_delay in
      let slept : Agent = record w { trace = sleep d ∷ w.trace } in
      (
        done (record {
          connection_delay = delay_next d;
          last_connection_attempt_time = env.time slept.trace;
          last_error = last_error;
        }),
        slept,
      )

  unfoldable pub main_round : ℕ → Main → Edge Main
  unfolding connect_to_server pause
  main_round rounds s = do
    last_error ← (λ w. attempted (connect_to_server rounds s.last_error w) s.last_error)
    disconnect env
    env.on_connection_closed
    pause s last_error

  -- `keep_alive`: one round after the sleep; the result says whether it goes on.
  abbrev keep_alive_ends : Exception → Edge Bool
  keep_alive_ends connection_closed = pure false
  keep_alive_ends x = fail x

  abbrev keep_alive_over : Option WebSocket → WebSocket → Edge Bool
  keep_alive_over none ws = pure false
  keep_alive_over (some own) ws =
      if nat_eqb own ws
      then try (do send_message env ws EdgeAgentToRelayMessage.keep_alive; pure true)
          keep_alive_ends
      else pure false

  unfoldable pub keep_alive_round : WebSocket → Edge Bool
  keep_alive_round ws w = let v = env.others w in keep_alive_over v.websocket ws v

  -- The next attempt's delay follows from a sleep in range, which was the last call.
  pub record HasSlept (s : Main) (v : Agent) : Type 0 where
    pub before : Agent
    pub delay : ℕ
    pub in_range : InRange delay
    pub slept : v ≡ record before { trace = sleep delay ∷ before.trace }
    pub next : s.connection_delay ≡ delay_next delay
    pub next_in_range : InRange s.connection_delay

  -- `HasSlept`, where the run has come to the next attempt.
  abbrev Slept : Outcome Main × Agent → Type 0
  Slept (done s, v) = HasSlept s v
  Slept (raised x, v) = Unit {0}
  Slept (pending, v) = Unit {0}

  continue-Slept :
      {A : Type 0} (p : Outcome A × Agent) (f : A → Edge Main)
      → ((a : A) (w : Agent) → Slept (f a w))
      → Slept (continue p f)
  continue-Slept (done a, w) f h = h a w
  continue-Slept (raised x, w) f h = tt
  continue-Slept (pending, w) f h = tt

  pause-Slept :
      (s : Main) (e : Option Text) (w : Agent) → InRange s.connection_delay → Slept (pause s e w)
  unfolding pause
  pause-Slept s e w h =
      let d =
        delay_now-InRange (env.time w.trace) s.last_connection_attempt_time s.connection_delay h in
      record {
        before = w;
        delay = delay_now (env.time w.trace) s.last_connection_attempt_time s.connection_delay;
        in_range = d;
        slept = refl;
        next = refl;
        next_in_range = delay_next-InRange _ d;
      }

  main_round-Slept :
      (rounds : ℕ) (s : Main) (w : Agent)
      → InRange s.connection_delay
      → Slept (main_round rounds s w)
  unfolding main_round
  main_round-Slept rounds s w h =
      continue-Slept (attempted (connect_to_server rounds s.last_error w) s.last_error)
        (λ e. disconnect env >> (env.on_connection_closed >> pause s e))
        (λ e w1.
          continue-Slept (disconnect env w1) (λ _. env.on_connection_closed >> pause s e)
            (λ u w2.
              continue-Slept (env.on_connection_closed w2) (λ _. pause s e)
                (λ u w3. pause-Slept s e w3 h)))

  -- A round of `async_main` that comes to the next attempt, however the connection ended, has slept
  -- last of all between 1 and 60 seconds, and the delay that it leaves for the next round is twice
  -- as long, up to 60 seconds, so in the same range.
  pub main_round-HasSlept :
      (rounds : ℕ) (s s' : Main) (w v : Agent)
      → InRange s.connection_delay
      → main_round rounds s w ≡ (done s', v)
      → HasSlept s' v
  main_round-HasSlept rounds s s' w v h x = subst Slept x (main_round-Slept rounds s w h)
