-- ===== src/Relay/Close/Returns.antt =====
-- The teardown in http_network_relay/network_relay.py returns, over WebSockets that fail only
-- because they are gone.
use http_network_relay.Prelude.{
  ◌≡◌, refl, ap, ◌∙◌, true, Option, none, some, List, ◌∷◌, Text, text_key, nat_key, arith,
  Option-cases, inl, inr,
}
use http_network_relay.Prelude.Dict
use http_network_relay.Exception.{Exception, runtime_error, websocket_disconnect}
use http_network_relay.Relay.World.{
  WebSocket, World, Relay, Env, Call, close, acquire_lock, send_text, Outcome, done, recover,
  continue, perform,
}
use http_network_relay.Relay.Close.{
  agent_send_lock, drop_relayed_connection, ignore_closed, ignore_gone, send_locked,
  close_access_client, close_relayed_connection, is_closed_error,
}

-- A run that returned, and left a state with `Q`.
pub record Ends (p : Outcome (Unit {0}) × World) (Q : World → Type 0) : Type 0 where
  pub final : World
  pub returns : p ≡ (done tt, final)
  pub holds : Q final

pub Ends-continue :
    (p : Outcome (Unit {0}) × World) (n : Relay (Unit {0})) {P Q : World → Type 0}
    → Ends p P
    → ((v : World) → P v → p ≡ (done tt, v) → Ends (n v) Q)
    → Ends (continue p (λ _. n)) Q
Ends-continue p n e k =
    let f = k e.final e.holds e.returns in
    record {
      final = f.final;
      returns = ap (λ q. continue q (λ _. n)) e.returns ∙ f.returns;
      holds = f.holds;
    }

-- A `WebSocketDisconnect`, and a `RuntimeError` that says that the socket was closed.
pub data IsGone : Exception → Type 0 where
  disconnect : IsGone websocket_disconnect
  closed : {m : Text} → is_closed_error m ≡ true → IsGone (runtime_error m)

-- WebSockets that fail in no other way: a lock is granted, a send succeeds or finds the socket
-- gone, and a close succeeds or finds it closed.
pub record IsPolite (env : Env) : Type 0 where
  pub grants : (h : List Call) (ws : WebSocket) → env.answer h (acquire_lock ws) ≡ none
  pub sends :
      (h : List Call) (ws : WebSocket) (t : Text) (x : Exception)
      → env.answer h (send_text ws t) ≡ some x
      → IsGone x
  pub closes :
      (h : List Call) (ws : WebSocket) (x : Exception)
      → env.answer h (close ws) ≡ some x
      → (m : Text) × (x ≡ runtime_error m) × (is_closed_error m ≡ true)

abbrev pub Anything : World → Type 0
Anything w = Unit {0}

module _ {env : Env} (polite : IsPolite env) where
  closed_is_ignored :
      (m : Text) (w : World)
      → is_closed_error m ≡ true
      → ignore_closed (runtime_error m) w ≡ (done tt, w)
  unfolding ignore_closed
  closed_is_ignored m w e = rw e

  gone_is_ignored : (x : Exception) (w : World) → IsGone x → ignore_gone x w ≡ (done tt, w)
  unfolding ignore_gone
  gone_is_ignored x w disconnect = refl
  gone_is_ignored x w (closed e) = rw e

  try-Ends :
      (c : Call) (handler : Exception → Relay (Unit {0})) (w : World)
      → ((x : Exception) (v : World) → env.answer w.trace c ≡ some x → handler x v ≡ (done tt, v))
      → Ends (recover (perform env c w) handler) Anything
  unfolding perform
  try-Ends c handler w ignores = elim (Option-cases (env.answer w.trace c)) [
    | inl e ↦ record {
      final = env.others (record w { trace = c ∷ w.trace });
      returns = rw e;
      holds = tt;
    }
    | inr (x, e) ↦ record {
      final = env.others (record w { trace = c ∷ w.trace });
      returns = rw e (ignores x _ e);
      holds = tt;
    }
  ]

  -- The state in which the lock is held.
  locked : WebSocket → World → World
  locked ws w =
      let v = (agent_send_lock ws w).1 in
      env.others (record v { trace = acquire_lock ws ∷ v.trace })

  lock_returns :
      (ws : WebSocket) (w : World) → agent_send_lock ws w ≡ (done tt, (agent_send_lock ws w).1)
  unfolding agent_send_lock
  lock_returns ws w = ground arith

  send_locked-eq :
      (ws : WebSocket) (c : Call) (w : World) → send_locked env ws c w ≡ perform env c (locked ws w)
  unfolding send_locked locked perform
  send_locked-eq ws c w = rw (lock_returns ws w, polite.grants)

  send-Ends :
      (ws : WebSocket) (t : Text) (w : World)
      → Ends (recover (send_locked env ws (send_text ws t) w) ignore_gone) Anything
  send-Ends ws t w = rw (send_locked-eq ws (send_text ws t) w) (
      try-Ends _ ignore_gone (locked ws w) (λ x v e. gone_is_ignored x v (polite.sends _ ws t x e)))

  client-Ends :
      (o : Option WebSocket) (w : World)
      → Ends (recover (close_access_client env o w) ignore_closed) Anything
  unfolding close_access_client
  client-Ends none w = record { final = w; returns = refl; holds = tt }
  client-Ends (some ws) w =
      try-Ends (close ws) ignore_closed w (λ x v e. shut x v (polite.closes _ ws x e))
    where
      shut :
          (x : Exception) (v : World)
          → (m : Text) × (x ≡ runtime_error m) × (is_closed_error m ≡ true)
          → ignore_closed x v ≡ (done tt, v)
      shut x v (m, e, c) = rw e (closed_is_ignored m v c)

  drop-Ends :
      (id : Text) (w : World)
      → Ends
          (drop_relayed_connection id w)
          (λ v. Dict.lookup id v.active_relayed_connections ≡ none)
  unfolding drop_relayed_connection
  drop-Ends id w = record {
    final = (drop_relayed_connection id w).1;
    returns = ground arith;
    holds = ground (arith, Dict.lookup-erase id id w.active_relayed_connections, Dict.eq_self id);
  }

  -- `close_relayed_connection` returns, and the connection is no longer active.
  pub close-Ends :
      (id : Text) (ws : WebSocket) (w : World)
      → Ends
          (close_relayed_connection env id ws w)
          (λ v. Dict.lookup id v.active_relayed_connections ≡ none)
  unfolding close_relayed_connection
  close-Ends id ws w = Ends-continue _ _ (send-Ends ws _ w) (λ u _ _.
      Ends-continue _ _ (client-Ends (Dict.lookup id u.active_access_client_connections) u)
        (λ v _ _. drop-Ends id v))
