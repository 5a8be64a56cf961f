-- ===== src/Relay/AccessClients/Opening.antt =====
-- Which access clients http_network_relay/network_relay.py gives a connection.
use http_network_relay.Prelude.{
  ℕ, ◌≡◌, refl, ◌∙◌, Bool, true, false, Option, none, some, Text, text_key, arith,
}
use http_network_relay.Prelude.Dict
use http_network_relay.Exception.{Exception}
use http_network_relay.Messages.{
  AtRStartMessage, EdgeAgentToRelayMessage, initiate_connection_ok, initiate_connection_error,
  error,
}
use http_network_relay.Relay.World.{
  WebSocket, tcp_connection_async, World, Relay, Env, close, Outcome, done, raised, pending, pure,
  continue, recover, try, perform,
}
use http_network_relay.Relay.AccessClients.Confirmed.{
  continue-Returned, IsConfirmed, ask-IsConfirmed,
}
use http_network_relay.Relay.Close.{ignore_closed}
use http_network_relay.Relay.Agents.{or_false}
use http_network_relay.Relay.Create.{
  add_connection, create, create_connection_async, create_over, match_response, request,
}
use http_network_relay.Relay.AccessClients.{
  open_client, open_permitted, open_registered, connect_client, after_create, refuse_client,
  report_error, value_error_message, send_to_client, close_bound,
}

-- Without a connection.
abbrev NoneOnly : Outcome (Option ℕ) × World → Type 0
NoneOnly p = (a : ℕ) (v : World) → p ≡ (done (some a), v) → ⊥

none-NoneOnly : {w : World} → NoneOnly (pure none w)
none-NoneOnly a v e = ground arith

continue-NoneOnly :
    {A : Type 0} (p : Outcome A × World) (f : A → Relay (Option ℕ))
    → ((a : A) (w : World) → NoneOnly (f a w))
    → NoneOnly (continue p f)
continue-NoneOnly (done a, x) f k = k a x
continue-NoneOnly (raised x, y) f k = λ a v e. ground arith
continue-NoneOnly (pending, y) f k = λ a v e. ground arith

-- The agent was asked for the connection `address`, and an OK for it came.
pub record IsAgreed (env : Env) (agent : Text) (m : AtRStartMessage) (address : ℕ) (u v : World)
    : Type 0 where
  pub own : WebSocket
  pub registered : Dict.lookup agent u.registered_agent_connections ≡ some own
  pub new : address ≡ u.next_object
  pub confirmed :
      IsConfirmed env own
        (request m.target_ip m.target_port m.protocol (env.uuid4 u.trace))
        (add_connection
          (env.uuid4 u.trace)
          tcp_connection_async
          own
          (or_false (Dict.lookup agent u.agent_connection_id_to_supports_binary))
          u).1
        v

-- The relay's permission hook allowed the client, its other hook named an agent, and this agent
-- was asked for the connection, for which an OK came.
pub record IsOpened (env : Env) (m : AtRStartMessage) (ws : WebSocket) (w : World) (address : ℕ)
    : Type 0 where
  pub allowed_in : World
  pub allowed : env.get_access_client_permission m ws w ≡ (done true, allowed_in)
  pub agent : Text
  pub named_in : World
  pub named :
      env.get_agent_connection_id_for_access_client m.connection_target allowed_in
      ≡ (done agent, named_in)
  pub created_in : World
  pub agreed : IsAgreed env agent m address named_in created_in

module _ (env : Env) where
  match-Agreed :
      (a : ℕ) (id : Text) (answer : EdgeAgentToRelayMessage) (u : World) (b : ℕ) (v : World)
      → match_response env a id answer u ≡ (done b, v)
      → (json : Text) × (answer ≡ initiate_connection_ok json) × (b ≡ a) × (u ≡ v)
  unfolding match_response
  match-Agreed a id (EdgeAgentToRelayMessage.start m) u b v h = ground arith
  match-Agreed a id (initiate_connection_error m j) u b v h = ground arith
  match-Agreed a id (initiate_connection_ok j) u b v h = (j, refl, cc h, cc h)
  match-Agreed a id (EdgeAgentToRelayMessage.tcp_data j t) u b v h = ground arith
  match-Agreed a id (EdgeAgentToRelayMessage.connection_reset j t) u b v h = ground arith
  match-Agreed a id EdgeAgentToRelayMessage.keep_alive u b v h = ground arith

  over-IsAgreed :
      (o : Option WebSocket) (agent : Text) (m : AtRStartMessage) (u v : World) (address : ℕ)
      → Dict.lookup agent u.registered_agent_connections ≡ o
      → create_over env o agent m.target_ip m.target_port m.protocol tcp_connection_async u
        ≡ (done address, v)
      → IsAgreed env agent m address u v
  unfolding add_connection
  over-IsAgreed none agent m u v address e h = ground arith
  over-IsAgreed (some own) agent m u v address e h =
      let r =
        continue-Returned _ (match_response env u.next_object (env.uuid4 u.trace)) address v h in
      let (json, ok, same, final) = match-Agreed _ _ r.result r.between address v r.then in
      record {
        own = own;
        registered = e;
        new = same;
        confirmed =
            ask-IsConfirmed env own
              (request m.target_ip m.target_port m.protocol (env.uuid4 u.trace)) json _ v
              (r.first ∙ rw (ok, final) refl);
      }

  refuse-NoneOnly :
      (bound : Option ℕ) (ws : WebSocket) (x : Exception) (w : World)
      → NoneOnly (refuse_client env bound ws x w)
  unfolding refuse_client
  refuse-NoneOnly bound ws x w = by_message (value_error_message x)
    where
      by_message : (o : Option Text) → NoneOnly (report_error env o bound ws x w)
      by_message none = λ a v e. ground arith
      by_message (some t) = continue-NoneOnly (send_to_client env ws (error t) w) _ (λ _ y.
          continue-NoneOnly (close_bound env bound y) _ (λ _ z.
            continue-NoneOnly (try (perform env (close ws)) ignore_closed z) _
              (λ _ _. none-NoneOnly)))

  replied-same :
      (ws : WebSocket) (address : ℕ) (w : World) (a : ℕ) (v : World)
      → after_create env (done address, w) ws ≡ (done (some a), v)
      → a ≡ address
  replied-same ws address w a v h = by_send (send_to_client env ws _ w) h
    where
      by_send :
          (p : Outcome (Unit {0}) × World)
          → recover (continue p (λ _. pure (some address))) (refuse_client env (some address) ws)
            ≡ (done (some a), v)
          → a ≡ address
      by_send (done u, x) e = ground arith
      by_send (raised y, x) e = absurd (refuse-NoneOnly (some address) ws y x a v e)
      by_send (pending, x) e = ground arith

  created-IsAgreed :
      (agent : Text) (m : AtRStartMessage) (ws : WebSocket) (u v : World) (address : ℕ)
      → connect_client env agent m ws u ≡ (done (some address), v)
      → (x : World) × IsAgreed env agent m address u x
  unfolding connect_client create
  created-IsAgreed agent m ws u v address h =
      by_outcome (create_connection_async env agent m.target_ip m.target_port m.protocol u) refl h
    where
      by_outcome :
          (p : Outcome ℕ × World)
          → create_connection_async env agent m.target_ip m.target_port m.protocol u ≡ p
          → after_create env p ws ≡ (done (some address), v)
          → (x : World) × IsAgreed env agent m address u x
      by_outcome (done a, x) e h' = (
        x,
        over-IsAgreed _ agent m u x address refl (e ∙ rw (replied-same ws a x address v h') refl),
      )
      by_outcome (raised y, x) e h' = absurd (refuse-NoneOnly none ws y x address v h')
      by_outcome (pending, x) e h' = ground arith

  -- Only what the hooks allow and what is answered by an OK is connected: if an access client gets a
  -- connection, then the permission hook allowed its start message, the agent that the other hook
  -- names for its target was registered, the request for the client's target address was sent over
  -- this agent's WebSocket, and an OK for the new connection's id was in its answer queue, made
  -- empty before, right after this send or when the relay had waited for it.
  pub open_client-IsOpened :
      (m : AtRStartMessage) (ws : WebSocket) (w v : World) (address : ℕ)
      → open_client env m ws w ≡ (done (some address), v)
      → IsOpened env m ws w address
  unfolding open_client
  open_client-IsOpened m ws w v address h =
      let r =
        continue-Returned (env.get_access_client_permission m ws w)
          (λ allowed. open_permitted env allowed m ws) (some address) v h in
      by_permission r.result r.between r.first r.then
    where
      by_registration :
          (b : Bool) (agent : Text) (y : World)
          → open_registered env b agent m ws y ≡ (done (some address), v)
          → (x : World) × IsAgreed env agent m address y x
      by_registration true agent y e = created-IsAgreed agent m ws y v address e
      by_registration false agent y e = absurd (
          continue-NoneOnly (send_to_client env ws _ y) _
            (λ _ z. continue-NoneOnly (perform env (close ws) z) _ (λ _ _. none-NoneOnly)) address v
            e)

      by_permission :
          (b : Bool) (x : World)
          → env.get_access_client_permission m ws w ≡ (done b, x)
          → open_permitted env b m ws x ≡ (done (some address), v)
          → IsOpened env m ws w address
      by_permission false x allowed e =
          absurd (continue-NoneOnly (perform env (close ws) x) _ (λ _ _. none-NoneOnly) address v e)
      by_permission true x allowed e =
          let r =
            continue-Returned (env.get_agent_connection_id_for_access_client m.connection_target x)
              _ (some address) v e in
          let (created_in, agreed) = by_registration _ r.result r.between r.then in
          record {
            allowed_in = x;
            allowed = allowed;
            agent = r.result;
            named_in = r.between;
            named = r.first;
            created_in = created_in;
            agreed = agreed;
          }
