-- ===== src/Relay/AccessClients/Leaving.antt =====
-- What an access client leaves behind in http_network_relay/network_relay.py.
use http_network_relay.Prelude.{
  ℕ, ◌≡◌, refl, ◌∙◌, subst, List, none, some, ◌∷◌, Text, text_key, arith, Option-cases, inl, inr,
}
use http_network_relay.Prelude.Dict
use http_network_relay.Exception.{Exception, timeout_error}
use http_network_relay.Relay.World.{
  WebSocket, tcp_connection_async, World, Relay, Env, Call, close, join_reader, cancel_reader, try,
  recover, perform, pure, ◌>>◌,
}
use http_network_relay.Relay.Guarantee.{Rely, Guarantee}
use http_network_relay.Relay.Close.{
  agent_send_lock, drop_relayed_connection, wake_readers, access_client_connection_close,
  close_relayed_connection, ignore_closed,
}
use http_network_relay.Relay.Close.Steps.{close-Guarantee}
use http_network_relay.Relay.Close.Returns.{Ends, Ends-continue, IsPolite, close-Ends}
use http_network_relay.Relay.Connection.{close_connection}
use http_network_relay.Relay.AccessClients.{linger, await_reader, leave_client}

-- The connection `id` is neither active nor an access client's.
pub record IsGone (id : Text) (w : World) : Type 0 where
  pub inactive : Dict.lookup id w.active_relayed_connections ≡ none
  pub no_client : Dict.lookup id w.active_access_client_connections ≡ none

-- What is gone of a connection does not come back.
pub record NoReturn (id : Text) (u v : World) : Type 0 where
  pub inactive :
      Dict.lookup id u.active_relayed_connections ≡ none
      → Dict.lookup id v.active_relayed_connections ≡ none
  pub no_client :
      Dict.lookup id u.active_access_client_connections ≡ none
      → Dict.lookup id v.active_access_client_connections ≡ none

module _ (id : Text) where
  NoReturn-Rely :
      (env : Env) → ((w : World) → NoReturn id w (env.others w)) → Rely env (NoReturn id)
  NoReturn-Rely env quiet = record {
    same = λ w. record { inactive = λ h. h; no_client = λ h. h };
    both = λ p q. record {
      inactive = λ h. q.inactive (p.inactive h);
      no_client = λ h. q.no_client (p.no_client h);
    };
    called = λ w c. record { inactive = λ h. h; no_client = λ h. h };
    others = quiet;
  }

  lock-NoReturn : (ws : WebSocket) → Guarantee (NoReturn id) (agent_send_lock ws)
  unfolding agent_send_lock
  lock-NoReturn ws = record {
    at = λ w. record { inactive = λ h. ground arith; no_client = λ h. ground arith };
  }

  drop-NoReturn : (j : Text) → Guarantee (NoReturn id) (drop_relayed_connection j)
  unfolding drop_relayed_connection wake_readers
  drop-NoReturn j = record {
    at = λ w. record {
      inactive = λ h. ground (arith, Dict.lookup-erase id j w.active_relayed_connections);
      no_client = λ h. ground arith;
    };
  }

-- A reader that is awaited is done, or is not within the time: it raises nothing.
abbrev pub IsCalmReader : Env → WebSocket → Type 0
IsCalmReader env ws =
    (h : List Call) (x : Exception) → env.answer h (join_reader ws) ≡ some x → x ≡ timeout_error

module _ {env : Env} (polite : IsPolite env) (id : Text) (ws : WebSocket)
    (calm : IsCalmReader env ws) (quiet : (w : World) → NoReturn id w (env.others w)) where
  performed-IsGone :
      (c : Call) (w : World)
      → IsGone id w
      → IsGone id (env.others (record w { trace = c ∷ w.trace }))
  performed-IsGone c w g =
      let n = quiet (record w { trace = c ∷ w.trace }) in
      record { inactive = n.inactive g.inactive; no_client = n.no_client g.no_client }

  -- A call whose exceptions are handled without leaving the connection's absence.
  try-IsGone :
      (c : Call) (handler : Exception → Relay (Unit {0})) (w : World)
      → IsGone id w
      → ((x : Exception) (v : World)
          → env.answer w.trace c ≡ some x
          → IsGone id v
          → Ends (handler x v) (IsGone id))
      → Ends (recover (perform env c w) handler) (IsGone id)
  unfolding perform
  try-IsGone c handler w g handles = elim (Option-cases (env.answer w.trace c)) [
    | inl e ↦ record {
      final = env.others (record w { trace = c ∷ w.trace });
      returns = rw e;
      holds = performed-IsGone c w g;
    }
    | inr (x, e) ↦
        let h =
          handles x (env.others (record w { trace = c ∷ w.trace })) e (performed-IsGone c w g) in
        record { final = h.final; returns = rw e h.returns; holds = h.holds }
  ]

  shut-IsGone :
      (w : World)
      → IsGone id w
      → Ends (recover (perform env (close ws) w) ignore_closed) (IsGone id)
  unfolding ignore_closed
  shut-IsGone w g = try-IsGone (close ws) ignore_closed w g (λ x v e g'.
      let (m, is_m, says) = polite.closes w.trace ws x e in
      record { final = v; returns = rw (is_m, ignore_closed, says) refl; holds = g' })

  join-IsGone : (w : World) → IsGone id w → Ends (await_reader env ws w) (IsGone id)
  unfolding await_reader
  join-IsGone w g = try-IsGone (join_reader ws) (linger env ws) w g (λ x v e g'.
      let again =
        try-IsGone (join_reader ws) (λ _. pure tt) (record v { trace = cancel_reader ws ∷ v.trace })
          (record { inactive = g'.inactive; no_client = g'.no_client })
          (λ y u f g''. record { final = u; returns = refl; holds = g'' }) in
      record {
        final = again.final;
        returns = rw (calm w.trace x e) again.returns;
        holds = again.holds;
      })

  closed-IsGone :
      (agent : WebSocket) (w : World)
      → Dict.lookup id w.active_access_client_connections ≡ none
      → Ends (close_relayed_connection env id agent w) (IsGone id)
  closed-IsGone agent w no_client =
      let e = close-Ends polite id agent w in
      record {
        final = e.final;
        returns = e.returns;
        holds = record {
          inactive = e.holds;
          no_client =
              (subst (λ p. NoReturn id w p.1) e.returns
                  ((close-Guarantee (NoReturn-Rely id env quiet) (lock-NoReturn id)
                      (drop-NoReturn id) id agent).at
                    w)).no_client
                no_client;
        };
      }

  -- After the loop of an access client the relay lets go of it: the method returns, over sockets
  -- that fail only by being gone, a reader that raises nothing, and other tasks that do not bring
  -- the connection back; and then the connection is neither active nor an access client's, whether
  -- the reader was done in time or had to be cancelled.
  pub leave_client-IsGone :
      (address : ℕ) (w : World)
      → (w.objects address).id ≡ id
      → (w.objects address).connection_class ≡ tcp_connection_async
      → Ends (leave_client env ws id address w) (IsGone id)
  unfolding leave_client access_client_connection_close close_connection
  leave_client-IsGone address w named class =
      let u : World = record w {
        active_access_client_connections = Dict.erase id w.active_access_client_connections;
      } in
      let agent = (w.objects address).agent_connection in
      let closed =
        closed-IsGone agent u
          (Dict.lookup-erase id id w.active_access_client_connections ∙ rw (Dict.eq_self id)) in
      rw (class, named)
        (Ends-continue (close_relayed_connection env id agent u)
          (try (perform env (close ws)) ignore_closed >> await_reader env ws) closed
          (λ v g _.
            Ends-continue (recover (perform env (close ws) v) ignore_closed) (await_reader env ws)
              (shut-IsGone v g) (λ x g' _. join-IsGone x g')))
