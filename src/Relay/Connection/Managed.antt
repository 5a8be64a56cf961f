-- ===== src/Relay/Connection/Managed.antt =====
-- The connection objects of http_network_relay/network_relay.py as context managers.
use http_network_relay.Prelude.{ℕ, ◌≡◌, ◌≢◌, refl, ap, ◌∙◌, none, Text, text_key}
use http_network_relay.Prelude.Dict
use http_network_relay.Relay.World.{
  World, Relay, Env, tcp_connection_async, Outcome, done, raised, pending, pure, fail, continue,
}
use http_network_relay.Relay.Close.Returns.{IsPolite, close-Ends}
use http_network_relay.Relay.Connection.{close_connection}

module _ (env : Env) {A : Type 0} where
  -- `__exit__` and `__aexit__`: they close, and what the body returned or raised passes.
  abbrev pub exit : ℕ → Outcome A × World → Outcome A × World
  exit address (done a, w) = continue (close_connection env address w) (λ _. pure a)
  exit address (raised x, w) = continue (close_connection env address w) (λ _. fail x)
  exit address (pending, w) = (pending, w)

  -- `with connection:` and `async with connection:`, with a body
  unfoldable pub with_connection : ℕ → Relay A → Relay A
  with_connection address body w = exit address (body w)

-- However the body of `async with connection:` ends, the connection is closed: if the body returns
-- or raises, over sockets that fail only by being gone, then so does the whole, with the same result
-- or exception, and the connection is no longer active.
pub with_connection-closes :
    {env : Env} {A : Type 0} (address : ℕ) (body : Relay A) (id : Text) (result : Outcome A)
    (w v : World)
    → IsPolite env
    → body w ≡ (result, v)
    → result ≢ pending
    → (v.objects address).id ≡ id
    → (v.objects address).connection_class ≡ tcp_connection_async
    → (u : World) × (with_connection env address body w ≡ (result, u))
      × (Dict.lookup id u.active_relayed_connections ≡ none)
unfolding with_connection close_connection
with_connection-closes {env} {A} address body id result w v polite b ends named class =
    let e = close-Ends polite id (v.objects address).agent_connection v in
    (e.final, ap (exit env address) b ∙ by_result result ends, e.holds)
  where
    closes :
        close_connection env address v
        ≡ (done tt, (close-Ends polite id (v.objects address).agent_connection v).final)
    closes = rw (class, named) (close-Ends polite id (v.objects address).agent_connection v).returns

    by_result :
        (result : Outcome A)
        → result ≢ pending
        → exit env address (result, v)
          ≡ (result, (close-Ends polite id (v.objects address).agent_connection v).final)
    by_result (done a) n = rw closes refl
    by_result (raised x) n = rw closes refl
    by_result pending n = absurd (n refl)
