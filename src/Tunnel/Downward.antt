-- ===== src/Tunnel/Downward.antt =====
-- The bytes of a TCP connection, from the relay to the stream of the agent.
use http_network_relay.Prelude.{
  ◌≡◌, ◌≢◌, ◌⊎◌, refl, sym, subst, some, [], ◌∷◌, ◌++◌, Text, ℕ, List, text_key,
}
use http_network_relay.Prelude.Dict
use http_network_relay.Frame.Hex.{Bytes}
use http_network_relay.Exception.{ok}
use http_network_relay.Messages.{text}
use http_network_relay.Tunnel.Orders.{order-KeepsStream}
use http_network_relay.Relay.World.{Env, WebSocket}
use http_network_relay.Relay.Connection.Delivery.{Arrivals}
use http_network_relay.EdgeAgent.World.{Agent, EdgeEnv, Stream, Call}
use http_network_relay.EdgeAgent.Session.{handle_wire}
use http_network_relay.EdgeAgent.Arrival.{AgentAgrees, send_framed-Arrives}
use http_network_relay.EdgeAgent.Writing.{written}
use http_network_relay.Tunnel.Downlink.{
  Downlink, KeepsStream, DownStep, send, send_message, handle, elsewhere, DownReach, here, next,
  quiet_link,
}
use http_network_relay.Tunnel.Kept.{
  BringsAll, data_first, order_first, IsKept, KeepsStream-IsKept, send-IsKept, order-IsKept,
  handled-IsKept, quiet-IsKept,
}
use http_network_relay.Tunnel.Writing.{wrote-IsKept, nothing_due}

module _ (edge : EdgeEnv) (env : Env) (agree : (j : Text) → AgentAgrees env edge j) (ws : WebSocket)
    (id : Text) (stream : Stream) (others : (a : Agent) → KeepsStream stream a (edge.others a))
    (fresh : (h : List Call) (ip : Text) (port : ℕ) → edge.opened h ip port ≢ ok stream) where
  Step-IsKept :
      {t u : Downlink}
      → DownStep edge env agree ws stream t u
      → IsKept edge env agree ws id stream others t
      → IsKept edge env agree ws id stream others u
  Step-IsKept (send c content uuid bytes) f =
      let arrives = send_framed-Arrives env edge c content (agree c.id) uuid bytes in
      send-IsKept edge env agree ws id stream others c.id content arrives.wire (arrives.handled ws)
        f
  Step-IsKept (send_message m order valid) f =
      order-IsKept edge env agree ws id stream others (text (env.to_agent.dump m))
        (λ a. order-KeepsStream edge stream others fresh m (env.to_agent.dump m) ws a order valid) f
  Step-IsKept {t} (handle wire rest e) f =
      by_first f.arrivals refl
        (subst (λ down. BringsAll edge env agree ws id stream others f.arrivals down) e f.brought)
    where
      by_first :
          (arrivals : Arrivals)
          → f.arrivals ≡ arrivals
          → BringsAll edge env agree ws id stream others arrivals (wire ∷ rest)
          → IsKept edge env agree ws id stream others
              (record t { agent = (handle_wire edge ws wire t.agent).1; down = rest })
      by_first _ split (data_first {j} {content} {arrivals = later} b more) =
          subst
            (λ p. IsKept edge env agree ws id stream others (record t { agent = p.1; down = rest }))
            (sym (b t.agent))
            (wrote-IsKept edge env agree ws id stream others j content later rest more f split)
      by_first arrivals split (order_first k more) =
          handled-IsKept edge env agree ws id stream others arrivals rest _ (k t.agent) more f split
  Step-IsKept (elsewhere b k) f = KeepsStream-IsKept edge env agree ws id stream others k f

  Reach-IsKept :
      {t u : Downlink}
      → DownReach edge env agree ws stream t u
      → IsKept edge env agree ws id stream others t
      → IsKept edge env agree ws id stream others u
  Reach-IsKept here f = f
  Reach-IsKept (next r s) f = Step-IsKept s (Reach-IsKept r f)

-- From the relay to the target no byte of a connection is lost, doubled or put out of order,
-- whatever the tasks of the two sides do in between. If a stream of the agent is that of the
-- connection `id` and of no other, and nothing was written to it, then after any steps what the
-- connection's objects at the relay were told to send is what was written to the stream and then
-- what is missing; and nothing is missing unless messages are still on their way or the stream is no
-- longer the connection's. Provided that the agent validates what the relay dumps, that the
-- other tasks of the agent do not write to the stream or give it to an id, and that
-- `asyncio.open_connection` does not return this stream again.
pub Reach-written :
    (edge : EdgeEnv) (env : Env) (ws : WebSocket) (id : Text) (stream : Stream) (a : Agent)
    (t : Downlink) (agree : (j : Text) → AgentAgrees env edge j)
    → ((b : Agent) → KeepsStream stream b (edge.others b))
    → ((h : List Call) (ip : Text) (port : ℕ) → edge.opened h ip port ≢ ok stream)
    → ((j : Text) → Dict.lookup j a.active_connections ≡ some stream → j ≡ id)
    → written stream a.trace ≡ []
    → DownReach edge env agree ws stream (quiet_link a) t
    → (missing : Bytes) × (written stream t.agent.trace ++ missing ≡ t.given id)
      × ((missing ≡ [])
          ⊎ ((t.down ≢ []) ⊎ (Dict.lookup id t.agent.active_connections ≢ some stream)))
Reach-written edge env ws id stream a t agree others fresh only empty r =
    let f =
      Reach-IsKept edge env agree ws id stream others fresh r
        (quiet-IsKept edge env agree ws id stream others a only empty) in
    (f.missing, f.whole, nothing_due edge env agree ws id stream others t f)
