-- ===== src/Tunnel/Upward.antt =====
-- The bytes of a TCP connection, from the agent to the readers at the relay.
use http_network_relay.Prelude.{
  ℕ, ◌≡◌, ◌≢◌, refl, sym, ◌∙◌, subst, some, inl, inr, ◌⊎◌, List, [], ◌∷◌, ◌++◌, Text, text_key,
}
use http_network_relay.Prelude.Dict
use http_network_relay.Frame.Hex.{Bytes}
use http_network_relay.Messages.{Wire}
use http_network_relay.Relay.World.{World, Env, message}
use http_network_relay.Relay.Connection.Delivery.{Arrivals, payloads_for, IsSole}
use http_network_relay.Relay.MsgLoop.Multiplex.{Carries, handle_raw-Carries}
use http_network_relay.EdgeAgent.World.{EdgeEnv}
use http_network_relay.EdgeAgent.Tunnel.{Agree, frame_data-Carries}
use http_network_relay.Tunnel.{
  Tunnel, TunnelStep, read_and_send, handle, deliver, drop_it, elsewhere, TunnelReach, here, next,
  quiet_tunnel,
}
use http_network_relay.Relay.MsgLoop.{handle_raw}
use http_network_relay.Tunnel.{Spares, send_message}
use http_network_relay.Tunnel.Control.{handle_raw-Spares, drop-Spares}
use http_network_relay.Tunnel.Faithful.{
  BringsAll, nothing, data_first, control_first, IsFaithful, Spares-IsFaithful, read-IsFaithful,
  take-IsFaithful, control-IsFaithful, handled-IsFaithful, quiet-IsFaithful,
}
use http_network_relay.Tunnel.Filling.{live, dead, ownership, filled-IsFaithful}

module _ (edge : EdgeEnv) (env : Env) (agent id : Text) (address : ℕ)
    (agree : (j : Text) → Agree edge env j)
    (others : (w : World) → Spares address w (env.others w)) where
  Step-IsFaithful :
      {t u : Tunnel}
      → TunnelStep edge env agent address t u
      → IsFaithful env agent id address t
      → IsFaithful env agent id address u
  Step-IsFaithful (read_and_send m content wire uuid bytes framed) f =
      let (wire', framed', carried) =
        frame_data-Carries edge env m (agree m.connection_id) content uuid bytes in
      let same : wire' ≡ wire = cc (framed, framed') in
      read-IsFaithful env agent id address m.connection_id content wire
        (subst (λ x. Carries env m.connection_id content (message x)) same carried) f
  Step-IsFaithful {t} (send_message m control valid) f =
      control-IsFaithful env agent id address m (edge.to_relay.dump m) control valid
        (λ w. handle_raw-Spares env address others m (edge.to_relay.dump m) agent w control valid) f
  Step-IsFaithful {t} (handle wire rest e) f =
      by_first wire f.arrivals refl
        (subst (λ up. BringsAll env agent id address f.arrivals up) e f.carried)
    where
      by_first :
          (x : Wire) (arrivals : Arrivals)
          → f.arrivals ≡ arrivals
          → BringsAll env agent id address arrivals (x ∷ rest)
          → IsFaithful env agent id address
              (record t { up = rest; relay = (handle_raw env agent (message x) t.relay).1 })
      by_first x _ split (data_first {j} {payload} {arrivals = later} c more) =
          subst (λ r. IsFaithful env agent id address (record t { up = rest; relay = r.1 }))
            (sym (handle_raw-Carries env agent j payload (message x) t.relay c))
            (filled-IsFaithful env agent id address j payload later rest more f split)
      by_first _ arrivals split (control_first m json control valid c more) =
          handled-IsFaithful env agent id address arrivals rest _ (c t.relay) more f split
  Step-IsFaithful (deliver a n) f = take-IsFaithful env agent id address a n f
  Step-IsFaithful {t} (drop_it j) f =
      Spares-IsFaithful env agent id address ((drop-Spares env address others j).at t.relay) f
  Step-IsFaithful (elsewhere v s) f = Spares-IsFaithful env agent id address s f

  pub Reach-IsFaithful :
      {t u : Tunnel}
      → TunnelReach edge env agent address t u
      → IsFaithful env agent id address t
      → IsFaithful env agent id address u
  Reach-IsFaithful here f = f
  Reach-IsFaithful (next r s) f = Step-IsFaithful s (Reach-IsFaithful r f)

wires-cases : (up : List Wire) → (up ≡ []) ⊎ (up ≢ [])
wires-cases [] = inl refl
wires-cases (wire ∷ up) = inr (λ e. cc e)

pub nothing_missing :
    (env : Env) (agent id : Text) (address : ℕ) (t : Tunnel) (f : IsFaithful env agent id address t)
    → (f.missing ≡ [])
      ⊎ ((t.up ≢ []) ⊎ (Dict.lookup id t.relay.active_relayed_connections ≢ some address))
unfolding payloads_for
nothing_missing env agent id address t f = elim (ownership env agent id address t) [
  | live e ↦ elim (wires-cases t.up) [
    | inl none_left ↦ inl (
        f.on_its_way e
        ∙ unsent f.arrivals
            (subst (λ up. BringsAll env agent id address f.arrivals up) none_left f.carried))
    | inr n ↦ inr (inl n)
  ]
  | dead n ↦ inr (inr n)
]
  where
    unsent :
        (arrivals : Arrivals)
        → BringsAll env agent id address arrivals []
        → payloads_for id arrivals ≡ []
    unsent _ nothing = refl

-- Between the agent and the readers at the relay no byte of a connection is lost, doubled or put out
-- of order, whatever the tasks of the two sides do in between. If an object is the active connection
-- `id` and no other, with an empty buffer, then after any steps what the agent has read from the TCP
-- connection `id` is what was taken out of the object's buffer, then the buffer, then what is
-- missing; and nothing is missing unless messages are still on their way or the connection is no
-- longer active. Provided that the relay
-- validates what the agent dumps, and that the other tasks of the relay, during the awaits of a
-- handler, neither touch the buffer nor give the object to an id.
pub Reach-delivered :
    (edge : EdgeEnv) (env : Env) (agent id : Text) (address : ℕ) (w : World) (t : Tunnel)
    → ((j : Text) → Agree edge env j)
    → ((v : World) → Spares address v (env.others v))
    → IsSole id address w
    → (w.objects address).recv_buffer ≡ []
    → TunnelReach edge env agent address (quiet_tunnel w) t
    → (missing : Bytes) × (t.delivered address ++ ((t.relay.objects address).recv_buffer ++ missing)
        ≡ t.read id)
      × ((missing ≡ [])
          ⊎ ((t.up ≢ []) ⊎ (Dict.lookup id t.relay.active_relayed_connections ≢ some address)))
Reach-delivered edge env agent id address w t agree others s empty r =
    let f =
      Reach-IsFaithful edge env agent id address agree others r
        (quiet-IsFaithful env agent id address w s empty) in
    (f.missing, f.whole, nothing_missing env agent id address t f)
