-- ===== src/Tunnel/Drained.antt =====
-- The bytes of a TCP connection all come to the readers at the relay, if the relay gets to handle the
-- agent's messages and a reader to read.
use http_network_relay.Prelude.{
  ℕ, true, ◌≡◌, ◌≢◌, ◌⊎◌, refl, sym, ap, ◌∙◌, some, inl, inr, List, [], ◌∷◌, ◌++◌, append-nil, Text,
  text_key, length, take, take_all, arith,
}
use http_network_relay.Prelude.Dict
use http_network_relay.Exception.{ok}
use http_network_relay.Messages.{EdgeAgentToRelayMessage, Wire, text}
use http_network_relay.Relay.World.{World, Env, message, update, done, pending}
use http_network_relay.Relay.Connection.{take_bytes}
use http_network_relay.Relay.Connection.Delivery.{Arrivals, IsSole}
use http_network_relay.Relay.MsgLoop.{handle_raw}
use http_network_relay.EdgeAgent.World.{EdgeEnv}
use http_network_relay.EdgeAgent.Tunnel.{Agree}
use http_network_relay.Tunnel.{
  Tunnel, TunnelReach, next, handle, deliver, quiet_tunnel, Spares, IsControl,
}
use http_network_relay.Tunnel.Faithful.{
  IsFaithful, quiet-IsFaithful, BringsAll, nothing, data_first, control_first,
}
use http_network_relay.Tunnel.Control.{handle_raw-outcome}
use http_network_relay.Relay.MsgLoop.Multiplex.{handle_raw-Carries}
use http_network_relay.Tunnel.Upward.{Reach-IsFaithful, nothing_missing}

module _ (edge : EdgeEnv) (env : Env) (agent : Text) (address : ℕ) where
  -- Nothing happens but that the relay handles the next message, after which its loop goes on, and
  -- that readers take bytes.
  pub data Progress (t : Tunnel) : Tunnel → Type 0 where
    stays : Progress t t
    handles :
        {u : Tunnel} (wire : Wire) (rest : List Wire)
        → u.up ≡ wire ∷ rest
        → (handle_raw env agent (message wire) u.relay).0 ≡ done true
        → Progress t u
        → Progress t
            (record u { up = rest; relay = (handle_raw env agent (message wire) u.relay).1 })
    reads :
        {u : Tunnel} (n : ℕ)
        → Progress t u
        → Progress t (record u {
          relay = (take_bytes address n u.relay).1;
          delivered =
              update u.delivered address
                (u.delivered address ++ take n (u.relay.objects address).recv_buffer);
        })

  Progress-both : {t u v : Tunnel} → Progress t u → Progress u v → Progress t v
  Progress-both p stays = p
  Progress-both p (handles wire rest e on q) = handles wire rest e on (Progress-both p q)
  Progress-both p (reads n q) = reads n (Progress-both p q)

  Progress-Reach :
      {t u v : Tunnel}
      → TunnelReach edge env agent address t u
      → Progress u v
      → TunnelReach edge env agent address t v
  Progress-Reach r stays = r
  Progress-Reach r (handles wire rest e on p) = next (Progress-Reach r p) (handle wire rest e)
  Progress-Reach r (reads n p) = next (Progress-Reach r p) (deliver address n)

  -- The next message is not data, and its handler stays suspended.
  pub record IsSuspended (t : Tunnel) : Type 0 where
    pub m : EdgeAgentToRelayMessage
    pub json : Text
    pub rest : List Wire
    pub control : IsControl m
    pub first : t.up ≡ text json ∷ rest
    pub valid : env.from_agent.validate json ≡ ok m
    pub suspended : (handle_raw env agent (message (text json)) t.relay).0 ≡ pending

  -- The relay handles all that is on its way, or comes to a handler that stays suspended.
  record Handled (t : Tunnel) : Type 0 where
    final : Tunnel
    reached : Progress t final
    ended : (final.up ≡ []) ⊎ IsSuspended final
    same_read : final.read ≡ t.read

  then-Handled :
      (wire : Wire) (rest : List Wire) (t : Tunnel)
      → t.up ≡ wire ∷ rest
      → (handle_raw env agent (message wire) t.relay).0 ≡ done true
      → Handled (record t { up = rest; relay = (handle_raw env agent (message wire) t.relay).1 })
      → Handled t
  then-Handled wire rest t e on h = record {
    final = h.final;
    reached = Progress-both (handles wire rest e on stays) h.reached;
    ended = h.ended;
    same_read = h.same_read;
  }

  handled :
      (id : Text) (arrivals : Arrivals) (up : List Wire) (t : Tunnel)
      → t.up ≡ up
      → BringsAll env agent id address arrivals up
      → Handled t
  handled id _ _ t e nothing = record {
    final = t;
    reached = stays;
    ended = inl e;
    same_read = refl;
  }
  handled id _ _ t e
        (data_first {j} {payload} {arrivals = later} {wire = wire} {wires = up} c more) =
      let on = ap (λ r. r.0) (handle_raw-Carries env agent j payload (message wire) t.relay c) in
      then-Handled wire up t e on (handled id later up _ refl more)
  handled id arrivals _ t e (control_first {wires = up} m json control valid spares more) =
      elim (handle_raw-outcome env m json agent t.relay valid) [
        | inl on ↦ then-Handled (text json) up t e on (handled id arrivals up _ refl more)
        | inr suspended ↦ record {
          final = t;
          reached = stays;
          ended = inr (record {
            m = m;
            json = json;
            rest = up;
            control = control;
            first = e;
            valid = valid;
            suspended = suspended;
          });
          same_read = refl;
        }
      ]

  -- A reader takes all that the buffer has.
  abbrev emptied : Tunnel → Tunnel
  emptied t =
      let buffer = (t.relay.objects address).recv_buffer in
      record t {
        relay = (take_bytes address (length buffer) t.relay).1;
        delivered = update t.delivered address (t.delivered address ++ take (length buffer) buffer);
      }

  emptied-delivered :
      (t : Tunnel)
      → (emptied t).delivered address ≡ t.delivered address ++ (t.relay.objects address).recv_buffer
  emptied-delivered t = ground (
    arith,
    take_all (length (t.relay.objects address).recv_buffer) (t.relay.objects address).recv_buffer
        refl,
  )

  emptied-active :
      (t : Tunnel)
      → (emptied t).relay.active_relayed_connections ≡ t.relay.active_relayed_connections
  unfolding take_bytes
  emptied-active t = refl

-- Nothing gets stuck on the way from the agent to the readers but behind a handler that stays
-- suspended: from every state that is reached, the relay's loop can handle the messages that are on
-- their way, going on after each, until none is left or the next is not data and its handler stays
-- suspended. If none is left and a reader then takes what the buffer has, either the readers have
-- been given all that the agent had read from the TCP connection `id`, or the connection is no
-- longer active. Under the conditions that the relay validates what the agent dumps, that its other
-- tasks neither touch the buffer nor give the object to an id, and that the object was the active
-- connection `id` and no other at the start, with an empty buffer.
pub Reach-drains :
    (edge : EdgeEnv) (env : Env) (agent id : Text) (address : ℕ) (w : World) (t : Tunnel)
    → ((j : Text) → Agree edge env j)
    → ((v : World) → Spares address v (env.others v))
    → IsSole id address w
    → (w.objects address).recv_buffer ≡ []
    → TunnelReach edge env agent address (quiet_tunnel w) t
    → (u : Tunnel) × Progress edge env agent address t u
      × (u.read ≡ t.read)
      × (((u.up ≡ [])
            × ((u.delivered address ≡ t.read id)
                ⊎ (Dict.lookup id u.relay.active_relayed_connections ≢ some address)))
          ⊎ IsSuspended edge env agent address u)
Reach-drains edge env agent id address w t agree others s empty r =
    let quiet = quiet-IsFaithful env agent id address w s empty in
    let now = Reach-IsFaithful edge env agent id address agree others r quiet in
    let h = handled edge env agent address id now.arrivals t.up t refl now.carried in
    let f =
      Reach-IsFaithful edge env agent id address agree others
        (Progress-Reach edge env agent address r h.reached) quiet in
    elim h.ended [
      | inr suspended ↦ (h.final, h.reached, h.same_read, inr suspended)
      | inl none_left ↦ (
        emptied edge env agent address h.final,
        reads (length (h.final.relay.objects address).recv_buffer) h.reached,
        h.same_read,
        inl (none_left, by_missing h none_left f (nothing_missing env agent id address h.final f)),
      )
    ]
  where
    by_missing :
        (h : Handled edge env agent address t)
        → h.final.up ≡ []
        → (f : IsFaithful env agent id address h.final)
        → (f.missing ≡ [])
          ⊎ ((h.final.up ≢ [])
              ⊎ (Dict.lookup id h.final.relay.active_relayed_connections ≢ some address))
        → ((emptied edge env agent address h.final).delivered address ≡ t.read id)
          ⊎ (Dict.lookup id
                (emptied edge env agent address h.final).relay.active_relayed_connections
              ≢ some address)
    by_missing h none_left f (inl none_missing) = inl (
        emptied-delivered edge env agent address h.final
        ∙ (ap (λ b. h.final.delivered address ++ b)
              (sym (append-nil (h.final.relay.objects address).recv_buffer)
                ∙ ap (λ m. (h.final.relay.objects address).recv_buffer ++ m) (sym none_missing))
            ∙ (f.whole ∙ ap (λ read. read id) h.same_read)))
    by_missing h none_left f (inr (inl n)) = absurd (n none_left)
    by_missing h none_left f (inr (inr n)) =
        inr (λ e. n (ap (Dict.lookup id) (sym (emptied-active edge env agent address h.final)) ∙ e))
