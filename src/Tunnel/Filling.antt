-- ===== src/Tunnel/Filling.antt =====
-- Data that arrives at the relay, for one connection or for another.
use http_network_relay.Prelude.{
  ℕ, ◌≡◌, ◌≢◌, refl, sym, ap, ◌∙◌, subst, Bool, true, false, some, Option-cases, Bool-cases, inl,
  inr, List, [], ◌∷◌, ◌++◌, append-nil, append_assoc, Text, text_key, nat_eqb, nat_eqb_iff,
  if◌then◌else◌, arith,
}
use http_network_relay.Prelude.Dict
use http_network_relay.Frame.Hex.{Bytes}
use http_network_relay.Messages.{Wire}
use http_network_relay.Relay.World.{Env}
use http_network_relay.Relay.Connection.{handle_tcp_binary_data}
use http_network_relay.Relay.Connection.Delivery.{
  Arrivals, payloads_for, handle-active, handle-recv_buffer, other-recv_buffer,
}
use http_network_relay.Tunnel.{Tunnel}
use http_network_relay.Tunnel.Faithful.{BringsAll, IsFaithful}

module _ (env : Env) (agent id : Text) (address : ℕ) where
  pub data Ownership (t : Tunnel) : Type 0 where
    live : Dict.lookup id t.relay.active_relayed_connections ≡ some address → Ownership t
    dead : Dict.lookup id t.relay.active_relayed_connections ≢ some address → Ownership t

  pub ownership : (t : Tunnel) → Ownership t
  ownership t = elim (Option-cases (Dict.lookup id t.relay.active_relayed_connections)) [
    | inl e ↦ dead (λ h. cc (e, h))
    | inr (a, e) ↦ elim (Bool-cases (nat_eqb a address)) [
      | inl same ↦ live (e ∙ ap some ((nat_eqb_iff a address).0 same))
      | inr other ↦ dead (λ h. ground (arith, e, h))
    ]
  ]

  pub filled-IsFaithful :
      {t : Tunnel} (j : Text) (payload : Bytes) (later : Arrivals) (rest : List Wire)
      → BringsAll env agent id address later rest
      → (f : IsFaithful env agent id address t) → f.arrivals ≡ (j, payload) ∷ later
      → IsFaithful env agent id address
          (record t { up = rest; relay = (handle_tcp_binary_data j payload t.relay).1 })
  unfolding payloads_for
  filled-IsFaithful {t} j payload later rest carried f split = by_owner (ownership t)
    where
      active :
          (k : Text)
          → Dict.lookup k (handle_tcp_binary_data j payload t.relay).1.active_relayed_connections
            ≡ some address
          → Dict.lookup k t.relay.active_relayed_connections ≡ some address
      active k h = rw (handle-active j payload t.relay) at h

      split_at :
          (same : Bool)
          → f.missing ≡ (if same then payload ++ payloads_for id later else payloads_for id later)
          → t.delivered address
              ++ (((t.relay.objects address).recv_buffer ++ (if same then payload else []))
                  ++ payloads_for id later)
            ≡ t.read id
      split_at true e =
          ap (λ r. t.delivered address ++ r)
            (append_assoc (t.relay.objects address).recv_buffer payload (payloads_for id later))
          ∙ (ap (λ r. t.delivered address ++ ((t.relay.objects address).recv_buffer ++ r)) (sym e)
              ∙ f.whole)
      split_at false e =
          ap (λ r. t.delivered address ++ (r ++ payloads_for id later))
            (append-nil (t.relay.objects address).recv_buffer)
          ∙ (ap (λ r. t.delivered address ++ ((t.relay.objects address).recv_buffer ++ r)) (sym e)
              ∙ f.whole)

      by_owner :
          Ownership t
          → IsFaithful env agent id address
              (record t { up = rest; relay = (handle_tcp_binary_data j payload t.relay).1 })
      by_owner (live e) = record {
        arrivals = later;
        carried = carried;
        only = λ k h. f.only k (active k h);
        missing = payloads_for id later;
        whole =
            rw (handle-recv_buffer j payload {w = t.relay} (record { active = e; only = f.only }))
              (split_at (text_key.same j id) (f.on_its_way e ∙ ap (payloads_for id) split));
        on_its_way = λ h. refl;
      }
      by_owner (dead n) = record {
        arrivals = later;
        carried = carried;
        only = λ k h. f.only k (active k h);
        missing = f.missing;
        whole =
            rw
              (other-recv_buffer j payload address t.relay (λ h. n (
                subst (λ k. Dict.lookup k t.relay.active_relayed_connections ≡ some address)
                  (f.only j h) h)))
              f.whole;
        on_its_way = λ h. absurd (n (active id h));
      }
