-- ===== src/Tunnel/Writing.antt =====
-- Data that arrives at the agent, for one connection or for another.
use http_network_relay.Prelude.{
  ◌≡◌, ◌≢◌, ◌⊎◌, refl, sym, ap, ◌∙◌, subst, Option, none, some, Bool-cases, inl, inr, List, [], ◌∷◌,
  ◌++◌, append_assoc, Text, text_key, nat_eqb, nat_eqb_iff, arith,
}
use http_network_relay.Prelude.Dict
use http_network_relay.Frame.Hex.{Bytes}
use http_network_relay.Messages.{Wire}
use http_network_relay.Relay.World.{Env, WebSocket}
use http_network_relay.Relay.Connection.Delivery.{Arrivals, payloads_for}
use http_network_relay.EdgeAgent.World.{Agent, EdgeEnv, Stream}
use http_network_relay.EdgeAgent.Streams.{write_to_connection}
use http_network_relay.EdgeAgent.Arrival.{AgentAgrees}
use http_network_relay.EdgeAgent.Writing.{written}
use http_network_relay.Tunnel.Downlink.{Downlink, KeepsStream}
use http_network_relay.Tunnel.Writes.{write-KeepsStream, write-written}
use http_network_relay.Tunnel.Kept.{BringsAll, nothing, IsKept}

-- Whether the stream is that of the connection.
owned-cases : (stream : Stream) (o : Option Stream) → (o ≡ some stream) ⊎ (o ≢ some stream)
owned-cases stream none = inr (λ h. cc h)
owned-cases stream (some s) = elim (Bool-cases (nat_eqb s stream)) [
  | inl same ↦ inl (ap some ((nat_eqb_iff s stream).0 same))
  | inr apart ↦ inr (λ h. ground (arith, apart, h))
]

module _ (edge : EdgeEnv) (env : Env) (agree : (j : Text) → AgentAgrees env edge j) (ws : WebSocket)
    (id : Text) (stream : Stream)
    (others : (a : Agent) → KeepsStream stream a (edge.others a)) where
  -- Data for the connection while the stream is its own.
  wrote_own-IsKept :
      {t : Downlink} (content : Bytes) (later : Arrivals) (rest : List Wire)
      → BringsAll edge env agree ws id stream others later rest
      → (f : IsKept edge env agree ws id stream others t)
      → f.missing ≡ content ++ payloads_for id later
      → Dict.lookup id t.agent.active_connections ≡ some stream
      → IsKept edge env agree ws id stream others
          (record t { agent = (write_to_connection edge id content ws t.agent).1; down = rest })
  unfolding written
  wrote_own-IsKept {t} content later rest brought f due e =
      let k = write-written edge stream others id content ws t.agent e in
      record {
        arrivals = later;
        brought = brought;
        only = λ j h. f.only j (k.active j h);
        missing = payloads_for id later;
        whole =
            rw (k.bytes, (nat_eqb_iff stream stream).1 refl)
              (append_assoc (written stream t.agent.trace) content (payloads_for id later)
                ∙ (ap (λ r. written stream t.agent.trace ++ r) (sym due) ∙ f.whole));
        on_its_way = λ h. refl;
      }

  -- Data for another connection, or for none.
  wrote_other-IsKept :
      {t : Downlink} (j : Text) (content : Bytes) (later : Arrivals) (rest : List Wire)
      → BringsAll edge env agree ws id stream others later rest
      → (f : IsKept edge env agree ws id stream others t)
      → (Dict.lookup id t.agent.active_connections ≡ some stream
          → f.missing ≡ payloads_for id later)
      → Dict.lookup j t.agent.active_connections ≢ some stream
      → IsKept edge env agree ws id stream others
          (record t { agent = (write_to_connection edge j content ws t.agent).1; down = rest })
  wrote_other-IsKept {t} j content later rest brought f due n =
      let k = write-KeepsStream edge stream others j content ws t.agent n in
      record {
        arrivals = later;
        brought = brought;
        only = λ i h. f.only i (k.active i h);
        missing = f.missing;
        whole = rw k.bytes f.whole;
        on_its_way = λ h. due (k.active id h);
      }

  pub wrote-IsKept :
      {t : Downlink} (j : Text) (content : Bytes) (later : Arrivals) (rest : List Wire)
      → BringsAll edge env agree ws id stream others later rest
      → (f : IsKept edge env agree ws id stream others t) → f.arrivals ≡ (j, content) ∷ later
      → IsKept edge env agree ws id stream others
          (record t { agent = (write_to_connection edge j content ws t.agent).1; down = rest })
  unfolding payloads_for
  wrote-IsKept {t} j content later rest brought f split = elim (Bool-cases (text_key.same j id)) [
    | inl same ↦
        by_id ((text_key.same_iff j id).0 same)
          (owned-cases stream (Dict.lookup id t.agent.active_connections))
    | inr apart ↦
        wrote_other-IsKept j content later rest brought f
          (λ e. f.on_its_way e ∙ (ap (payloads_for id) split ∙ rw apart refl))
          (λ h. ground (arith, apart, f.only j h, text_key.same_iff j id))
  ]
    where
      due :
          j ≡ id
          → Dict.lookup id t.agent.active_connections ≡ some stream
          → f.missing ≡ content ++ payloads_for id later
      due is_id e =
          f.on_its_way e ∙ (ap (payloads_for id) split ∙ rw ((text_key.same_iff j id).1 is_id) refl)

      by_id :
          j ≡ id
          → (Dict.lookup id t.agent.active_connections ≡ some stream)
            ⊎ (Dict.lookup id t.agent.active_connections ≢ some stream)
          → IsKept edge env agree ws id stream others
              (record t { agent = (write_to_connection edge j content ws t.agent).1; down = rest })
      by_id is_id (inl e) =
          subst
            (λ k.
              IsKept edge env agree ws id stream others (record t {
                agent = (write_to_connection edge k content ws t.agent).1;
                down = rest;
              }))
            (sym is_id) (wrote_own-IsKept content later rest brought f (due is_id e) e)
      by_id is_id (inr n) =
          wrote_other-IsKept j content later rest brought f (λ e. absurd (n e))
            (λ h. n (subst (λ k. Dict.lookup k t.agent.active_connections ≡ some stream) is_id h))

  pub nothing_due :
      (t : Downlink) (f : IsKept edge env agree ws id stream others t)
      → (f.missing ≡ [])
        ⊎ ((t.down ≢ []) ⊎ (Dict.lookup id t.agent.active_connections ≢ some stream))
  unfolding payloads_for
  nothing_due t f =
      by_down t.down refl (owned-cases stream (Dict.lookup id t.agent.active_connections))
    where
      none_left :
          (arrivals : Arrivals)
          → BringsAll edge env agree ws id stream others arrivals []
          → payloads_for id arrivals ≡ []
      none_left _ nothing = refl

      by_down :
          (down : List Wire)
          → t.down ≡ down
          → (Dict.lookup id t.agent.active_connections ≡ some stream)
            ⊎ (Dict.lookup id t.agent.active_connections ≢ some stream)
          → (f.missing ≡ [])
            ⊎ ((t.down ≢ []) ⊎ (Dict.lookup id t.agent.active_connections ≢ some stream))
      by_down down e (inr n) = inr (inr n)
      by_down [] e (inl live) = inl (
          f.on_its_way live
          ∙ none_left f.arrivals
              (subst (λ d. BringsAll edge env agree ws id stream others f.arrivals d) e f.brought))
      by_down (wire ∷ down) e (inl live) = inr (inl (λ empty. cc (e, empty)))
