-- ===== src/Relay/Close/Teardown.antt =====
-- What `edge_agent_connection_close` of http_network_relay/network_relay.py leaves behind.
use http_network_relay.Prelude.{
  ℕ, ◌≡◌, refl, false, none, some, [], ◌∷◌, Text, nat_eqb, text_key, nat_key, arith, Bool-cases,
  inl, inr, subst,
}
use http_network_relay.Prelude.Dict
use http_network_relay.Prelude.Dict.{Dict}
use http_network_relay.Relay.World.{WebSocket, World, Env, done}
use http_network_relay.Relay.Close.{
  close_connections, forget_agent, edge_agent_connection_close, remove_first,
}
use http_network_relay.Relay.Close.Steps.{
  Owned, NoNew, NoNew-Rely, drop-NoNew, lock-NoNew, close-Guarantee, close_connections-Guarantee,
  IsUnlisted, NoListing, NoListing-Rely, lock-NoListing, drop-NoListing,
}
use http_network_relay.Relay.Close.Returns.{Ends, Ends-continue, IsPolite, close-Ends}

-- The active connections over `ws` are among those of the copy.
abbrev Covered : WebSocket → Dict Text ℕ → World → Type 0
Covered ws copy w =
    (id : Text) (address : ℕ) → Owned ws w id address → Dict.lookup id copy ≡ some address

-- No active connection is over `ws`.
abbrev pub IsClear : WebSocket → World → Type 0
IsClear ws w = (id : Text) (address : ℕ) → Owned ws w id address → ⊥

module _ {env : Env} (polite : IsPolite env) (ws : WebSocket)
    (quiet : (w : World) → NoNew ws w (env.others w)) where
  -- One closed entry of the copy no longer counts.
  closed-Covered :
      (j : Text) (b : ℕ) (rest : Dict Text ℕ) (w v : World)
      → Covered ws ((j, b) ∷ rest) w
      → NoNew ws w v
      → Dict.lookup j v.active_relayed_connections ≡ none
      → Covered ws rest v
  unfolding Dict.lookup
  closed-Covered j b rest w v c step gone id address h =
      ground (arith, c id address (step.at id address h), h.active, text_key.same_iff id j, gone)

  -- Nor does one that is over another socket.
  other-Covered :
      (j : Text) (b : ℕ) (rest : Dict Text ℕ) (w : World)
      → Covered ws ((j, b) ∷ rest) w
      → nat_eqb (w.objects b).agent_connection ws ≡ false
      → Covered ws rest w
  unfolding Dict.lookup
  other-Covered j b rest w c differs id address h =
      ground (arith, c id address h, h.over, text_key.same_iff id j)

  close_connections-Ends :
      (copy : Dict Text ℕ) (w : World)
      → Covered ws copy w
      → Ends (close_connections env ws copy w) (IsClear ws)
  unfolding close_connections
  close_connections-Ends [] w c = record {
    final = w;
    returns = refl;
    holds = λ id address h. nothing id address (c id address h);
  }
    where
      nothing : (id : Text) (address : ℕ) → Dict.lookup id [] ≡ some address → ⊥
      nothing id address e = cc (Dict.lookup-nil {V = ℕ} id, e)
  close_connections-Ends ((j, b) ∷ rest) w c =
      elim (Bool-cases (nat_eqb (w.objects b).agent_connection ws)) [
        | inl mine ↦ rw mine (
            Ends-continue _ _ (close-Ends polite j ws w) (λ v gone e.
              close_connections-Ends rest v (
                closed-Covered j b rest w v c
                  (subst (λ p. NoNew ws w p.1) e
                    ((close-Guarantee (NoNew-Rely ws env quiet) (lock-NoNew ws) (drop-NoNew ws) j
                        ws).at
                      w))
                  gone)))
        | inr other ↦ rw other (close_connections-Ends rest w (other-Covered j b rest w c other))
      ]

-- What an agent leaves behind: no active connection over its WebSocket, no registration, no framing
-- flag, and no send lock.
pub record IsForgotten (id : Text) (ws : WebSocket) (w : World) : Type 0 where
  pub clear : (j : Text) (address : ℕ) → Owned ws w j address → ⊥
  pub unlisted : IsUnlisted id w
  pub unlocked : Dict.lookup ws w.agent_connection_locks ≡ none

-- The other tasks bring neither a connection over `ws` nor the agent `id` back.
pub record IsQuiet (env : Env) (id : Text) (ws : WebSocket) : Type 0 where
  pub no_connection : (w : World) → NoNew ws w (env.others w)
  pub no_listing : (w : World) → NoListing id w (env.others w)

module _ {env : Env} {id : Text} {ws : WebSocket} (polite : IsPolite env)
    (quiet : IsQuiet env id ws) where
  -- The copy of the active connections, with the agent gone from the other tables.
  started : World → World
  started w = record w {
    registered_agent_connections = Dict.erase id w.registered_agent_connections;
    agent_connection_id_to_supports_binary = Dict.erase id w.agent_connection_id_to_supports_binary;
    agent_connections = remove_first ws w.agent_connections;
  }

  started-IsUnlisted : (w : World) → IsUnlisted id (started w)
  unfolding started
  started-IsUnlisted w = record {
    unregistered =
        ground (arith, Dict.lookup-erase id id w.registered_agent_connections, Dict.eq_self id);
    no_flag =
        ground (
          arith,
          Dict.lookup-erase id id w.agent_connection_id_to_supports_binary,
          Dict.eq_self id,
        );
  }

  unlisted :
      (w v : World)
      → close_connections env ws w.active_relayed_connections (started w) ≡ (done tt, v)
      → IsUnlisted id v
  unlisted w v e =
      let keeps =
        (close_connections-Guarantee (NoListing-Rely id env quiet.no_listing) (lock-NoListing id)
            (drop-NoListing id) ws w.active_relayed_connections).at
          (started w) in
      (subst (λ p. NoListing id (started w) p.1) e keeps).at (started-IsUnlisted w)

  -- When an agent's connection ends, the relay forgets it: for WebSockets that fail only because
  -- they are gone, and other tasks that do not bring the agent back, `edge_agent_connection_close`
  -- of a registered agent returns, and leaves no active connection over the agent's WebSocket, no
  -- registration of the agent, no framing flag and no send lock.
  pub edge_agent_connection_close-IsForgotten :
      (w : World)
      → Dict.lookup id w.registered_agent_connections ≡ some ws
      → Ends (edge_agent_connection_close env id w) (IsForgotten id ws)
  unfolding edge_agent_connection_close forget_agent started
  edge_agent_connection_close-IsForgotten w registered = rw registered (
      Ends-continue _ _
        (close_connections-Ends polite ws quiet.no_connection w.active_relayed_connections
          (started w) (λ j address h. h.active))
        (λ v clear e. record {
          final = record v { agent_connection_locks = Dict.erase ws v.agent_connection_locks };
          returns = refl;
          holds = record {
            clear = λ j address h. clear j address (record { active = h.active; over = h.over });
            unlisted =
                let l = unlisted w v e in
                record { unregistered = l.unregistered; no_flag = l.no_flag };
            unlocked =
                ground (arith, Dict.lookup-erase ws ws v.agent_connection_locks, Dict.eq_self ws);
          };
        }))
