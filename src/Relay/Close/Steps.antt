-- ===== src/Relay/Close/Steps.antt =====
-- Single steps of the teardown in http_network_relay/network_relay.py, whatever the WebSockets do.
use http_network_relay.Prelude.{
  ℕ, ◌≡◌, Option, none, some, [], ◌∷◌, Text, nat_eqb, text_key, nat_key, arith,
}
use http_network_relay.Prelude.Dict
use http_network_relay.Exception.{Exception, runtime_error, websocket_disconnect}
use http_network_relay.Relay.World.{WebSocket, World, Env, Call}
use http_network_relay.Relay.Guarantee.{
  Rely, Guarantee, Guarantee-pure, Guarantee-fail, Guarantee-gets, Guarantee-bind, Guarantee-try,
  Guarantee-perform, Guarantee-if,
}
use http_network_relay.Relay.Close.{
  agent_send_lock, drop_relayed_connection, ignore_closed, ignore_gone, send_locked,
  close_access_client, close_relayed_connection, close_connections,
}

-- An active connection over an agent's WebSocket.
pub record Owned (ws : WebSocket) (w : World) (id : Text) (address : ℕ) : Type 0 where
  pub active : Dict.lookup id w.active_relayed_connections ≡ some address
  pub over : (w.objects address).agent_connection ≡ ws

-- No connection over `ws` is active after that was not active before.
pub record NoNew (ws : WebSocket) (u v : World) : Type 0 where
  pub at : (id : Text) (address : ℕ) → Owned ws v id address → Owned ws u id address

module _ (ws : WebSocket) where
  pub NoNew-same : (w : World) → NoNew ws w w
  NoNew-same w = record { at = λ id address h. h }

  pub NoNew-Rely : (env : Env) → ((w : World) → NoNew ws w (env.others w)) → Rely env (NoNew ws)
  NoNew-Rely env quiet = record {
    same = NoNew-same;
    both = λ p q. record { at = λ id address h. p.at id address (q.at id address h) };
    called = λ w c. record { at = λ id address h. record { active = h.active; over = h.over } };
    others = quiet;
  }

  pub drop-NoNew : (id : Text) → Guarantee (NoNew ws) (drop_relayed_connection id)
  unfolding drop_relayed_connection
  drop-NoNew id = record {
    at = λ w. record {
      at = λ j address h. record {
        active = ground (arith, h.active, Dict.lookup-erase j id w.active_relayed_connections);
        over = ground (arith, h.over);
      };
    };
  }

  pub lock-NoNew : (agent : WebSocket) → Guarantee (NoNew ws) (agent_send_lock agent)
  unfolding agent_send_lock
  lock-NoNew agent = record {
    at = λ w. record {
      at = λ j address h. record {
        active = ground (arith, h.active);
        over = ground (arith, h.over);
      };
    };
  }

-- A relation that taking a lock and dropping a connection keep is kept by every teardown.
module _ {env : Env} {R : World → World → Type 0} (rely : Rely env R)
    (locks : (agent : WebSocket) → Guarantee R (agent_send_lock agent))
    (drops : (id : Text) → Guarantee R (drop_relayed_connection id)) where
  pub send-Guarantee : (agent : WebSocket) (c : Call) → Guarantee R (send_locked env agent c)
  unfolding send_locked
  send-Guarantee agent c =
      Guarantee-bind rely _ _ (locks agent)
        (λ _. Guarantee-bind rely _ _ (Guarantee-perform rely _) (λ _. Guarantee-perform rely _))

  pub ignore_closed-Guarantee : (x : Exception) → Guarantee R (ignore_closed x)
  unfolding ignore_closed
  ignore_closed-Guarantee (runtime_error m) =
      Guarantee-if _ _ _ (Guarantee-pure rely tt) (Guarantee-fail rely _)
  ignore_closed-Guarantee x = Guarantee-fail rely x

  ignore_gone-Guarantee : (x : Exception) → Guarantee R (ignore_gone x)
  unfolding ignore_gone
  ignore_gone-Guarantee websocket_disconnect = Guarantee-pure rely tt
  ignore_gone-Guarantee x = ignore_closed-Guarantee x

  client-Guarantee : (o : Option WebSocket) → Guarantee R (close_access_client env o)
  unfolding close_access_client
  client-Guarantee none = Guarantee-pure rely tt
  client-Guarantee (some c) = Guarantee-perform rely _

  pub close-Guarantee :
      (id : Text) (agent : WebSocket) → Guarantee R (close_relayed_connection env id agent)
  unfolding close_relayed_connection
  close-Guarantee id agent =
      Guarantee-bind rely _ _
        (Guarantee-try rely _ _ (send-Guarantee agent _) ignore_gone-Guarantee)
        (λ _. Guarantee-bind rely _ _ (Guarantee-gets rely _) (λ o.
          Guarantee-bind rely _ _
            (Guarantee-try rely _ _ (client-Guarantee o) ignore_closed-Guarantee) (λ _. drops id)))

  pub close_connections-Guarantee :
      (agent : WebSocket) (copy : Dict.Dict Text ℕ) → Guarantee R (close_connections env agent copy)
  unfolding close_connections
  close_connections-Guarantee agent [] = Guarantee-pure rely tt
  close_connections-Guarantee agent ((id, address) ∷ rest) =
      Guarantee-bind rely _ _ (Guarantee-gets rely (λ w. w.objects address)) (λ c.
        Guarantee-bind rely _ _
          (Guarantee-if (nat_eqb c.agent_connection agent) _ _ (close-Guarantee id agent)
            (Guarantee-pure rely tt))
          (λ _. close_connections-Guarantee agent rest))

-- The agent `id` is neither registered nor has a framing flag.
pub record IsUnlisted (id : Text) (w : World) : Type 0 where
  pub unregistered : Dict.lookup id w.registered_agent_connections ≡ none
  pub no_flag : Dict.lookup id w.agent_connection_id_to_supports_binary ≡ none

-- An unlisted agent stays unlisted.
pub record NoListing (id : Text) (u v : World) : Type 0 where
  pub at : IsUnlisted id u → IsUnlisted id v

module _ (id : Text) where
  pub NoListing-Rely :
      (env : Env) → ((w : World) → NoListing id w (env.others w)) → Rely env (NoListing id)
  NoListing-Rely env quiet = record {
    same = λ w. record { at = λ h. h };
    both = λ p q. record { at = λ h. q.at (p.at h) };
    called =
        λ w c. record { at = λ h. record { unregistered = h.unregistered; no_flag = h.no_flag } };
    others = quiet;
  }

  pub lock-NoListing : (agent : WebSocket) → Guarantee (NoListing id) (agent_send_lock agent)
  unfolding agent_send_lock
  lock-NoListing agent = record {
    at = λ w. record {
      at = λ h. record {
        unregistered = ground (arith, h.unregistered);
        no_flag = ground (arith, h.no_flag);
      };
    };
  }

  pub drop-NoListing : (j : Text) → Guarantee (NoListing id) (drop_relayed_connection j)
  unfolding drop_relayed_connection
  drop-NoListing j = record {
    at = λ w. record {
      at = λ h. record {
        unregistered = ground (arith, h.unregistered);
        no_flag = ground (arith, h.no_flag);
      };
    };
  }
