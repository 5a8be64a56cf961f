-- ===== src/Relay/Invariant.antt =====
-- What every method of `NetworkRelay` (http_network_relay/network_relay.py) keeps of its tables and
-- of the connection objects, and the single steps that the methods are made of.
pub mod Connections
pub mod Reading
pub mod Agents
pub mod Creation
pub mod Registration
pub mod Clients
pub mod Service
pub mod Reachable
pub mod Nested
use http_network_relay.Prelude.{
  ℕ, ◌≤◌, ◌<◌, ◌≡◌, refl, ◌∙◌, Option, Option-cases, inl, inr, none, some, ◌∷◌, Text, text_key,
  nat_eqb, arith,
}
use http_network_relay.Prelude.Dict
use http_network_relay.Exception.{Result, ok, raise}
use http_network_relay.Messages.{EtRStartMessage, AtRStartMessage}
use http_network_relay.Relay.World.{
  WebSocket, Connection, World, Relay, Env, Call, lift, set_object, Outcome, done,
}
use http_network_relay.Relay.Guarantee.{Rely, Guarantee}
use http_network_relay.Relay.Close.{agent_send_lock, drop_relayed_connection, wake_readers}

-- An active connection is an object that exists, and it is listed under its own id.
pub record IsValid (w : World) : Type 0 where
  pub exists :
      (id : Text) (address : ℕ)
      → Dict.lookup id w.active_relayed_connections ≡ some address
      → address < w.next_object
  pub named :
      (id : Text) (address : ℕ)
      → Dict.lookup id w.active_relayed_connections ≡ some address
      → (w.objects address).id ≡ id

-- From `u` to `v` no object vanishes, none changes its id, its agent or its class, and a valid state
-- stays valid.
pub record Evolves (u v : World) : Type 0 where
  pub grows : u.next_object ≤ v.next_object
  pub same_id : (a : ℕ) → a < u.next_object → (v.objects a).id ≡ (u.objects a).id
  pub same_agent :
      (a : ℕ) → a < u.next_object → (v.objects a).agent_connection ≡ (u.objects a).agent_connection
  pub same_class :
      (a : ℕ) → a < u.next_object → (v.objects a).connection_class ≡ (u.objects a).connection_class
  pub keeps : IsValid u → IsValid v

-- A step that leaves the objects and the active connections alone.
pub Evolves-frame :
    (u v : World)
    → v.objects ≡ u.objects
    → v.next_object ≡ u.next_object
    → v.active_relayed_connections ≡ u.active_relayed_connections
    → Evolves u v
Evolves-frame u v objects next active = record {
  grows = omega (arith, next);
  same_id = λ a h. rw objects;
  same_agent = λ a h. rw objects;
  same_class = λ a h. rw objects;
  keeps = λ i. record {
    exists = λ id a h. omega (arith, next, i.exists id a (rw (← active) h));
    named = λ id a h. rw objects (i.named id a (rw (← active) h));
  };
}

pub Evolves-same : (w : World) → Evolves w w
Evolves-same w = Evolves-frame w w refl refl refl

pub Evolves-both : {u v w : World} → Evolves u v → Evolves v w → Evolves u w
Evolves-both {u} {v} p q = record {
  grows = omega (arith, p.grows, q.grows);
  same_id = λ a h. q.same_id a (omega (arith, p.grows)) ∙ p.same_id a h;
  same_agent = λ a h. q.same_agent a (omega (arith, p.grows)) ∙ p.same_agent a h;
  same_class = λ a h. q.same_class a (omega (arith, p.grows)) ∙ p.same_class a h;
  keeps = λ i. q.keeps (p.keeps i);
}

-- A write to an object that leaves its id, its agent and its class alone.
pub Evolves-write :
    (address : ℕ) (c : Connection) (w : World)
    → c.id ≡ (w.objects address).id
    → c.agent_connection ≡ (w.objects address).agent_connection
    → c.connection_class ≡ (w.objects address).connection_class
    → Evolves w (set_object address c w)
Evolves-write address c w id agent class = record {
  grows = omega arith;
  same_id = λ a h. ground (arith, id);
  same_agent = λ a h. ground (arith, agent);
  same_class = λ a h. ground (arith, class);
  keeps = λ i. record { exists = i.exists; named = λ j a h. ground (arith, i.named j a h, id) };
}

-- Taking a connection out of the table.
erase-Evolves :
    (id : Text) (w : World)
    → Evolves w
        (record w { active_relayed_connections = Dict.erase id w.active_relayed_connections })
erase-Evolves id w = record {
  grows = omega arith;
  same_id = λ a h. refl;
  same_agent = λ a h. refl;
  same_class = λ a h. refl;
  keeps = λ i. record {
    exists = λ j a h. i.exists j a (still j a h);
    named = λ j a h. i.named j a (still j a h);
  };
}
  where
    still :
        (j : Text) (a : ℕ)
        → Dict.lookup j (Dict.erase id w.active_relayed_connections) ≡ some a
        → Dict.lookup j w.active_relayed_connections ≡ some a
    still j a h = ground (arith, Dict.lookup-erase j id w.active_relayed_connections)

module _ (env : Env) (quiet : (w : World) → Evolves w (env.others w)) where
  pub Evolves-Rely : Rely env Evolves
  Evolves-Rely = record {
    same = Evolves-same;
    both = Evolves-both;
    called = λ w c. Evolves-frame w (record w { trace = c ∷ w.trace }) refl refl refl;
    others = quiet;
  }

pub Guarantee-lift : {A : Type 0} (r : Result A) → Guarantee Evolves (lift r)
Guarantee-lift (ok a) = record { at = Evolves-same }
Guarantee-lift (raise x) = record { at = Evolves-same }

pub lock-Evolves : (ws : WebSocket) → Guarantee Evolves (agent_send_lock ws)
unfolding agent_send_lock
lock-Evolves ws = record {
  at = λ w. Evolves-frame w (agent_send_lock ws w).1 (ground arith) (ground arith) (ground arith);
}

pub drop-Evolves : (id : Text) → Guarantee Evolves (drop_relayed_connection id)
unfolding drop_relayed_connection wake_readers
drop-Evolves id = record {
  at = λ w. elim (Option-cases (Dict.lookup id w.active_relayed_connections)) [
    | inl e ↦ rw (drop_relayed_connection, e) (Evolves-same w)
    | inr (address, e) ↦
        rw (drop_relayed_connection, e)
          (Evolves-both (erase-Evolves id w) (Evolves-write address _ _ refl refl refl))
  ];
}

-- The other tasks, and the methods that a subclass overrides, keep what the relay's methods keep.
pub record IsTame (env : Env) : Type 0 where
  pub others : (w : World) → Evolves w (env.others w)
  pub custom_message :
      (json agent : Text) → Guarantee Evolves (env.handle_custom_agent_message json agent)
  pub agent_permission :
      (m : EtRStartMessage) (ws : WebSocket)
      → Guarantee Evolves (env.get_agent_msg_loop_permission_and_create_connection_id m ws)
  pub client_permission :
      (m : AtRStartMessage) (ws : WebSocket)
      → Guarantee Evolves (env.get_access_client_permission m ws)
  pub client_target :
      (target : Text) → Guarantee Evolves (env.get_agent_connection_id_for_access_client target)

pub tame-Rely : {env : Env} → IsTame env → Rely env Evolves
tame-Rely tame = Evolves-Rely _ tame.others
