-- ===== src/Relay/Connection/Framing.antt =====
-- What the sends of a connection in http_network_relay/network_relay.py depend on, and what leaves
-- it alone.
use http_network_relay.Prelude.{ℕ, true, ◌≡◌, refl, ◌∙◌, Text, text_key, nat_key, arith}
use http_network_relay.Prelude.Dict
use http_network_relay.Frame.Hex.{Bytes}
use http_network_relay.Relay.World.{WebSocket, Connection, World, Env}
use http_network_relay.Relay.Guarantee.{Rely, Guarantee}
use http_network_relay.Relay.Close.{agent_send_lock, drop_relayed_connection, wake_readers}
use http_network_relay.Relay.Connection.{
  send_framed, send_connection_message, send_connection_binary,
}

-- What the relay sends for a connection depends on these attributes only.
pub record Link (c d : Connection) : Type 0 where
  pub same_id : d.id ≡ c.id
  pub same_agent : d.agent_connection ≡ c.agent_connection
  pub same_flag : d.agent_supports_binary ≡ c.agent_supports_binary

-- They are the same, and `id` is still an access client's connection if it was one.
pub record Steady (id : Text) (address : ℕ) (u v : World) : Type 0 where
  pub link : Link (u.objects address) (v.objects address)
  pub listed :
      Dict.contains id u.active_access_client_connections ≡ true
      → Dict.contains id v.active_access_client_connections ≡ true

module _ (client : Text) (address : ℕ) where
  pub Steady-Rely :
      (env : Env)
      → ((w : World) → Steady client address w (env.others w))
      → Rely env (Steady client address)
  Steady-Rely env steady = record {
    same = λ w. record {
      link = record { same_id = refl; same_agent = refl; same_flag = refl };
      listed = λ h. h;
    };
    both = λ p q. record {
      link = record {
        same_id = q.link.same_id ∙ p.link.same_id;
        same_agent = q.link.same_agent ∙ p.link.same_agent;
        same_flag = q.link.same_flag ∙ p.link.same_flag;
      };
      listed = λ h. q.listed (p.listed h);
    };
    called = λ w c. record {
      link = record { same_id = refl; same_agent = refl; same_flag = refl };
      listed = λ h. h;
    };
    others = steady;
  }

  pub lock-Steady : (ws : WebSocket) → Guarantee (Steady client address) (agent_send_lock ws)
  unfolding agent_send_lock
  lock-Steady ws = record {
    at = λ w. record {
      link = record { same_id = ground arith; same_agent = ground arith; same_flag = ground arith };
      listed = λ h. ground arith;
    };
  }

  pub drop-Steady : (id : Text) → Guarantee (Steady client address) (drop_relayed_connection id)
  unfolding drop_relayed_connection wake_readers
  drop-Steady id = record {
    at = λ w. record {
      link = record { same_id = ground arith; same_agent = ground arith; same_flag = ground arith };
      listed = λ h. ground arith;
    };
  }

module _ (env : Env) where
  pub send_framed-Link :
      (c d : Connection) (content : Bytes) (w : World)
      → Link c d
      → send_framed env d content w ≡ send_framed env c content w
  unfolding send_framed send_connection_message send_connection_binary
  send_framed-Link c d content w l = rw (l.same_flag, l.same_id, l.same_agent) refl
