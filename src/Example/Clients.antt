-- ===== src/Example/Clients.antt =====
-- Which access clients http_network_relay/network_relay_example.py connects.
use http_network_relay.Prelude.{ℕ, ◌≡◌, refl, true, false, Option, none, codes}
use http_network_relay.Messages.{AtRStartMessage, error}
use http_network_relay.Relay.World.{
  WebSocket, World, Env, close, send_text, Outcome, done, raised, pending, pure, continue, perform,
}
use http_network_relay.Relay.AccessClients.{open_client, open_permitted}
use http_network_relay.Example.Credentials.{
  Credentials, is_listed, get_client_permission, with_credentials,
}

module _ (credentials : Credentials) (env : Env) (m : AtRStartMessage) (ws : WebSocket) where
  -- The secret of an access client decides: with a listed one the relay goes on to the agent that
  -- the client asks for; with any other it sends the client an error, closes its WebSocket, and
  -- neither looks for an agent nor creates a connection.
  pub open_client-decides :
      (w : World)
      → (is_listed m.secret credentials.access_client_secrets ≡ true
          → open_client (with_credentials credentials env) m ws w
            ≡ open_permitted (with_credentials credentials env) true m ws w)
        × (is_listed m.secret credentials.access_client_secrets ≡ false
            → open_client (with_credentials credentials env) m ws w
              ≡ continue
                  (continue
                    (perform env
                      (send_text ws
                        (env.to_client.dump (error (codes "Invalid access client secret"))))
                      w)
                    (λ _. perform (with_credentials credentials env) (close ws)))
                  (λ _. pure none))
  unfolding open_client get_client_permission perform
  open_client-decides w =
      (λ h. rw (get_client_permission, h) refl, λ h. rw (get_client_permission, h) (refused _))
    where
      refused :
          (p : Outcome (Unit {0}) × World)
          → continue
              (continue p (λ _. pure false))
              (λ allowed. open_permitted (with_credentials credentials env) allowed m ws)
            ≡ continue
                (continue p (λ _. perform (with_credentials credentials env) (close ws)))
                (λ _. pure {A = Option ℕ} none)
      refused (done u, v) = refl
      refused (raised x, v) = refl
      refused (pending, v) = refl
