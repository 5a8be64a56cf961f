-- ===== src/Relay/Invariant/Reading.antt =====
-- The read of a connection object in http_network_relay/network_relay.py, and its waits, keep the
-- relay's invariant.
use http_network_relay.Prelude.{
  ℕ, zero, suc, Option, none, some, [], text_key, nat_key, ltb, length, if◌then◌else◌, Bool-cases,
  inl, inr,
}
use http_network_relay.Relay.World.{
  World, Relay, Env, Outcome, done, raised, pending, pure, continue,
}
use http_network_relay.Relay.Guarantee.{Guarantee, Guarantee-pure, Guarantee-bind, Guarantee-if}
use http_network_relay.Relay.Connection.{
  closed, take_bytes, wait_event, clear_event, await_data, await_close, read,
}
use http_network_relay.Relay.Invariant.{Evolves, Evolves-same, Evolves-both, IsTame, tame-Rely}
use http_network_relay.Relay.Invariant.Connections.{clear-Evolves, take-Evolves}

module _ {env : Env} (tame : IsTame env) where
  wait-Evolves : (address : ℕ) → Guarantee Evolves (wait_event env address)
  unfolding wait_event
  wait-Evolves address = record {
    at = λ w. elim (Bool-cases (w.objects address).event) [
      | inl set ↦ rw (wait_event, set) (Evolves-same w)
      | inr unset ↦ elim (Bool-cases ((env.others w).objects address).event) [
        | inl set ↦ rw (wait_event, unset, set) (tame.others w)
        | inr still ↦ rw (wait_event, unset, still) (tame.others w)
      ]
    ];
  }

  -- `continue` after a run that is known to evolve.
  after-Evolves :
      {A B : Type 0} (w : World) (p : Outcome A × World) (f : A → Relay B)
      → Evolves w p.1
      → ((a : A) → Guarantee Evolves (f a))
      → Evolves w (continue p f).1
  after-Evolves w (done a, v) f e k = Evolves-both e ((k a).at v)
  after-Evolves w (raised x, v) f e k = e
  after-Evolves w (pending, v) f e k = e

  await_data-Evolves : (fuel address : ℕ) → Guarantee Evolves (await_data env fuel address)
  unfolding await_data
  await_data-Evolves zero address = record { at = Evolves-same }
  await_data-Evolves (suc fuel) address = record {
    at = λ w. elim (Bool-cases (ltb 0 (length (w.objects address).recv_buffer))) [
      | inl there ↦ rw there (Evolves-same w)
      | inr empty ↦ rw empty (elim (Bool-cases (closed address w)) [
        | inl over ↦ rw over (Evolves-same w)
        | inr not_over ↦ rw not_over (
            after-Evolves w (wait_event env address w)
              (λ _ v. await_data env fuel address (clear_event address v))
              ((wait-Evolves address).at w)
              (λ _. record {
                at = λ v.
                    Evolves-both (clear-Evolves address v)
                      ((await_data-Evolves fuel address).at (clear_event address v));
              }))
      ])
    ];
  }

  await_close-Evolves : (fuel address : ℕ) → Guarantee Evolves (await_close env fuel address)
  unfolding await_close
  await_close-Evolves zero address = record { at = Evolves-same }
  await_close-Evolves (suc fuel) address = record {
    at = λ w. elim (Bool-cases (closed address w)) [
      | inl over ↦ rw over (Evolves-same w)
      | inr not_over ↦ rw not_over (
          after-Evolves w (wait_event env address w)
            (λ _ v. await_close env fuel address (clear_event address v))
            ((wait-Evolves address).at w)
            (λ _. record {
              at = λ v.
                  Evolves-both (clear-Evolves address v)
                    ((await_close-Evolves fuel address).at (clear_event address v));
            }))
    ];
  }

  pub read-Evolves : (fuel address : ℕ) (n : Option ℕ) → Guarantee Evolves (read env fuel address n)
  unfolding read
  read-Evolves fuel address none =
      Guarantee-bind (tame-Rely tame) (await_close env fuel address)
        (λ _ w. take_bytes address (length (w.objects address).recv_buffer) w)
        (await_close-Evolves fuel address)
        (λ _. record {
          at = λ w. (take-Evolves address (length (w.objects address).recv_buffer)).at w;
        })
  read-Evolves fuel address (some zero) = Guarantee-pure (tame-Rely tame) []
  read-Evolves fuel address (some (suc n)) =
      Guarantee-bind (tame-Rely tame) (await_data env fuel address)
        (λ there_is. if there_is then take_bytes address (suc n) else pure [])
        (await_data-Evolves fuel address)
        (λ there_is.
          Guarantee-if there_is _ _ (take-Evolves address (suc n))
            (Guarantee-pure (tame-Rely tame) []))
