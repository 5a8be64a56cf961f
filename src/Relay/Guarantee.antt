-- ===== src/Relay/Guarantee.antt =====
-- What every action leaves related to the state before it, one rule for each way to build an
-- action. The other tasks have to keep the relation too: that is the rely.
use http_network_relay.Prelude.{Bool, true, false, Option, none, some, ◌∷◌, if◌then◌else◌}
use http_network_relay.Exception.{Exception}
use http_network_relay.Relay.World.{
  World, Relay, Env, Call, Outcome, done, raised, pending, pure, fail, gets, modify, try, recover,
  continue, ◌>>=◌, perform, answered,
}

-- A relation on states that is kept by doing nothing, by doing two things, by calling out, and by
-- the other tasks.
pub record Rely (env : Env) (R : World → World → Type 0) : Type 0 where
  pub same : (w : World) → R w w
  pub both : {u v w : World} → R u v → R v w → R u w
  pub called : (w : World) (c : Call) → R w (record w { trace = c ∷ w.trace })
  pub others : (w : World) → R w (env.others w)

pub record Guarantee {ℓ} {A : Type ℓ} (R : World → World → Type 0) (m : Relay A) : Type ℓ where
  pub at : (w : World) → R w (m w).1

module _ {env : Env} {R : World → World → Type 0} (rely : Rely env R) where
  pub Guarantee-pure {ℓ} : {A : Type ℓ} (a : A) → Guarantee R (pure a)
  Guarantee-pure a = record { at = rely.same }

  pub Guarantee-fail {ℓ} : {A : Type ℓ} (x : Exception) → Guarantee R (fail {A = A} x)
  Guarantee-fail x = record { at = rely.same }

  pub Guarantee-gets {ℓ} : {A : Type ℓ} (f : World → A) → Guarantee R (gets f)
  Guarantee-gets f = record { at = rely.same }

  pub Guarantee-bind {ℓ κ} :
      {A : Type ℓ} {B : Type κ} (m : Relay A) (f : A → Relay B)
      → Guarantee R m
      → ((a : A) → Guarantee R (f a))
      → Guarantee R (m >>= f)
  Guarantee-bind {A = A} m f km kf = record { at = λ w. rely.both (km.at w) (after (m w)) }
    where
      after : (p : Outcome A × World) → R p.1 (continue p f).1
      after (done a, v) = (kf a).at v
      after (raised x, v) = rely.same v
      after (pending, v) = rely.same v

  pub Guarantee-try {ℓ} :
      {A : Type ℓ} (m : Relay A) (handler : Exception → Relay A)
      → Guarantee R m
      → ((x : Exception) → Guarantee R (handler x))
      → Guarantee R (try m handler)
  Guarantee-try {A = A} m handler km kh = record { at = λ w. rely.both (km.at w) (after (m w)) }
    where
      after : (p : Outcome A × World) → R p.1 (recover p handler).1
      after (done a, v) = rely.same v
      after (raised x, v) = (kh x).at v
      after (pending, v) = rely.same v

  pub Guarantee-perform : (c : Call) → Guarantee R (perform env c)
  unfolding perform
  Guarantee-perform c = record { at = λ w. after w (env.answer w.trace c) }
    where
      after :
          (w : World) (o : Option Exception)
          → R w (answered o (env.others (record w { trace = c ∷ w.trace }))).1
      after w none = rely.both (rely.called w c) (rely.others _)
      after w (some x) = rely.both (rely.called w c) (rely.others _)

pub Guarantee-if {ℓ} :
    {A : Type ℓ} {R : World → World → Type 0} (b : Bool) (m n : Relay A)
    → Guarantee R m
    → Guarantee R n
    → Guarantee R (if b then m else n)
Guarantee-if true m n km kn = km
Guarantee-if false m n km kn = kn

pub Guarantee-modify :
    {R : World → World → Type 0} (f : World → World)
    → ((w : World) → R w (f w))
    → Guarantee R (modify f)
Guarantee-modify f h = record { at = h }
