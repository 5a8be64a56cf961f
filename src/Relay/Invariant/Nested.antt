-- ===== src/Relay/Invariant/Nested.antt =====
-- Methods of a `NetworkRelay` (http_network_relay/network_relay.py) at the awaits of others: while
-- a method is suspended, whole runs of other methods happen.
use http_network_relay.Prelude.{ℕ, zero, suc, ◌≡◌, sym, subst}
use http_network_relay.Relay.World.{Connection, World, Env}
use http_network_relay.Relay.Invariant.{IsValid, Evolves, Evolves-same, IsTame}
use http_network_relay.Relay.Invariant.Reachable.{new_relay, Reach, Reach-Evolves, Reach-IsValid}

-- The methods that a subclass overrides do no harm, if what runs while they are suspended does none.
pub record HasTameHooks (env : Env) : Type 0 where
  pub tame : ((w : World) → Evolves w (env.others w)) → IsTame env

-- What the other tasks do during each `await` is a sequence of runs of the relay's methods, and so
-- again for the awaits in these, down to runs in which nothing else happens.
abbrev pub IsNested : ℕ → Env → Type 0
IsNested zero env = (w : World) → env.others w ≡ w
IsNested (suc depth) env =
    (w : World)
    → (inner : Env) × HasTameHooks inner × IsNested depth inner × Reach inner w (env.others w)

nested-IsTame : (depth : ℕ) (env : Env) → HasTameHooks env → IsNested depth env → IsTame env
nested-IsTame zero env hooks still =
    hooks.tame (λ w. subst (λ v. Evolves w v) (sym (still w)) (Evolves-same w))
nested-IsTame (suc depth) env hooks runs = hooks.tame (λ w.
    let (inner, inner_hooks, inner_runs, reach) = runs w in
    Reach-Evolves (nested-IsTame depth inner inner_hooks inner_runs) reach)

-- In every state that a new relay comes to by runs of its methods, where at every await other
-- whole runs of methods happen, and others again at the awaits in these, to any depth, each active
-- connection is an object that exists and is listed under its own id; provided that the methods of
-- a subclass do no harm. A run that starts at an await ends before the method that it interrupts
-- goes on.
pub nested-IsValid :
    (depth : ℕ) (env : Env) (objects : ℕ → Connection) (w : World)
    → HasTameHooks env
    → IsNested depth env
    → Reach env (new_relay objects) w
    → IsValid w
nested-IsValid depth env objects w hooks runs r =
    Reach-IsValid (nested-IsTame depth env hooks runs) objects r
