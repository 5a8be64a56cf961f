-- ===== src/Relay/AccessClients/Reader.antt =====
-- How `access_client_receive_thread` of http_network_relay/network_relay.py ends.
use http_network_relay.Prelude.{
  ℕ, zero, suc, ◌≡◌, Bool, true, false, Bool-cases, Option-cases, inl, inr, none, Text, text_key,
  arith, if◌then◌else◌,
}
use http_network_relay.Prelude.Dict
use http_network_relay.Relay.World.{
  WebSocket, World, Env, Relay, recover, continue, pure, Outcome, done, raised, pending,
}
use http_network_relay.Relay.Close.{drop_relayed_connection, wake_readers}
use http_network_relay.Relay.AccessClients.Thread.{
  reader_round, reader_loop, access_client_receive_thread,
}

-- A run that waits, or has returned in a state with `Q`; it has not raised.
pub data IsCalm {ℓ} {A : Type ℓ} (Q : World → Type 0) : Outcome A × World → Type ℓ where
  waits : {v : World} → IsCalm Q (pending, v)
  returned : {a : A} {v : World} → Q v → IsCalm Q (done a, v)

abbrev Anything : World → Type 0
Anything v = Unit {0}

-- The connection `id` is not active.
abbrev pub IsDropped : Text → World → Type 0
IsDropped id v = Dict.lookup id v.active_relayed_connections ≡ none

drop-IsDropped : (id : Text) (w : World) → IsCalm (IsDropped id) (drop_relayed_connection id w)
unfolding drop_relayed_connection wake_readers
drop-IsDropped id w = elim (Option-cases (Dict.lookup id w.active_relayed_connections)) [
  | inl e ↦ rw (drop_relayed_connection, e) (returned e)
  | inr (address, e) ↦
      rw (drop_relayed_connection, e)
        (returned
          (ground (arith, Dict.lookup-erase id id w.active_relayed_connections, Dict.eq_self id)))
]

continue-IsCalm :
    {A B : Type 0} {P Q : World → Type 0} (p : Outcome A × World)
    (f : A → World → Outcome B × World)
    → IsCalm P p
    → ((a : A) (v : World) → IsCalm Q (f a v))
    → IsCalm Q (continue p f)
continue-IsCalm (pending, v) f waits h = waits
continue-IsCalm (raised x, v) f c h = elim c [ ]
continue-IsCalm (done a, v) f (returned _) h = h a v

recover-IsCalm : (p : Outcome Bool × World) → IsCalm Anything (recover p (λ _. pure false))
recover-IsCalm (done b, w) = returned tt
recover-IsCalm (raised x, w) = returned tt
recover-IsCalm (pending, w) = waits

next :
    (rest : Relay (Unit {0}))
    → ((v : World) → IsCalm Anything (rest v))
    → (goes_on : Bool) (v : World) → IsCalm Anything ((if goes_on then rest else pure tt) v)
next rest h true v = h v
next rest h false v = returned tt

module _ (env : Env) (fuel : ℕ) (ws : WebSocket) where
  round-IsCalm :
      (address : ℕ) (binary_wanted : Bool) (w : World)
      → IsCalm Anything (reader_round env fuel ws address binary_wanted w)
  unfolding reader_round
  round-IsCalm address binary_wanted w = recover-IsCalm _

  loop-IsCalm :
      (rounds : ℕ) (id : Text) (address : ℕ) (binary_wanted : Bool) (w : World)
      → IsCalm Anything (reader_loop env rounds fuel ws id address binary_wanted w)
  unfolding reader_loop
  loop-IsCalm zero id address binary_wanted w = waits
  loop-IsCalm (suc rounds) id address binary_wanted w =
      elim (Bool-cases (Dict.contains id w.active_relayed_connections)) [
        | inr gone ↦ rw gone (returned tt)
        | inl here ↦ rw here (
            continue-IsCalm (reader_round env fuel ws address binary_wanted w)
              (λ goes_on.
                if goes_on
                then reader_loop env rounds fuel ws id address binary_wanted
                else pure tt)
              (round-IsCalm address binary_wanted w)
              (λ goes_on v.
                next (reader_loop env rounds fuel ws id address binary_wanted)
                  (loop-IsCalm rounds id address binary_wanted) goes_on v))
      ]

  -- The reader of an access client never ends by an exception, whatever the reads and the sends do,
  -- and when it ends, its connection is no longer active.
  pub access_client_receive_thread-IsDropped :
      (rounds address : ℕ) (binary_wanted : Bool) (w : World)
      → IsCalm
          (IsDropped (w.objects address).id)
          (access_client_receive_thread env rounds fuel ws address binary_wanted w)
  unfolding access_client_receive_thread
  access_client_receive_thread-IsDropped rounds address binary_wanted w =
      continue-IsCalm
        (reader_loop env rounds fuel ws (w.objects address).id address binary_wanted w)
        (λ _. drop_relayed_connection (w.objects address).id)
        (loop-IsCalm rounds (w.objects address).id address binary_wanted w)
        (λ u v. drop-IsDropped (w.objects address).id v)
