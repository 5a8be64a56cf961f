-- ===== src/Relay/Sending/Tests.antt =====
-- The theorems on `send` at one run.
use http_network_relay.Prelude.{◌≡◌, ◌≢◌, refl, ◌⊎◌, [], ◌∷◌, ◌++◌}
use http_network_relay.Frame.Hex.{Bytes}
use http_network_relay.Reads.{joined}
use http_network_relay.Relay.Sending.{
  blocked, by_thread, extending, Outlet, unused, lock_buffer, extend, schedule, find_open, block,
  SendReach, here, next,
}
use http_network_relay.Relay.Sending.Invariant.{IsAttended, Reach-handed}
use http_network_relay.Relay.Sending.Deadlock.{HasStopped, send_can_deadlock}

-- The task of a first call waits for the lock that the thread holds in a second one.
abbrev crossed : Outlet
crossed = record unused {
  sender = extending (3 ∷ []);
  lock = by_thread;
  loop = blocked;
  send_buffer = 1 ∷ 2 ∷ [];
  given = 1 ∷ 2 ∷ [];
}

crossed-Reach : SendReach unused crossed
crossed-Reach =
    next
      (next
        (next
          (next (next (next here (lock_buffer (1 ∷ 2 ∷ []) refl refl)) (extend (1 ∷ 2 ∷ []) refl))
            (schedule refl))
          (find_open refl refl))
        (lock_buffer (3 ∷ []) refl refl))
      (block 0 refl refl (λ e. cc))

Reach-handed_example :
    (joined crossed.handed ++ crossed.send_buffer ≡ crossed.given)
    × ((crossed.sending ≡ []) ⊎ ((content : Bytes) × (crossed.sending ≡ content ∷ [])))
    × (crossed.send_buffer ≢ [] → IsAttended crossed)
Reach-handed_example = Reach-handed crossed-Reach

send_can_deadlock_example :
    (s : Outlet) × SendReach unused s
    × (s.sending ≡ (1 ∷ 2 ∷ [] ++ 3 ∷ []) ∷ [])
    × (s.given ≡ 1 ∷ 2 ∷ [] ++ 3 ∷ [])
    × ((t : Outlet) → SendReach s t → HasStopped s t)
send_can_deadlock_example = send_can_deadlock (1 ∷ 2 ∷ []) (3 ∷ [])
