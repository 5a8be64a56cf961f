-- ===== src/Relay/Threads/Tests.antt =====
-- The theorems on `recv` at one run.
use http_network_relay.Prelude.{◌≡◌, refl, false, true, [], ◌∷◌, ◌++◌}
use http_network_relay.Relay.Threads.{
  Shared, fresh, waiting, returned, Step, enter, find_open, clear, wake, lock_again, take_front,
  read_rest, store_rest, fill, extend, signal, Reach, here, next,
}
use http_network_relay.Relay.Threads.Invariant.{Reach-in_order}
use http_network_relay.Relay.Threads.Wakeup.{IsStranded, recv_can_hang}

-- Two bytes have come in, and the thread has returned the first.
abbrev returned_one : Shared
returned_one = record (fresh false) {
  event = true;
  recv_buffer = 8 ∷ [];
  given = 7 ∷ 8 ∷ [];
  taken = 7 ∷ [];
  ending = returned (7 ∷ []);
}

filled-Reach : Reach (fresh false) (record (fresh false) {
  reader = waiting 1;
  event = true;
  recv_buffer = 7 ∷ 8 ∷ [];
  given = 7 ∷ 8 ∷ [];
})
filled-Reach =
    next
      (next
        (next
          (next (next (next here (enter 1 refl refl)) (find_open 1 refl refl refl)) (clear 1 refl))
          (fill (7 ∷ 8 ∷ []) refl refl refl))
        (extend (7 ∷ 8 ∷ []) refl))
      (signal refl)

returned_one-Reach : Reach (fresh false) returned_one
returned_one-Reach =
    next
      (next
        (next (next (next filled-Reach (wake 1 refl refl)) (lock_again 0 refl refl))
          (take_front 1 refl (λ e. cc e)))
        (read_rest 1 (7 ∷ []) refl))
      (store_rest (7 ∷ []) (8 ∷ []) refl)

Reach-in_order_example : returned_one.taken ++ returned_one.recv_buffer ≡ 7 ∷ 8 ∷ []
Reach-in_order_example = Reach-in_order returned_one-Reach

recv_can_hang_example :
    (s : Shared) × Reach (fresh false) s × IsStranded 5 s × ((t : Shared) → Step s t → ⊥)
recv_can_hang_example = recv_can_hang 5
