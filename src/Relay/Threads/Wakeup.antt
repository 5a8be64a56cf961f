-- ===== src/Relay/Threads/Wakeup.antt =====
-- The wake-up that `recv` loses: `wake_readers` sets the event with no lock, and the thread may
-- clear it after it has looked whether the connection is closed.
use http_network_relay.Prelude.{ℕ, ◌≡◌, refl, false}
use http_network_relay.Relay.Threads.{
  waiting, elsewhere, Shared, fresh, Step, enter, find_data, find_closed, find_open, clear, wake,
  time_out, return_nothing, lock_again, take_nothing, take_front, read_rest, store_rest, fill,
  extend, signal, drop_it, wake_readers, Reach, here, next,
}

-- The thread waits without a timeout on a closed connection, with nothing left to wake it.
pub record IsStranded (n : ℕ) (s : Shared) : Type 0 where
  pub waits : s.reader ≡ waiting n
  pub unset : s.event ≡ false
  pub closed : s.active ≡ false
  pub idle : s.loop ≡ elsewhere
  pub unlimited : s.has_timeout ≡ false

-- Neither the thread nor the event loop can make a step from there.
IsStranded-stuck : {n : ℕ} {s t : Shared} → IsStranded n s → Step s t → ⊥
IsStranded-stuck h (enter m at_reader at_lock) = cc (h.waits, at_reader)
IsStranded-stuck h (find_data m at_reader full) = cc (h.waits, at_reader)
IsStranded-stuck h (find_closed m at_reader empty shut) = cc (h.waits, at_reader)
IsStranded-stuck h (find_open m at_reader empty is_open) = cc (h.waits, at_reader)
IsStranded-stuck h (clear m at_reader) = cc (h.waits, at_reader)
IsStranded-stuck h (wake m at_reader set) = cc (h.unset, set)
IsStranded-stuck h (time_out m at_reader limited) = cc (h.unlimited, limited)
IsStranded-stuck h (return_nothing at_reader) = cc (h.waits, at_reader)
IsStranded-stuck h (lock_again m at_reader at_lock) = cc (h.waits, at_reader)
IsStranded-stuck h (take_nothing m at_reader empty) = cc (h.waits, at_reader)
IsStranded-stuck h (take_front m at_reader full) = cc (h.waits, at_reader)
IsStranded-stuck h (read_rest m result at_reader) = cc (h.waits, at_reader)
IsStranded-stuck h (store_rest result rest at_reader) = cc (h.waits, at_reader)
IsStranded-stuck h (fill bytes at_loop is_open at_lock) = cc (h.closed, is_open)
IsStranded-stuck h (extend bytes at_loop) = cc (h.idle, at_loop)
IsStranded-stuck h (signal at_loop) = cc (h.idle, at_loop)
IsStranded-stuck h (drop_it at_loop is_open) = cc (h.closed, is_open)
IsStranded-stuck h (wake_readers at_loop) = cc (h.idle, at_loop)

-- The thread looks whether the connection is closed; the event loop drops it and sets the event;
-- the thread clears the event, and waits.
stranded : ℕ → Shared
stranded n = record (fresh false) { reader = waiting n; active = false }

stranded-Reach : (n : ℕ) → Reach (fresh false) (stranded n)
unfolding stranded
stranded-Reach n =
    next
      (next
        (next (next (next here (enter n refl refl)) (find_open n refl refl refl))
          (drop_it refl refl))
        (wake_readers refl))
      (clear n refl)

-- A close can leave a reader behind for ever: for every size there is a run, from a new connection
-- without a timeout, in which the connection is dropped and its readers are woken, and after which
-- the thread waits in `recv` and no step is left.
pub recv_can_hang :
    (n : ℕ) → (s : Shared) × Reach (fresh false) s × IsStranded n s × ((t : Shared) → Step s t → ⊥)
unfolding stranded
recv_can_hang n =
    let h : IsStranded n (stranded n) = record {
      waits = refl;
      unset = refl;
      closed = refl;
      idle = refl;
      unlimited = refl;
    } in
    (stranded n, stranded-Reach n, h, λ t. IsStranded-stuck h)
