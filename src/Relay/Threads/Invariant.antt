-- ===== src/Relay/Threads/Invariant.antt =====
-- What holds at every point of `recv` and of the event loop.
use http_network_relay.Prelude.{
  ℕ, ◌≡◌, ◌≢◌, refl, ap, sym, ◌∙◌, ◌⊎◌, inr, Bool, true, [], ◌∷◌, ◌++◌, take, drop, arith,
  append_assoc, take-append-drop,
}
use http_network_relay.Frame.Hex.{Bytes}
use http_network_relay.Relay.Threads.{
  Reader, checking, clearing, waiting, taking, cutting, storing, Loop, filling, signalling, Lock,
  by_reader, by_loop, Shared, fresh, Step, enter, find_data, find_closed, find_open, clear, wake,
  time_out, return_nothing, lock_again, take_nothing, take_front, read_rest, store_rest, fill,
  extend, signal, drop_it, wake_readers, Reach, here, next,
}

-- The lock that the thread holds where it is.
abbrev ReaderLock : Reader → Lock → Type 0
ReaderLock (checking n) l = l ≡ by_reader
ReaderLock (clearing n) l = l ≡ by_reader
ReaderLock (taking n) l = l ≡ by_reader
ReaderLock (cutting n result) l = l ≡ by_reader
ReaderLock (storing result rest) l = l ≡ by_reader
ReaderLock r l = l ≢ by_reader

abbrev LoopLock : Loop → Lock → Type 0
LoopLock (filling bytes) l = l ≡ by_loop
LoopLock signalling l = l ≡ by_loop
LoopLock o l = l ≢ by_loop

-- Whether the event is set or about to be.
abbrev pub IsSignalled : Shared → Type 0
IsSignalled s = (s.event ≡ true) ⊎ (s.loop ≡ signalling)

-- What the thread has seen of the buffer under its lock is still so.
abbrev HasSeen : Reader → Bytes → Type 0
HasSeen (clearing n) b = b ≡ []
HasSeen (cutting n result) b = result ≡ take n b
HasSeen (storing result rest) b = result ++ rest ≡ b
HasSeen r b = Unit {0}

nil-of-append : (a b : Bytes) → a ++ b ≡ [] → b ≡ []
nil-of-append [] b e = e
nil-of-append (x ∷ a) b e = cc e

pub record IsSound (s : Shared) : Type 0 where
  pub reader_holds : ReaderLock s.reader s.lock
  pub loop_holds : LoopLock s.loop s.lock
  pub has_seen : HasSeen s.reader s.recv_buffer
  pub data_signalled : s.recv_buffer ≢ [] → IsSignalled s
  pub in_order : s.taken ++ s.recv_buffer ≡ s.given

fresh-IsSound : (t : Bool) → IsSound (fresh t)
fresh-IsSound t = record {
  reader_holds = λ e. cc;
  loop_holds = λ e. cc;
  has_seen = tt;
  data_signalled = λ h. absurd (h refl);
  in_order = refl;
}

Step-IsSound : {s t : Shared} → Step s t → IsSound s → IsSound t
Step-IsSound (enter n at_reader at_lock) v = ground arith
Step-IsSound (find_data n at_reader full) v = ground arith
Step-IsSound (find_closed n at_reader empty shut) v = ground arith
Step-IsSound (find_open n at_reader empty is_open) v = ground arith
Step-IsSound (clear n at_reader) v = ground arith
Step-IsSound (wake n at_reader set) v = ground arith
Step-IsSound (time_out n at_reader limited) v = ground arith
Step-IsSound (return_nothing at_reader) v = ground arith
Step-IsSound (lock_again n at_reader at_lock) v = ground arith
Step-IsSound (take_nothing n at_reader empty) v = ground arith
Step-IsSound (take_front n at_reader full) v = ground arith
Step-IsSound {s} (read_rest n result at_reader) v = record {
  reader_holds = ground (arith, v.reader_holds);
  loop_holds = v.loop_holds;
  has_seen =
      let seen : result ≡ take n s.recv_buffer = ground (arith, v.has_seen) in
      ap (λ r. r ++ drop n s.recv_buffer) seen ∙ take-append-drop n s.recv_buffer;
  data_signalled = v.data_signalled;
  in_order = v.in_order;
}
Step-IsSound {s} (store_rest result rest at_reader) v =
    let seen : result ++ rest ≡ s.recv_buffer = ground (arith, v.has_seen) in
    record {
      reader_holds = λ e. cc;
      loop_holds = ground (arith, v.loop_holds, v.reader_holds);
      has_seen = tt;
      data_signalled = λ left. v.data_signalled (λ e. left (nil-of-append result rest (seen ∙ e)));
      in_order = append_assoc s.taken result rest ∙ (ap (◌++◌ s.taken) seen ∙ v.in_order);
    }
Step-IsSound (fill bytes at_loop is_open at_lock) v = ground arith
Step-IsSound {s} (extend bytes at_loop) v = record {
  reader_holds = v.reader_holds;
  loop_holds = ground (arith, v.loop_holds);
  has_seen = ground (arith, v.reader_holds, v.loop_holds);
  data_signalled = λ left. inr refl;
  in_order = sym (append_assoc s.taken s.recv_buffer bytes) ∙ ap (λ b. b ++ bytes) v.in_order;
}
Step-IsSound (signal at_loop) v = ground arith
Step-IsSound (drop_it at_loop is_open) v = ground arith
Step-IsSound (wake_readers at_loop) v = ground arith

Reach-IsSound : {t : Bool} {s : Shared} → Reach (fresh t) s → IsSound s
Reach-IsSound {t} here = fresh-IsSound t
Reach-IsSound (next r st) = Step-IsSound st (Reach-IsSound r)

-- At every point that a connection's thread and the event loop can reach, what `recv` has returned
-- and then what is in the buffer is what `fill_recv` was given, in order: no byte is lost, and none
-- is returned twice, although the thread reads the buffer twice and stores the rest in three steps,
-- between which the event loop may run.
pub Reach-in_order :
    {t : Bool} {s : Shared} → Reach (fresh t) s → s.taken ++ s.recv_buffer ≡ s.given
Reach-in_order r = (Reach-IsSound r).in_order

-- A thread that waits in `recv` while there is data is never stuck: the event is set, or the event
-- loop is about to set it.
Reach-data_signalled :
    {t : Bool} {s : Shared} (n : ℕ)
    → Reach (fresh t) s
    → s.reader ≡ waiting n
    → s.recv_buffer ≢ []
    → (s.event ≡ true) ⊎ (s.loop ≡ signalling)
Reach-data_signalled n r at_reader full = (Reach-IsSound r).data_signalled full
