-- ===== src/Relay/Threads.antt =====
-- `TcpConnection.recv` of http_network_relay/network_relay.py, which runs in a thread of its own,
-- with what the event loop does to the same object: `fill_recv`, and `_drop_relayed_connection`
-- with `wake_readers`. A step is what one of the two does between two points at which the other
-- may run: a lock is taken, an event is set, cleared or found set, a field is read or written.
pub mod Invariant
pub mod Wakeup
mod Tests
use http_network_relay.Prelude.{
  ℕ, zero, suc, ◌≡◌, ◌≢◌, Bool, true, false, List, [], ◌∷◌, ◌++◌, take, drop,
}
use http_network_relay.Frame.Hex.{Bytes}

-- Where the thread is in `recv(size)`.
pub data Reader : Type 0 where
  -- not in `recv`, or back from it
  outside : Reader
  -- in the first `with self.recv_buffer_lock`: before its tests, and before `recv_event.clear()`
  checking clearing : ℕ → Reader
  -- in `recv_event.wait`, and after it
  waiting woken : ℕ → Reader
  -- in the second `with self.recv_buffer_lock`: before its test, after `result` was read, and after
  -- the rest of the buffer was read, which is to be stored
  taking : ℕ → Reader
  cutting : ℕ → Bytes → Reader
  storing : Bytes → Bytes → Reader

-- Where the event loop is: in no method of the object; in `fill_recv`, before `extend` and before
-- `recv_event.set()`; or between the `pop` of `_drop_relayed_connection` and `wake_readers`.
pub data Loop : Type 0 where
  elsewhere : Loop
  filling : Bytes → Loop
  signalling dropping : Loop

pub data Lock : Type 0 where
  free by_reader by_loop : Lock

-- How the last `recv` ended.
pub data Ending : Type 0 where
  no_ending end_of_file timed_out : Ending
  returned : Bytes → Ending

-- The object, with its place in `active_relayed_connections`. `given` and `taken` are all bytes
-- that `fill_recv` has added and that `recv` has returned.
pub record Shared : Type 0 where
  pub recv_buffer : Bytes
  pub event : Bool
  pub active : Bool
  pub has_timeout : Bool
  pub lock : Lock
  pub reader : Reader
  pub loop : Loop
  pub ending : Ending
  pub given : Bytes
  pub taken : Bytes

-- A new connection, without or with a timeout.
abbrev pub fresh : Bool → Shared
fresh has_timeout = record {
  recv_buffer = [];
  event = false;
  active = true;
  has_timeout = has_timeout;
  lock = free;
  reader = outside;
  loop = elsewhere;
  ending = no_ending;
  given = [];
  taken = [];
}

pub data Step (s : Shared) : Shared → Type 0 where
  enter :
      (n : ℕ)
      → s.reader ≡ outside
      → s.lock ≡ free
      → Step s (record s { reader = checking n; lock = by_reader; ending = no_ending })
  find_data :
      (n : ℕ)
      → s.reader ≡ checking n
      → s.recv_buffer ≢ []
      → Step s (record s { reader = waiting n; lock = free })
  find_closed :
      (n : ℕ)
      → s.reader ≡ checking n
      → s.recv_buffer ≡ []
      → s.active ≡ false
      → Step s (record s { reader = outside; lock = free; ending = end_of_file })
  find_open :
      (n : ℕ)
      → s.reader ≡ checking n
      → s.recv_buffer ≡ []
      → s.active ≡ true
      → Step s (record s { reader = clearing n })
  clear :
      (n : ℕ)
      → s.reader ≡ clearing n
      → Step s (record s { reader = waiting n; event = false; lock = free })
  wake : (n : ℕ) → s.reader ≡ waiting n → s.event ≡ true → Step s (record s { reader = woken n })
  time_out :
      (n : ℕ)
      → s.reader ≡ waiting n
      → s.has_timeout ≡ true
      → Step s (record s { reader = outside; ending = timed_out })
  return_nothing : s.reader ≡ woken 0 → Step s (record s { reader = outside; ending = returned [] })
  lock_again :
      (n : ℕ)
      → s.reader ≡ woken (suc n)
      → s.lock ≡ free
      → Step s (record s { reader = taking (suc n); lock = by_reader })
  take_nothing :
      (n : ℕ)
      → s.reader ≡ taking n
      → s.recv_buffer ≡ []
      → Step s (record s { reader = outside; lock = free; ending = end_of_file })
  take_front :
      (n : ℕ)
      → s.reader ≡ taking n
      → s.recv_buffer ≢ []
      → Step s (record s { reader = cutting n (take n s.recv_buffer) })
  read_rest :
      (n : ℕ) (result : Bytes)
      → s.reader ≡ cutting n result
      → Step s (record s { reader = storing result (drop n s.recv_buffer) })
  store_rest :
      (result rest : Bytes)
      → s.reader ≡ storing result rest
      → Step s (record s {
        reader = outside;
        lock = free;
        recv_buffer = rest;
        ending = returned result;
        taken = s.taken ++ result;
      })
  -- `fill_recv` is called on an active connection only.
  fill :
      (bytes : Bytes)
      → s.loop ≡ elsewhere
      → s.active ≡ true
      → s.lock ≡ free
      → Step s (record s { loop = filling bytes; lock = by_loop })
  extend :
      (bytes : Bytes)
      → s.loop ≡ filling bytes
      → Step s (record s {
        loop = signalling;
        recv_buffer = s.recv_buffer ++ bytes;
        given = s.given ++ bytes;
      })
  signal : s.loop ≡ signalling → Step s (record s { loop = elsewhere; event = true; lock = free })
  drop_it :
      s.loop ≡ elsewhere → s.active ≡ true → Step s (record s { loop = dropping; active = false })
  wake_readers : s.loop ≡ dropping → Step s (record s { loop = elsewhere; event = true })

pub data Reach (s : Shared) : Shared → Type 0 where
  here : Reach s s
  next : {t u : Shared} → Reach s t → Step t u → Reach s u
