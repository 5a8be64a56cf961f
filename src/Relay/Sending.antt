-- ===== src/Relay/Sending.antt =====
-- `TcpConnection.send` of http_network_relay/network_relay.py, which runs in a thread of its own,
-- with the tasks of `send_async` that it starts on the event loop. `send_buffer_lock` is a lock of
-- `threading`: whoever waits for it stops its whole thread, and `send_async` holds it while it is
-- suspended. A step is what the thread or the event loop does between two points at which the other
-- may run.
pub mod Invariant
pub mod Deadlock
mod Tests
use http_network_relay.Prelude.{ℕ, zero, suc, ◌≡◌, ◌≢◌, Bool, true, false, List, [], ◌∷◌, ◌++◌}
use http_network_relay.Frame.Hex.{Bytes}

-- Where the thread is in `send(content)`.
pub data Sender : Type 0 where
  -- not in `send`, or back from it
  outside : Sender
  -- in the `with self.send_buffer_lock`, before `extend`
  extending : Bytes → Sender
  -- before `run_coroutine_threadsafe`, and before `if self.closed`
  scheduling checking : Sender

-- The event loop's thread: it runs what is ready, or it waits for the lock in a `send_async`.
pub data LoopThread : Type 0 where
  running blocked : LoopThread

pub data SendLock : Type 0 where
  free by_thread by_task : SendLock

-- How the last `send` ended.
pub data SendEnding : Type 0 where
  no_ending accepted end_of_file : SendEnding

-- The object, with its place in `active_relayed_connections`. `scheduled` counts the tasks that have
-- not begun, `sending` is what the suspended tasks are sending. `given` is all that `send` has added,
-- and `handed` what each task has taken, in order.
pub record Outlet : Type 0 where
  pub send_buffer : Bytes
  pub active : Bool
  pub lock : SendLock
  pub sender : Sender
  pub loop : LoopThread
  pub ending : SendEnding
  pub scheduled : ℕ
  pub sending : List Bytes
  pub given : Bytes
  pub handed : List Bytes

-- A new connection.
abbrev pub unused : Outlet
unused = record {
  send_buffer = [];
  active = true;
  lock = free;
  sender = outside;
  loop = running;
  ending = no_ending;
  scheduled = 0;
  sending = [];
  given = [];
  handed = [];
}

-- A task has the lock: it takes the buffer and is suspended in the send.
abbrev pub took : Outlet → Outlet
took s = record s {
  loop = running;
  lock = by_task;
  send_buffer = [];
  sending = s.send_buffer ∷ s.sending;
  handed = s.handed ++ s.send_buffer ∷ [];
}

pub data SendStep (s : Outlet) : Outlet → Type 0 where
  lock_buffer :
      (content : Bytes)
      → s.sender ≡ outside
      → s.lock ≡ free
      → SendStep s (record s { sender = extending content; lock = by_thread; ending = no_ending })
  extend :
      (content : Bytes)
      → s.sender ≡ extending content
      → SendStep s (record s {
        sender = scheduling;
        lock = free;
        send_buffer = s.send_buffer ++ content;
        given = s.given ++ content;
      })
  schedule :
      s.sender ≡ scheduling
      → SendStep s (record s { sender = checking; scheduled = suc s.scheduled })
  find_open :
      s.sender ≡ checking
      → s.active ≡ true
      → SendStep s (record s { sender = outside; ending = accepted })
  find_closed :
      s.sender ≡ checking
      → s.active ≡ false
      → SendStep s (record s { sender = outside; ending = end_of_file })
  -- A task begins, with the lock or waiting for it.
  begin :
      (n : ℕ)
      → s.loop ≡ running
      → s.scheduled ≡ suc n
      → s.lock ≡ free
      → SendStep s (record (took s) { scheduled = n })
  block :
      (n : ℕ)
      → s.loop ≡ running
      → s.scheduled ≡ suc n
      → s.lock ≢ free
      → SendStep s (record s { loop = blocked; scheduled = n })
  unblock : s.loop ≡ blocked → s.lock ≡ free → SendStep s (took s)
  -- The send of a task returns or raises, and the `with` ends.
  complete :
      (content : Bytes) (rest : List Bytes)
      → s.loop ≡ running
      → s.sending ≡ content ∷ rest
      → SendStep s (record s { sending = rest; lock = free })
  -- `_drop_relayed_connection`
  drop_it : s.loop ≡ running → SendStep s (record s { active = false })

pub data SendReach (s : Outlet) : Outlet → Type 0 where
  here : SendReach s s
  next : {t u : Outlet} → SendReach s t → SendStep t u → SendReach s u
