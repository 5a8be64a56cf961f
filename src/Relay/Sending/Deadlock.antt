-- ===== src/Relay/Sending/Deadlock.antt =====
-- The deadlock of `send_async`: it takes a lock that stops its thread, and keeps it while it is
-- suspended, so the next `send_async` on the same event loop stops the only thread that could let
-- the first one go on.
use http_network_relay.Prelude.{suc, ◌≡◌, ◌≢◌, refl, ◌∙◌, true, [], ◌∷◌, ◌++◌}
use http_network_relay.Frame.Hex.{Bytes}
use http_network_relay.Relay.Sending.{
  Sender, accepted, extending, scheduling, checking, outside, running, blocked, SendLock, free,
  by_thread, by_task, Outlet, unused, SendStep, lock_buffer, extend, schedule, find_open,
  find_closed, begin, block, unblock, complete, drop_it, SendReach, here, next,
}
use http_network_relay.Relay.Sending.Invariant.{IsOrderly, SenderLock, Reach-IsOrderly}

-- The event loop waits for a lock that a suspended task holds.
pub record IsDeadlocked (s : Outlet) : Type 0 where
  pub waits : s.loop ≡ blocked
  pub held : s.lock ≡ by_task
  pub apart : SenderLock s.sender by_task

-- From `s` to `t` nothing was handed over, and no send has ended.
pub record HasStopped (s t : Outlet) : Type 0 where
  pub deadlocked : IsDeadlocked t
  pub same_handed : t.handed ≡ s.handed
  pub same_sending : t.sending ≡ s.sending

Step-HasStopped : {s t : Outlet} → SendStep s t → IsDeadlocked s → HasStopped s t
Step-HasStopped (lock_buffer content at_sender at_lock) d = cc (d.held, at_lock)
Step-HasStopped (extend content at_sender) d = cc (rw at_sender at d.apart)
Step-HasStopped (schedule at_sender) d = record {
  deadlocked = record { waits = d.waits; held = d.held; apart = λ e. cc };
  same_handed = refl;
  same_sending = refl;
}
Step-HasStopped (find_open at_sender is_open) d = record {
  deadlocked = record { waits = d.waits; held = d.held; apart = λ e. cc };
  same_handed = refl;
  same_sending = refl;
}
Step-HasStopped (find_closed at_sender shut) d = record {
  deadlocked = record { waits = d.waits; held = d.held; apart = λ e. cc };
  same_handed = refl;
  same_sending = refl;
}
Step-HasStopped (begin n at_loop some_task at_lock) d = cc (d.waits, at_loop)
Step-HasStopped (block n at_loop some_task held) d = cc (d.waits, at_loop)
Step-HasStopped (unblock at_loop at_lock) d = cc (d.held, at_lock)
Step-HasStopped (complete content rest at_loop at_sending) d = cc (d.waits, at_loop)
Step-HasStopped (drop_it at_loop) d = cc (d.waits, at_loop)

Reach-HasStopped : {s t : Outlet} → IsDeadlocked s → SendReach s t → HasStopped s t
Reach-HasStopped d here = record { deadlocked = d; same_handed = refl; same_sending = refl }
Reach-HasStopped d (next r st) =
    let p = Reach-HasStopped d r in
    let q = Step-HasStopped st p.deadlocked in
    record {
      deadlocked = q.deadlocked;
      same_handed = q.same_handed ∙ p.same_handed;
      same_sending = q.same_sending ∙ p.same_sending;
    }

-- A call of `send` on an active connection, from its lock to its return.
one_send :
    {u s : Outlet} (content : Bytes)
    → s.sender ≡ outside
    → s.lock ≡ free
    → s.active ≡ true
    → SendReach u s
    → SendReach u (record s {
      sender = outside;
      lock = free;
      ending = accepted;
      scheduled = suc s.scheduled;
      send_buffer = s.send_buffer ++ content;
      given = s.given ++ content;
    })
one_send content at_sender at_lock is_open r =
    next
      (next (next (next r (lock_buffer content at_sender at_lock)) (extend content refl))
        (schedule refl))
      (find_open refl is_open)

-- Two sends were through before the event loop came to the first of their tasks.
sent_twice : Bytes → Bytes → Outlet
sent_twice a b = record unused {
  lock = by_task;
  loop = blocked;
  ending = accepted;
  sending = (a ++ b) ∷ [];
  given = a ++ b;
  handed = (a ++ b) ∷ [];
}

sent_twice-Reach : (a b : Bytes) → SendReach unused (sent_twice a b)
unfolding sent_twice
sent_twice-Reach a b =
    next
      (next (one_send b refl refl refl (one_send a refl refl refl here)) (begin 1 refl refl refl))
      (block 0 refl refl (λ e. cc))

-- Two calls of `send` can stop the whole relay: for any two contents there is a run, from a new
-- connection, in which both calls return before the event loop comes to their tasks, and the first
-- task is suspended in its send of what both gave; then the second one stops the event loop's
-- thread, and whatever happens after that, the loop stays stopped, that send never ends, and nothing
-- is handed over any more.
pub send_can_deadlock :
    (a b : Bytes)
    → (s : Outlet) × SendReach unused s
      × (s.sending ≡ (a ++ b) ∷ [])
      × (s.given ≡ a ++ b)
      × ((t : Outlet) → SendReach s t → HasStopped s t)
unfolding sent_twice
send_can_deadlock a b =
    let d : IsDeadlocked (sent_twice a b) = record { waits = refl; held = refl; apart = λ e. cc } in
    (sent_twice a b, sent_twice-Reach a b, refl, refl, λ t. Reach-HasStopped d)

resolves :
    (s : Outlet) (q : Sender)
    → s.sender ≡ q
    → SenderLock q by_thread
    → s.loop ≡ blocked
    → (t : Outlet) × SendReach s t × (t.loop ≡ running)
resolves s (extending content) at_sender h stopped =
    (_, next (next here (extend content at_sender)) (unblock stopped refl), refl)
resolves s outside at_sender h stopped = absurd (h refl)
resolves s scheduling at_sender h stopped = absurd (h refl)
resolves s checking at_sender h stopped = absurd (h refl)

by_holder :
    (s : Outlet) (l : SendLock)
    → s.lock ≡ l
    → IsOrderly s
    → s.loop ≡ blocked
    → (s.lock ≢ by_task → (t : Outlet) × SendReach s t × (t.loop ≡ running))
by_holder s free at_lock v stopped n = (_, next here (unblock stopped at_lock), refl)
by_holder s by_thread at_lock v stopped n =
    resolves s s.sender refl (rw at_lock at v.thread_holds) stopped
by_holder s by_task at_lock v stopped n = absurd (n at_lock)

-- Exactly the suspended tasks do the harm: wherever a run comes to with the event loop's thread
-- waiting for the lock, if a task holds it, the loop waits in every state that can follow; if none
-- does, the loop can go on, since the calling thread gives the lock back.
blocked_cases :
    {s : Outlet}
    → SendReach unused s
    → s.loop ≡ blocked
    → (s.lock ≡ by_task → (t : Outlet) → SendReach s t → t.loop ≡ blocked)
      × (s.lock ≢ by_task → (t : Outlet) × SendReach s t × (t.loop ≡ running))
blocked_cases {s} r stopped =
    let v = Reach-IsOrderly r in
    (
      λ held t reach.
          (Reach-HasStopped
            (record { waits = stopped; held = held; apart = rw held at v.thread_holds })
            reach).deadlocked.waits,
      by_holder s s.lock refl v stopped,
    )
