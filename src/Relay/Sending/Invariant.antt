-- ===== src/Relay/Sending/Invariant.antt =====
-- What holds at every point of `send` and of the tasks that it starts.
use http_network_relay.Prelude.{
  ◌<◌, ◌≡◌, ◌≢◌, ◌⊎◌, inl, inr, refl, ap, sym, ◌∙◌, List, [], ◌∷◌, ◌++◌, arith, append_assoc,
  append-nil,
}
use http_network_relay.Frame.Hex.{Bytes}
use http_network_relay.Reads.{joined, joined-append}
use http_network_relay.Relay.Sending.{
  Sender, extending, scheduling, checking, outside, blocked, SendLock, free, by_thread, by_task,
  Outlet, unused, took, SendStep, lock_buffer, extend, schedule, find_open, find_closed, begin,
  block, unblock, complete, drop_it, SendReach, here, next,
}

-- The lock that the thread holds where it is.
abbrev pub SenderLock : Sender → SendLock → Type 0
SenderLock (extending content) l = l ≡ by_thread
SenderLock o l = l ≢ by_thread

-- A suspended task holds the lock, and it is the only one.
abbrev TaskLock : List Bytes → SendLock → Type 0
TaskLock [] l = l ≢ by_task
TaskLock (content ∷ []) l = l ≡ by_task
TaskLock (content ∷ other ∷ rest) l = ⊥

-- A task is to come that will take the buffer.
abbrev pub IsAttended : Outlet → Type 0
IsAttended s = (0 < s.scheduled) ⊎ ((s.sender ≡ scheduling) ⊎ (s.loop ≡ blocked))

pub record IsOrderly (s : Outlet) : Type 0 where
  pub thread_holds : SenderLock s.sender s.lock
  pub task_holds : TaskLock s.sending s.lock
  pub in_order : joined s.handed ++ s.send_buffer ≡ s.given
  pub attended : s.send_buffer ≢ [] → IsAttended s

unused-IsOrderly : IsOrderly unused
unfolding joined
unused-IsOrderly = record {
  thread_holds = λ e. cc;
  task_holds = λ e. cc;
  in_order = refl;
  attended = λ h. absurd (h refl);
}

-- A lock that is not the thread's is like any other such lock to the thread, and so for the tasks.
SenderLock-other :
    (q : Sender) (l l' : SendLock)
    → l ≢ by_thread
    → l' ≢ by_thread
    → SenderLock q l
    → SenderLock q l'
SenderLock-other (extending content) l l' n n' h = absurd (n h)
SenderLock-other outside l l' n n' h = n'
SenderLock-other scheduling l l' n n' h = n'
SenderLock-other checking l l' n n' h = n'

TaskLock-other :
    (sending : List Bytes) (l l' : SendLock)
    → l ≢ by_task
    → l' ≢ by_task
    → TaskLock sending l
    → TaskLock sending l'
TaskLock-other [] l l' n n' h = n'
TaskLock-other (content ∷ []) l l' n n' h = absurd (n h)
TaskLock-other (content ∷ other ∷ rest) l l' n n' h = elim h [ ]

TaskLock-took :
    (sending : List Bytes) (b : Bytes) → TaskLock sending free → TaskLock (b ∷ sending) by_task
TaskLock-took [] b h = refl
TaskLock-took (content ∷ []) b h = cc h
TaskLock-took (content ∷ other ∷ rest) b h = elim h [ ]

TaskLock-held :
    (content : Bytes) (rest : List Bytes) (l : SendLock)
    → TaskLock (content ∷ rest) l
    → (l ≡ by_task) × TaskLock rest free
TaskLock-held content [] l h = (h, λ e. cc)
TaskLock-held content (other ∷ rest) l h = elim h [ ]

took-IsOrderly : {s : Outlet} → IsOrderly s → s.lock ≡ free → IsOrderly (took s)
unfolding joined
took-IsOrderly {s} v at_lock = record {
  thread_holds =
      SenderLock-other s.sender free by_task (λ e. cc) (λ e. cc) (rw at_lock at v.thread_holds);
  task_holds = TaskLock-took s.sending s.send_buffer (rw at_lock at v.task_holds);
  in_order = append-nil _ ∙ (joined-append s.handed s.send_buffer ∙ v.in_order);
  attended = λ h. absurd (h refl);
}

Step-IsOrderly : {s t : Outlet} → SendStep s t → IsOrderly s → IsOrderly t
Step-IsOrderly {s} (lock_buffer content at_sender at_lock) v = record {
  thread_holds = refl;
  task_holds =
      TaskLock-other s.sending free by_thread (λ e. cc) (λ e. cc) (rw at_lock at v.task_holds);
  in_order = v.in_order;
  attended = λ h. ground (arith, v.attended h);
}
Step-IsOrderly {s} (extend content at_sender) v =
    let held : s.lock ≡ by_thread = rw at_sender at v.thread_holds in
    record {
      thread_holds = λ e. cc;
      task_holds =
          TaskLock-other s.sending by_thread free (λ e. cc) (λ e. cc) (rw held at v.task_holds);
      in_order =
          sym (append_assoc (joined s.handed) s.send_buffer content)
          ∙ ap (λ b. b ++ content) v.in_order;
      attended = λ h. inr (inl refl);
    }
Step-IsOrderly (schedule at_sender) v = ground arith
Step-IsOrderly (find_open at_sender is_open) v = ground arith
Step-IsOrderly (find_closed at_sender shut) v = ground arith
Step-IsOrderly (begin n at_loop some_task at_lock) v =
    let u = took-IsOrderly v at_lock in
    record {
      thread_holds = u.thread_holds;
      task_holds = u.task_holds;
      in_order = u.in_order;
      attended = λ h. absurd (h refl);
    }
Step-IsOrderly (block n at_loop some_task held) v = ground arith
Step-IsOrderly (unblock at_loop at_lock) v = took-IsOrderly v at_lock
Step-IsOrderly {s} (complete content rest at_loop at_sending) v =
    let (held, alone) = TaskLock-held content rest s.lock (rw at_sending at v.task_holds) in
    record {
      thread_holds =
          SenderLock-other s.sender by_task free (λ e. cc) (λ e. cc) (rw held at v.thread_holds);
      task_holds = alone;
      in_order = v.in_order;
      attended = λ h. v.attended h;
    }
Step-IsOrderly (drop_it at_loop) v = ground arith

pub Reach-IsOrderly : {s : Outlet} → SendReach unused s → IsOrderly s
Reach-IsOrderly here = unused-IsOrderly
Reach-IsOrderly (next r st) = Step-IsOrderly st (Reach-IsOrderly r)

one_at_most :
    (sending : List Bytes) (l : SendLock)
    → TaskLock sending l
    → (sending ≡ []) ⊎ ((content : Bytes) × (sending ≡ content ∷ []))
one_at_most [] l h = inl refl
one_at_most (content ∷ []) l h = inr (content, refl)
one_at_most (content ∷ other ∷ rest) l h = elim h [ ]

-- At every point that the thread and the event loop can reach: what the tasks have handed to the
-- relay, and then the buffer, is what `send` was given, in order, no byte lost or doubled; at most
-- one task is in the middle of a send, so that sends do not overtake one another; and if there is
-- something in the buffer, then a task that will take it is scheduled, or is waiting for the lock,
-- or is about to be scheduled.
pub Reach-handed :
    {s : Outlet}
    → SendReach unused s
    → (joined s.handed ++ s.send_buffer ≡ s.given)
      × ((s.sending ≡ []) ⊎ ((content : Bytes) × (s.sending ≡ content ∷ [])))
      × (s.send_buffer ≢ [] → IsAttended s)
Reach-handed {s} r =
    let v = Reach-IsOrderly r in (v.in_order, one_at_most s.sending s.lock v.task_holds, v.attended)
