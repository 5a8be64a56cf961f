-- ===== src/EdgeAgent/Reconnect.antt =====
-- The end of a session and the delays between attempts in `async_main` of
-- http_network_relay/edge_agent.py.
use http_network_relay.Prelude.{
  ℕ, suc, ◌*◌, ◌^◌, ◌≤◌, ◌-◌, ◌<◌, min, leb, ◌≡◌, refl, true, none, List, [], ◌∷◌, Text, text_key,
  arith, All, if◌then◌else◌,
}
use http_network_relay.Prelude.Dict
use http_network_relay.Prelude.Dict.{Dict}
use http_network_relay.Relay.World.{done}
use http_network_relay.EdgeAgent.World.{Stream, close_writer, Call, Agent}
use http_network_relay.EdgeAgent.Streams.{delete_connection}
use http_network_relay.EdgeAgent.Session.{close_streams, delay_now, delay_next, minute}

-- The readings of the clock in one round: before the sleep, and after it.
abbrev pub Clock : Type 0
Clock = ℕ × ℕ

-- The sleeps of `async_main`, from its `connection_delay` and `last_connection_attempt_time` on.
unfoldable pub sleeps : ℕ → ℕ → List Clock → List ℕ
sleeps delay last [] = []
sleeps delay last ((now, woke) ∷ rounds) =
    let d = delay_now now last delay in d ∷ sleeps (delay_next d) woke rounds

abbrev pub InRange : ℕ → Type 0
InRange d = (1 ≤ d) × (d ≤ 60)

pub delay_now-InRange : (now last delay : ℕ) → InRange delay → InRange (delay_now now last delay)
unfolding delay_now
delay_now-InRange now last delay h = ground arith

pub delay_next-InRange : (delay : ℕ) → InRange delay → InRange (delay_next delay)
unfolding delay_next
delay_next-InRange delay h = omega arith

-- Whatever the clock says, and however the attempts end, every delay of `async_main` is between 1
-- and 60 seconds, if the first is.
sleeps-InRange :
    (rounds : List Clock) (delay last : ℕ) → InRange delay → All InRange (sleeps delay last rounds)
unfolding sleeps
sleeps-InRange [] delay last h = tt
sleeps-InRange ((now, woke) ∷ rounds) delay last h =
    let d = delay_now-InRange now last delay h in
    (d, sleeps-InRange rounds _ woke (delay_next-InRange _ d))

-- No attempt lasts 60 seconds or more.
abbrev pub IsUnstable : ℕ → List Clock → Type 0
IsUnstable last [] = Unit {0}
IsUnstable last ((now, woke) ∷ rounds) = (now - last < minute) × IsUnstable woke rounds

-- The delays that double, from `2 ^ i` on, up to 60.
abbrev pub doubled : ℕ → List Clock → List ℕ
doubled i [] = []
doubled i (c ∷ rounds) = min (2 ^ i) 60 ∷ doubled (suc i) rounds

sleeps-from :
    (rounds : List Clock) (i last : ℕ)
    → IsUnstable last rounds
    → sleeps (min (2 ^ i) 60) last rounds ≡ doubled i rounds
unfolding sleeps delay_now delay_next
sleeps-from [] i last h = refl
sleeps-from ((now, woke) ∷ rounds) i last (h, hs) =
    let same : (if leb minute (now - last) then 1 else min (2 ^ i) 60) ≡ min (2 ^ i) 60 =
      ground arith in
    let next : min (2 * min (2 ^ i) 60) 60 ≡ min (2 ^ suc i) 60 = omega arith in
    rw (same, next, sleeps-from rounds (suc i) woke hs)

-- While no attempt lasts 60 seconds, the delays of `async_main` are 1, 2, 4, 8, 16, 32 and from then
-- on 60 seconds: the i-th is the smaller of 2 ^ i and 60.
sleeps-doubled :
    (rounds : List Clock) (last : ℕ)
    → IsUnstable last rounds
    → sleeps 1 last rounds ≡ doubled 0 rounds
sleeps-doubled rounds last h = sleeps-from rounds 0 last h

-- A dictionary has each key once.
abbrev pub IsDict : Dict Text Stream → Type 0
IsDict [] = Unit {0}
IsDict ((id, stream) ∷ d) = (Dict.lookup id d ≡ none) × IsDict d

-- The calls that close the streams, newest first.
abbrev pub closings : Dict Text Stream → List Call → List Call
closings [] h = h
closings ((id, stream) ∷ d) h = closings d (close_writer stream ∷ h)

erase-absent : (id : Text) (d : Dict Text Stream) → Dict.lookup id d ≡ none → Dict.erase id d ≡ d
unfolding Dict.lookup Dict.erase
erase-absent id [] h = refl
erase-absent id ((j, s) ∷ d) h = ground (arith, erase-absent id d)

contains-head :
    (id : Text) (s : Stream) (d : Dict Text Stream) → Dict.contains id ((id, s) ∷ d) ≡ true
unfolding Dict.contains Dict.lookup
contains-head id s d = ground (arith, Dict.eq_self id)

erase-head :
    (id : Text) (s : Stream) (d : Dict Text Stream)
    → Dict.lookup id d ≡ none
    → Dict.erase id ((id, s) ∷ d) ≡ d
unfolding Dict.erase
erase-head id s d h = ground (arith, Dict.eq_self id, erase-absent id d h)

delete-head :
    (id : Text) (s : Stream) (d : Dict Text Stream) (w : Agent)
    → Dict.lookup id d ≡ none
    → w.active_connections ≡ (id, s) ∷ d
    → delete_connection id w ≡ (done tt, record w { active_connections = d })
unfolding delete_connection
delete-head id s d w h e = rw (delete_connection, e, contains-head id s d, erase-head id s d h) refl

-- When a session ends, every TCP connection is closed, once and in the order of the dictionary, and
-- none is left; no deletion raises `KeyError`, since the loop has no `await`.
close_streams-closings :
    (d : Dict Text Stream) (w : Agent)
    → IsDict d
    → w.active_connections ≡ d
    → close_streams d w
      ≡ (done tt, record w { active_connections = []; trace = closings d w.trace })
unfolding close_streams delete_connection
close_streams-closings [] w h e = rw e refl
close_streams-closings ((id, stream) ∷ d) w (h, hs) e =
    let noted : Agent = record w { trace = close_writer stream ∷ w.trace } in
    rw (delete-head id stream d noted h e)
      (close_streams-closings d (record noted { active_connections = d }) hs refl)
