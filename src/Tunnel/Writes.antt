-- ===== src/Tunnel/Writes.antt =====
-- What handling TCP data does to the streams of http_network_relay/edge_agent.py, however the write
-- ends.
use http_network_relay.Prelude.{
  ◌≡◌, ◌≢◌, refl, ◌∙◌, ap, Bool-cases, Option, Option-cases, inl, inr, none, some, List, ◌∷◌, Text,
  text_key, nat_eqb, nat_eqb_iff, arith,
}
use http_network_relay.Prelude.Dict
use http_network_relay.Exception.{Exception, connection_reset_error}
use http_network_relay.Frame.Hex.{Bytes}
use http_network_relay.Relay.World.{WebSocket, Outcome, done, raised, pending}
use http_network_relay.EdgeAgent.World.{
  Agent, EdgeEnv, Edge, Stream, Call, write, drain, close_writer, perform, recover, continue,
  answered,
}
use http_network_relay.EdgeAgent.Streams.{delete_connection, drop_connection, write_to_connection}
use http_network_relay.EdgeAgent.Writing.{written}
use http_network_relay.Tunnel.Downlink.{KeepsStream}

pub keeps_both :
    {stream : Stream} {a b c : Agent}
    → KeepsStream stream a b
    → KeepsStream stream b c
    → KeepsStream stream a c
keeps_both p q = record { bytes = q.bytes ∙ p.bytes; active = λ j h. p.active j (q.active j h) }

pub keeps_same : (stream : Stream) (a : Agent) → KeepsStream stream a a
keeps_same stream a = record { bytes = refl; active = λ j h. h }

pub keeps_on :
    {A B : Type 0} (stream : Stream) (a : Agent) (p : Outcome A × Agent) (f : A → Edge B)
    → KeepsStream stream a p.1
    → ((x : A) (b : Agent) → KeepsStream stream b (f x b).1)
    → KeepsStream stream a (continue p f).1
keeps_on stream a (done x, b) f first later = keeps_both first (later x b)
keeps_on stream a (raised x, b) f first later = first
keeps_on stream a (pending, b) f first later = first

pub keeps_handled :
    (stream : Stream) (a : Agent) (p : Outcome (Unit {0}) × Agent)
    (handler : Exception → Edge (Unit {0}))
    → KeepsStream stream a p.1
    → ((x : Exception) (b : Agent) → KeepsStream stream b (handler x b).1)
    → KeepsStream stream a (recover p handler).1
keeps_handled stream a (done u, b) handler first later = first
keeps_handled stream a (raised x, b) handler first later = keeps_both first (later x b)
keeps_handled stream a (pending, b) handler first later = first

module _ (edge : EdgeEnv) (stream : Stream)
    (others : (a : Agent) → KeepsStream stream a (edge.others a)) where
  pub perform-KeepsStream :
      (c : Call) (a : Agent)
      → ((h : List Call) → written stream (c ∷ h) ≡ written stream h)
      → KeepsStream stream a (perform edge c a).1
  unfolding perform
  perform-KeepsStream c a silent =
      keeps_both (record { bytes = silent a.trace; active = λ j h. h })
        (by_answer (edge.answer a.trace c))
    where
      called : Agent
      called = record a { trace = c ∷ a.trace }

      by_answer :
          (o : Option Exception) → KeepsStream stream called (answered o (edge.others called)).1
      by_answer none = others called
      by_answer (some x) = others called

  pub delete-KeepsStream : (id : Text) (a : Agent) → KeepsStream stream a (delete_connection id a).1
  unfolding delete_connection
  delete-KeepsStream id a = record {
    bytes = ground arith;
    active = λ j h. ground (arith, h, Dict.lookup-erase j id a.active_connections);
  }

  drop-KeepsStream :
      (id : Text) (s : Stream) (ws : WebSocket) (x : Exception) (a : Agent)
      → KeepsStream stream a (drop_connection edge id s ws x a).1
  unfolding written
  drop-KeepsStream id s ws connection_reset_error a =
      let closed : Agent = record a { trace = close_writer s ∷ a.trace } in
      keeps_both (record { bytes = refl; active = λ j h. h })
        (keeps_on stream closed (delete_connection id closed) _ (delete-KeepsStream id closed)
          (λ _ b. perform-KeepsStream _ b (λ h. refl)))
  drop-KeepsStream id s ws x a = keeps_same stream a

  -- After the bytes were given to the stream, whatever `drain` does.
  drained-KeepsStream :
      (id : Text) (s : Stream) (ws : WebSocket) (a : Agent)
      → KeepsStream stream a (recover (perform edge (drain s) a) (drop_connection edge id s ws)).1
  unfolding written
  drained-KeepsStream id s ws a =
      keeps_handled stream a (perform edge (drain s) a) (drop_connection edge id s ws)
        (perform-KeepsStream (drain s) a (λ h. refl)) (drop-KeepsStream id s ws)

  -- Data for another stream's connection, or for none, leaves the stream alone.
  pub write-KeepsStream :
      (id : Text) (content : Bytes) (ws : WebSocket) (a : Agent)
      → Dict.lookup id a.active_connections ≢ some stream
      → KeepsStream stream a (write_to_connection edge id content ws a).1
  unfolding write_to_connection written
  write-KeepsStream id content ws a other =
      elim (Option-cases (Dict.lookup id a.active_connections)) [
        | inl e ↦ rw e (keeps_same stream a)
        | inr (s, e) ↦ elim (Bool-cases (nat_eqb s stream)) [
          | inl same ↦ absurd (other (e ∙ ap some ((nat_eqb_iff s stream).0 same)))
          | inr apart ↦ rw e (
              keeps_both (record { bytes = rw apart refl; active = λ j h. h })
                (drained-KeepsStream id s ws (record a { trace = write s content ∷ a.trace })))
        ]
      ]

  -- Data for the stream's connection is written to it.
  pub write-written :
      (id : Text) (content : Bytes) (ws : WebSocket) (a : Agent)
      → Dict.lookup id a.active_connections ≡ some stream
      → KeepsStream stream
          (record a { trace = write stream content ∷ a.trace })
          (write_to_connection edge id content ws a).1
  unfolding write_to_connection
  write-written id content ws a e = rw e (drained-KeepsStream id stream ws _)
