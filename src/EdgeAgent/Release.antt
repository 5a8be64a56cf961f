-- ===== src/EdgeAgent/Release.antt =====
-- How a TCP connection of http_network_relay/edge_agent.py ends: `read_from_tcp_and_send`, and
-- `write_to_connection` on a connection that was reset.
use http_network_relay.Prelude.{◌≡◌, refl, Option, none, some, List, [], ◌∷◌, codes, text_key}
use http_network_relay.Prelude.Dict
use http_network_relay.Exception.{Exception, Result, ok, raise}
use http_network_relay.Frame.Hex.{Bytes}
use http_network_relay.Messages.{EdgeAgentToRelayMessage, RtEInitiateConnectionMessage, Wire, text}
use http_network_relay.Relay.World.{WebSocket, Outcome, done, raised}
use http_network_relay.EdgeAgent.World.{
  Stream, send, close_writer, Agent, EdgeEnv, answered, recover, pure, lift, continue, ◌>>◌,
  finally, perform,
}
use http_network_relay.EdgeAgent.Streams.{frame_data, read_loop, release, read_from_tcp_and_send}

-- Somewhere the reads end: with no bytes, or with an exception.
pub data EndsSomewhere : List (Result Bytes) → Type 0 where
  at_eof : {reads : List (Result Bytes)} → EndsSomewhere (ok [] ∷ reads)
  at_error : {x : Exception} {reads : List (Result Bytes)} → EndsSomewhere (raise x ∷ reads)
  later :
      {content : Bytes} {reads : List (Result Bytes)}
      → EndsSomewhere reads
      → EndsSomewhere (ok content ∷ reads)

-- A run that is over, with a result or an exception, in a state with `Q`.
pub data IsOver (Q : Agent → Type 0) : Outcome (Unit {0}) × Agent → Type 0 where
  returned : {v : Agent} → Q v → IsOver Q (done tt, v)
  threw : {x : Exception} {v : Agent} → Q v → IsOver Q (raised x, v)

abbrev Anything : Agent → Type 0
Anything v = Unit {0}

module _ (env : EdgeEnv) (m : RtEInitiateConnectionMessage) (stream : Stream) (ws : WebSocket) where
  -- The writer was closed, the entry erased, and the relay told, in this order, last of all.
  pub record IsReleased (v : Agent) : Type 0 where
    pub before : Agent
    pub after :
        v
        ≡ env.others (record before {
          trace =
              send ws (
                text (
                  env.to_relay.dump (
                    EdgeAgentToRelayMessage.connection_reset
                      (codes "Connection closed by target")
                      m.connection_id)))
              ∷ close_writer stream
              ∷ before.trace;
          active_connections = Dict.erase m.connection_id before.active_connections;
        })

  quiet_end :
      (o : Option Exception) (v : Agent) → recover (answered o v) (λ _. pure tt) ≡ (done tt, v)
  quiet_end none v = refl
  quiet_end (some x) v = refl

  release-IsReleased :
      (w : Agent) → (v : Agent) × (release env m stream ws w ≡ (done tt, v)) × IsReleased v
  unfolding release perform
  release-IsReleased w = (_, quiet_end (env.answer _ _) _, record { before = w; after = refl })

  read_loop-IsOver :
      (reads : List (Result Bytes)) (w : Agent)
      → EndsSomewhere reads
      → IsOver Anything (read_loop env m ws reads w)
  unfolding read_loop perform
  read_loop-IsOver [] w e = elim e [ ]
  read_loop-IsOver (ok [] ∷ reads) w e = returned tt
  read_loop-IsOver (raise x ∷ reads) w e = threw tt
  read_loop-IsOver (ok (b ∷ bs) ∷ reads) w (later e) =
      on_frame (λ v. read_loop-IsOver reads v e) (frame_data env m (b ∷ bs))
    where
      on_send :
          ((v : Agent) → IsOver Anything (read_loop env m ws reads v))
          → (o : Option Exception) (v : Agent)
          → IsOver Anything (continue (answered o v) (λ _. read_loop env m ws reads))
      on_send rest none v = rest v
      on_send rest (some x) v = threw tt

      on_frame :
          ((v : Agent) → IsOver Anything (read_loop env m ws reads v))
          → (r : Result Wire)
          → IsOver Anything (
              continue
                (lift r (env.others w))
                (λ wire. perform env (send ws wire) >> read_loop env m ws reads))
      on_frame rest (ok wire) = on_send rest (env.answer _ _) _
      on_frame rest (raise x) = threw tt

  finally-IsOver :
      (p : Outcome (Unit {0}) × Agent)
      → IsOver Anything p
      → IsOver IsReleased (finally p (release env m stream ws))
  finally-IsOver p (returned {v} _) = let (v', e, r) = release-IsReleased v in rw e (returned r)
  finally-IsOver p (threw {x} {v} _) = let (v', e, r) = release-IsReleased v in rw e (threw r)

  -- However the reads of a TCP connection end, with no bytes or with an exception, and whatever the
  -- sends in between do, `read_from_tcp_and_send` comes to its end, and the last it does is to close
  -- the writer, take the entry out of `active_connections` and send the relay a reset.
  pub read_from_tcp_and_send-IsReleased :
      (reads : List (Result Bytes)) (w : Agent)
      → EndsSomewhere reads
      → IsOver IsReleased (read_from_tcp_and_send env m stream ws reads w)
  unfolding read_from_tcp_and_send
  read_from_tcp_and_send-IsReleased reads w e =
      finally-IsOver (read_loop env m ws reads w) (read_loop-IsOver reads w e)
