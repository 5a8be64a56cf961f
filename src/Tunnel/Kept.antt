-- ===== src/Tunnel/Kept.antt =====
-- What the steps at the agent do to the bytes of one connection that the relay was given.
use http_network_relay.Prelude.{
  ◌≡◌, refl, sym, ap, ◌∙◌, some, List, [], ◌∷◌, ◌++◌, append_assoc, append-nil, Text, text_key,
  if◌then◌else◌,
}
use http_network_relay.Prelude.Dict
use http_network_relay.Frame.Hex.{Bytes}
use http_network_relay.Messages.{Wire}
use http_network_relay.Relay.World.{Env, WebSocket}
use http_network_relay.Relay.Connection.Delivery.{Arrivals, payloads_for, payloads_for-append}
use http_network_relay.EdgeAgent.World.{Agent, EdgeEnv, Stream}
use http_network_relay.EdgeAgent.Streams.{write_to_connection}
use http_network_relay.EdgeAgent.Session.{handle_wire}
use http_network_relay.EdgeAgent.Arrival.{AgentAgrees}
use http_network_relay.EdgeAgent.Writing.{written}
use http_network_relay.Tunnel.{joined_to}
use http_network_relay.Tunnel.Downlink.{Downlink, KeepsStream, quiet_link}

module _ (edge : EdgeEnv) (env : Env) (agree : (j : Text) → AgentAgrees env edge j) (ws : WebSocket)
    (id : Text) (stream : Stream)
    (others : (a : Agent) → KeepsStream stream a (edge.others a)) where
  -- Messages on their way, with the arrivals that the agent handles by writing them; the others leave
  -- the stream alone.
  pub data BringsAll : Arrivals → List Wire → Type 0 where
    nothing : BringsAll [] []
    data_first :
        {j : Text} {content : Bytes} {arrivals : Arrivals} {wire : Wire} {wires : List Wire}
        → ((a : Agent) → handle_wire edge ws wire a ≡ write_to_connection edge j content ws a)
        → BringsAll arrivals wires
        → BringsAll ((j, content) ∷ arrivals) (wire ∷ wires)
    order_first :
        {arrivals : Arrivals} {wire : Wire} {wires : List Wire}
        → ((a : Agent) → KeepsStream stream a (handle_wire edge ws wire a).1)
        → BringsAll arrivals wires
        → BringsAll arrivals (wire ∷ wires)

  BringsAll-append :
      {a b : Arrivals} {wires more : List Wire}
      → BringsAll a wires
      → BringsAll b more
      → BringsAll (a ++ b) (wires ++ more)
  BringsAll-append nothing bs = bs
  BringsAll-append (data_first c rest) bs = data_first c (BringsAll-append rest bs)
  BringsAll-append (order_first c rest) bs = order_first c (BringsAll-append rest bs)

  -- What was given for `id` is what was written to the stream and then `missing`: what is on its
  -- way, as long as the stream is the connection's.
  pub record IsKept (t : Downlink) : Type 0 where
    pub arrivals : Arrivals
    pub brought : BringsAll arrivals t.down
    pub only : (j : Text) → Dict.lookup j t.agent.active_connections ≡ some stream → j ≡ id
    pub missing : Bytes
    pub whole : written stream t.agent.trace ++ missing ≡ t.given id
    pub on_its_way :
        Dict.lookup id t.agent.active_connections ≡ some stream → missing ≡ payloads_for id arrivals

  pub KeepsStream-IsKept :
      {t : Downlink} {b : Agent}
      → KeepsStream stream t.agent b
      → IsKept t
      → IsKept (record t { agent = b })
  KeepsStream-IsKept k f = record {
    arrivals = f.arrivals;
    brought = f.brought;
    only = λ j h. f.only j (k.active j h);
    missing = f.missing;
    whole = rw k.bytes f.whole;
    on_its_way = λ h. f.on_its_way (k.active id h);
  }

  pub send-IsKept :
      {t : Downlink} (j : Text) (content : Bytes) (wire : Wire)
      → ((a : Agent) → handle_wire edge ws wire a ≡ write_to_connection edge j content ws a)
      → IsKept t
      → IsKept (record t { down = t.down ++ wire ∷ []; given = joined_to t.given j content })
  send-IsKept {t} j content wire b f =
      let new : Bytes = if text_key.same j id then content else [] in
      record {
        arrivals = f.arrivals ++ (j, content) ∷ [];
        brought = BringsAll-append f.brought (data_first b nothing);
        only = f.only;
        missing = f.missing ++ new;
        whole =
            sym (append_assoc (written stream t.agent.trace) f.missing new)
            ∙ ap (λ r. r ++ new) f.whole;
        on_its_way = λ h. rw (payloads_for-append id j content f.arrivals, f.on_its_way h) refl;
      }

  -- A message that is not data is sent, and handled.
  pub order-IsKept :
      {t : Downlink} (wire : Wire)
      → ((a : Agent) → KeepsStream stream a (handle_wire edge ws wire a).1)
      → IsKept t
      → IsKept (record t { down = t.down ++ wire ∷ [] })
  order-IsKept wire k f = record {
    arrivals = f.arrivals ++ [];
    brought = BringsAll-append f.brought (order_first k nothing);
    only = f.only;
    missing = f.missing;
    whole = f.whole;
    on_its_way = λ h. f.on_its_way h ∙ ap (payloads_for id) (sym (append-nil f.arrivals));
  }

  pub handled-IsKept :
      {t : Downlink} (arrivals : Arrivals) (rest : List Wire) (b : Agent)
      → KeepsStream stream t.agent b
      → BringsAll arrivals rest
      → (f : IsKept t) → f.arrivals ≡ arrivals
      → IsKept (record t { agent = b; down = rest })
  handled-IsKept arrivals rest b k brought f split = record {
    arrivals = arrivals;
    brought = brought;
    only = λ j h. f.only j (k.active j h);
    missing = f.missing;
    whole = rw k.bytes f.whole;
    on_its_way = λ h. f.on_its_way (k.active id h) ∙ ap (payloads_for id) split;
  }

  pub quiet-IsKept :
      (a : Agent)
      → ((j : Text) → Dict.lookup j a.active_connections ≡ some stream → j ≡ id)
      → written stream a.trace ≡ []
      → IsKept (quiet_link a)
  unfolding payloads_for
  quiet-IsKept a only empty = record {
    arrivals = [];
    brought = nothing;
    only = only;
    missing = [];
    whole = rw empty refl;
    on_its_way = λ h. refl;
  }
