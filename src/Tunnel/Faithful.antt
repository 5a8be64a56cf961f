-- ===== src/Tunnel/Faithful.antt =====
-- What the steps at the relay do to the bytes of one connection that the agent has read.
use http_network_relay.Prelude.{
  ℕ, ◌≡◌, refl, sym, ap, ◌∙◌, some, List, [], ◌∷◌, ◌++◌, append-nil, append_assoc, Text, text_key,
  take, drop, take-append-drop, if◌then◌else◌, arith,
}
use http_network_relay.Prelude.Dict
use http_network_relay.Frame.Hex.{Bytes}
use http_network_relay.Exception.{ok}
use http_network_relay.Messages.{EdgeAgentToRelayMessage, Wire, text}
use http_network_relay.Relay.World.{World, Env, message, update}
use http_network_relay.Relay.Connection.{take_bytes}
use http_network_relay.Relay.Connection.Delivery.{
  Arrivals, payloads_for, payloads_for-append, IsSole,
}
use http_network_relay.Relay.MsgLoop.{handle_raw}
use http_network_relay.Relay.MsgLoop.Multiplex.{Carries}
use http_network_relay.Tunnel.{Tunnel, quiet_tunnel, Spares, IsControl, joined_to}

joined_on : (a b c d total : Bytes) → a ++ (b ++ c) ≡ total → a ++ (b ++ (c ++ d)) ≡ total ++ d
joined_on a b c d total e =
    ap (λ r. a ++ r) (sym (append_assoc b c d))
    ∙ (sym (append_assoc a (b ++ c) d) ∙ ap (λ r. r ++ d) e)

-- What is taken out of a buffer is delivered.
take-conserves :
    (f : ℕ → Bytes) (w : World) (a n address : ℕ)
    → update f a (f a ++ take n (w.objects a).recv_buffer) address
        ++ ((take_bytes a n w).1.objects address).recv_buffer
      ≡ f address ++ (w.objects address).recv_buffer
unfolding take_bytes
take-conserves f w a n address = ground (
  arith,
  append_assoc (f a) (take n (w.objects a).recv_buffer) (drop n (w.objects a).recv_buffer),
  take-append-drop n (w.objects a).recv_buffer,
)

module _ (env : Env) (agent id : Text) (address : ℕ) where
  -- Messages on their way, with the payloads that they bring; the others leave the buffer alone.
  pub data BringsAll : Arrivals → List Wire → Type 0 where
    nothing : BringsAll [] []
    data_first :
        {j : Text} {payload : Bytes} {arrivals : Arrivals} {wire : Wire} {wires : List Wire}
        → Carries env j payload (message wire)
        → BringsAll arrivals wires
        → BringsAll ((j, payload) ∷ arrivals) (wire ∷ wires)
    control_first :
        {arrivals : Arrivals} {wires : List Wire} (m : EdgeAgentToRelayMessage) (json : Text)
        → IsControl m
        → env.from_agent.validate json ≡ ok m
        → ((w : World) → Spares address w (handle_raw env agent (message (text json)) w).1)
        → BringsAll arrivals wires
        → BringsAll arrivals (text json ∷ wires)

  BringsAll-append :
      {a b : Arrivals} {wires more : List Wire}
      → BringsAll a wires
      → BringsAll b more
      → BringsAll (a ++ b) (wires ++ more)
  BringsAll-append nothing bs = bs
  BringsAll-append (data_first c rest) bs = data_first c (BringsAll-append rest bs)
  BringsAll-append (control_first m json control valid c rest) bs =
      control_first m json control valid c (BringsAll-append rest bs)

  -- What was read for `id` is what was delivered, the buffer, and then `missing`: what is on its way,
  -- as long as the connection is active.
  pub record IsFaithful (t : Tunnel) : Type 0 where
    pub arrivals : Arrivals
    pub carried : BringsAll arrivals t.up
    pub only : (j : Text) → Dict.lookup j t.relay.active_relayed_connections ≡ some address → j ≡ id
    pub missing : Bytes
    pub whole :
        t.delivered address ++ ((t.relay.objects address).recv_buffer ++ missing) ≡ t.read id
    pub on_its_way :
        Dict.lookup id t.relay.active_relayed_connections ≡ some address
        → missing ≡ payloads_for id arrivals

  pub Spares-IsFaithful :
      {t : Tunnel} {v : World}
      → Spares address t.relay v
      → IsFaithful t
      → IsFaithful (record t { relay = v })
  Spares-IsFaithful s f = record {
    arrivals = f.arrivals;
    carried = f.carried;
    only = λ j h. f.only j (s.active j h);
    missing = f.missing;
    whole = rw s.buffer f.whole;
    on_its_way = λ h. f.on_its_way (s.active id h);
  }

  pub read-IsFaithful :
      {t : Tunnel} (j : Text) (content : Bytes) (wire : Wire)
      → Carries env j content (message wire)
      → IsFaithful t
      → IsFaithful (record t { up = t.up ++ wire ∷ []; read = joined_to t.read j content })
  read-IsFaithful {t} j content wire c f =
      let new : Bytes = if text_key.same j id then content else [] in
      record {
        arrivals = f.arrivals ++ (j, content) ∷ [];
        carried = BringsAll-append f.carried (data_first c nothing);
        only = f.only;
        missing = f.missing ++ new;
        whole =
            joined_on (t.delivered address) (t.relay.objects address).recv_buffer f.missing new
              (t.read id) f.whole;
        on_its_way = λ h. rw (payloads_for-append id j content f.arrivals, f.on_its_way h) refl;
      }

  -- A message that is not data is sent, and handled.
  pub control-IsFaithful :
      {t : Tunnel} (m : EdgeAgentToRelayMessage) (json : Text)
      → IsControl m
      → env.from_agent.validate json ≡ ok m
      → ((w : World) → Spares address w (handle_raw env agent (message (text json)) w).1)
      → IsFaithful t
      → IsFaithful (record t { up = t.up ++ text json ∷ [] })
  control-IsFaithful m json control valid c f = record {
    arrivals = f.arrivals ++ [];
    carried = BringsAll-append f.carried (control_first m json control valid c nothing);
    only = f.only;
    missing = f.missing;
    whole = f.whole;
    on_its_way = λ h. f.on_its_way h ∙ ap (payloads_for id) (sym (append-nil f.arrivals));
  }

  pub handled-IsFaithful :
      {t : Tunnel} (arrivals : Arrivals) (rest : List Wire) (v : World)
      → Spares address t.relay v
      → BringsAll arrivals rest
      → (f : IsFaithful t) → f.arrivals ≡ arrivals
      → IsFaithful (record t { up = rest; relay = v })
  handled-IsFaithful arrivals rest v s carried f split = record {
    arrivals = arrivals;
    carried = carried;
    only = λ j h. f.only j (s.active j h);
    missing = f.missing;
    whole = rw s.buffer f.whole;
    on_its_way = λ h. f.on_its_way (s.active id h) ∙ ap (payloads_for id) split;
  }

  pub take-IsFaithful :
      {t : Tunnel} (a n : ℕ)
      → IsFaithful t
      → IsFaithful (record t {
        relay = (take_bytes a n t.relay).1;
        delivered = update t.delivered a (t.delivered a ++ take n (t.relay.objects a).recv_buffer);
      })
  unfolding take_bytes
  take-IsFaithful {t} a n f = record {
    arrivals = f.arrivals;
    carried = f.carried;
    only = f.only;
    missing = f.missing;
    whole =
        sym (append_assoc _ _ f.missing)
        ∙ (ap (λ b. b ++ f.missing) (take-conserves t.delivered t.relay a n address)
            ∙ (append_assoc (t.delivered address) _ f.missing ∙ f.whole));
    on_its_way = f.on_its_way;
  }

  pub quiet-IsFaithful :
      (w : World)
      → IsSole id address w
      → (w.objects address).recv_buffer ≡ []
      → IsFaithful (quiet_tunnel w)
  unfolding payloads_for
  quiet-IsFaithful w s empty = record {
    arrivals = [];
    carried = nothing;
    only = s.only;
    missing = [];
    whole = rw empty refl;
    on_its_way = λ h. refl;
  }
