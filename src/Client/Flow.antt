-- ===== src/Client/Flow.antt =====
-- What an access client (http_network_relay/access_client.py) has been sent by the relay
-- (http_network_relay/network_relay.py), with what waits in the buffer.
use http_network_relay.Prelude.{
  ℕ, ◌≡◌, refl, sym, subst, ◌∙◌, List, [], ◌∷◌, ◌++◌, append-nil, append_assoc, drop, Text,
  text_key, nat_eqb, nat_eqb_iff, if◌then◌else◌, arith,
}
use http_network_relay.Exception.{ok}
use http_network_relay.Frame.Hex.{Bytes, IsBytes}
use http_network_relay.Messages.{Wire, text, binary}
use http_network_relay.Reads.{joined}
use http_network_relay.Relay.World.{WebSocket, World, Call, send_text, send_bytes}
use http_network_relay.Relay.Close.{drop_relayed_connection, wake_readers}
use http_network_relay.Relay.Connection.{clear_event, take_bytes}
use http_network_relay.EdgeAgent.Arrival.{Sends, as_text, as_bytes}
use http_network_relay.Client.Session.{ClientEnv, output_of}
use http_network_relay.Client.Output.{Carry}

-- The messages that the relay has sent over a WebSocket, oldest first, by the calls, newest first.
unfoldable pub sent_to : WebSocket → List Call → List Wire
sent_to ws [] = []
sent_to ws (send_text s t ∷ h) =
    let before = sent_to ws h in if nat_eqb s ws then before ++ text t ∷ [] else before
sent_to ws (send_bytes s content ∷ h) =
    let before = sent_to ws h in if nat_eqb s ws then before ++ binary content ∷ [] else before
sent_to ws (c ∷ h) = sent_to ws h

-- What the messages over `ws` add to the client's stdout, and then the buffer, is `total`.
pub record IsFlow (client : ClientEnv) (ws : WebSocket) (address : ℕ) (total : Bytes) (w : World)
    : Type 0 where
  pub contents : List Bytes
  pub carried : Carry client contents (sent_to ws w.trace)
  pub whole : joined contents ++ (w.objects address).recv_buffer ≡ total
  pub bytes : IsBytes (w.objects address).recv_buffer

-- One piece after the other, each a piece that can be brought.
pub data Came (brought : Bytes → Type 0) : Bytes → Type 0 where
  nothing_came : Came brought []
  piece_came :
      {more : Bytes} (piece : Bytes)
      → brought piece
      → Came brought more
      → Came brought (piece ++ more)

-- The same for a total that has grown by pieces that were brought, and by nothing else.
pub record HasGrown (client : ClientEnv) (ws : WebSocket) (address : ℕ) (brought : Bytes → Type 0)
    (total : Bytes) (w : World) : Type 0 where
  pub more : Bytes
  pub came : Came brought more
  pub flow : IsFlow client ws address (total ++ more) w

pub Carry-append :
    (client : ClientEnv) (contents : List Bytes) (wires : List Wire) (content : Bytes) (wire : Wire)
    → Carry client contents wires
    → output_of client wire ≡ ok content
    → Carry client (contents ++ content ∷ []) (wires ++ wire ∷ [])
Carry-append client _ _ content wire Carry.nothing e = Carry.one_more e Carry.nothing
Carry-append client _ _ content wire (Carry.one_more first more) e =
    Carry.one_more first (Carry-append client _ _ content wire more e)

pub sent-more :
    (ws : WebSocket) (call : Call) (wire : Wire) (h : List Call)
    → Sends ws call wire
    → sent_to ws (call ∷ h) ≡ sent_to ws h ++ wire ∷ []
unfolding sent_to
sent-more ws _ _ h (as_text t) = rw ((nat_eqb_iff ws ws).1 refl) refl
sent-more ws _ _ h (as_bytes content) = rw ((nat_eqb_iff ws ws).1 refl) refl

pub left-drop :
    (address n : ℕ) (w : World)
    → ((take_bytes address n w).1.objects address).recv_buffer
      ≡ drop n (w.objects address).recv_buffer
unfolding take_bytes
left-drop address n w = ground arith

Came-append :
    {brought : Bytes → Type 0} (a b : Bytes)
    → Came brought a
    → Came brought b
    → Came brought (a ++ b)
Came-append {brought} _ b nothing_came more_came = more_came
Came-append {brought} _ b (piece_came {more} piece was rest) more_came =
    subst (λ t. Came brought t) (sym (append_assoc piece more b))
      (piece_came piece was (Came-append more b rest more_came))

module _ (client : ClientEnv) (ws : WebSocket) (address : ℕ) (brought : Bytes → Type 0) where
  abbrev Flow : Bytes → World → Type 0
  Flow total w = IsFlow client ws address total w

  abbrev Grown : Bytes → World → Type 0
  Grown total w = HasGrown client ws address brought total w

  pub same-Grown : (total : Bytes) (w : World) → Flow total w → Grown total w
  same-Grown total w f = record {
    more = [];
    came = nothing_came;
    flow = record {
      contents = f.contents;
      carried = f.carried;
      whole = f.whole ∙ sym (append-nil total);
      bytes = f.bytes;
    };
  }

  pub then-Grown :
      (total : Bytes) (u v : World)
      → Grown total u
      → ((t : Bytes) → Flow t u → Grown t v)
      → Grown total v
  then-Grown total u v g k =
      let h = k (total ++ g.more) g.flow in
      record {
        more = g.more ++ h.more;
        came = Came-append g.more h.more g.came h.came;
        flow = record {
          contents = h.flow.contents;
          carried = h.flow.carried;
          whole = h.flow.whole ∙ append_assoc total g.more h.more;
          bytes = h.flow.bytes;
        };
      }

  pub clear-Flow : (total : Bytes) (w : World) → Flow total w → Flow total (clear_event address w)
  unfolding clear_event
  clear-Flow total w f = record {
    contents = f.contents;
    carried = f.carried;
    whole = ground (arith, f.whole);
    bytes = ground (arith, f.bytes);
  }

  pub drop-Flow :
      (id : Text) (total : Bytes) (w : World)
      → Flow total w
      → Flow total (drop_relayed_connection id w).1
  unfolding drop_relayed_connection wake_readers
  drop-Flow id total w f = record {
    contents = f.contents;
    carried = ground (arith, f.carried);
    whole = ground (arith, f.whole);
    bytes = ground (arith, f.bytes);
  }
