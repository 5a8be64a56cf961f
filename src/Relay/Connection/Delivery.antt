-- ===== src/Relay/Connection/Delivery.antt =====
-- What incoming TCP data does to the buffers of http_network_relay/network_relay.py.
use http_network_relay.Prelude.{
  ℕ, ◌≡◌, Bool, true, false, some, List, [], ◌∷◌, ◌++◌, Text, text_key, if◌then◌else◌, arith,
  append_assoc, append-nil, ◌∙◌, ap, sym, refl, ◌≢◌,
}
use http_network_relay.Prelude.Dict
use http_network_relay.Frame.Hex.{Bytes, IsBytes}
use http_network_relay.Base64.{b64encode}
use http_network_relay.Base64.RoundTrip.{b64decode-b64encode}
use http_network_relay.Relay.World.{World}
use http_network_relay.Relay.Connection.{handle_tcp_data_message, handle_tcp_binary_data}

-- A payload has the same effect in either framing: the JSON message with its base64 text does what
-- the binary frame does, for every connection id, known or not.
pub handle_tcp_data_message-b64encode :
    (id : Text) (payload : Bytes) (w : World)
    → IsBytes payload
    → handle_tcp_data_message id (b64encode payload) w ≡ handle_tcp_binary_data id payload w
unfolding handle_tcp_data_message handle_tcp_binary_data
handle_tcp_data_message-b64encode id payload w h = ground (arith, b64decode-b64encode payload h)

-- Payloads with the connection ids that they are for, in the order of arrival.
abbrev pub Arrivals : Type 0
Arrivals = List (Text × Bytes)

unfoldable pub deliver : Arrivals → World → World
deliver [] w = w
deliver ((id, payload) ∷ rest) w = deliver rest (handle_tcp_binary_data id payload w).1

-- What is for `id`, joined.
unfoldable pub payloads_for : Text → Arrivals → Bytes
payloads_for id [] = []
payloads_for id ((j, payload) ∷ rest) =
    if text_key.same j id then payload ++ payloads_for id rest else payloads_for id rest

pub payloads_for-append :
    (id j : Text) (payload : Bytes) (arrivals : Arrivals)
    → payloads_for id (arrivals ++ (j, payload) ∷ [])
      ≡ payloads_for id arrivals ++ (if text_key.same j id then payload else [])
unfolding payloads_for
payloads_for-append id j payload [] = by_same (text_key.same j id)
  where
    by_same : (b : Bool) → (if b then payload ++ [] else []) ≡ (if b then payload else [])
    by_same true = append-nil payload
    by_same false = refl
payloads_for-append id j payload ((i, p) ∷ rest) =
    by_same (text_key.same i id) (payloads_for-append id j payload rest)
  where
    by_same :
        (b : Bool)
        → payloads_for id (rest ++ (j, payload) ∷ [])
          ≡ payloads_for id rest ++ (if text_key.same j id then payload else [])
        → (if b
            then p ++ payloads_for id (rest ++ (j, payload) ∷ [])
            else payloads_for id (rest ++ (j, payload) ∷ []))
          ≡ (if b then p ++ payloads_for id rest else payloads_for id rest)
            ++ (if text_key.same j id then payload else [])
    by_same true e = ap (λ r. p ++ r) e ∙ sym (append_assoc p (payloads_for id rest) _)
    by_same false e = e

-- The object at `address` is the active connection `id`, and no other.
pub record IsSole (id : Text) (address : ℕ) (w : World) : Type 0 where
  pub active : Dict.lookup id w.active_relayed_connections ≡ some address
  pub only : (j : Text) → Dict.lookup j w.active_relayed_connections ≡ some address → j ≡ id

pub handle-active :
    (j : Text) (payload : Bytes) (w : World)
    → (handle_tcp_binary_data j payload w).1.active_relayed_connections
      ≡ w.active_relayed_connections
unfolding handle_tcp_binary_data
handle-active j payload w = ground arith

handle-IsSole :
    (j : Text) (payload : Bytes) {id : Text} {address : ℕ} {w : World}
    → IsSole id address w
    → IsSole id address (handle_tcp_binary_data j payload w).1
handle-IsSole j payload {w} s = record {
  active = rw (handle-active j payload w) s.active;
  only = λ k h. s.only k (rw (handle-active j payload w) at h);
}

pub handle-recv_buffer :
    (j : Text) (payload : Bytes) {id : Text} {address : ℕ} {w : World}
    → IsSole id address w
    → ((handle_tcp_binary_data j payload w).1.objects address).recv_buffer
      ≡ (w.objects address).recv_buffer ++ (if text_key.same j id then payload else [])
unfolding handle_tcp_binary_data
handle-recv_buffer j payload {id} {address} {w} s =
    ground (
      arith,
      s.active,
      s.only j,
      text_key.same_iff j id,
      append-nil (w.objects address).recv_buffer,
    )

-- The object that no payload goes to keeps its buffer.
pub other-recv_buffer :
    (j : Text) (payload : Bytes) (address : ℕ) (w : World)
    → Dict.lookup j w.active_relayed_connections ≢ some address
    → ((handle_tcp_binary_data j payload w).1.objects address).recv_buffer
      ≡ (w.objects address).recv_buffer
unfolding handle_tcp_binary_data
other-recv_buffer j payload address w n = ground arith

-- Many connections share an agent's one WebSocket, and each gets its own data: after any payloads
-- for any connections, known or not, the buffer of an active connection holds what it held before
-- and then the payloads with its id, whole and in their order.
pub recv_buffer-deliver :
    (arrivals : Arrivals) (id : Text) (address : ℕ) (w : World)
    → IsSole id address w
    → ((deliver arrivals w).objects address).recv_buffer
      ≡ (w.objects address).recv_buffer ++ payloads_for id arrivals
unfolding deliver payloads_for
recv_buffer-deliver [] id address w s = rw append-nil
recv_buffer-deliver ((j, payload) ∷ rest) id address w s =
    recv_buffer-deliver rest id address _ (handle-IsSole j payload s)
    ∙ rw (handle-recv_buffer j payload s) (split (text_key.same j id))
  where
    split :
        (b : Bool)
        → ((w.objects address).recv_buffer ++ (if b then payload else [])) ++ payloads_for id rest
          ≡ (w.objects address).recv_buffer
            ++ (if b then payload ++ payloads_for id rest else payloads_for id rest)
    split true = append_assoc (w.objects address).recv_buffer payload (payloads_for id rest)
    split false = append_assoc (w.objects address).recv_buffer [] (payloads_for id rest)
