-- ===== src/Frame/Tests.antt =====
-- Runs of the binary framing, and its theorems at one frame.
use http_network_relay.Prelude.{◌+◌, ◌<◌, ◌≡◌, ◌⊎◌, refl, [], ◌∷◌, Text, codes, length, arith}
use http_network_relay.Exception.{ok, raise}
use http_network_relay.Frame.Hex.{Bytes}
use http_network_relay.Frame.{too_short, decimal, encode_tcp_binary_frame, decode_tcp_binary_frame}
use http_network_relay.Frame.Uuid.{IsUuid}
use http_network_relay.Frame.RoundTrip.{decode-encode, decode_either}

abbrev connection_id : Text
connection_id = codes "0f1e2d3c-4b5a-6978-8796-a5b4c3d2e1f0"

abbrev frame : Bytes
frame =
    15 ∷ 30 ∷ 45 ∷ 60 ∷ 75 ∷ 90 ∷ 105 ∷ 120 ∷ 135 ∷ 150 ∷ 165 ∷ 180 ∷ 195 ∷ 210 ∷ 225 ∷ 240 ∷ 7 ∷ []

decimal_run : decimal 1027 ≡ codes "1027"
unfolding decimal
decimal_run = refl

connection_id-IsUuid : IsUuid connection_id
connection_id-IsUuid = omega arith

decode-encode_example :
    (f : Bytes) × (encode_tcp_binary_frame connection_id (1 ∷ 255 ∷ []) ≡ ok f)
    × (length f ≡ 16 + 2)
    × (decode_tcp_binary_frame f ≡ ok (connection_id, 1 ∷ 255 ∷ []))
decode-encode_example = decode-encode connection_id (1 ∷ 255 ∷ []) connection_id-IsUuid

decode_either_example :
    ((17 < 16) × (decode_tcp_binary_frame frame ≡ raise (too_short 17)))
    ⊎ ((id : Text) × (payload : Bytes) × (decode_tcp_binary_frame frame ≡ ok (id, payload))
        × (encode_tcp_binary_frame id payload ≡ ok frame))
decode_either_example = decode_either frame (omega arith)
