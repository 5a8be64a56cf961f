-- ===== src/Base64/Tests.antt =====
-- Runs of base64.
use http_network_relay.Prelude.{◌≡◌, refl, [], ◌∷◌, codes}
use http_network_relay.Exception.{ok, raise, value_error}
use http_network_relay.Base64.{b64encode, b64decode}

encode_run : b64encode (104 ∷ 105 ∷ 33 ∷ 255 ∷ []) ≡ codes "aGkh/w=="
unfolding b64encode
encode_run = refl

-- What is not in the alphabet is skipped, also in the middle.
decode_run : b64decode (codes "aG\nkh_/w==x") ≡ ok (104 ∷ 105 ∷ 33 ∷ 255 ∷ [])
unfolding b64decode
decode_run = refl

decode_bad : b64decode (codes "aGk") ≡ raise (value_error (codes "Incorrect padding"))
unfolding b64decode
decode_bad = refl
