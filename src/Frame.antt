-- ===== src/Frame.antt =====
-- `encode_tcp_binary_frame` and `decode_tcp_binary_frame` of http_network_relay/pydantic_models.py.
-- `bytes` is a list of numbers, a `str` a list of code points.
pub mod Hex
pub mod Uuid
pub mod RoundTrip
mod Tests
use http_network_relay.Prelude.{
  ℕ, zero, suc, ◌+◌, ◌*◌, ◌/◌, ◌%◌, Bool, List, [], ◌∷◌, ◌++◌, Text, codes, length, take, drop,
  slice, ltb, nat_eqb, if◌then◌else◌,
}
use http_network_relay.Exception.{Exception, Result, ok, raise, value_error, ◌>>=◌}
use Hex.{Bytes, to_hex, fromhex}

-- 128 * 1024
abbrev pub read_chunk_size : ℕ
read_chunk_size = 128 * 1024

abbrev pub dash : ℕ
dash = b'-'

-- `s.replace("-", "")`
pub remove_dashes : Text → Text
remove_dashes [] = []
remove_dashes (c ∷ s) = let rest = remove_dashes s in if nat_eqb c dash then rest else c ∷ rest

-- `f"{h[0:8]}-{h[8:12]}-{h[12:16]}-{h[16:20]}-{h[20:32]}"`
pub uuid_text : Text → Text
uuid_text h =
    slice 0 8 h
    ++ (dash
        ∷ (slice 8 12 h
            ++ (dash ∷ (slice 12 16 h ++ (dash ∷ (slice 16 20 h ++ (dash ∷ slice 20 32 h)))))))

-- `str(n)`; a number has fewer digits than its value, so `n` rounds are enough.
decimal_from : ℕ → ℕ → Text → Text
decimal_from zero n acc = (48 + n % 10) ∷ acc
decimal_from (suc fuel) n acc =
    let more = decimal_from fuel (n / 10) ((48 + n % 10) ∷ acc) in
    if ltb n 10 then (48 + n) ∷ acc else more

pub decimal : ℕ → Text
unfolding decimal_from
decimal n = decimal_from n n []

pub encode_tcp_binary_frame : Text → Bytes → Result Bytes
unfolding remove_dashes
encode_tcp_binary_frame connection_id payload = do
  prefix ← fromhex (remove_dashes connection_id)
  ok (prefix ++ payload)

abbrev pub too_short : ℕ → Exception
too_short n =
    value_error
      (codes "frame too short to contain a connection id: " ++ (decimal n ++ codes " bytes"))

pub decode_tcp_binary_frame : Bytes → Result (Text × Bytes)
unfolding uuid_text decimal
decode_tcp_binary_frame frame =
    if ltb (length frame) 16
    then raise (too_short (length frame))
    else ok (uuid_text (to_hex (take 16 frame)), drop 16 frame)
