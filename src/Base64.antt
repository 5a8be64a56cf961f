-- ===== src/Base64.antt =====
-- `base64.b64encode(…).decode()` and `base64.b64decode` of the standard library, which
-- http_network_relay/network_relay.py, edge_agent.py and access_client.py call for TCP data in
-- JSON messages. `b64decode` is not strict: it skips what is not in the alphabet.
pub mod RoundTrip
mod Tests
use http_network_relay.Prelude.{
  ℕ, zero, suc, ◌+◌, ◌-◌, ◌*◌, ◌/◌, ◌%◌, ◌≡◌, Bool, true, false, ◌&&◌, List, [], ◌∷◌, ◌++◌, Text,
  codes, Option, none, some, leb, nat_eqb, if◌then◌else◌,
}
use http_network_relay.Exception.{Exception, Result, ok, raise, value_error, ◌>>=◌}
use http_network_relay.Frame.Hex.{Bytes}

-- The character of a six-bit value: `A`-`Z`, `a`-`z`, `0`-`9`, `+`, `/`.
b64_char : ℕ → ℕ
b64_char v =
    if leb v 25
    then 65 + v
    else if leb v 51
    then 71 + v
    else if leb v 61
    then v - 4
    else if nat_eqb v 62
    then 43
    else 47

b64_value : ℕ → Option ℕ
b64_value c =
    if leb 65 c && leb c 90
    then some (c - 65)
    else if leb 97 c && leb c 122
    then some (c - 71)
    else if leb 48 c && leb c 57
    then some (c + 4)
    else if nat_eqb c 43
    then some 62
    else if nat_eqb c 47
    then some 63
    else none

abbrev pad : ℕ
pad = b'='

pub b64encode : Bytes → Text
unfolding b64_char
b64encode [] = []
b64encode (a ∷ []) = b64_char (a / 4) ∷ b64_char (a % 4 * 16) ∷ pad ∷ pad ∷ []
b64encode (a ∷ b ∷ []) =
    b64_char (a / 4) ∷ b64_char (a % 4 * 16 + b / 16) ∷ b64_char (b % 16 * 4) ∷ pad ∷ []
b64encode (a ∷ b ∷ c ∷ rest) =
    b64_char (a / 4)
    ∷ b64_char (a % 4 * 16 + b / 16)
    ∷ b64_char (b % 16 * 4 + c / 64)
    ∷ b64_char (c % 64)
    ∷ b64encode rest

-- How many characters of a group of four were read, with the bits of the last that are left over.
data Quad : Type 0 where
  none_read : Quad
  one_read two_read three_read : ℕ → Quad

-- One more value: the bytes that it completes, and the new position.
next_value : Quad → ℕ → Bytes × Quad
next_value none_read v = ([], one_read v)
next_value (one_read left) v = ((left * 4 + v / 16) ∷ [], two_read (v % 16))
next_value (two_read left) v = ((left * 16 + v / 4) ∷ [], three_read (v % 4))
next_value (three_read left) v = ((left * 64 + v) ∷ [], none_read)

-- Whether a `=` ends the data, where `pads` came directly before it in the group.
ends_data : Quad → ℕ → Bool
ends_data (two_read left) pads = leb 4 (2 + (pads + 1))
ends_data (three_read left) pads = leb 4 (3 + (pads + 1))
ends_data _ pads = false

count_pad : Quad → ℕ → ℕ
count_pad (two_read left) pads = pads + 1
count_pad (three_read left) pads = pads + 1
count_pad _ pads = pads

at_end : Quad → Result Bytes
at_end none_read = ok []
at_end (one_read left) =
    raise (value_error (codes "number of data characters cannot be 1 more than a multiple of 4"))
at_end _ = raise (value_error (codes "Incorrect padding"))

abbrev emit : Bytes → Result Bytes → Result Bytes
emit bs rest = do more ← rest; ok (bs ++ more)

-- The loop of `binascii.a2b_base64`.
a2b_from : Quad → ℕ → Text → Result Bytes
unfolding b64_value next_value ends_data count_pad at_end
a2b_from q pads [] = at_end q
a2b_from q pads (c ∷ s) =
    let padded = a2b_from q (count_pad q pads) s in
    let skipped = a2b_from q pads s in
    let read = λ (v : ℕ). emit (next_value q v).0 (a2b_from (next_value q v).1 0 s) in
    if nat_eqb c pad
    then (if ends_data q pads then ok [] else padded)
    else elim (b64_value c) [ none ↦ skipped | some v ↦ read v ]

is_ascii : Text → Bool
is_ascii [] = true
is_ascii (c ∷ s) = leb c 127 && is_ascii s

pub b64decode : Text → Result Bytes
unfolding a2b_from is_ascii
b64decode s =
    if is_ascii s
    then a2b_from none_read 0 s
    else raise (value_error (codes "string argument should contain only ASCII characters"))
