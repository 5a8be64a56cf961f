-- ===== src/Base64/RoundTrip.antt =====
-- What `b64encode` writes, `b64decode` reads back.
use http_network_relay.Prelude.{
  ℕ, ◌+◌, ◌*◌, ◌/◌, ◌%◌, ◌≤◌, ◌<◌, ◌≡◌, refl, ◌∙◌, true, false, [], ◌∷◌, Text, some, arith, nat_eqb,
}
use http_network_relay.Exception.{ok}
use http_network_relay.Frame.Hex.{Bytes, IsBytes}
use http_network_relay.Base64.{
  b64_char, b64_value, pad, b64encode, b64decode, Quad, none_read, one_read, two_read, three_read,
  next_value, a2b_from, is_ascii, emit,
}

-- Each six-bit value has an ASCII character, which is not the pad and reads as the value.
record CharFacts (v : ℕ) : Type 0 where
  reads : b64_value (b64_char v) ≡ some v
  is_no_pad : nat_eqb (b64_char v) pad ≡ false
  small : b64_char v ≤ 127

char_facts : (v : ℕ) → v < 64 → CharFacts v
unfolding b64_char b64_value
char_facts v h = record { reads = ground arith; is_no_pad = ground arith; small = ground arith }

a2b_step :
    (q : Quad) (pads c : ℕ) (s : Text) {v : ℕ}
    → nat_eqb c pad ≡ false
    → b64_value c ≡ some v
    → a2b_from q pads (c ∷ s) ≡ emit (next_value q v).0 (a2b_from (next_value q v).1 0 s)
unfolding a2b_from
a2b_step q pads c s no_pad reads = rw (no_pad, reads)

-- Reading the character of a value.
a2b-char :
    (q : Quad) (pads v : ℕ) (s : Text)
    → v < 64
    → a2b_from q pads (b64_char v ∷ s) ≡ emit (next_value q v).0 (a2b_from (next_value q v).1 0 s)
a2b-char q pads v s h = let f = char_facts v h in a2b_step q pads (b64_char v) s f.is_no_pad f.reads

a2b-nil : a2b_from none_read 0 [] ≡ ok []
unfolding a2b_from
a2b-nil = refl

-- One pad after three characters ends the data, and so do two after two.
a2b-pad : (left : ℕ) → a2b_from (three_read left) 0 (pad ∷ []) ≡ ok []
unfolding a2b_from
a2b-pad left = refl

a2b-pad-pad : (left : ℕ) → a2b_from (two_read left) 0 (pad ∷ pad ∷ []) ≡ ok []
unfolding a2b_from
a2b-pad-pad left = refl

first_byte : (a b : ℕ) → a < 256 → b < 256 → a / 4 * 4 + (a % 4 * 16 + b / 16) / 16 ≡ a
first_byte a b ha hb = omega arith

second_byte :
    (a b c : ℕ)
    → b < 256
    → c < 256
    → (a % 4 * 16 + b / 16) % 16 * 16 + (b % 16 * 4 + c / 64) / 4 ≡ b
second_byte a b c hb hc = omega arith

third_byte : (b c : ℕ) → c < 256 → (b % 16 * 4 + c / 64) % 4 * 64 + c % 64 ≡ c
third_byte b c hc = omega arith

a2b-b64encode : (bs : Bytes) → IsBytes bs → a2b_from none_read 0 (b64encode bs) ≡ ok bs
unfolding b64encode next_value
a2b-b64encode [] h = a2b-nil
a2b-b64encode (a ∷ []) h =
    let byte : a / 4 * 4 + a % 4 * 16 / 16 ≡ a = omega arith in
    rw
      (
        a2b-char none_read 0 (a / 4) _ (omega arith),
        a2b-char (one_read (a / 4)) 0 (a % 4 * 16) _ (omega arith),
        a2b-pad-pad (a % 4 * 16 % 16),
      )
      (cc byte)
a2b-b64encode (a ∷ b ∷ []) h =
    let byte : (a % 4 * 16 + b / 16) % 16 * 16 + b % 16 * 4 / 4 ≡ b = omega arith in
    rw
      (
        a2b-char none_read 0 (a / 4) _ (omega arith),
        a2b-char (one_read (a / 4)) 0 (a % 4 * 16 + b / 16) _ (omega arith),
        a2b-char (two_read ((a % 4 * 16 + b / 16) % 16)) 0 (b % 16 * 4) _ (omega arith),
        a2b-pad (b % 16 * 4 % 4),
      )
      (cc (byte, first_byte a b h.0 h.1.0))
a2b-b64encode (a ∷ b ∷ c ∷ bs) h =
    rw
      (
        a2b-char none_read 0 (a / 4) _ (omega arith),
        a2b-char (one_read (a / 4)) 0 (a % 4 * 16 + b / 16) _ (omega arith),
        a2b-char (two_read ((a % 4 * 16 + b / 16) % 16)) 0 (b % 16 * 4 + c / 64) _ (omega arith),
        a2b-char (three_read ((b % 16 * 4 + c / 64) % 4)) 0 (c % 64) _ (omega arith),
        a2b-b64encode bs h.1.1.1,
      )
      (ground
        (arith, first_byte a b h.0 h.1.0, second_byte a b c h.1.0 h.1.1.0, third_byte b c h.1.1.0))

is_ascii-char : (v : ℕ) (s : Text) → v < 64 → is_ascii (b64_char v ∷ s) ≡ is_ascii s
unfolding is_ascii
is_ascii-char v s h = ground (arith, (char_facts v h).small)

is_ascii-pads : (is_ascii (pad ∷ []) ≡ true) × (is_ascii (pad ∷ pad ∷ []) ≡ true)
unfolding is_ascii
is_ascii-pads = (refl, refl)

is_ascii-nil : is_ascii [] ≡ true
unfolding is_ascii
is_ascii-nil = refl

is_ascii-b64encode : (bs : Bytes) → IsBytes bs → is_ascii (b64encode bs) ≡ true
unfolding b64encode
is_ascii-b64encode [] h = is_ascii-nil
is_ascii-b64encode (a ∷ []) h =
    is_ascii-char (a / 4) _ (omega arith)
    ∙ (is_ascii-char (a % 4 * 16) _ (omega arith) ∙ is_ascii-pads.1)
is_ascii-b64encode (a ∷ b ∷ []) h =
    is_ascii-char (a / 4) _ (omega arith)
    ∙ (is_ascii-char (a % 4 * 16 + b / 16) _ (omega arith)
        ∙ (is_ascii-char (b % 16 * 4) _ (omega arith) ∙ is_ascii-pads.0))
is_ascii-b64encode (a ∷ b ∷ c ∷ bs) h =
    is_ascii-char (a / 4) _ (omega arith)
    ∙ (is_ascii-char (a % 4 * 16 + b / 16) _ (omega arith)
        ∙ (is_ascii-char (b % 16 * 4 + c / 64) _ (omega arith)
            ∙ (is_ascii-char (c % 64) _ (omega arith) ∙ is_ascii-b64encode bs h.1.1.1)))

-- Decoding the encoding of any bytes returns the same bytes.
pub b64decode-b64encode : (bs : Bytes) → IsBytes bs → b64decode (b64encode bs) ≡ ok bs
unfolding b64decode
b64decode-b64encode bs h = rw (is_ascii-b64encode bs h) (a2b-b64encode bs h)
