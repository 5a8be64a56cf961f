-- ===== src/Frame/Hex.antt =====
-- `bytes.hex` and `bytes.fromhex`, as the frames of http_network_relay/pydantic_models.py use them.
use http_network_relay.Prelude.{
  ℕ, zero, suc, ◌+◌, ◌-◌, ◌*◌, ◌/◌, ◌%◌, ◌≤◌, ◌<◌, ◌≡◌, refl, ap, ◌∙◌, ◌⊎◌, inl, inr, Bool, ◌&&◌,
  ◌||◌, false, List, [], ◌∷◌, Text, codes, All, length, arith, ltb, leb, nat_eqb, if◌then◌else◌,
  Option, none, some,
}
use http_network_relay.Exception.{Result, ok, raise, value_error, ◌>>=◌}

-- Python's `bytes` and `bytearray`; `IsBytes` says that each number is a byte.
abbrev pub Bytes : Type 0
Bytes = List ℕ

abbrev pub IsBytes : Bytes → Type 0
IsBytes = All (λ b. b < 256)

hex_digit : ℕ → ℕ
hex_digit n = if ltb n 10 then 48 + n else 87 + n

-- `b.hex()`
pub to_hex : Bytes → Text
unfolding hex_digit
to_hex [] = []
to_hex (b ∷ bs) = hex_digit (b / 16) ∷ hex_digit (b % 16) ∷ to_hex bs

hex_value : ℕ → Option ℕ
hex_value c =
    if leb 48 c && leb c 57
    then some (c - 48)
    else if leb 97 c && leb c 102
    then some (c - 87)
    else if leb 65 c && leb c 70
    then some (c - 55)
    else none

-- ASCII white space, which `fromhex` skips between two bytes
is_space : ℕ → Bool
is_space c = (leb 9 c && leb c 13) || nat_eqb c 32

abbrev not_hex : Result Bytes
not_hex = raise (value_error (codes "non-hexadecimal number found in fromhex() arg"))

abbrev byte_before : Option ℕ → Option ℕ → Result Bytes → Result Bytes
byte_before (some high) (some low) rest = do bs ← rest; ok ((high * 16 + low) ∷ bs)
byte_before _ _ rest = not_hex

-- `bytes.fromhex(s)`
pub fromhex : Text → Result Bytes
unfolding hex_value is_space
fromhex [] = ok []
fromhex (c ∷ []) = if is_space c then ok [] else not_hex
fromhex (c ∷ d ∷ s) =
    let skipped = fromhex (d ∷ s) in
    let rest = fromhex s in
    if is_space c then skipped else byte_before (hex_value c) (hex_value d) rest

-- What `hex` writes: a digit or a letter from `a` to `f`.
abbrev pub IsLowerHex : ℕ → Type 0
IsLowerHex c = ((48 ≤ c) × (c ≤ 57)) ⊎ ((97 ≤ c) × (c ≤ 102))

pub to_hex-IsLowerHex : (bs : Bytes) → IsBytes bs → All IsLowerHex (to_hex bs)
unfolding to_hex
to_hex-IsLowerHex [] h = tt
to_hex-IsLowerHex (b ∷ bs) h =
    let high : IsLowerHex (hex_digit (b / 16)) = ground arith in
    let low : IsLowerHex (hex_digit (b % 16)) = ground arith in
    (high, (low, to_hex-IsLowerHex bs h.1))

pub length-to_hex : (bs : Bytes) → length (to_hex bs) ≡ 2 * length bs
unfolding to_hex
length-to_hex [] = omega arith
length-to_hex (b ∷ bs) = omega (arith, length-to_hex bs)

digit_back :
    (n : ℕ) → n < 16 → (is_space (hex_digit n) ≡ false) × (hex_value (hex_digit n) ≡ some n)
unfolding hex_digit hex_value is_space
digit_back n h = ground arith

fromhex_nil : fromhex [] ≡ ok []
unfolding fromhex
fromhex_nil = refl

fromhex_pair :
    (c d : ℕ) (s : Text) {x y : ℕ} {bs : Bytes}
    → is_space c ≡ false
    → hex_value c ≡ some x
    → hex_value d ≡ some y
    → fromhex s ≡ ok bs
    → fromhex (c ∷ d ∷ s) ≡ ok ((x * 16 + y) ∷ bs)
unfolding fromhex
fromhex_pair c d s blank high low rest = rw (blank, high, low, rest)

div_mod : (b : ℕ) → b / 16 * 16 + b % 16 ≡ b
div_mod b = omega arith

-- `fromhex` undoes `hex`.
pub fromhex-to_hex : (bs : Bytes) → IsBytes bs → fromhex (to_hex bs) ≡ ok bs
unfolding to_hex
fromhex-to_hex [] h = fromhex_nil
fromhex-to_hex (b ∷ bs) h =
    let high = digit_back (b / 16) (omega arith) in
    let low = digit_back (b % 16) (omega arith) in
    fromhex_pair _ _ _ high.0 high.1 low.1 (fromhex-to_hex bs h.1)
    ∙ ap (λ k. ok (k ∷ bs)) (div_mod b)

high_digit : (x y : ℕ) → y < 16 → (x * 16 + y) / 16 ≡ x
high_digit x y h = omega arith

low_digit : (x y : ℕ) → y < 16 → (x * 16 + y) % 16 ≡ y
low_digit x y h = omega arith

lower_digit :
    (c : ℕ)
    → IsLowerHex c
    → (x : ℕ) × (x < 16) × (hex_value c ≡ some x) × (hex_digit x ≡ c) × (is_space c ≡ false)
unfolding hex_digit hex_value is_space
lower_digit c (inl h) = (c - 48, omega arith, ground arith, ground arith, ground arith)
lower_digit c (inr h) = (c - 87, omega arith, ground arith, ground arith, ground arith)

-- A text of lower-case hexadecimal digits, two to a byte, is the `hex` of what `fromhex` reads.
pub fromhex_lower :
    (n : ℕ) (s : Text)
    → length s ≡ 2 * n
    → All IsLowerHex s
    → (bs : Bytes) × (fromhex s ≡ ok bs) × (to_hex bs ≡ s) × (length bs ≡ n)
unfolding to_hex
fromhex_lower zero [] e h = ([], fromhex_nil, refl, refl)
fromhex_lower zero (c ∷ s) e h = absurd (omega arith)
fromhex_lower (suc n) [] e h = absurd (omega arith)
fromhex_lower (suc n) (c ∷ []) e h = absurd (omega arith)
fromhex_lower (suc n) (c ∷ d ∷ s) e h =
    let high = lower_digit c h.0 in
    let low = lower_digit d h.1.0 in
    let rest = fromhex_lower n s (omega arith) h.1.1 in
    (
      (high.0 * 16 + low.0) ∷ rest.0,
      fromhex_pair c d s high.4 high.2 low.2 rest.1,
      cc (
        ap hex_digit (high_digit high.0 low.0 low.1),
        ap hex_digit (low_digit high.0 low.0 low.1),
        high.3,
        low.3,
        rest.2,
      ),
      ap suc rest.3,
    )
