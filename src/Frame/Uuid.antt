-- ===== src/Frame/Uuid.antt =====
-- Connection ids in the form of a UUID, as the frames of http_network_relay/pydantic_models.py
-- take them apart and put them together.
use http_network_relay.Prelude.{
  ℕ, zero, suc, ◌*◌, ◌≡◌, refl, ap, [], ◌∷◌, ◌++◌, Text, length, All, All-append, take-append,
  drop-append, drop-append_add, take_all, length-append, arith, append-nil,
}
use http_network_relay.Frame.Hex.{IsLowerHex}
use http_network_relay.Frame.{dash, remove_dashes, uuid_text}

-- `n` lower-case hexadecimal digits, and then `rest`
abbrev pub Hexes : ℕ → (Text → Type 0) → Text → Type 0
Hexes zero rest s = rest s
Hexes (suc n) rest [] = ⊥
Hexes (suc n) rest (c ∷ s) = IsLowerHex c × Hexes n rest s

abbrev pub Dash : (Text → Type 0) → Text → Type 0
Dash rest [] = ⊥
Dash rest (c ∷ s) = (c ≡ dash) × rest s

abbrev pub Ends : Text → Type 0
Ends [] = Unit {0}
Ends (c ∷ s) = ⊥

-- The texts that `str(uuid.UUID(…))` returns: 8-4-4-4-12 lower-case hexadecimal digits.
abbrev pub IsUuid : Text → Type 0
IsUuid = Hexes 8 (Dash (Hexes 4 (Dash (Hexes 4 (Dash (Hexes 4 (Dash (Hexes 12 Ends))))))))

Hexes-split :
    (n : ℕ) (rest : Text → Type 0) (s : Text)
    → Hexes n rest s
    → (a : Text) × (r : Text) × (s ≡ a ++ r) × (length a ≡ n) × All IsLowerHex a × rest r
Hexes-split zero rest s h = ([], s, refl, refl, tt, h)
Hexes-split (suc n) rest [] h = absurd h
Hexes-split (suc n) rest (c ∷ s) h =
    let (a, r, e, l, x, t) = Hexes-split n rest s h.1 in
    (c ∷ a, r, ap (◌∷◌ c) e, ap suc l, (h.0, x), t)

Dash-split : (rest : Text → Type 0) (s : Text) → Dash rest s → (r : Text) × (s ≡ dash ∷ r) × rest r
Dash-split rest [] h = absurd h
Dash-split rest (c ∷ s) h = (s, ap (λ x. x ∷ s) h.0, h.1)

abbrev pub dashed : Text → Text → Text → Text → Text → Text
dashed a b c d e = a ++ (dash ∷ (b ++ (dash ∷ (c ++ (dash ∷ (d ++ (dash ∷ e)))))))

abbrev pub joined : Text → Text → Text → Text → Text → Text
joined a b c d e = a ++ (b ++ (c ++ (d ++ e)))

-- Five groups of digits.
pub record Groups (a b c d e : Text) : Type 0 where
  pub la : length a ≡ 8
  pub lb : length b ≡ 4
  pub lc : length c ≡ 4
  pub ld : length d ≡ 4
  pub le : length e ≡ 12
  pub ha : All IsLowerHex a
  pub hb : All IsLowerHex b
  pub hc : All IsLowerHex c
  pub hd : All IsLowerHex d
  pub he : All IsLowerHex e

Ends-nil : (s : Text) → Ends s → s ≡ []
Ends-nil [] h = refl
Ends-nil (c ∷ s) h = absurd h

pub uuid_split :
    (s : Text)
    → IsUuid s
    → (a : Text) × (b : Text) × (c : Text) × (d : Text) × (e : Text) × (s ≡ dashed a b c d e)
      × Groups a b c d e
uuid_split s h =
    let (a, r₁, e₁, l₁, x₁, t₁) = Hexes-split 8 _ s h in
    let (s₁, f₁, u₁) = Dash-split _ r₁ t₁ in
    let (b, r₂, e₂, l₂, x₂, t₂) = Hexes-split 4 _ s₁ u₁ in
    let (s₂, f₂, u₂) = Dash-split _ r₂ t₂ in
    let (c, r₃, e₃, l₃, x₃, t₃) = Hexes-split 4 _ s₂ u₂ in
    let (s₃, f₃, u₃) = Dash-split _ r₃ t₃ in
    let (d, r₄, e₄, l₄, x₄, t₄) = Hexes-split 4 _ s₃ u₃ in
    let (s₄, f₄, u₄) = Dash-split _ r₄ t₄ in
    let (e, r₅, e₅, l₅, x₅, t₅) = Hexes-split 12 _ s₄ u₄ in
    (
      a,
      b,
      c,
      d,
      e,
      cc (e₁, f₁, e₂, f₂, e₃, f₃, e₄, f₄, e₅, Ends-nil r₅ t₅, append-nil e),
      record {
        la = l₁;
        lb = l₂;
        lc = l₃;
        ld = l₄;
        le = l₅;
        ha = x₁;
        hb = x₂;
        hc = x₃;
        hd = x₄;
        he = x₅;
      },
    )

remove_dashes-append :
    (a s : Text) → All IsLowerHex a → remove_dashes (a ++ s) ≡ a ++ remove_dashes s
unfolding remove_dashes
remove_dashes-append [] s h = refl
remove_dashes-append (c ∷ a) s h = ground (arith, remove_dashes-append a s h.1)

remove_dashes-dash : (s : Text) → remove_dashes (dash ∷ s) ≡ remove_dashes s
unfolding remove_dashes
remove_dashes-dash s = refl

remove_dashes_hex : (a : Text) → All IsLowerHex a → remove_dashes a ≡ a
unfolding remove_dashes
remove_dashes_hex [] h = refl
remove_dashes_hex (c ∷ a) h = ground (arith, remove_dashes_hex a h.1)

module _ (a b c d e : Text) (g : Groups a b c d e) where
  pub remove_dashes-dashed : remove_dashes (dashed a b c d e) ≡ joined a b c d e
  remove_dashes-dashed = cc (
    remove_dashes-append a (dash ∷ (b ++ (dash ∷ (c ++ (dash ∷ (d ++ (dash ∷ e))))))) g.ha,
    remove_dashes-dash (b ++ (dash ∷ (c ++ (dash ∷ (d ++ (dash ∷ e)))))),
    remove_dashes-append b (dash ∷ (c ++ (dash ∷ (d ++ (dash ∷ e))))) g.hb,
    remove_dashes-dash (c ++ (dash ∷ (d ++ (dash ∷ e)))),
    remove_dashes-append c (dash ∷ (d ++ (dash ∷ e))) g.hc,
    remove_dashes-dash (d ++ (dash ∷ e)),
    remove_dashes-append d (dash ∷ e) g.hd,
    remove_dashes-dash e,
    remove_dashes_hex e g.he,
  )

  pub uuid_text-joined : uuid_text (joined a b c d e) ≡ dashed a b c d e
  unfolding uuid_text
  uuid_text-joined = cc (
    take-append a (b ++ (c ++ (d ++ e))) 8 g.la,
    drop-append a (b ++ (c ++ (d ++ e))) 8 g.la,
    drop-append_add a (b ++ (c ++ (d ++ e))) 8 4 g.la,
    drop-append_add a (b ++ (c ++ (d ++ e))) 8 8 g.la,
    drop-append_add a (b ++ (c ++ (d ++ e))) 8 12 g.la,
    take-append b (c ++ (d ++ e)) 4 g.lb,
    drop-append b (c ++ (d ++ e)) 4 g.lb,
    drop-append_add b (c ++ (d ++ e)) 4 4 g.lb,
    drop-append_add b (c ++ (d ++ e)) 4 8 g.lb,
    take-append c (d ++ e) 4 g.lc,
    drop-append c (d ++ e) 4 g.lc,
    drop-append_add c (d ++ e) 4 4 g.lc,
    take-append d e 4 g.ld,
    drop-append d e 4 g.ld,
    take_all 12 e g.le,
  )

  pub joined-IsLowerHex : All IsLowerHex (joined a b c d e)
  joined-IsLowerHex =
      All-append _ a _ g.ha
        (All-append _ b _ g.hb (All-append _ c _ g.hc (All-append _ d e g.hd g.he)))

  pub length-joined : length (joined a b c d e) ≡ 2 * 16
  length-joined = omega (
    arith,
    g.la,
    g.lb,
    g.lc,
    g.ld,
    g.le,
    length-append a (b ++ (c ++ (d ++ e))),
    length-append b (c ++ (d ++ e)),
    length-append c (d ++ e),
    length-append d e,
  )
