-- ===== src/Prelude/Tests.antt =====
-- Boolean tests, the conditional, texts as lists of code points, and the equality of keys.
use Prim.Native.Nat.{ℕ, compare, Ordering}
use Prim.Native.Char.{code}
use Prim.Native.String.{String}
use mathlib.Core.Path.{◌≡◌, refl}
use mathlib.Core.Logic.{◌↔◌, ◌⊎◌, inl, inr}
use mathlib.Core.Bool.{Bool, true, false, ◌&&◌}
use mathlib.Core.Option.{Option, none, some}
use mathlib.Core.List.{List, [], ◌∷◌}
use native.Mathlib.Omega.{arith}

abbrev pub ltb : ℕ → ℕ → Bool
ltb a b = elim (compare a b) [ Ordering.lt ↦ true | _ ↦ false ]

abbrev pub leb : ℕ → ℕ → Bool
leb a b = elim (compare a b) [ Ordering.gt ↦ false | _ ↦ true ]

abbrev pub nat_eqb : ℕ → ℕ → Bool
nat_eqb a b = elim (compare a b) [ Ordering.eq ↦ true | _ ↦ false ]

infix 1 if◌then◌else◌
abbrev pub if◌then◌else◌ {ℓ} : {A : Type ℓ} → Bool → A → A → A
if true then x else y = x
if false then x else y = y

pub nat_eqb_iff : (a b : ℕ) → (nat_eqb a b ≡ true) ↔ (a ≡ b)
nat_eqb_iff a b = ground arith

-- To split on a computed value and keep the equation.
pub Bool-cases : (b : Bool) → (b ≡ true) ⊎ (b ≡ false)
Bool-cases true = inl refl
Bool-cases false = inr refl

pub Option-cases {ℓ} : {A : Type ℓ} (o : Option A) → (o ≡ none) ⊎ ((a : A) × (o ≡ some a))
Option-cases none = inl refl
Option-cases (some a) = inr (a, refl)

-- A Python `str`, as its code points.
abbrev pub Text : Type 0
Text = List ℕ

abbrev pub codes : String → Text
codes String.[] = []
codes (String.◌∷◌ c s) = code c ∷ codes s

unfoldable pub text_eqb : Text → Text → Bool
text_eqb [] [] = true
text_eqb (a ∷ s) (b ∷ t) = nat_eqb a b && text_eqb s t
text_eqb _ _ = false

pub text_eqb_iff : (s t : Text) → (text_eqb s t ≡ true) ↔ (s ≡ t)
unfolding text_eqb
text_eqb_iff [] [] = (λ _. refl, λ _. refl)
text_eqb_iff [] (b ∷ t) = (λ h. cc, λ h. cc)
text_eqb_iff (a ∷ s) [] = (λ h. cc, λ h. cc)
text_eqb_iff (a ∷ s) (b ∷ t) = ground (arith, text_eqb_iff s t)

-- What a key of a Python `dict` offers: hashable values that compare by `==`.
pub record Key {ℓ} (K : Type ℓ) : Type ℓ where
  pub same : K → K → Bool
  pub same_iff : (j k : K) → (same j k ≡ true) ↔ (j ≡ k)

-- Connection ids, agent names and headers.
instance abbrev pub text_key : Key Text
unfolding text_eqb
text_key = record { same = text_eqb; same_iff = text_eqb_iff }

-- Heap addresses, websockets and task numbers.
instance abbrev pub nat_key : Key ℕ
nat_key = record { same = nat_eqb; same_iff = nat_eqb_iff }

abbrev pub ◌==◌ {ℓ} : {K : Type ℓ} → ⦃key : Key K⦄ → K → K → Bool
◌==◌ ⦃key⦄ j k = key.same j k

infix 50 ◌==◌
