-- ===== src/Logging/Levels.antt =====
-- Which lines http_network_relay/logging_utils.py writes.
use http_network_relay.Prelude.{
  ℕ, suc, ◌+◌, ◌≤◌, ◌≡◌, refl, Bool, true, false, Option, none, some, List, [], ◌∷◌, ◌++◌, Text,
  text_key, nat_eqb, arith, if◌then◌else◌,
}
use http_network_relay.Prelude.Dict
use http_network_relay.Logging.{
  warning_level, error_level, at_level, configured, levels, Line, unknown_level, logged, emit, log,
  log_all,
}

-- The reports of an unknown level.
pub reports : List Line → ℕ
reports [] = 0
reports (unknown_level raw ∷ lines) = suc (reports lines)
reports (logged level ∷ lines) = reports lines

-- The errors among the lines, and among the calls.
pub errors : List Line → ℕ
errors [] = 0
errors (unknown_level raw ∷ lines) = errors lines
errors (logged level ∷ lines) =
    let rest = errors lines in if nat_eqb level error_level then suc rest else rest

unfoldable pub errors_called : List (Option Text × ℕ) → ℕ
errors_called [] = 0
errors_called ((variable, level) ∷ calls) =
    let rest = errors_called calls in if nat_eqb level error_level then suc rest else rest

reports-append : (a b : List Line) → reports (a ++ b) ≡ reports a + reports b
unfolding reports
reports-append [] b = omega arith
reports-append (unknown_level raw ∷ a) b = omega (arith, reports-append a b)
reports-append (logged level ∷ a) b = reports-append a b

errors-append : (a b : List Line) → errors (a ++ b) ≡ errors a + errors b
unfolding errors
errors-append [] b = omega arith
errors-append (unknown_level raw ∷ a) b = errors-append a b
errors-append (logged level ∷ a) b = ground (arith, errors-append a b)

-- Every level lets an error pass.
threshold_bound :
    (raw : Text) (threshold : ℕ) → Dict.lookup raw levels ≡ some threshold → threshold ≤ 40
unfolding Dict.lookup levels
threshold_bound raw threshold h = ground arith

-- The reports that may still come.
abbrev room : Bool → ℕ
room true = 0
room false = 1

emit-reports : (threshold level : ℕ) → reports (emit threshold level) ≡ 0
unfolding reports emit
emit-reports threshold level = ground arith

emit-errors :
    (threshold level : ℕ)
    → threshold ≤ 40
    → errors (emit threshold level) ≡ (if nat_eqb level error_level then 1 else 0)
unfolding errors emit
emit-errors threshold level h = ground arith

at_level-reports :
    (o : Option ℕ) (reported : Bool) (raw : Text) (level : ℕ)
    → reports (at_level o reported raw level).1 + room (at_level o reported raw level).0
      ≤ room reported
unfolding reports
at_level-reports (some threshold) reported raw level = omega (arith, emit-reports threshold level)
at_level-reports none true raw level = omega (arith, emit-reports warning_level level)
at_level-reports none false raw level = omega (arith, emit-reports warning_level level)

at_level-errors :
    (o : Option ℕ) (reported : Bool) (raw : Text) (level : ℕ)
    → ((threshold : ℕ) → o ≡ some threshold → threshold ≤ 40)
    → errors (at_level o reported raw level).1 ≡ (if nat_eqb level error_level then 1 else 0)
unfolding errors
at_level-errors (some threshold) reported raw level h =
    emit-errors threshold level (h threshold refl)
at_level-errors none true raw level h = emit-errors warning_level level (omega arith)
at_level-errors none false raw level h = emit-errors warning_level level (omega arith)

module _ (lowered : Text → Text) where
  log_all-room :
      (calls : List (Option Text × ℕ)) (reported : Bool)
      → reports (log_all lowered reported calls) ≤ room reported
  unfolding log_all log reports
  log_all-room [] reported = omega arith
  log_all-room ((variable, level) ∷ calls) reported =
      let raw = lowered (configured variable) in
      let out = at_level (Dict.lookup raw levels) reported raw level in
      omega (
        arith,
        reports-append out.1 (log_all lowered out.0 calls),
        at_level-reports (Dict.lookup raw levels) reported raw level,
        log_all-room calls out.0,
      )

  -- In any run of the process, whatever the variable is set to meanwhile, an unknown level is
  -- reported at most once.
  pub log_all-reports : (calls : List (Option Text × ℕ)) → reports (log_all lowered false calls) ≤ 1
  log_all-reports calls = log_all-room calls false

  -- No error is lost: whatever the variable is set to, there are as many errors on stderr as calls
  -- of `error`.
  log_all-errors :
      (calls : List (Option Text × ℕ)) (reported : Bool)
      → errors (log_all lowered reported calls) ≡ errors_called calls
  unfolding log_all log errors errors_called
  log_all-errors [] reported = refl
  log_all-errors ((variable, level) ∷ calls) reported =
      let raw = lowered (configured variable) in
      let out = at_level (Dict.lookup raw levels) reported raw level in
      ground (
        arith,
        errors-append out.1 (log_all lowered out.0 calls),
        at_level-errors (Dict.lookup raw levels) reported raw level (threshold_bound raw),
        log_all-errors calls out.0,
      )
