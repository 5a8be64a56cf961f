-- ===== src/Logging.antt =====
-- http_network_relay/logging_utils.py: `_configured_level` and `_log`. The variable is read, stripped
-- and put in lower case by Python; `lowered` stands for the two string methods.
pub mod Levels
mod Tests
use http_network_relay.Prelude.{
  ℕ, Bool, true, false, Option, none, some, List, [], ◌∷◌, ◌++◌, Text, codes, text_key, leb,
  if◌then◌else◌,
}
use http_network_relay.Prelude.Dict
use http_network_relay.Prelude.Dict.{Dict}

abbrev pub warning_level : ℕ
warning_level = 30

abbrev pub error_level : ℕ
error_level = 40

-- `_LEVELS`
unfoldable pub levels : Dict Text ℕ
levels =
    (codes "debug", 10)
    ∷ (codes "info", 20)
    ∷ (codes "warning", warning_level)
    ∷ (codes "error", error_level)
    ∷ []

-- A line on stderr: the report of an unknown level, or a record of a level.
pub data Line : Type 0 where
  unknown_level : Text → Line
  logged : ℕ → Line

-- `logger.log` at a threshold.
unfoldable pub emit : ℕ → ℕ → List Line
emit threshold level = if leb threshold level then logged level ∷ [] else []

-- The report of an unknown level, at the default threshold, which lets a warning pass.
abbrev pub report : Bool → Text → List Line
report true raw = []
report false raw = unknown_level raw ∷ []

abbrev pub at_level : Option ℕ → Bool → Text → ℕ → Bool × List Line
at_level none reported raw level = (true, report reported raw ++ emit warning_level level)
at_level (some threshold) reported raw level = (reported, emit threshold level)

-- `os.getenv(…, DEFAULT_LEVEL)`
abbrev pub configured : Option Text → Text
configured none = codes "warning"
configured (some value) = value

module _ (lowered : Text → Text) where
  -- `_log`, from `_invalid_level_reported` and the variable's value, to the flag and the lines.
  unfoldable pub log : Bool → Option Text → ℕ → Bool × List Line
  unfolding emit
  log reported variable level =
      let raw = lowered (configured variable) in
      at_level (Dict.lookup raw levels) reported raw level

  -- Calls one after the other, each with the value of the variable at that time.
  unfoldable pub log_all : Bool → List (Option Text × ℕ) → List Line
  unfolding log
  log_all reported [] = []
  log_all reported ((variable, level) ∷ calls) =
      let (reported', lines) = log reported variable level in lines ++ log_all reported' calls
