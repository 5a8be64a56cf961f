-- ===== src/Logging/Tests.antt =====
-- A run with an unknown level, twice, and two errors.
use http_network_relay.Prelude.{
  ℕ, ◌≤◌, ◌≡◌, refl, Option, none, some, List, [], ◌∷◌, false, Text, codes, text_key, text_eqb,
}
use http_network_relay.Prelude.Dict
use http_network_relay.Logging.{unknown_level, logged, levels, emit, log, log_all}
use http_network_relay.Logging.Levels.{reports, log_all-reports}

abbrev as_is : Text → Text
as_is t = t

abbrev calls : List (Option Text × ℕ)
calls =
    (some (codes "loud"), 40)
    ∷ (some (codes "loud"), 20)
    ∷ (some (codes "info"), 20)
    ∷ (none, 40)
    ∷ []

calls_run :
    log_all as_is false calls
    ≡ unknown_level (codes "loud") ∷ logged 40 ∷ logged 20 ∷ logged 40 ∷ []
unfolding log_all log levels emit Dict.lookup text_eqb
calls_run = refl

log_all-reports_example : reports (log_all as_is false calls) ≤ 1
log_all-reports_example = log_all-reports as_is calls
