-- ===== src/Relay/Connection/Tests.antt =====
-- A `read` that waits for data.
use http_network_relay.Prelude.{◌≡◌, Text, none, refl, false, some, text_key, text_eqb}
use http_network_relay.Prelude.Dict
use http_network_relay.Exception.{ok, eof_error}
use http_network_relay.Relay.World.{World, Env, disconnected, fail, raised}
use http_network_relay.Relay.Connection.{fill_recv, handle_tcp_binary_data, read}
use http_network_relay.Relay.Connection.Waiting.{IsServed, by_data, read-woken}
use http_network_relay.Relay.Connection.Managed.{with_connection, with_connection-closes}
use http_network_relay.Relay.Sample.{sample, busy, greeting, alone, second_id, sample-IsPolite}

-- The message loop fills the buffer while `read` waits.
abbrev filling : World → World
unfolding fill_recv
filling w = fill_recv 0 greeting w

abbrev env : Env
env = sample (ok disconnected) (ok false) filling

read-woken_example : IsServed 0 1 greeting (read env 4 0 (some 1)) busy
unfolding Dict.lookup text_eqb fill_recv handle_tcp_binary_data
read-woken_example =
    read-woken env 0 0 2 busy greeting refl refl refl (by_data greeting (λ e. cc e) refl)

-- A body that raises.
with_connection-closes_example :
    (u : World) × (with_connection
        (sample (ok disconnected) (ok false) alone)
        1
        (fail {A = Text} eof_error)
        busy
      ≡ (raised eof_error, u))
    × (Dict.lookup second_id u.active_relayed_connections ≡ none)
with_connection-closes_example =
    with_connection-closes 1 (fail {A = Text} eof_error) second_id (raised eof_error) busy busy
      (sample-IsPolite (ok disconnected) (ok false) alone) refl (λ e. cc e) refl refl
