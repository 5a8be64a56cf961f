-- ===== src/Exception.antt =====
-- The Python exceptions that the modelled code raises or catches, and results that carry one.
use http_network_relay.Prelude.{Text}

pub data Exception : Type 0 where
  -- `ValueError` and `RuntimeError` with the message `str(e)`
  value_error : Text → Exception
  runtime_error : Text → Exception
  -- pydantic's `ValidationError`, a subclass of `ValueError`, with its message
  validation_error : Text → Exception
  websocket_disconnect key_error attribute_error unbound_local_error : Exception
  eof_error timeout_error : Exception
  -- `NotImplementedError`, with its message
  not_implemented_error : Text → Exception
  connection_reset_error connection_refused_error connection_closed : Exception
  -- any other exception, with its message
  other_error : Text → Exception

pub data Result {ℓ} (A : Type ℓ) : Type ℓ where
  ok : A → Result A
  raise : Exception → Result A

infixl 5 ◌>>=◌
abbrev pub ◌>>=◌ {ℓ κ} : {A : Type ℓ} {B : Type κ} → Result A → (A → Result B) → Result B
ok a >>= f = f a
raise x >>= f = raise x
