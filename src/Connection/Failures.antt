-- ===== src/Connection/Failures.antt =====
-- connections/errors.py: the connection errors, with what the native libraries raise. An exception
-- carries the classes of those that `add_note` put on it.
use mountainash_transport.Prelude.{Bool, true, false, List, [], ◌∷◌, ◌++◌}

-- The classes of exceptions. `other_exception` is any other `Exception`, and `interrupt` any that
-- is none.
pub data Failure : Type 0 where
  transport_connection connection_timeout token_exchange token_refresh : Failure
  authorization_required unsupported_auth_profile : Failure
  value_error import_error os_error socket_timeout gaierror : Failure
  httpx_timeout httpx_connect other_exception interrupt : Failure

-- isinstance(exc, TransportConnectionError)
pub is_transport : Failure → Bool
is_transport transport_connection = true
is_transport connection_timeout = true
is_transport token_exchange = true
is_transport token_refresh = true
is_transport authorization_required = true
is_transport unsupported_auth_profile = true
is_transport _ = false

-- isinstance(exc, ConnectionTimeoutError)
unfoldable pub is_timeout : Failure → Bool
is_timeout connection_timeout = true
is_timeout _ = false

-- isinstance(exc, OSError)
unfoldable pub is_os_error : Failure → Bool
is_os_error os_error = true
is_os_error socket_timeout = true
is_os_error gaierror = true
is_os_error _ = false

-- isinstance(exc, Exception)
unfoldable pub is_exception : Failure → Bool
is_exception interrupt = false
is_exception _ = true

pub record Raised : Type 0 where
  pub error : Failure
  pub notes : List Failure

abbrev pub raised : Failure → Raised
raised f = record { error = f; notes = [] }

-- primary.add_note(f"... cleanup failed: {cleanup!r}"), and the notes of the clean-up
abbrev pub with_cleanup : Raised → Raised → Raised
with_cleanup primary cleanup = record primary {
  notes = primary.notes ++ cleanup.error ∷ cleanup.notes;
}

-- primary.add_note(f"... cleanup also failed: {cleanup!r}")
abbrev pub with_note : Raised → Failure → Raised
with_note primary cleanup = record primary { notes = primary.notes ++ cleanup ∷ [] }
