-- ===== src/Connection/Leaf/S3.antt =====
-- connections/s3.py: S3Connection. boto3 and botocore are calls of the world.
use mountainash_transport.Prelude.{
  ℕ, String, Bool, false, not, ◌&&◌, Option, none, some, err, if◌then◌else◌, ◌is◌, string_eq,
}
use mountainash_transport.Connection.Failures.{
  Failure, transport_connection, value_error, import_error, is_exception, is_transport, raised,
}
use mountainash_transport.Connection.World.{World, Acquired, acquire, Called, call}
use mountainash_transport.Connection.Protocol.{Done, Protocol}
use mountainash_transport.Connection.Leaf.Http.{disconnect, is_connected, reconnect}

-- A string of the envelope, as a condition.
abbrev pub is_set : Option String → Bool
is_set none = false
is_set (some text) = not (text is "")

-- The Session-instruction envelope, as far as the connection tests it.
pub record Envelope : Type 0 where
  pub profile_name : Option String
  pub has_keys : Bool
  pub region : Option String
  pub role_arn : Option String

-- The connect kwargs: an envelope, or kwargs of `boto3.client`.
pub record S3Config : Type 0 where
  pub importable : Bool
  pub envelope : Option Envelope

-- The exception of a native call ends the function, and so does one of an import.
unfoldable pub before : Called → (World → Acquired) → Acquired
before c next = elim c.failure [
  | none ↦ next c.world
  | some f ↦ record { handle = err f; world = c.world }
]

abbrev pub refused : Failure → World → Acquired
refused f w = record { handle = err f; world = w }

-- The end of `_build_via_session`, on the credentials that were asked for.
unfoldable pub build_assumed : Envelope → World → Acquired
build_assumed e w =
    if not (w.answers w.clock)
    then refused transport_connection w
    else before (call w) (λ w₁.
      if is_set e.region
      then before (call w₁) (λ w₂. before (call w₂) acquire)
      else before (call w₁) acquire)

-- `except ImportError` at the import of botocore
unfoldable pub import_failure : Failure → Failure
import_failure import_error = transport_connection
import_failure f = f

-- The part for a role, from the import of botocore.
unfoldable pub assume_role : Envelope → World → Acquired
assume_role e w =
    let imported = call w in
    elim imported.failure [
      | some f ↦ refused (import_failure f) imported.world
      | none ↦ before (call imported.world) (build_assumed e)
    ]

-- `_build_via_session`
unfoldable pub build_via_session : Envelope → World → Acquired
build_via_session e w =
    if is_set e.profile_name && e.has_keys
    then refused value_error w
    else before (call w) (λ w₁. if not (is_set e.role_arn) then acquire w₁ else assume_role e w₁)

-- `except (ValueError, TransportConnectionError): raise`, and `except Exception`
unfoldable pub connect_failure : Failure → Failure
connect_failure value_error = value_error
connect_failure f = if is_transport f then f else if is_exception f then transport_connection else f

unfoldable pub build : S3Config → World → Acquired
build config w = elim config.envelope [ some e ↦ build_via_session e w | none ↦ acquire w ]

unfoldable pub connect : S3Config → Option ℕ → World → Done (Option ℕ)
connect config s w =
    if not config.importable
    then record { result = err (raised transport_connection); state = s; world = w }
    else reconnect (build config) connect_failure s w

unfoldable pub s3_connection : S3Config → Protocol (Option ℕ)
s3_connection config = record {
  connect = connect config;
  disconnect = disconnect;
  client = λ s. s;
  is_connected = is_connected;
}
