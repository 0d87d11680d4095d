-- ===== src/Http/Engine.antt =====
-- _core/http/engine.py: what the two request loops share.
pub mod Loop
pub mod Redirects
pub mod Headers
use mountainash_transport.Prelude.{
  ℕ, zero, suc, ◌+◌, ◌-◌, Bool, true, false, not, ◌&&◌, Option, none, some, List, [], ◌∷◌, ◌++◌,
  ◌⊎◌, String, Text, length, ◌==◌, leb, ltb, if◌then◌else◌, contains, nat_eq, string_eq,
}
use mountainash_transport.Prelude.Dict
use mountainash_transport.Prelude.Dict.{Dict}
use mountainash_transport.Errors.{Error}
use mountainash_transport.Stream.Sequential.{Bytes}
use mountainash_transport.Http.Errors.{
  HttpClass, transport, timeout, redirect, connection, protocol, request, rate_limit,
  map_status_to_error, is_class,
}
use mountainash_transport.Http.Policy.{Seconds, RetryPolicy, RequestPolicy}

-- The classes of httpx that the code names.
pub data HttpxClass : Type 0 where
  connect_timeout read_timeout write_timeout pool_timeout too_many_redirects : HttpxClass
  proxy_error connect_error protocol_error decoding_error unsupported_protocol : HttpxClass
  invalid_url stream_error http_error : HttpxClass

-- An exception of httpx: the classes that it is an instance of.
abbrev pub HttpxError : Type 0
HttpxError = HttpxClass → Bool

-- `_HTTPX_EXCEPTION_MAP`
abbrev pub httpx_exception_map : List (HttpxClass × HttpClass)
httpx_exception_map =
    (connect_timeout, timeout)
    ∷ (read_timeout, timeout)
    ∷ (write_timeout, timeout)
    ∷ (pool_timeout, timeout)
    ∷ (too_many_redirects, redirect)
    ∷ (proxy_error, connection)
    ∷ (connect_error, connection)
    ∷ (protocol_error, protocol)
    ∷ (decoding_error, protocol)
    ∷ (unsupported_protocol, request)
    ∷ (invalid_url, request)
    ∷ (stream_error, connection)
    ∷ (http_error, transport)
    ∷ []

first_match : List (HttpxClass × HttpClass) → HttpxError → HttpClass
first_match [] exc = transport
first_match ((httpx, mapped) ∷ rest) exc = if exc httpx then mapped else first_match rest exc

-- `_map_httpx_exception`
unfoldable pub map_httpx_exception : HttpxError → HttpClass
unfolding first_match
map_httpx_exception = first_match httpx_exception_map

-- isinstance(…, _RETRYABLE_TRANSPORT_TYPES): these two classes have no subclass.
unfoldable pub is_retryable_transport : HttpClass → Bool
is_retryable_transport timeout = true
is_retryable_transport connection = true
is_retryable_transport _ = false

-- A request body that is a stream: its bytes, and whether it has a `seekable` that says so.
pub record BodyStream : Type 0 where
  pub bytes : Bytes
  pub seekable : Bool

-- `_is_body_replayable`
unfoldable pub is_body_replayable : Option Bytes → Option BodyStream → Bool
is_body_replayable (some content) stream = true
is_body_replayable none none = true
is_body_replayable none (some stream) = stream.seekable

-- `_resolve_body`
unfoldable pub resolve_body : Option Bytes → Option BodyStream → Option Bytes
resolve_body content none = content
resolve_body content (some stream) = some stream.bytes

abbrev pub Headers : Type 0
Headers = Dict String String

-- `_merge_headers`: what `get_headers()` of a refreshable strategy gives, `none` for any other
-- strategy or none at all, and the caller's headers.
unfoldable pub merge_headers : Option Headers → Headers → Headers
merge_headers none caller = Dict.update [] caller
merge_headers (some auth) caller = Dict.update (Dict.update [] auth) caller

-- What the engine reads of a response.
pub record Response : Type 0 where
  pub status_code : ℕ
  pub retry_after : Option String
  pub headers : Headers
  pub content : Bytes

module _ (T : Seconds) where
  parse_date : String → Option T.Time
  parse_date value = elim (T.from_date value) [
    | none ↦ none
    | some delta ↦ some (T.at_least_zero delta)
  ]

  -- `_parse_retry_after`
  unfoldable pub parse_retry_after : Option String → Option T.Time
  unfolding parse_date
  parse_retry_after none = none
  parse_retry_after (some value) = elim (T.from_float value) [
    | some seconds ↦ some (T.at_least_zero seconds)
    | none ↦ parse_date value
  ]

  -- How a request ends: with a response, with an HTTP error of a class (with its status code and
  -- the seconds of `retry_after`), with the `ValueError` of a status without a class, or with an
  -- exception that the loop does not catch.
  pub data Final : Type 0 where
    success : Response → Final
    raised : HttpClass → Option ℕ → Option T.Time → Final
    unclassified : Final
    propagated : HttpClass ⊎ Error → Final

  classified : Response → Option HttpClass → Final
  classified r none = unclassified
  classified r (some c) =
      raised c (some r.status_code)
        (if is_class c rate_limit then parse_retry_after r.retry_after else none)

  -- `_raise_for_status`
  unfoldable pub raise_for_status : Response → Final
  unfolding classified
  raise_for_status r = classified r (map_status_to_error r.status_code)

  -- min(backoff_base * 2 ** (attempt - 1), backoff_max), or the nth random number up to it.
  unfoldable pub backoff : RetryPolicy T → ℕ → ℕ → T.Time
  backoff retry draws attempt =
      let delay = T.least (T.times_power retry.backoff_base (attempt - 1)) retry.backoff_max in
      if retry.backoff_jitter then T.uniform draws delay else delay

  limited_pause : RetryPolicy T → ℕ → ℕ → Option T.Time → T.Time
  limited_pause retry draws attempt none = backoff retry draws attempt
  limited_pause retry draws attempt (some after) = T.least after retry.max_retry_after

  -- The pause before another try after a 429.
  unfoldable pub rate_limit_pause : RetryPolicy T → ℕ → ℕ → Response → T.Time
  unfolding limited_pause backoff
  rate_limit_pause retry draws attempt r =
      limited_pause retry draws attempt (parse_retry_after r.retry_after)
