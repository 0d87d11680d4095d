-- ===== src/Backend/Http.antt =====
-- storage/backends/http: the errors, the ranges and the sizes, over the answers of the request
-- engine.
pub mod Ranges
use mountainash_transport.Prelude.{
  ℕ, zero, suc, ◌+◌, ◌-◌, ◌*◌, Bool, true, false, not, ◌&&◌, ◌||◌, Option, none, some, List, [],
  ◌∷◌, ◌++◌, Result, ok, err, ◌>>=◌, ◌>>◌, if◌then◌else◌, length, Text, codes, text_eq, ◌is◌, lower,
  ◌==◌, leb, ltb, get_or_else,
}
use mountainash_transport.Errors.{
  Error, storage_error, storage_connection, path_not_found, permission_denied, authentication,
  object_changed, range_not_supported, other_error,
}
use mountainash_transport.Http.Errors.{HttpClass}
use mountainash_transport.Http.Errors as Http
use mountainash_transport.Http.Errors.Classes.{descends}
use mountainash_transport.Stream.Sequential.{Bytes}
use mountainash_transport.Stream.Ranged.{RangedSource, strong_etag}

-- An exception, by class: a storage error of the code's own, one of the engine with its status, one
-- of httpx, or one of Python.
pub data Raised : Type 0 where
  own : Error → Raised
  engine : HttpClass → (status : ℕ) → Raised
  invalid_url unsupported_protocol local_protocol : Raised
  network httpx_timeout proxy httpx_other : Raised
  os_connection os_timeout os_other other : Raised

-- isinstance(exc, (StorageError, HttpRequestError, httpx.InvalidURL, ...))
unfoldable pub is_kept : Raised → Bool
is_kept (own e) = true
is_kept (engine c status) = descends c HttpClass.request
is_kept invalid_url = true
is_kept unsupported_protocol = true
is_kept local_protocol = true
is_kept _ = false

-- isinstance(exc, (HttpTransportError, httpx.HTTPError, OSError))
unfoldable pub is_transport : Raised → Bool
is_transport (engine c status) = true
is_transport network = true
is_transport httpx_timeout = true
is_transport proxy = true
is_transport httpx_other = true
is_transport unsupported_protocol = true
is_transport local_protocol = true
is_transport os_connection = true
is_transport os_timeout = true
is_transport os_other = true
is_transport _ = false

-- isinstance(current, (HttpConnectionError, HttpTimeoutError, httpx.NetworkError, ...))
unfoldable pub is_connection : Raised → Bool
is_connection (engine c status) = descends c HttpClass.connection || descends c HttpClass.timeout
is_connection network = true
is_connection httpx_timeout = true
is_connection proxy = true
is_connection os_connection = true
is_connection os_timeout = true
is_connection _ = false

unfoldable pub any_connection : List Raised → Bool
any_connection [] = false
any_connection (x ∷ causes) = let rest = any_connection causes in is_connection x || rest

-- The class of one of the engine's errors that has its own storage error.
abbrev classified : Raised → Option Error
classified (engine c status) =
    if descends c HttpClass.not_found
    then some path_not_found
    else if descends c HttpClass.authentication
    then some authentication
    else if descends c HttpClass.forbidden
    then some permission_denied
    else if descends c HttpClass.client && (status == 412)
    then some object_changed
    else none
classified _ = none

-- `_map_error`, given the chain of causes that it follows from the exception; none, where the
-- exception is raised as it is.
unfoldable pub map_error : Raised → List Raised → Option Error
map_error x causes = if is_kept x then none else elim (classified x) [
  | some e ↦ some e
  | none ↦
      if not (is_transport x)
      then none
      else some (if any_connection (x ∷ causes) then storage_connection else storage_error)
]

abbrev plain : Raised → Error
plain (own e) = e
plain _ = other_error

-- What `_mapped` makes of it.
unfoldable pub mapped : Raised → List Raised → Error
mapped x causes = elim (map_error x causes) [ some e ↦ e | none ↦ plain x ]

-- A streamed response: its headers, and its bytes with what ends them.
pub record Response : Type 0 where
  pub status : ℕ
  pub content_encoding : Option Text
  pub content_range : Option Text
  pub etag : Option Text
  pub chunks : List Bytes
  pub failure : Option Error

-- The digits of a number, by the value of each, and what follows them.
unfoldable pub digits : (ℕ → Option ℕ) → ℕ → Text → ℕ × Text
digits digit n [] = (n, [])
digits digit n (c ∷ rest) = elim (digit c) [
  | none ↦ (n, c ∷ rest)
  | some d ↦ digits digit (n * 10 + d) rest
]

-- A number of at least one digit, and what follows it.
unfoldable pub number : (ℕ → Option ℕ) → Text → Option (ℕ × Text)
number digit [] = none
number digit (c ∷ rest) = elim (digit c) [ none ↦ none | some d ↦ some (digits digit d rest) ]

-- The text after a literal.
unfoldable pub after : Text → Text → Option Text
after [] text = some text
after (a ∷ literal) [] = none
after (a ∷ literal) (b ∷ text) = let rest = after literal text in if a == b then rest else none

abbrev then_get {ℓ κ} : {A : Type ℓ} {B : Type κ} → Option A → (A → Option B) → Option B
then_get none next = none
then_get (some a) next = next a

pub record ContentRange : Type 0 where
  pub start : ℕ
  pub last : ℕ
  pub size : ℕ

-- re.fullmatch(r"bytes (\d+)-(\d+)/(\d+)", text)
unfoldable pub parse_range : (ℕ → Option ℕ) → Text → Option ContentRange
parse_range digit header = then_get (after (codes "bytes ") header) (λ a.
    then_get (number digit a) (λ (start, b). then_get (after (codes "-") b) (λ c.
      then_get (number digit c) (λ (last, d). then_get (after (codes "/") d) (λ e.
        then_get (number digit e) (λ (size, f).
          if f is [] then some (record { start = start; last = last; size = size }) else none))))))

abbrev is_identity : Option Text → Bool
is_identity none = true
is_identity (some encoding) = (encoding is []) || (lower encoding is codes "identity")

-- `_range_headers`
unfoldable pub range_headers : (ℕ → Option ℕ) → Response → Result Error ContentRange
range_headers digit r =
    if not (r.status == 206)
    then err range_not_supported
    else if not (is_identity r.content_encoding)
    then err range_not_supported
    else elim (parse_range digit (get_or_else r.content_range [])) [
      | none ↦ err range_not_supported
      | some range ↦ ok range
    ]

-- `for chunk in r.iter_bytes()`, with at most so many bytes.
unfoldable pub gather : ℕ → Bytes → List Bytes → Option Error → Result Error Bytes
gather limit got [] none = ok got
gather limit got [] (some e) = err e
gather limit got (chunk ∷ chunks) failure =
    let rest = gather limit (got ++ chunk) chunks failure in
    if ltb limit (length got + length chunk) then err storage_error else rest

abbrev matches : ContentRange → ℕ → ℕ → ℕ → Bool
matches range start end size =
    (range.start == start) && ((range.last == (end - 1)) && (range.size == size))

-- `fetch(start, end)` of `open_ranged`, given the engine's answer to the request of a range with
-- an If-Match.
module _ (digit : ℕ → Option ℕ) (ask : ℕ → ℕ → Option Text → Result Error Response) where
  unfoldable pub receive : ℕ → ℕ → ℕ → Response → Result Error Bytes
  receive size start end r = range_headers digit r >>= λ range.
      if not (matches range start end size)
      then err storage_error
      else (gather (end - start) [] r.chunks r.failure >>= λ bytes.
          if length bytes == (end - start) then ok bytes else err storage_error)

  unfoldable pub fetch : ℕ → Option Text → ℕ → ℕ → Result Error Bytes
  fetch size etag start end = ask start (end - 1) etag >>= receive size start end

  -- The probe, with what the engine raises for an empty object.
  pub data Probe : Type 0 where
    answered : Response → Probe
    empty_object : Probe
    failed : Error → Probe

  -- `open_ranged`, given the answer to the probe for the first byte. `empty_object` is a 416 with
  -- the range "bytes */0".
  unfoldable pub open_ranged : Probe → Result Error RangedSource
  open_ranged empty_object = ok (record { size = 0; fetch = λ start end. ok []; on_close = none })
  open_ranged (failed e) = err e
  open_ranged (answered r) = range_headers digit r >>= λ range.
      if not ((range.start == 0) && (range.last == 0)) || leb range.size 0
      then err range_not_supported
      else ok (record {
        size = range.size;
        fetch = fetch range.size (strong_etag r.etag);
        on_close = none;
      })

-- `_size`, of a Content-Length; `int` is a parameter, none of it a `ValueError`.
unfoldable pub size_of : (Text → Option ℕ) → Option Text → Result Error (Option ℕ)
size_of int none = ok none
size_of int (some header) =
    if header is []
    then ok none
    else elim (int header) [ none ↦ err storage_error | some n ↦ ok (some n) ]
