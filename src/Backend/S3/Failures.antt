-- ===== src/Backend/S3/Failures.antt =====
-- storage/backends/s3/_helpers.py: the errors.
use mountainash_transport.Prelude.{
  ℕ, Bool, false, ◌||◌, Option, none, some, List, [], ◌∷◌, Result, ok, err, if◌then◌else◌, Text,
  codes, text_eq, contains, ◌==◌,
}
use mountainash_transport.Errors.{
  Error, storage_error, storage_connection, path_not_found, permission_denied, authentication,
  object_changed, unsupported_io, other_error,
}

-- What the client raises: a storage error of the code's own, an error that botocore finds in the
-- request, one that the server answers, and by class.
pub data S3Error : Type 0 where
  own : Error → S3Error
  validation : S3Error
  client_error : (code : Option Text) (status : Option ℕ) → S3Error
  credentials connection os_or_botocore unsupported other : S3Error

abbrev pub auth_codes : List Text
auth_codes =
    codes "InvalidAccessKeyId"
    ∷ codes "SignatureDoesNotMatch"
    ∷ codes "ExpiredToken"
    ∷ codes "ExpiredTokenException"
    ∷ codes "InvalidToken"
    ∷ codes "TokenRefreshRequired"
    ∷ codes "InvalidClientTokenId"
    ∷ codes "UnrecognizedClientException"
    ∷ []

abbrev pub not_found_codes : List Text
not_found_codes = codes "NoSuchKey" ∷ codes "NoSuchBucket" ∷ codes "NotFound" ∷ codes "404" ∷ []

abbrev pub timeout_codes : List Text
timeout_codes = codes "RequestTimeout" ∷ codes "RequestTimeoutException" ∷ []

abbrev pub code_in : List Text → Option Text → Bool
code_in names none = false
code_in names (some code) = contains names code

abbrev pub is_status : ℕ → Option ℕ → Bool
is_status n none = false
is_status n (some status) = status == n

-- What the server's answer is: by its code, and then by its status.
unfoldable pub map_client_error : Option Text → Option ℕ → Error
map_client_error code status =
    if code_in auth_codes code
    then authentication
    else if code_in not_found_codes code
    then path_not_found
    else if code_in (codes "AccessDenied" ∷ []) code
    then permission_denied
    else if code_in timeout_codes code
    then storage_connection
    else if code_in (codes "PreconditionFailed" ∷ []) code || is_status 412 status
    then object_changed
    else if is_status 401 status
    then authentication
    else if is_status 403 status
    then permission_denied
    else if is_status 404 status
    then path_not_found
    else storage_error

-- `_map_error`; none, where the exception is raised as it is.
unfoldable pub map_error : S3Error → Option Error
map_error (own e) = none
map_error validation = none
map_error (client_error code status) = some (map_client_error code status)
map_error credentials = some authentication
map_error connection = some storage_connection
map_error os_or_botocore = some storage_error
map_error unsupported = none
map_error other = none

abbrev plain : S3Error → Error
plain (own e) = e
plain unsupported = unsupported_io
plain _ = other_error

-- What `_mapped` makes of it.
unfoldable pub mapped : S3Error → Error
mapped e = elim (map_error e) [ some x ↦ x | none ↦ plain e ]

abbrev pub native : {A : Type 0} → Result S3Error A → Result Error A
native (ok a) = ok a
native (err e) = err (mapped e)
