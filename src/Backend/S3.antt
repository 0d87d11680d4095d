-- ===== src/Backend/S3.antt =====
-- storage/backends/s3: the errors, the listing, the metadata and the ranges. boto3's client is a
-- parameter.
mod Failures
pub use Failures.{
  S3Error, own, validation, client_error, credentials, connection, os_or_botocore, unsupported,
  other,
}
pub use Failures.{native}
unfoldable pub use Failures.{map_client_error, map_error, mapped}
pub mod Listings
pub mod Ranges
use mountainash_transport.Prelude.{
  ℕ, zero, suc, ◌+◌, ◌-◌, Bool, true, false, not, ◌&&◌, ◌||◌, Option, none, some, List, [], ◌∷◌,
  ◌++◌, map, Result, ok, err, ◌>>=◌, if◌then◌else◌, length, take, Text, codes, text_eq, ◌is◌,
  contains, ◌==◌, ℤ, pos, negsuc, sub_ℕ, ◌-ℤ◌, ltb_ℤ, get_or_else,
}
use mathlib.Core.List.{reverse}
use mountainash_transport.Prelude.Dict.{Dict, lookup}
use mountainash_transport.Errors.{
  Error, storage_error, storage_connection, path_not_found, permission_denied, authentication,
  value_error, object_changed, unsupported_io, other_error,
}
use mountainash_transport.Location.Schemes.{Platform, SplitResult}
use mountainash_transport.Storage.Helpers.{parse_s3_path, rstrip_slash, strip_left}
use mountainash_transport.Stream.Sequential.{Bytes}
use mountainash_transport.Stream.Ranged.{RangedSource, strong_etag}
use mountainash_transport.Backend.Entry.{prefix, StorageEntry, entry, EnumerateResult}

-- An item of `Contents`.
pub record Object : Type 0 where
  pub key : Text
  pub size : Option ℕ
  pub last_modified : Option ℕ
  pub etag : Option Text
  pub storage_class : Option Text

-- A page of the paginator; a prefix is an item of `CommonPrefixes`.
pub record Page : Type 0 where
  pub contents : List Object
  pub prefixes : List Text

-- The answer of `head_object`.
pub record Head : Type 0 where
  pub content_length : Option ℕ
  pub last_modified : Option ℕ
  pub etag : Option Text
  pub content_type : Option Text
  pub storage_class : Option Text
  pub version_id : Option Text
  pub checksums : Dict Text Text

-- The body of a range request: what a read of so many bytes gives.
pub record S3Client : Type 0 where
  pub get_paginator : Result S3Error (Unit {0})
  pub paginate : (bucket key_prefix : Text) (delimiter : Option Text) → Result S3Error (List Page)
  pub list_one : (bucket : Text) → Result S3Error (Option ℕ)
  pub head_object : (bucket key : Text) → Result S3Error Head
  -- `get_object` of a range, which has its first and its last byte
  pub get_range :
      (bucket key : Text) (start : ℕ) (last : ℤ) (if_match : Option Text)
      → Result S3Error (ℕ → Result S3Error Bytes)

-- text.rsplit("/", 1)[-1]
unfoldable pub last_part : Text → Text → Text
last_part [] seen = seen
last_part (c ∷ rest) seen = if c == b'/' then last_part rest rest else last_part rest seen

abbrev name_of : Text → Text
name_of text = last_part text text

-- text.strip('"')
abbrev strip_quotes : Text → Text
strip_quotes text = reverse (strip_left b'"' (reverse (strip_left b'"' text)))

abbrev url_of : Text → Text → Text
url_of bucket key = codes "s3://" ++ bucket ++ codes "/" ++ key

unfoldable pub object_entry : Text → Object → StorageEntry
object_entry bucket o = record (entry (url_of bucket o.key) (name_of o.key)) {
  size = some (get_or_else o.size 0);
  last_modified = o.last_modified;
  etag = strip_quotes (get_or_else o.etag []);
  storage_class = get_or_else o.storage_class [];
  source = codes "s3";
}

unfoldable pub prefix_entry : Text → Text → StorageEntry
prefix_entry bucket raw = record (entry (url_of bucket raw) (name_of (rstrip_slash raw))) {
  entry_type = prefix;
  source = codes "s3";
}

unfoldable pub all_objects : Text → List Page → List StorageEntry
all_objects bucket [] = []
all_objects bucket (page ∷ pages) =
    map (object_entry bucket) page.contents ++ all_objects bucket pages

unfoldable pub all_prefixes : Text → List Page → List StorageEntry
all_prefixes bucket [] = []
all_prefixes bucket (page ∷ pages) =
    map (prefix_entry bucket) page.prefixes ++ all_prefixes bucket pages

-- items[:n]
unfoldable pub take_ℤ {ℓ} : {A : Type ℓ} → ℤ → List A → List A
take_ℤ (pos n) items = take n items
take_ℤ (negsuc n) items = take (length items - suc n) items

abbrev pub max_zero : ℤ → ℤ
max_zero n = if ltb_ℤ n (pos 0) then pos 0 else n

unfoldable pub cut : ℤ → List StorageEntry → List StorageEntry → EnumerateResult
cut n objects prefixes =
    let kept = take_ℤ n objects in
    record { objects = kept; common_prefixes = take_ℤ (max_zero (n -ℤ pos (length kept))) prefixes }

-- The cut to `max_results`.
unfoldable pub truncated : Option ℤ → List StorageEntry → List StorageEntry → EnumerateResult
truncated none objects prefixes = record { objects = objects; common_prefixes = prefixes }
truncated (some n) objects prefixes =
    if ltb_ℤ n (pos (length (objects ++ prefixes)))
    then cut n objects prefixes
    else record { objects = objects; common_prefixes = prefixes }

-- `path.removeprefix("/")`
abbrev remove_slash : Text → Text
remove_slash [] = []
remove_slash (c ∷ rest) = if c == b'/' then rest else c ∷ rest

-- `_CHECKSUM_PREFERENCE`
abbrev pub checksum_preference : List (Text × Text)
checksum_preference =
    (codes "ChecksumSHA256", codes "SHA256")
    ∷ (codes "ChecksumCRC32C", codes "CRC32C")
    ∷ (codes "ChecksumCRC32", codes "CRC32")
    ∷ (codes "ChecksumSHA1", codes "SHA1")
    ∷ []

-- `_pick_checksum`
unfoldable pub pick_checksum : List (Text × Text) → Dict Text Text → Text × Text
pick_checksum [] response = ([], [])
pick_checksum ((key, algorithm) ∷ rest) response =
    let later = pick_checksum rest response in
    elim (lookup key response) [
      | none ↦ later
      | some found ↦ if found is [] then later else (found, algorithm)
    ]

module _ (P : Platform) (C : S3Client) where
  abbrev pub key_prefix : Text → Text → Result Error Text
  key_prefix path key = elim (P.urlsplit path) [
    | none ↦ err value_error
    | some parts ↦ ok (if parts.scheme is [] then key else remove_slash parts.path)
  ]

  -- The pages of a listing, all of them, and the bucket.
  unfoldable pub list_pages : Text → Option Text → Result Error (Text × List Page)
  list_pages path delimiter = parse_s3_path P path >>= λ (bucket, key).
      key_prefix path key >>= λ wanted. native C.get_paginator >>= λ done.
      native (C.paginate bucket wanted delimiter) >>= λ pages. ok (bucket, pages)

  -- `list_objects(prefix, delimiter=, max_results=)`
  unfoldable pub list_objects : Text → Option Text → Option ℤ → Result Error EnumerateResult
  list_objects path delimiter max_results = list_pages path delimiter >>= λ (bucket, pages).
      ok (truncated max_results (all_objects bucket pages) (all_prefixes bucket pages))

  -- `get_metadata(path)`
  unfoldable pub get_metadata : Text → Result Error StorageEntry
  get_metadata path = parse_s3_path P path >>= λ (bucket, key).
      native (C.head_object bucket key) >>= λ head.
      let (checksum, algorithm) = pick_checksum checksum_preference head.checksums in
      ok (record (entry (url_of bucket key) (name_of key)) {
        size = some (get_or_else head.content_length 0);
        last_modified = head.last_modified;
        etag = strip_quotes (get_or_else head.etag []);
        content_type = get_or_else head.content_type [];
        storage_class = get_or_else head.storage_class [];
        source = codes "s3";
        version_id = get_or_else head.version_id [];
        checksum = checksum;
        checksum_algorithm = algorithm;
      })

  -- `get_size(path)`
  unfoldable pub get_size : Text → Result Error (Option ℕ)
  get_size path = parse_s3_path P path >>= λ (bucket, key).
      native (C.head_object bucket key) >>= λ head. ok head.content_length

  abbrev or_absent : Result Error Bool → Result Error Bool
  or_absent (ok b) = ok b
  or_absent (err path_not_found) = ok false
  or_absent (err e) = err e

  -- `path_exists(path)`
  unfoldable pub path_exists : Text → Result Error Bool
  path_exists path = parse_s3_path P path >>= λ (bucket, key). or_absent (
      if key is []
      then (native (C.list_one bucket) >>= λ status. ok (get_or_else status 404 == 200))
      else (native (C.head_object bucket key) >>= λ head. ok true))

  -- `fetch(start, end)` of `open_ranged`
  unfoldable pub fetch : Text → Text → Option Text → ℕ → ℕ → Result Error Bytes
  fetch bucket key etag start end =
      native (C.get_range bucket key start (sub_ℕ end 1) etag) >>= λ body.
      native (body (end - start + 1)) >>= λ bytes.
      if length bytes == (end - start) then ok bytes else err storage_error

  -- The source of an object; a head without a length raises `KeyError`.
  unfoldable pub open_object : Text → Text → Result Error RangedSource
  open_object bucket key = native (C.head_object bucket key) >>= λ head. elim head.content_length [
    | none ↦ err other_error
    | some size ↦
        ok (record {
          size = size;
          fetch = fetch bucket key (strong_etag head.etag);
          on_close = none;
        })
  ]

  -- `open_ranged(path)`
  unfoldable pub open_ranged : Text → Result Error RangedSource
  open_ranged path = parse_s3_path P path >>= λ (bucket, key). open_object bucket key
