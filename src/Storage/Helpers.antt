-- ===== src/Storage/Helpers.antt =====
-- storage/path_helpers/storage_path.py and s3.py, and storage/backends/s3/s3_path.py.
pub mod Buckets
use mountainash_transport.Prelude.{
  ℕ, ◌+◌, ◌-◌, Bool, true, false, not, ◌&&◌, ◌||◌, Option, none, some, List, [], ◌∷◌, ◌++◌, Text,
  codes, text_eq, lower, ◌==◌, ltb, length, if◌then◌else◌, ◌is◌, Result, ok, err, ◌>>=◌, take,
  contains, nat_eq,
}
use mathlib.Core.List.{reverse}
use mountainash_transport.Prelude.Dict
use mountainash_transport.Errors.{Error, value_error}
use mountainash_transport.Location.Schemes.{
  Platform, ParseResult, Provider, s3, s3express, r2, minio, b2, SchemeSpec, schemes,
  alias_to_canonical, identify_scheme as location_scheme,
}

-- text.split(c, 1): the part before the first `c`, and the part after it, where there is one.
abbrev pub split_first : ℕ → Text → Text × Option Text
split_first c [] = ([], none)
split_first c (x ∷ xs) =
    let rest = split_first c xs in if x == c then ([], some xs) else (x ∷ rest.0, rest.1)

abbrev pub strip_left : ℕ → Text → Text
strip_left c [] = []
strip_left c (x ∷ xs) = let rest = strip_left c xs in if x == c then rest else x ∷ xs

-- `path.rstrip("/")`
abbrev pub rstrip_slash : Text → Text
rstrip_slash path = reverse (strip_left b'/' (reverse path))

strip_slashes : Text → Text
strip_slashes [] = []
strip_slashes (x ∷ xs) =
    let rest = strip_slashes xs in if (x == b'/') || (x == b'\\') then rest else x ∷ xs

-- `_S3_PROVIDERS`
unfoldable pub is_s3_provider : Provider → Bool
is_s3_provider s3 = true
is_s3_provider s3express = true
is_s3_provider r2 = true
is_s3_provider minio = true
is_s3_provider b2 = true
is_s3_provider _ = false

family_of : Option SchemeSpec → Bool
unfolding is_s3_provider
family_of none = false
family_of (some s) = elim s.provider [ none ↦ false | some p ↦ is_s3_provider p ]

-- Is the scheme in `_S3_FAMILY`?
unfoldable pub is_s3_scheme : Option Text → Bool
unfolding family_of
is_s3_scheme none = false
is_s3_scheme (some scheme) = family_of (Dict.lookup scheme schemes)

module _ (P : Platform) where
  -- `StoragePath.identify_scheme`
  unfoldable pub identify_scheme : Text → Result Error (Option Text)
  identify_scheme [] = ok (some [])
  identify_scheme (c ∷ path) = location_scheme P (c ∷ path)

  is_strict : Option SchemeSpec → Bool
  is_strict none = true
  is_strict (some s) = s.strict

  -- `_check_strict_casing`
  unfoldable pub check_strict_casing : Text → Text → Result Error (Unit {0})
  unfolding is_strict
  check_strict_casing text canonical_scheme =
      let raw_prefix = (split_first b':' text).0 in
      if not (is_strict (Dict.lookup canonical_scheme schemes)) || (raw_prefix is canonical_scheme)
      then ok tt
      else elim (Dict.lookup raw_prefix alias_to_canonical) [
        | none ↦ err value_error
        | some name ↦ if raw_prefix is lower raw_prefix then ok tt else err value_error
      ]

  url_form : Option Text → Result Error (Unit {0})
  url_form none = ok tt
  url_form (some after) = if take 2 after is codes "//" then ok tt else err value_error

  -- `_check_url_form`
  unfoldable pub check_url_form : Text → Result Error (Unit {0})
  unfolding url_form
  check_url_form text = url_form (split_first b':' text).1

  rebuild : Text → Option ParseResult → Result Error Text
  rebuild scheme none = err value_error
  rebuild scheme (some parsed) =
      let path = if ltb 1 (length parsed.path) then rstrip_slash parsed.path else parsed.path in
      let rebuilt = P.urlunparse (record parsed { scheme = scheme; path = path }) in
      ok (elim (P.upath rebuilt) [ none ↦ rebuilt | some path' ↦ path' ])

  -- `_normalize_schemed`
  unfoldable pub normalize_schemed : Text → Text → Result Error Text
  unfolding rebuild
  normalize_schemed text scheme = rebuild scheme (P.urlparse text)

  -- `_normalize_bare`
  unfoldable pub normalize_bare : Text → Text
  unfolding strip_slashes
  normalize_bare text =
      P.expanded (if ltb 1 (length text) then reverse (strip_slashes (reverse text)) else text)

  normalized : Text → Option Text → Result Error Text
  unfolding check_strict_casing check_url_form normalize_schemed normalize_bare
  normalized text none = err value_error
  normalized text (some scheme) =
      if scheme is []
      then ok (normalize_bare text)
      else check_strict_casing text scheme >>= λ _.
          check_url_form text >>= λ _. normalize_schemed text scheme

  -- `StoragePath.normalize`, as text; `none` for an empty path.
  unfoldable pub normalize : Text → Result Error (Option Text)
  unfolding normalized identify_scheme
  normalize [] = ok none
  normalize (c ∷ text) = identify_scheme (c ∷ text) >>= λ scheme.
      normalized (c ∷ text) scheme >>= λ path. ok (some path)

  bucket_key : Option ParseResult → Result Error (Option (Text × Text))
  bucket_key none = err value_error
  bucket_key (some parsed) =
      if (parsed.netloc is []) || contains parsed.netloc b':'
      then ok none
      else ok (some (parsed.netloc, strip_left b'/' parsed.path))

  parsed_of : Option Text → Result Error (Option (Text × Text))
  unfolding bucket_key
  parsed_of none = err value_error
  parsed_of (some text) = bucket_key (P.urlparse text)

  -- `_family_bucket_key`
  unfoldable pub family_bucket_key : Text → Result Error (Option (Text × Text))
  unfolding normalize identify_scheme is_s3_scheme parsed_of
  family_bucket_key path = identify_scheme path >>= λ scheme.
      if is_s3_scheme scheme then normalize path >>= parsed_of else ok none

  bare_bucket : Text → Option Text → Option Text
  bare_bucket path scheme =
      let bucket = (split_first b'/' path).0 in
      elim scheme [
        | none ↦ none
        | some s ↦ if (s is []) && not (bucket is []) then some bucket else none
      ]

  bare_key : Text → Option Text → Option Text
  bare_key path scheme = elim scheme [
    | none ↦ none
    | some s ↦
        if s is []
        then some (elim (split_first b'/' path).1 [ none ↦ [] | some key ↦ key ])
        else none
  ]

  -- `s3_bucket(path, assume_s3=True)`
  unfoldable pub s3_bucket : Text → Result Error (Option Text)
  unfolding bare_bucket family_bucket_key
  s3_bucket path = family_bucket_key path >>= λ found. elim found [
    | some pair ↦ ok (some pair.0)
    | none ↦ identify_scheme path >>= λ scheme. ok (bare_bucket path scheme)
  ]

  -- `s3_key(path, assume_s3=True)`
  unfoldable pub s3_key : Text → Result Error (Option Text)
  unfolding bare_key family_bucket_key
  s3_key path = family_bucket_key path >>= λ found. elim found [
    | some pair ↦ ok (some pair.1)
    | none ↦ identify_scheme path >>= λ scheme. ok (bare_key path scheme)
  ]

  both : Option Text → Option Text → Result Error (Text × Text)
  both (some bucket) (some key) = ok (bucket, key)
  both _ _ = err value_error

  -- `parse_s3_path`
  unfoldable pub parse_s3_path : Text → Result Error (Text × Text)
  unfolding s3_bucket s3_key both
  parse_s3_path path = s3_bucket path >>= λ bucket. s3_key path >>= λ key. both bucket key
