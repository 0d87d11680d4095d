-- ===== src/Location/Policy.antt =====
-- location.py: what a policy lets through. The messages of `LocationNotAllowed` are not modelled.
pub mod Remote
pub mod Confined
use mountainash_transport.Prelude.{
  ℕ, zero, suc, ◌+◌, ◌-◌, Bool, true, false, not, ◌&&◌, ◌||◌, Option, none, some, List, [], ◌∷◌,
  Text, codes, text_eq, if◌then◌else◌, ◌is◌, Result, ok, err, ◌>>=◌, contains, map,
}
use mountainash_transport.Prelude.Dict
use mountainash_transport.Prelude.Dict.{Dict}
use mountainash_transport.Errors.{Error, value_error, location_not_allowed}
use mountainash_transport.Location.Schemes.{Platform, SplitResult, identify_scheme}

pub record LocationPolicy : Type 0 where
  pub root : Option Text
  pub allowed_remote : Dict Text (List Text)
  pub allow_unconfined : Bool

-- `LocationPolicy.active`
abbrev pub active : LocationPolicy → Bool
active policy = not policy.allow_unconfined

-- `with_declared_root`: the policy's own root goes before the declared one.
unfoldable pub with_declared_root : LocationPolicy → Option Text → LocationPolicy
with_declared_root policy none = policy
with_declared_root policy (some declared) = elim policy.root [
  | some root ↦ policy
  | none ↦ record policy { root = some declared }
]

-- policy is not None and policy.active
abbrev pub is_active : Option LocationPolicy → Bool
is_active none = false
is_active (some policy) = active policy

-- `_sanitized`: a `ValueError` becomes `LocationNotAllowed`.
abbrev pub sanitized {ℓ} : {A : Type ℓ} → Result Error A → Result Error A
sanitized (err value_error) = err location_not_allowed
sanitized r = r

all_known : List (Option Text) → Bool
all_known [] = true
all_known (none ∷ entries) = false
all_known (some host ∷ entries) = all_known entries

has_host : Text → List (Option Text) → Bool
has_host want [] = false
has_host want (none ∷ entries) = has_host want entries
has_host want (some host ∷ entries) = (want is host) || has_host want entries

module _ (P : Platform) where
  file_path : SplitResult → Result Error Text
  file_path parts =
      let path = P.unquote parts.path in
      if not ((parts.netloc is codes "") || (parts.netloc is codes "localhost"))
        || (not (parts.query is codes "") || not (parts.fragment is codes ""))
      then err location_not_allowed
      else if not (P.isabs path)
      then err location_not_allowed
      else ok path

  split_of : Option SplitResult → Result Error SplitResult
  split_of none = err value_error
  split_of (some parts) = ok parts

  path_of : Text → Option Text → Result Error Text
  unfolding split_of file_path
  path_of location none = ok location
  path_of location (some scheme) =
      if scheme is codes "file" then split_of (P.urlsplit location) >>= file_path else ok location

  -- `local_path`: the path of a `file:` URI, and any other location as it is.
  unfoldable pub local_path : Text → Result Error Text
  unfolding path_of
  local_path location = identify_scheme P location >>= path_of location

  host_of : Option SplitResult → Result Error Text
  host_of none = err location_not_allowed
  host_of (some parts) =
      if parts.hostname is codes ""
      then ok []
      else elim (P.idna parts.hostname) [ none ↦ err location_not_allowed | some host ↦ ok host ]

  -- `url_host`
  unfoldable pub url_host : Text → Result Error Text
  unfolding host_of
  url_host location = host_of (P.urlsplit location)

  known : Bool → Option Text → Result Error (Option Text)
  known true none = err location_not_allowed
  known _ scheme = ok scheme

  -- `require_known_scheme`
  unfoldable pub require_known_scheme : Text → Option LocationPolicy → Result Error (Option Text)
  unfolding known
  require_known_scheme location policy =
      (if is_active policy
        then sanitized (identify_scheme P location)
        else identify_scheme P location)
      >>= known (is_active policy)

  -- `_resolve`: links are followed in the part that exists, and the rest may not go up. `none` is
  -- fuel run out.
  unfoldable pub resolve : ℕ → Text → Option (Result Error Text)
  resolve zero path = none
  resolve (suc fuel) path =
      let (head, tail) = P.split path in
      let above = resolve fuel head in
      if P.lexists path
      then some (ok (P.realpath path))
      else if head is path
      then some (ok path)
      else if tail is codes "."
      then above
      else if tail is codes ".."
      then some (err location_not_allowed)
      else elim above [ none ↦ none | some r ↦ some (r >>= λ parent. ok (P.join parent tail)) ]

  inside : Text → Text → Result Error Text
  inside root effective =
      if P.is_relative_to effective root then ok effective else err location_not_allowed

  confined : ℕ → Text → Result Error Text → Option (Result Error Text)
  unfolding resolve inside
  confined fuel root (err x) = some (err x)
  confined fuel root (ok path) = elim (resolve fuel (P.join root path)) [
    | none ↦ none
    | some r ↦ some (r >>= inside root)
  ]

  -- `confine_local` of one file: the path to use, within the policy's root.
  unfoldable pub confine_local : ℕ → Text → Option LocationPolicy → Option (Result Error Text)
  unfolding confined local_path
  confine_local fuel location none = some (local_path location)
  confine_local fuel location (some policy) =
      if active policy
      then elim policy.root [
        | none ↦ some (local_path location)
        | some root ↦ confined fuel (P.realpath root) (sanitized (local_path location))
      ]
      else some (local_path location)

  abbrev pub norm_host : Text → Option Text
  norm_host = P.idna

  entries_of : Option (List Text) → Option (List (Option Text))
  entries_of none = none
  entries_of (some allowed) = some (map P.idna allowed)

  none_unknown : Option (List (Option Text)) → Bool
  unfolding all_known
  none_unknown none = true
  none_unknown (some entries) = all_known entries

  listed : Text → Option (List (Option Text)) → Bool
  unfolding has_host
  listed want none = false
  listed want (some []) = true
  listed want (some (e ∷ entries)) = has_host want (e ∷ entries)

  -- `allow_remote`: does the policy let this host be reached under this scheme?
  unfoldable pub allow_remote :
      Text → Text → Option LocationPolicy → Option Text → Result Error (Unit {0})
  unfolding entries_of none_unknown listed
  allow_remote scheme host none profile_host = ok tt
  allow_remote scheme host (some policy) profile_host =
      let entries = entries_of (Dict.lookup scheme policy.allowed_remote) in
      if active policy
      then elim (P.idna host) [
        | none ↦ err location_not_allowed
        | some want ↦
            if not (none_unknown entries) then err location_not_allowed else elim profile_host [
              | none ↦ if listed want entries then ok tt else err location_not_allowed
              | some profile ↦ elim (P.idna profile) [
                | none ↦ err location_not_allowed
                | some prof ↦
                    if (want is prof) || listed want entries
                    then ok tt
                    else err location_not_allowed
              ]
            ]
      ]
      else ok tt
