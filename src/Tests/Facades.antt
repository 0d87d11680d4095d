-- ===== src/Tests/Facades.antt =====
-- Examples of storage/facade/facade.py.
use mountainash_transport.Prelude.{
  ℕ, ◌≡◌, refl, inr, Bool, true, false, none, some, [], Text, codes, text_eq, ok, err, All, take,
  ◌is◌, if◌then◌else◌, ◌∷◌,
}
use mountainash_transport.Prelude.Dict.{Dict}
use mountainash_transport.Errors.{os_error, storage_connection, unsupported_operation}
use mountainash_transport.Location.Schemes.{local, http, Provider}
use mountainash_transport.Location.Schemes as Schemes
use mountainash_transport.Location.Policy.{require_known_scheme, confine_local}
use mountainash_transport.Transform.Pipeline.{StreamTransform}
use mountainash_transport.Storage.Facade.{
  Protocol, writes, Facade, BackendCall, Operation, dispatch, check, require,
}
use mountainash_transport.Storage.Facade.Close.{
  Lifecycle, close, close_again, ensure_open, ensure_open-close,
}
use mountainash_transport.Storage.Facade.Dispatch.{Safe, dispatch-Safe, dispatch-refused, paths_of}
use mountainash_transport.Storage.Facade.Paths.{dispatch-Rooted}
use mountainash_transport.Storage.Transfer.{World, copy_between}
use mountainash_transport.Storage.Transfer.Closed.{Ends, copy_between-Ends}
use mountainash_transport.Storage.Registry.{BackendClass, Registry, provider_eq}
use mountainash_transport.Tests.Locations.{platform, policy}

abbrev is_writes : Protocol → Bool
is_writes writes = true
is_writes _ = false

-- A facade of local files under the root "r" whose backend has all protocols but the one for writes.
abbrev read_only : Facade
read_only = record {
  provider_type = local;
  policy = some policy;
  profile_host = none;
  profile_any = false;
  closed = false;
  supports = λ p. if is_writes p then false else true;
}

abbrev no_transform : StreamTransform ℕ
no_transform = record { wrap = λ call s. ok s; unwrap = λ call s. ok s }

abbrev no_suffix : Text → Text
no_suffix path = []

abbrev copying : Operation platform 9 ℕ
copying = Operation.copy (codes "ab") (codes "")

dispatch-Rooted_example :
    All
      (λ path. (take 1 path is codes "r") ≡ true)
      (paths_of (BackendCall.copy (codes "rab") (codes "rc")))
unfolding require require_known_scheme confine_local
dispatch-Rooted_example =
    dispatch-Rooted platform 9 ℕ no_suffix no_transform read_only
      (Operation.copy (codes "ab") (codes "c")) (codes "r") policy
      (BackendCall.copy (codes "rab") (codes "rc")) refl refl refl refl
      (unfold dispatch check Schemes.identify_scheme in refl)

dispatch-Safe_example :
    Safe platform 9 ℕ no_suffix no_transform read_only
      (dispatch platform 9 ℕ no_suffix no_transform read_only copying)
dispatch-Safe_example = dispatch-Safe platform 9 ℕ no_suffix no_transform read_only copying

dispatch-refused_example :
    dispatch platform 9 ℕ no_suffix no_transform read_only (Operation.write (codes "ab") none true)
    ≡ some (err unsupported_operation)
dispatch-refused_example =
    dispatch-refused platform 9 ℕ no_suffix no_transform read_only
      (Operation.write (codes "ab") none true) (inr refl)

-- A connection whose `disconnect` raises.
abbrev connected : Lifecycle
connected = record { closed = false; connection = some (some os_error); disconnects = 0 }

ensure_open-close_example :
    (close (close_again 2 (close connected).1) ≡ (ok tt, (close connected).1))
    × (ensure_open (close_again 2 (close connected).1) ≡ err storage_connection)
    × ((close connected).1.disconnects ≡ 1)
ensure_open-close_example = ensure_open-close 2 connected refl

-- Two backends of different classes; the write fails, and so does the close.
abbrev apart : World
apart = record {
  same_backend = false;
  same_policy = true;
  same_profile = false;
  perform = λ call. err os_error;
  open_source = λ call. ok tt;
  close = err os_error;
}

copy_between-Ends_example : Ends platform 9 ℕ no_suffix no_transform read_only read_only (
    copy_between platform 9 ℕ no_suffix no_transform apart read_only read_only
      (codes "ab")
      (codes "c")
      none
      none)
copy_between-Ends_example =
    copy_between-Ends platform 9 ℕ no_suffix no_transform apart read_only read_only (codes "ab")
      (codes "c") none none

abbrev plain_backend : BackendClass
plain_backend = record { name = codes "LocalBackend"; accepts_auth_strategy = false }

abbrev own_backend : BackendClass
own_backend = record { name = codes "OwnBackend"; accepts_auth_strategy = false }

abbrev built_in : Dict Provider BackendClass
built_in = (local, plain_backend) ∷ []

abbrev empty_registry : Registry
empty_registry = record { backends = []; loaded = false }
