-- ===== src/Storage/Facade.antt =====
-- storage/facade/facade.py: which call of the backend an operation makes, and on which path.
pub mod Close
pub mod Dispatch
pub mod Paths
use mountainash_transport.Prelude.{
  ℕ, zero, suc, ◌+◌, Bool, true, false, not, ◌&&◌, Option, none, some, List, [], ◌∷◌, Text, codes,
  text_eq, lower, if◌then◌else◌, ◌is◌, Result, ok, err,
}
use mountainash_transport.Errors.{
  Error, value_error, storage_connection, unsupported_operation, location_not_allowed,
}
use mountainash_transport.Location.Schemes.{
  Platform, Provider, local, sftp, http, s3, s3express, r2, minio, b2, identify_scheme,
}
use mountainash_transport.Location.Policy.{
  LocationPolicy, active, is_active, sanitized, require_known_scheme, confine_local, url_host,
  allow_remote,
}
use mountainash_transport.Storage.Helpers.{is_s3_provider, parse_s3_path}
use mountainash_transport.Storage.Suffixes.{infer_pipeline}
use mountainash_transport.Transform.Pipeline.{StreamTransform, Pipeline, is_empty}

-- The protocols of storage/protocols.
pub data Protocol : Type 0 where
  reads ranged_reads writes enumerates deletes metadata copies directories : Protocol

-- What the operations read of a facade. `supports` is `isinstance(self._backend, …)`.
pub record Facade : Type 0 where
  pub provider_type : Provider
  pub policy : Option LocationPolicy
  pub profile_host : Option Text
  pub profile_any : Bool
  pub closed : Bool
  pub supports : Protocol → Bool

-- The calls of backends.
pub data BackendCall : Type 0 where
  read_to_stream : Text → BackendCall
  open_ranged : Text → BackendCall
  write_from_bytes : Text → Bool → BackendCall
  write_from_stream : Text → Bool → BackendCall
  list_objects : Text → Option Text → Option ℕ → BackendCall
  delete_file : Text → BackendCall
  path_exists : Text → BackendCall
  get_metadata : Text → BackendCall
  get_size : Text → BackendCall
  copy : Text → Text → BackendCall
  list_dir : Text → BackendCall
  mkdir : Text → Bool → BackendCall
  rmdir : Text → BackendCall

-- A computation with fuel that may raise.
abbrev pub Run {ℓ} : Type ℓ → Type ℓ
Run A = Option (Result Error A)

infixl 5 ◌>>?◌
abbrev pub ◌>>?◌ {ℓ κ} : {A : Type ℓ} {B : Type κ} → Run A → (A → Run B) → Run B
none >>? f = none
some (err x) >>? f = some (err x)
some (ok a) >>? f = f a

-- `_PROVIDER_SCHEME`: the scheme of a provider of the S3 family.
unfoldable pub provider_scheme : Provider → Text
provider_scheme s3 = codes "s3"
provider_scheme s3express = codes "s3express"
provider_scheme r2 = codes "r2"
provider_scheme minio = codes "minio"
provider_scheme b2 = codes "b2"
provider_scheme _ = []

module _ (P : Platform) (fuel : ℕ) where
  abbrev passing : Text → Result Error (Unit {0}) → Run Text
  passing path (ok u) = some (ok path)
  passing path (err x) = some (err x)

  check_s3 : Facade → Text → Run Text
  check_s3 f path =
      if f.profile_any
      then some (ok path)
      else some (sanitized (parse_s3_path P path)) >>? λ parts.
          passing path (
            allow_remote P (provider_scheme f.provider_type) (lower parts.0) f.policy
              f.profile_host)

  check_sftp : Facade → Text → Option Text → Run Text
  check_sftp f path none = some (ok path)
  check_sftp f path (some scheme) =
      if scheme is codes "sftp"
      then (some (url_host P path) >>? λ host.
          passing path (allow_remote P (codes "sftp") host f.policy f.profile_host))
      else some (ok path)

  check_http : Facade → Text → Option Text → Run Text
  check_http f path none = some (ok path)
  check_http f path (some scheme) =
      some (url_host P path) >>? λ host. passing path (allow_remote P scheme host f.policy none)

  check_provider : Facade → Text → Option Text → Provider → Run Text
  unfolding check_s3 check_sftp check_http is_s3_provider
  check_provider f path scheme local = confine_local P fuel path f.policy
  check_provider f path scheme sftp =
      some (identify_scheme P path) >>? λ scheme'. check_sftp f path scheme'
  check_provider f path scheme http = check_http f path scheme
  check_provider f path scheme provider =
      if is_s3_provider provider then check_s3 f path else some (ok path)

  -- `_check`: the path that the backend must use.
  unfoldable pub check : Facade → Text → Run Text
  unfolding check_provider
  check f path =
      if is_active f.policy
      then (some (require_known_scheme P path f.policy) >>? λ scheme.
          check_provider f path scheme f.provider_type)
      else some (ok path)

  -- `_ensure_open` and `_require`
  unfoldable pub require : Facade → Protocol → Result Error (Unit {0})
  require f protocol =
      if f.closed
      then err storage_connection
      else if f.supports protocol
      then ok tt
      else err unsupported_operation

  -- The modes of `access`; `other` is any text that is none of them.
  pub data Access : Type 0 where
    sequential random buffered other : Access

  is_random : Access → Bool
  is_random random = true
  is_random _ = false

  is_access : Access → Bool
  is_access other = false
  is_access _ = true

  module _ (S : Type 0) where
    -- The arguments of `read` and `read_stream`; `range_policy` says whether one is given.
    pub record ReadArgs : Type 0 where
      pub path : Text
      pub pipeline : Option (Pipeline S)
      pub infer : Bool
      pub gpg : Option (StreamTransform S)
      pub gzip : Option (StreamTransform S)
      pub access : Access
      pub range_policy : Bool

    pub data Operation : Type 0 where
      read_stream : ReadArgs → Operation
      read : ReadArgs → Operation
      write : Text → Option (Pipeline S) → Bool → Operation
      write_stream : Text → Option (Pipeline S) → Bool → Operation
      list_objects : Text → Option Text → Option ℕ → Operation
      delete : Text → Operation
      exists : Text → Operation
      metadata : Text → Operation
      get_size : Text → Operation
      copy : Text → Text → Operation
      list_dir : Text → Operation
      mkdir : Text → Bool → Operation
      rmdir : Text → Operation

    -- `PurePosixPath(…).suffix` and `Gzip()`.
    module _ (suffix : Text → Text) (default_gzip : StreamTransform S) where
      coerce_pipeline : Option (Pipeline S) → Pipeline S
      coerce_pipeline none = record { outer_to_inner = [] }
      coerce_pipeline (some p) = p

      chosen : Option (List (StreamTransform S)) × Text → Option (Pipeline S) → Pipeline S
      unfolding coerce_pipeline
      chosen (some ts, stripped) pipeline = record { outer_to_inner = ts }
      chosen (none, stripped) pipeline = coerce_pipeline pipeline

      -- `_resolve_pipeline`
      unfoldable pub resolve_pipeline : ReadArgs → Run (Pipeline S)
      unfolding chosen coerce_pipeline
      resolve_pipeline a =
          if a.infer
          then elim a.pipeline [
            | some p ↦ some (err value_error)
            | none ↦ infer_pipeline suffix default_gzip a.gzip a.gpg a.path >>? λ found.
                some (ok (chosen found a.pipeline))
          ]
          else some (ok (coerce_pipeline a.pipeline))

      abbrev is_local : Provider → Bool
      is_local local = true
      is_local _ = false

      opening : Facade → Access → Text → Pipeline S → Run BackendCall
      opening f access path effective =
          if is_random access
          then if not (is_empty effective)
            then some (err value_error)
            else if is_local f.provider_type
            then some (ok (BackendCall.read_to_stream path))
            else elim (require f ranged_reads) [
              | err x ↦ some (err x)
              | ok u ↦ some (ok (BackendCall.open_ranged path))
            ]
          else some (ok (BackendCall.read_to_stream path))

      -- `read_stream`, up to the call that opens the source.
      unfoldable pub open_stream : Facade → ReadArgs → Run BackendCall
      unfolding is_random is_access opening
      open_stream f a = some (require f reads) >>? λ _.
          if not (is_access a.access)
          then some (err value_error)
          else if a.range_policy && not (is_random a.access)
          then some (err value_error)
          else check f a.path >>? λ path.
              resolve_pipeline a >>? λ effective. opening f a.access path effective

      abbrev calling : Facade → Protocol → Text → (Text → BackendCall) → Run BackendCall
      calling f protocol path call =
          some (require f protocol) >>? λ _. check f path >>? λ checked. some (ok (call checked))

      write_call : Option (Pipeline S) → Bool → Text → BackendCall
      write_call none create_parents path = BackendCall.write_from_bytes path create_parents
      write_call (some p) create_parents path = BackendCall.write_from_stream path create_parents

      copy_into : Facade → Text → Text → Run BackendCall
      copy_into f src dst =
          if is_active f.policy && (is_local f.provider_type && P.isdir dst)
          then (check f (P.join dst (P.basename src)) >>? λ final.
              if P.isdir final
              then some (err location_not_allowed)
              else some (ok (BackendCall.copy src final)))
          else some (ok (BackendCall.copy src dst))

      -- An operation, up to the call of the backend that it makes.
      unfoldable pub dispatch : Facade → Operation → Run BackendCall
      unfolding open_stream write_call copy_into
      dispatch f (read_stream a) = open_stream f a
      dispatch f (read a) = some (require f reads) >>? λ _.
          open_stream f (record a { access = sequential; range_policy = false })
      dispatch f (write path pipeline parents) = calling f writes path (write_call pipeline parents)
      dispatch f (write_stream path pipeline parents) =
          calling f writes path (λ p. BackendCall.write_from_stream p parents)
      dispatch f (list_objects prefix delimiter max_results) =
          calling f enumerates prefix (λ p. BackendCall.list_objects p delimiter max_results)
      dispatch f (delete path) = calling f deletes path BackendCall.delete_file
      dispatch f (exists path) = calling f Protocol.metadata path BackendCall.path_exists
      dispatch f (metadata path) = calling f Protocol.metadata path BackendCall.get_metadata
      dispatch f (get_size path) = calling f Protocol.metadata path BackendCall.get_size
      dispatch f (copy source destination) = some (require f copies) >>? λ _.
          check f source >>? λ src. check f destination >>? λ dst. copy_into f src dst
      dispatch f (list_dir path) = calling f directories path BackendCall.list_dir
      dispatch f (mkdir path parents) =
          calling f directories path (λ p. BackendCall.mkdir p parents)
      dispatch f (rmdir path) = calling f directories path BackendCall.rmdir
