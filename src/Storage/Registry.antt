-- ===== src/Storage/Registry.antt =====
-- storage/registry: which backend serves a provider, and which provider a path names.
pub mod Latest
use mountainash_transport.Prelude.{
  ℕ, Bool, true, false, not, ◌&&◌, Option, none, some, List, [], ◌∷◌, get_or, Text, text_eq, codes,
  ◌==◌, ==_iff, ◌≡◌, ◌↔◌, refl, ◌∙◌, sym, ap, Eq, Result, ok, err, ◌>>=◌, if◌then◌else◌, arith,
}
use mountainash_transport.Prelude.Dict
use mountainash_transport.Prelude.Dict.{Dict}
use mountainash_transport.Errors.{Error, value_error, backend_not_implemented, other_error}
use mountainash_transport.Location.Schemes.{
  Platform, SchemeSpec, schemes, identify_scheme, Provider, local, s3, s3express, azure_blob,
  azure_files, gcs, sftp, ftp, smb, nfs, minio, ssh, b2, github, r2, http,
}

unfoldable pub rank : Provider → ℕ
rank local = 0
rank s3 = 1
rank s3express = 2
rank azure_blob = 3
rank azure_files = 4
rank gcs = 5
rank sftp = 6
rank ftp = 7
rank smb = 8
rank nfs = 9
rank minio = 10
rank ssh = 11
rank b2 = 12
rank github = 13
rank r2 = 14
rank http = 15

abbrev providers : List Provider
providers =
    local ∷ s3 ∷ s3express ∷ azure_blob ∷ azure_files ∷ gcs ∷ sftp ∷ ftp ∷ smb ∷ nfs ∷ minio ∷ ssh
    ∷ b2 ∷ github ∷ r2 ∷ http ∷ []

abbrev unrank : ℕ → Provider
unrank n = get_or providers n http

unrank-rank : (p : Provider) → unrank (rank p) ≡ p
unfolding rank
unrank-rank local = refl
unrank-rank s3 = refl
unrank-rank s3express = refl
unrank-rank azure_blob = refl
unrank-rank azure_files = refl
unrank-rank gcs = refl
unrank-rank sftp = refl
unrank-rank ftp = refl
unrank-rank smb = refl
unrank-rank nfs = refl
unrank-rank minio = refl
unrank-rank ssh = refl
unrank-rank b2 = refl
unrank-rank github = refl
unrank-rank r2 = refl
unrank-rank http = refl

unfoldable pub same : Provider → Provider → Bool
same p q = rank p == rank q

pub same_iff : (p q : Provider) → (same p q ≡ true) ↔ (p ≡ q)
unfolding same
same_iff p q = (
  λ h. sym (unrank-rank p) ∙ ap unrank ((==_iff (rank p) (rank q)).0 h) ∙ unrank-rank q,
  λ e. (==_iff (rank p) (rank q)).1 (ap rank e),
)

instance abbrev pub provider_eq : Eq Provider
provider_eq = record { beq = same; beq_iff = same_iff }

-- A backend class: does its constructor take an `auth_strategy`?
pub record BackendClass : Type 0 where
  pub name : Text
  pub accepts_auth_strategy : Bool

-- `_backend_registry`, and whether the built-in backends have been imported.
pub record Registry : Type 0 where
  pub backends : Dict Provider BackendClass
  pub loaded : Bool

module _ (built_in : Dict Provider BackendClass) where
  -- `ensure_backends_loaded`: the first import registers the built-in backends.
  unfoldable pub ensure_backends_loaded : Registry → Registry
  ensure_backends_loaded r =
      if r.loaded then r else record { backends = Dict.update r.backends built_in; loaded = true }

  -- `register_storage_backend(provider)(cls)`
  unfoldable pub register_storage_backend : Provider → BackendClass → Registry → Registry
  unfolding ensure_backends_loaded
  register_storage_backend provider cls r =
      let r' = ensure_backends_loaded r in
      record r' { backends = Dict.insert provider cls r'.backends }

  -- A constructor call: the class, and whether it is given an auth strategy and a location check.
  pub record Construction : Type 0 where
    pub cls : BackendClass
    pub auth_strategy : Bool
    pub location_check : Bool

  unfoldable pub construct : Option BackendClass → Bool → Bool → Result Error Construction
  construct none auth_strategy location_check = err backend_not_implemented
  construct (some cls) auth_strategy location_check =
      if auth_strategy && not cls.accepts_auth_strategy
      then err backend_not_implemented
      else ok (record { cls = cls; auth_strategy = auth_strategy; location_check = location_check })

  -- `get_storage_backend` for a member of the enumeration, up to the constructor call, with whether
  -- an auth strategy and a location check are given.
  unfoldable pub get_storage_backend :
      Provider → Bool → Bool → Registry → Result Error Construction × Registry
  unfolding construct ensure_backends_loaded
  get_storage_backend provider auth_strategy location_check r =
      let r' = ensure_backends_loaded r in
      (construct (Dict.lookup provider r'.backends) auth_strategy location_check, r')

-- `get_registered_backends`: a copy of the dict.
unfoldable pub get_registered_backends :
    Dict Provider BackendClass → Registry → Dict Provider BackendClass × Registry
get_registered_backends built_in r = let r' = ensure_backends_loaded built_in r in (r'.backends, r')

-- `clear_registry`: the built-in backends are not imported again after it.
unfoldable pub clear_registry : Registry → Registry
clear_registry r = record r { backends = [] }

provider_of : Option SchemeSpec → Result Error Provider
provider_of none = err other_error
provider_of (some s) = elim s.provider [ none ↦ err value_error | some p ↦ ok p ]

provider_for : Option Text → Result Error Provider
unfolding provider_of
provider_for none = err value_error
provider_for (some scheme) = provider_of (Dict.lookup scheme schemes)

-- `detect_provider_from_path`
unfoldable pub detect_provider_from_path : Platform → Text → Result Error Provider
unfolding provider_for
detect_provider_from_path P [] = provider_for (some [])
detect_provider_from_path P (c ∷ path) = identify_scheme P (c ∷ path) >>= provider_for
