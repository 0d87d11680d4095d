-- ===== src/Connection/Factory/Profiles.antt =====
-- connections/__init__.py: the profiles as the factory reads them, and the maps of providers.
use mountainash_transport.Prelude.{
  ℕ, String, Bool, Option, none, some, List, [], ◌∷◌, Result, ok, err, if◌then◌else◌, ◌is◌,
  string_eq, codes, lower, text_eq,
}
use mountainash_transport.Prelude.Dict.{Dict, lookup}
use mountainash_transport.Connection.Failures.{Failure, value_error}
use mountainash_transport.Location.Schemes.{
  Provider, local, s3, s3express, azure_blob, azure_files, gcs, sftp, ftp, smb, nfs, minio, ssh, b2,
  github, r2, http,
}

-- The kwargs, whose values are text, numbers, f"http://{host}:{port}", or anything else.
pub data Value : Type 0 where
  text : String → Value
  number : ℕ → Value
  http_url : String → ℕ → Value
  other : ℕ → Value

abbrev pub Kwargs : Type 0
Kwargs = Dict String Value

-- `TargetFamily`
pub data Family : Type 0 where
  http_family boto paramiko : Family

-- The `value` of a member.
unfoldable pub value : Provider → String
value local = "local"
value s3 = "s3"
value s3express = "s3express"
value azure_blob = "azure_blob"
value azure_files = "azure_files"
value gcs = "gcs"
value sftp = "sftp"
value ftp = "ftp"
value smb = "smb"
value nfs = "nfs"
value minio = "minio"
value ssh = "ssh"
value b2 = "b2"
value github = "github"
value r2 = "r2"
value http = "http"

abbrev members : List Provider
members =
    local ∷ s3 ∷ s3express ∷ azure_blob ∷ azure_files ∷ gcs ∷ sftp ∷ ftp ∷ smb ∷ nfs ∷ minio ∷ ssh
    ∷ b2 ∷ github ∷ r2 ∷ http ∷ []

unfoldable pub first_member : (Provider → Bool) → List Provider → Option Provider
first_member test [] = none
first_member test (m ∷ rest) =
    let later = first_member test rest in if test m then some m else later

-- `find_member`: the exact value, and else the value in lower case.
unfoldable pub find_member : String → Option Provider
find_member v = elim (first_member (λ m. value m is v) members) [
  | some m ↦ some m
  | none ↦ first_member (λ m. lower (codes (value m)) is lower (codes v)) members
]

-- The `provider_type` of a `__spec__`: a member, or what `str` gives of anything else.
pub data ProviderType : Type 0 where
  member : Provider → ProviderType
  named : String → ProviderType

-- A storage profile: `spec_provider` and `supported_auth` are none where its `__spec__` has none,
-- `emit` where it has no such method.
pub record Profile : Type 0 where
  pub spec_provider : Option ProviderType
  pub supported_auth : Option (List String)
  pub flavor : Option String
  pub emit : Option (Family → Result Failure Kwargs)
  pub to_handler_kwargs : Kwargs

-- An auth profile. `emit_on` is `emit(family, base=base)`.
pub record AuthProfile : Type 0 where
  pub is_no_auth : Bool
  pub spec_mode : Option String
  pub role_arn : Option String
  pub profile_name : Option String
  pub emit : Family → Kwargs
  pub emit_on : Family → Kwargs → Kwargs

-- `_auth_kind`, as the value of the member. What is no member raises, given by `is_mode`.
unfoldable pub auth_kind : (String → Bool) → Option AuthProfile → Result Failure String
auth_kind is_mode none = ok "none"
auth_kind is_mode (some auth) = elim auth.spec_mode [
  | none ↦ ok "none"
  | some mode ↦ if is_mode mode then ok mode else err value_error
]

-- `_provider_type_from_profile`
unfoldable pub provider_type_from_profile : Profile → Option Provider
provider_type_from_profile profile = elim profile.spec_provider [
  | none ↦ none
  | some (member m) ↦ some m
  | some (named n) ↦ find_member n
]

pub data ConnectionClass : Type 0 where
  http_class null_class s3_class ssh_class : ConnectionClass

-- `_PROVIDER_CONNECTION_MAP`
unfoldable pub provider_connection_map : Dict String ConnectionClass
provider_connection_map =
    ("http", http_class)
    ∷ ("local", null_class)
    ∷ ("s3", s3_class)
    ∷ ("s3express", s3_class)
    ∷ ("r2", s3_class)
    ∷ ("minio", s3_class)
    ∷ ("b2", s3_class)
    ∷ ("sftp", ssh_class)
    ∷ []

-- `_connection_for_provider`
unfoldable pub connection_for_provider : Option Provider → ConnectionClass
connection_for_provider none = http_class
connection_for_provider (some m) = elim (lookup (value m) provider_connection_map) [
  | none ↦ http_class
  | some c ↦ c
]

-- `_PROVIDER_FAMILY_MAP`
unfoldable pub provider_family_map : Dict String Family
provider_family_map =
    ("http", http_family)
    ∷ ("s3", boto)
    ∷ ("s3express", boto)
    ∷ ("r2", boto)
    ∷ ("minio", boto)
    ∷ ("b2", boto)
    ∷ ("sftp", paramiko)
    ∷ ("ssh", paramiko)
    ∷ []

-- `_family_for_provider`
unfoldable pub family_for_provider : Option Provider → Option Family
family_for_provider none = none
family_for_provider (some m) = lookup (value m) provider_family_map
