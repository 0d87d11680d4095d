-- ===== src/Connection/Factory.antt =====
-- connections/__init__.py: which connection a profile gets, and with which kwargs; and the patched
-- profile of connections/tunnel.py. Profiles and auth profiles are what they answer.
mod Profiles
pub use Profiles.{
  Value, text, number, http_url, other, Kwargs, Family, http_family, boto, paramiko, ProviderType,
  member, named, Profile, AuthProfile, ConnectionClass, http_class, null_class, s3_class, ssh_class,
}
unfoldable pub use Profiles.{
  value, first_member, find_member, auth_kind, provider_type_from_profile, provider_connection_map,
  connection_for_provider, provider_family_map, family_for_provider,
}
pub mod Patched
pub mod Roles
use mountainash_transport.Prelude.{
  ℕ, ◌≡◌, refl, ◌⊎◌, inl, inr, String, Bool, true, false, not, ◌&&◌, ◌||◌, Option, none, some, List,
  [], ◌∷◌, ◌++◌, map, Result, ok, err, ◌>>=◌, ◌>>◌, if◌then◌else◌, ◌is◌, string_eq, Eq, contains,
  Text, codes, lower, text_eq,
}
use mountainash_transport.Prelude.Dict.{Dict, lookup, insert}
use mountainash_transport.Connection.Failures.{
  Failure, unsupported_auth_profile, value_error, other_exception,
}
use mountainash_transport.Location.Schemes.{
  Provider, local, s3, s3express, azure_blob, azure_files, gcs, sftp, ftp, smb, nfs, minio, ssh, b2,
  github, r2, http,
}

-- `_NON_STS_FLAVORS`
abbrev pub non_sts_flavors : List String
non_sts_flavors = "r2" ∷ "minio" ∷ "b2" ∷ []

-- What a connection is made with: kwargs, or the Session-instruction envelope.
pub data Emitted : Type 0 where
  flat : Kwargs → Emitted
  envelope :
      (client_config session : Kwargs) (role_arn : Option String) (session_name : String) → Emitted

abbrev pub is_set : Option String → Bool
is_set none = false
is_set (some s) = not (s is "")

abbrev pub has : String → Kwargs → Bool
has key kwargs = elim (lookup key kwargs) [ none ↦ false | some v ↦ true ]

-- `session["profile_name"]` and `session["region_name"]`, where there is one
unfoldable pub session : AuthProfile → Kwargs → Kwargs
session auth base =
    let creds = auth.emit boto in
    let named : Kwargs = elim auth.profile_name [
      | none ↦ creds
      | some name ↦ if is_set (some name) then insert "profile_name" (text name) creds else creds
    ] in
    elim (lookup "region_name" base) [
      | none ↦ named
      | some region ↦ insert "region_name" region named
    ]

abbrev pub flavor_of : Profile → String
flavor_of profile = elim profile.flavor [ none ↦ "aws" | some flavor ↦ flavor ]

abbrev pub is_boto : Family → Bool
is_boto boto = true
is_boto _ = false

-- The kwargs of a family for a given base, with an auth profile.
unfoldable pub layer : Profile → AuthProfile → Family → Kwargs → Result Failure Emitted
layer profile auth family base =
    if is_boto family && (is_set auth.role_arn || is_set auth.profile_name)
    then if is_set auth.role_arn && contains non_sts_flavors (flavor_of profile)
      then err value_error
      else ok (envelope base (session auth base) auth.role_arn "mountainash-transport")
    else ok (flat (auth.emit_on family base))

-- `_emit_kwargs`
unfoldable pub emit_kwargs : Profile → Option AuthProfile → Option Family → Result Failure Emitted
emit_kwargs profile auth none = ok (flat profile.to_handler_kwargs)
emit_kwargs profile auth (some family) =
    (elim profile.emit [ none ↦ ok profile.to_handler_kwargs | some emit ↦ emit family ])
    >>= λ base. elim auth [
      | none ↦ ok (flat base)
      | some a ↦ if a.is_no_auth then ok (flat base) else layer profile a family base
    ]

-- What `create_connection` makes.
pub data Made : Type 0 where
  null_connection : Made
  sftp_over_ssh : Emitted → Made
  leaf_of : ConnectionClass → Emitted → Made

-- The check of `supported_auth`.
unfoldable pub check_auth :
    (String → Bool) → Profile → Option AuthProfile → Result Failure (Unit {0})
check_auth is_mode profile auth = elim profile.supported_auth [
  | none ↦ ok tt
  | some supported ↦ auth_kind is_mode auth >>= λ mode.
      if contains supported mode then ok tt else err unsupported_auth_profile
]

abbrev pub is_sftp : Option Provider → Bool
is_sftp (some sftp) = true
is_sftp _ = false

-- The connection for a provider, of kwargs that are only asked for where they are used.
unfoldable pub make : Option Provider → Result Failure Emitted → Result Failure Made
make provider emitted =
    if is_sftp provider
    then (emitted >>= λ kwargs. ok (sftp_over_ssh kwargs))
    else elim (connection_for_provider provider) [
      | null_class ↦ ok null_connection
      | c ↦ emitted >>= λ kwargs. ok (leaf_of c kwargs)
    ]

-- `create_connection`
unfoldable pub create_connection :
    (String → Bool) → Profile → Option AuthProfile → Result Failure Made
create_connection is_mode profile auth =
    let provider = provider_type_from_profile profile in
    check_auth is_mode profile auth
    >> make provider (emit_kwargs profile auth (family_for_provider provider))

-- `if key in kwargs: kwargs[key] = v`
unfoldable pub replace_value : String → Value → Kwargs → Kwargs
replace_value key v kwargs = if has key kwargs then insert key v kwargs else kwargs

-- `_PatchedEndpointProfile._patch_endpoint`
unfoldable pub patch_endpoint : String → ℕ → Kwargs → Kwargs
patch_endpoint host port kwargs = replace_value "endpoint_url" (http_url host port) (
    replace_value "base_url" (http_url host port) (
      if has "hostname" kwargs
      then insert "port" (number port) (insert "hostname" (text host) kwargs)
      else kwargs))

-- `_PatchedEndpointProfile`, whose `emit` there always is; without one of the inner profile it
-- raises.
unfoldable pub patched : String → ℕ → Profile → Profile
patched host port inner = record inner {
  emit = some (λ family. elim inner.emit [
    | none ↦ err other_exception
    | some emit ↦ emit family >>= λ kwargs. ok (patch_endpoint host port kwargs)
  ]);
  to_handler_kwargs = patch_endpoint host port inner.to_handler_kwargs;
}

-- `create_tunnelled_connection`: the SSH connection, and the factory of the inner one.
unfoldable pub inner_factory :
    (String → Bool) → Profile → Option AuthProfile → ℕ → Result Failure Made
inner_factory is_mode target auth local_port =
    create_connection is_mode (patched "127.0.0.1" local_port target) auth

unfoldable pub bastion_kwargs : Profile → Option AuthProfile → Result Failure Emitted
bastion_kwargs profile auth = emit_kwargs profile auth (family_for_provider (some ssh))
