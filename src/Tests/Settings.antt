-- ===== src/Tests/Settings.antt =====
-- settings/: runs of `resolve_storage`.
use mathlib.Core.List.Memᴰ.{head}
use mountainash_transport.Prelude.{
  ◌≡◌, refl, true, false, List, [], ◌∷◌, ◌++◌, String, Option, none, some, Result, ok, err, ◌is◌,
  string_eq, codes, if◌then◌else◌,
}
use mountainash_transport.Prelude.Dict.{lookup}
use mountainash_transport.Settings.References.{
  key, Value, Fields, reference_shape, shape_fields, has_reference, get, implicated,
  sensitive_entry, sensitive_validation, Entry,
}
use mountainash_transport.Settings.References.Covering.{refers}
use mountainash_transport.Settings.Loader.{
  StorageProfileSpec, StorageProfilesSettings, LoaderParameters, LoadError, of_storage, of_auth,
  profile_resolution, invalid, hidden, attribute_error, build_params, resolve_storage,
  resolve_block, find_provider, validated, parameters_of, dict_get, resolve_auth, effective_mode,
  supported,
}
use mountainash_transport.Settings.Loader.Hiding.{resolve_storage-Hides, parameters_at}

abbrev spec : StorageProfileSpec
spec = record { default_auth = "password"; supported_auth = "password" ∷ [] }

abbrev entry_of : String → Entry
entry_of k = record { location = key k ∷ []; missing = false }

-- A class that finds fault with one key, and an auth class that wants a user.
abbrev classes : String → Option String
classes provider =
    if provider is "s3" then some "REGION" else if provider is "sftp" then some "" else none

abbrev validate : String → Fields → Result (List Entry) String
validate field fields = if field is "" then ok "profile" else err (entry_of field ∷ [])

abbrev auth_validate : String → Fields → Result (List Entry) String
auth_validate cls fields = err (record { location = key "USER" ∷ []; missing = true } ∷ [])

abbrev parameters : Fields
parameters =
    Fields.field (key "REGION") Value.other
      (Fields.field (key "TOKEN") (Value.text (codes "secret:t")) Fields.end)

abbrev raw : Fields
raw =
    Fields.field (key "lake")
      (Value.dict (Fields.field (key "parameters") (Value.dict parameters) Fields.end)) Fields.end

abbrev loaded : StorageProfilesSettings
loaded = record {
  storage_profiles =
      ("lake", record { provider = "s3"; parameters = parameters; auth = none }) ∷ [];
  reference_inputs = shape_fields raw;
}

abbrev ambient : LoaderParameters
ambient = record { config_files = none; kwargs = []; reference_inputs = none }

lake_is_invalid :
    resolve_storage classes
      (λ provider. some spec)
      validate
      (λ mode. true)
      some
      auth_validate
      (λ p. ok loaded)
      none
      "lake"
      none
    ≡ err (profile_resolution (invalid of_storage (entry_of "REGION" ∷ [])))
unfolding resolve_storage build_params resolve_block find_provider validated parameters_of dict_get
    get shape_fields sensitive_validation sensitive_entry implicated has_reference lookup
lake_is_invalid = refl

-- The region of the lake may be shown, beside its secret token.
resolve_storage-Hides_example :
    refers (Value.dict raw) (key "lake" ∷ parameters_at of_storage ++ key "REGION" ∷ []) ≡ false
resolve_storage-Hides_example =
    resolve_storage-Hides classes (λ provider. some spec) validate (λ mode. true) some auth_validate
      (λ p. ok loaded) none "lake" none ambient loaded raw
      (profile_resolution (invalid of_storage (entry_of "REGION" ∷ []))) of_storage
      (entry_of "REGION" ∷ []) (entry_of "REGION") (key "REGION" ∷ []) (unfold build_params in refl)
      refl refl lake_is_invalid refl (head refl) refl

-- An error about the token is hidden.
token_is_hidden :
    ◌≡◌ {A = Result LoadError String}
      (validated of_storage
        (reference_shape
          (Value.dict (Fields.field (key "parameters") (Value.dict parameters) Fields.end)))
        (err (entry_of "TOKEN" ∷ [])))
      (err (profile_resolution (hidden of_storage)))
unfolding validated parameters_of dict_get get reference_shape sensitive_validation sensitive_entry
    implicated has_reference
token_is_hidden = refl

-- A block whose `auth` is None, and whose default mode has a required field: an `AttributeError`.
none_has_no_get :
    resolve_auth classes
      (λ provider. some spec)
      validate
      (λ mode. true)
      some
      auth_validate
      spec
      (reference_shape (Value.dict (Fields.field (key "auth") Value.other Fields.end)))
      none
    ≡ err (attribute_error of_auth (record { location = key "USER" ∷ []; missing = true } ∷ []))
unfolding resolve_auth effective_mode supported validated parameters_of dict_get get reference_shape
none_has_no_get = refl
