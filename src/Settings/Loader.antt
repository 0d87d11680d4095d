-- ===== src/Settings/Loader.antt =====
-- settings/storage/loader.py: `resolve_storage`, which makes the profiles of a named block of the
-- configuration.
pub mod Hiding
use mountainash_transport.Prelude.{
  Bool, true, false, List, [], ◌∷◌, String, string_eq, contains, ◌is◌, if◌then◌else◌, Option, none,
  some, Result, ok, err, ◌>>=◌, ◌>>◌,
}
use mountainash_transport.Prelude.Dict.{Dict, lookup, insert}
use mountainash_transport.Settings.References.{
  Value, Fields, Shape, ShapeFields, key, get, reference_shape, Entry, sensitive_validation,
}

pub record AuthBlock : Type 0 where
  pub mode : Option String
  pub parameters : Fields

pub record StorageProfileBlock : Type 0 where
  pub provider : String
  pub parameters : Fields
  pub auth : Option AuthBlock

-- `StorageProfilesSettings`
pub record StorageProfilesSettings : Type 0 where
  pub storage_profiles : Dict String StorageProfileBlock
  pub reference_inputs : ShapeFields

-- `SettingsParameters` of a caller: whether its `settings_class` is set, and what it passes on.
pub record SettingsParameters : Type 0 where
  pub has_settings_class : Bool
  pub config_files : Option (List String)
  pub kwargs : Option (Dict String Value)

-- Those of the loader, whose class is `StorageProfilesSettings`. The keyword `reference_inputs` has a
-- field of its own.
pub record LoaderParameters : Type 0 where
  pub config_files : Option (List String)
  pub kwargs : Dict String Value
  pub reference_inputs : Option Shape

-- The modes of authentication of a provider, by their values.
pub record StorageProfileSpec : Type 0 where
  pub default_auth : String
  pub supported_auth : List String

-- Whose parameters a validation error is about.
pub data Section : Type 0 where
  of_storage of_auth : Section

-- What a `ProfileResolutionError` says. An invalid one shows the entries of the validation error that
-- it has as its cause.
pub data Problem : Type 0 where
  caller_settings_class unknown_provider unknown_mode no_auth_class : Problem
  invalid : Section → List Entry → Problem
  hidden : Section → Problem

-- The exceptions of `resolve_storage`. An `AttributeError` is raised in the handler of a validation
-- error, which it has as its context.
pub data LoadError : Type 0 where
  profile_not_found settings_error value_error : LoadError
  unsupported_auth_profile : String → LoadError
  profile_resolution : Problem → LoadError
  attribute_error : Section → List Entry → LoadError

-- `_ReferenceLocationsSource.capture`, given the state.
unfoldable pub capture : Dict String Value → Result LoadError Shape
capture state = elim (lookup "reference_inputs" state) [
  | some v ↦ err value_error
  | none ↦ elim (lookup "storage_profiles" state) [
    | none ↦ ok (Shape.dict ShapeFields.end)
    | some v ↦ ok (reference_shape v)
  ]
]

-- `kwargs.pop(k, None)`
unfoldable pub pop : String → Dict String Value → Dict String Value
pop k [] = []
pop k ((j, v) ∷ d) = let rest = pop k d in if k is j then rest else (j, v) ∷ rest

abbrev keywords : Option (Dict String Value) → Dict String Value
keywords none = []
keywords (some d) = d

-- `_build_params`, given the environment variable.
unfoldable pub build_params :
    Option String → Option SettingsParameters → Result LoadError LoaderParameters
build_params config none = ok (record {
  config_files = elim config [ none ↦ none | some c ↦ if c is "" then none else some (c ∷ []) ];
  kwargs = [];
  reference_inputs = none;
})
build_params config (some p) =
    if p.has_settings_class
    then err (profile_resolution caller_settings_class)
    else let kwargs = pop "reference_inputs" (keywords p.kwargs) in
      ok (record {
        config_files = p.config_files;
        kwargs = kwargs;
        reference_inputs = elim (lookup "storage_profiles" kwargs) [
          | none ↦ none
          | some v ↦ some (reference_shape v)
        ];
      })

-- `reference_inputs.get(k, {})`, none where it has no `get`.
unfoldable pub dict_get : String → Shape → Option Shape
dict_get k (Shape.dict fs) = some (get (Shape.dict ShapeFields.end) (key k) fs)
dict_get k _ = none

-- The shape of the parameters, in that of the block.
unfoldable pub parameters_of : Section → Shape → Option Shape
parameters_of of_storage inputs = dict_get "parameters" inputs
parameters_of of_auth inputs = elim (dict_get "auth" inputs) [
  | none ↦ none
  | some auth ↦ dict_get "parameters" auth
]

-- What becomes of a validation: its handler tests whether the error may be shown.
unfoldable pub validated {ℓ} :
    {P : Type ℓ} → Section → Shape → Result (List Entry) P → Result LoadError P
validated section inputs (ok p) = ok p
validated section inputs (err es) = elim (parameters_of section inputs) [
  | none ↦ err (attribute_error section es)
  | some s ↦
      if sensitive_validation es s
      then err (profile_resolution (hidden section))
      else err (profile_resolution (invalid section es))
]

abbrev pub mode_of : Option AuthBlock → Option String
mode_of none = none
mode_of (some b) = b.mode

abbrev pub auth_parameters : Option AuthBlock → Fields
auth_parameters none = Fields.end
auth_parameters (some b) = b.parameters

-- The registries of the settings library and of the auth client, and the reading of the settings.
module _ {Class Profile AuthClass Auth : Type 0} (get_settings_class : String → Option Class)
    (get_spec : String → Option StorageProfileSpec)
    (model_validate : Class → Fields → Result (List Entry) Profile) (is_mode : String → Bool)
    (get_auth_class : String → Option AuthClass)
    (auth_validate : AuthClass → Fields → Result (List Entry) Auth) where
  unfoldable pub find_provider : String → Result LoadError (Class × StorageProfileSpec)
  find_provider provider = elim (get_settings_class provider) [
    | none ↦ err (profile_resolution unknown_provider)
    | some cls ↦ elim (get_spec provider) [
      | none ↦ err (profile_resolution unknown_provider)
      | some spec ↦ ok (cls, spec)
    ]
  ]

  unfoldable pub effective_mode : StorageProfileSpec → Option String → Result LoadError String
  effective_mode spec none = ok spec.default_auth
  effective_mode spec (some mode) =
      if is_mode mode then ok mode else err (profile_resolution unknown_mode)

  unfoldable pub supported : StorageProfileSpec → String → Result LoadError (Unit {0})
  supported spec mode =
      if contains spec.supported_auth mode then ok tt else err (unsupported_auth_profile mode)

  -- The auth profile, from the mode on.
  unfoldable pub resolve_auth :
      StorageProfileSpec → Shape → Option AuthBlock → Result LoadError Auth
  resolve_auth spec inputs block = effective_mode spec (mode_of block) >>= λ mode.
      supported spec mode >> elim (get_auth_class mode) [
        | none ↦ err (profile_resolution no_auth_class)
        | some cls ↦ validated of_auth inputs (auth_validate cls (auth_parameters block))
      ]

  -- The profiles of a block, given its shape.
  unfoldable pub resolve_block : Shape → StorageProfileBlock → Result LoadError (Profile × Auth)
  resolve_block inputs block = find_provider block.provider >>= λ (cls, spec).
      validated of_storage inputs (model_validate cls block.parameters) >>= λ profile.
      resolve_auth spec inputs block.auth >>= λ auth. ok (profile, auth)

  -- `resolve_storage`, given what the settings are for some parameters.
  unfoldable pub resolve_storage :
      (LoaderParameters → Result LoadError StorageProfilesSettings)
      → Option String
      → String
      → Option SettingsParameters
      → Result LoadError (Profile × Auth)
  resolve_storage get_settings config name parameters = build_params config parameters >>= λ p.
      get_settings p >>= λ settings. elim (lookup name settings.storage_profiles) [
        | none ↦ err profile_not_found
        | some block ↦
            resolve_block (get (Shape.dict ShapeFields.end) (key name) settings.reference_inputs)
              block
      ]
