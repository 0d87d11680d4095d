-- ===== src/Settings/Loader/Hiding.antt =====
-- settings/storage/loader.py: no error of `resolve_storage` shows a secret reference.
use mountainash_transport.Prelude.{
  ◌≡◌, refl, sym, ap, ◌∙◌, subst, ◌⊎◌, inl, inr, Bool, true, false, ◌||◌, List, [], ◌∷◌, ◌++◌,
  String, string_eq, contains, ◌>>◌, Option, none, some, Result, ok, err, arith, Bool-cases,
  Option-cases, Result-cases,
}
use mathlib.Core.List.{Memᴰ}
use mathlib.Core.List.Memᴰ.{cases_cons, not-nil}
use mountainash_transport.Prelude.Dict.{lookup}
use mountainash_transport.Settings.References.{
  Part, key, Value, Fields, Shape, ShapeFields, get, reference_shape, shape_fields, Entry, is_empty,
  sensitive_entry, sensitive_validation,
}
use mountainash_transport.Settings.References.Covering.{
  child, refers, meets, refers-child, get-find, sensitive_entry-refers,
}
use mountainash_transport.Settings.Loader.{
  StorageProfileBlock, StorageProfileSpec, AuthBlock, Section, of_storage, of_auth, invalid, hidden,
  LoadError, profile_resolution, attribute_error, dict_get, parameters_of, validated,
  unknown_provider, no_auth_class, unknown_mode, unsupported_auth_profile, mode_of, auth_parameters,
  effective_mode, supported, find_provider, resolve_auth, resolve_block, resolve_storage,
  build_params, SettingsParameters, LoaderParameters, StorageProfilesSettings, profile_not_found,
}

-- The entries of a validation error that an exception has as its cause or context, and whose
-- parameters they are about.
abbrev pub shown : LoadError → Option (Section × List Entry)
shown (profile_resolution (invalid part es)) = some (part, es)
shown (attribute_error part es) = some (part, es)
shown _ = none

-- Where the parameters are in a block.
abbrev pub parameters_at : Section → List Part
parameters_at of_storage = key "parameters" ∷ []
parameters_at of_auth = key "auth" ∷ key "parameters" ∷ []

-- Whether an entry may show what is at a path: it has the whole input, or its location leads there or
-- past it.
abbrev pub may_show : Entry → List Part → Bool
may_show e path = is_empty e.location || e.missing || meets e.location path

dict_get-refers :
    (v : Value) (k : String) (path : List Part)
    → refers v (key k ∷ path) ≡ true
    → (w : Value) × (refers w path ≡ true)
      × (dict_get k (reference_shape v) ≡ some (reference_shape w))
unfolding dict_get reference_shape
dict_get-refers v k path h = let (w, a, b) = refers-child v (key k) path h in (w, b, by v w a)
  where
    by :
        (v w : Value)
        → child (key k) v ≡ some w
        → dict_get k (reference_shape v) ≡ some (reference_shape w)
    by (Value.text t) w a = ground (arith, a)
    by (Value.secret_str t) w a = ground (arith, a)
    by Value.other w a = ground (arith, a)
    by (Value.model fs) w a = ap some (get-find _ (key k) fs w a)
    by (Value.dict fs) w a = ap some (get-find _ (key k) fs w a)
    by (Value.list vs) w a = ground (arith, a)

-- A block that has a reference in some parameters has the shape of these.
parameters_of-refers :
    (part : Section) (block : Value) (path : List Part)
    → refers block (parameters_at part ++ path) ≡ true
    → (w : Value) × (refers w path ≡ true)
      × (parameters_of part (reference_shape block) ≡ some (reference_shape w))
unfolding parameters_of
parameters_of-refers of_storage block path h = dict_get-refers block "parameters" path h
parameters_of-refers of_auth block path h =
    let (auth, a, b) = dict_get-refers block "auth" (key "parameters" ∷ path) h in
    let (w, c, d) = dict_get-refers auth "parameters" path a in (w, c, ground (arith, b, d))

sensitive_validation-mem :
    (es : List Entry) (s : Shape) (e : Entry)
    → sensitive_validation es s ≡ false
    → Memᴰ e es
    → sensitive_entry s e ≡ false
unfolding sensitive_validation
sensitive_validation-mem [] s e h m = absurd (not-nil m)
sensitive_validation-mem (f ∷ es) s e h m = elim (cases_cons m) [
  | inl a ↦ subst (λ x. sensitive_entry s x ≡ false) (sym a) (ground (arith, h))
  | inr n ↦ sensitive_validation-mem es s e (ground (arith, h)) n
]

-- Either the shape of some parameters has no `get`, or an error about them was found fit to be shown.
abbrev Fit : Section → Shape → List Entry → Type 0
Fit section inputs es =
    (parameters_of section inputs ≡ none)
    ⊎ ((s : Shape) × (parameters_of section inputs ≡ some s) × (sensitive_validation es s ≡ false))

-- What a refusal of a validation shows.
validated-shown :
    {P : Type 0} (section other : Section) (inputs : Shape) (r : Result (List Entry) P)
    (x : LoadError) (es : List Entry)
    → ◌≡◌ {A = Result LoadError P} (validated section inputs r) (err x)
    → shown x ≡ some (other, es)
    → (section ≡ other) × Fit section inputs es
unfolding validated
validated-shown section other inputs (ok p) x es h y = ground (arith, h)
validated-shown section other inputs (err fs) x es h y =
    elim (Option-cases (parameters_of section inputs)) [
      | inl a ↦
          let b : x ≡ attribute_error section fs = ground (arith, h, a) in
          let c : ◌≡◌ {A = Option (Section × List Entry)} (some (section, fs)) (some (other, es)) =
            ap shown (sym b) ∙ y in
          (ground (arith, c), inl a)
      | inr (s, a) ↦ elim (Bool-cases (sensitive_validation fs s)) [
        | inl b ↦
            let c : x ≡ profile_resolution (hidden section) = ground (arith, h, a, b) in
            absurd (ground (arith, ap shown (sym c) ∙ y))
        | inr b ↦
            let c : x ≡ profile_resolution (invalid section fs) = ground (arith, h, a, b) in
            let d : ◌≡◌ {A = Option (Section × List Entry)} (some (section, fs))
                (some (other, es)) =
              ap shown (sym c) ∙ y in
            let same : fs ≡ es = ground (arith, d) in
            (ground (arith, d), inr (s, a, subst (λ l. sensitive_validation l s ≡ false) same b))
      ]
    ]

Fit-refers :
    (section : Section) (block : Value) (es : List Entry) (e : Entry) (path : List Part)
    → Fit section (reference_shape block) es
    → Memᴰ e es
    → may_show e path ≡ true
    → refers block (parameters_at section ++ path) ≡ false
Fit-refers section block es e path fit m y =
    elim (Bool-cases (refers block (parameters_at section ++ path))) [
      | inr a ↦ a
      | inl a ↦
          let (w, b, c) = parameters_of-refers section block path a in
          elim fit [
            | inl d ↦ absurd (ground (arith, c, d))
            | inr (s, d, f) ↦
                let same : s ≡ reference_shape w = ground (arith, c, d) in
                let g = subst (λ x. sensitive_validation es x ≡ false) same f in
                absurd (
                  ground (
                    arith,
                    b,
                    sensitive_entry-refers w e path
                        (sensitive_validation-mem es (reference_shape w) e g m) y,
                  ))
          ]
    ]

module _ {Class Profile AuthClass Auth : Type 0} (get_settings_class : String → Option Class)
    (get_spec : String → Option StorageProfileSpec)
    (model_validate : Class → Fields → Result (List Entry) Profile) (is_mode : String → Bool)
    (get_auth_class : String → Option AuthClass)
    (auth_validate : AuthClass → Fields → Result (List Entry) Auth) where
  find_provider-shown :
      (provider : String) (x : LoadError)
      → find_provider get_settings_class get_spec model_validate is_mode get_auth_class
          auth_validate provider
        ≡ err x
      → shown x ≡ none
  unfolding find_provider
  find_provider-shown provider x h = elim (Option-cases (get_settings_class provider)) [
    | inl a ↦ let e : x ≡ profile_resolution unknown_provider = ground (arith, h, a) in ap shown e
    | inr (c, a) ↦ elim (Option-cases (get_spec provider)) [
      | inl b ↦
          let e : x ≡ profile_resolution unknown_provider = ground (arith, h, a, b) in ap shown e
      | inr (s, b) ↦ ground (arith, h, a, b)
    ]
  ]

  -- The exceptions of the auth profile show what its validation does, or nothing.
  resolve_auth-shown :
      (spec : StorageProfileSpec) (inputs : Shape) (block : Option AuthBlock) (x : LoadError)
      (section : Section) (es : List Entry)
      → resolve_auth get_settings_class get_spec model_validate is_mode get_auth_class auth_validate
          spec inputs block
        ≡ err x
      → shown x ≡ some (section, es)
      → Fit section inputs es
  unfolding resolve_auth effective_mode supported
  resolve_auth-shown spec inputs block x section es h y = elim (Option-cases (mode_of block)) [
    | inl a ↦ from_mode spec.default_auth (ground (arith, h, a))
    | inr (mode, a) ↦ elim (Bool-cases (is_mode mode)) [
      | inl b ↦ from_mode mode (ground (arith, h, a, b))
      | inr b ↦ nothing_shown (profile_resolution unknown_mode) (ground (arith, h, a, b)) refl
    ]
  ]
    where
      nothing_shown : (z : LoadError) → z ≡ x → shown z ≡ none → Fit section inputs es
      nothing_shown z e n = absurd (ground (arith, sym n ∙ ap shown e ∙ y))

      classed : Option AuthClass → Result LoadError Auth
      classed none = err (profile_resolution no_auth_class)
      classed (some cls) = validated of_auth inputs (auth_validate cls (auth_parameters block))

      from_class : (c : Option AuthClass) → classed c ≡ err x → Fit section inputs es
      from_class none e = nothing_shown (profile_resolution no_auth_class) (ground (arith, e)) refl
      from_class (some cls) e =
          let (a, b) =
            validated-shown of_auth section inputs (auth_validate cls (auth_parameters block)) x es
              e y in
          subst (λ s. Fit s inputs es) a b

      from_mode :
          (mode : String)
          → ◌≡◌ {A = Result LoadError Auth}
              (supported get_settings_class get_spec model_validate is_mode get_auth_class
                  auth_validate spec mode
                >> elim (get_auth_class mode) [
                  | none ↦ err (profile_resolution no_auth_class)
                  | some cls ↦ validated of_auth inputs (auth_validate cls (auth_parameters block))
                ])
              (err x)
          → Fit section inputs es
      from_mode mode e = elim (Bool-cases (contains spec.supported_auth mode)) [
        | inr a ↦ nothing_shown (unsupported_auth_profile mode) (ground (arith, e, a)) refl
        | inl a ↦ elim (Option-cases (get_auth_class mode)) [
          | inl b ↦ from_class none (ground (arith, e, a, b))
          | inr (cls, b) ↦ from_class (some cls) (ground (arith, e, a, b))
        ]
      ]

  resolve_block-shown :
      (inputs : Shape) (block : StorageProfileBlock) (x : LoadError) (section : Section)
      (es : List Entry)
      → resolve_block get_settings_class get_spec model_validate is_mode get_auth_class
          auth_validate inputs block
        ≡ err x
      → shown x ≡ some (section, es)
      → Fit section inputs es
  unfolding resolve_block
  resolve_block-shown inputs block x section es h y =
      let provider =
        find_provider get_settings_class get_spec model_validate is_mode get_auth_class
          auth_validate block.provider in
      elim (Result-cases provider) [
        | inr (z, a) ↦
            let e : x ≡ z = ground (arith, h, a) in
            absurd (ground (arith, find_provider-shown block.provider z a, ap shown e, y))
        | inl ((cls, spec), a) ↦
            let made = validated of_storage inputs (model_validate cls block.parameters) in
            elim (Result-cases made) [
              | inr (z, b) ↦
                  let e : z ≡ x = ground (arith, h, a, b) in
                  let (c, d) =
                    validated-shown of_storage section inputs _ z es b (ap shown e ∙ y) in
                  subst (λ s. Fit s inputs es) c d
              | inl (profile, b) ↦
                  let auth =
                    resolve_auth get_settings_class get_spec model_validate is_mode get_auth_class
                      auth_validate spec inputs block.auth in
                  elim (Result-cases auth) [
                    | inr (z, c) ↦
                        let e : z ≡ x = ground (arith, h, a, b, c) in
                        resolve_auth-shown spec inputs block.auth z section es c (ap shown e ∙ y)
                    | inl (made_auth, c) ↦ absurd (ground (arith, h, a, b, c))
                  ]
            ]
      ]

  -- The shape of a block that refers somewhere is the one that is looked up.
  get-block :
      (raw : Fields) (name : String) (path : List Part)
      → refers (Value.dict raw) (key name ∷ path) ≡ true
      → (block : Value) × (refers block path ≡ true)
        × (get (Shape.dict ShapeFields.end) (key name) (shape_fields raw) ≡ reference_shape block)
  get-block raw name path h =
      let (w, a, b) = refers-child (Value.dict raw) (key name) path h in
      (w, b, get-find _ (key name) raw w a)

  -- Where the reference locations of the settings are those of the configuration, an exception of
  -- `resolve_storage` has no entry of a validation error, as its cause or its context, that could
  -- show a secret reference of the block's parameters: no reference is at the entry's location, below
  -- it or on the way to it, and none anywhere where the entry has no location or is of a missing field.
  pub resolve_storage-Hides :
      (get_settings : LoaderParameters → Result LoadError StorageProfilesSettings)
      (config : Option String) (name : String) (parameters : Option SettingsParameters)
      (p : LoaderParameters) (settings : StorageProfilesSettings) (raw : Fields) (x : LoadError)
      (section : Section) (es : List Entry) (e : Entry) (path : List Part)
      → build_params config parameters ≡ ok p
      → get_settings p ≡ ok settings
      → settings.reference_inputs ≡ shape_fields raw
      → resolve_storage get_settings_class get_spec model_validate is_mode get_auth_class
          auth_validate get_settings config name parameters
        ≡ err x
      → shown x ≡ some (section, es)
      → Memᴰ e es
      → may_show e path ≡ true
      → refers (Value.dict raw) (key name ∷ parameters_at section ++ path) ≡ false
  unfolding resolve_storage
  resolve_storage-Hides get_settings config name parameters p settings raw x section es e path b g i
        h y m c =
      let refs = refers (Value.dict raw) (key name ∷ parameters_at section ++ path) in
      elim (Bool-cases refs) [
        | inr a ↦ a
        | inl a ↦
            let (block, d, f) = get-block raw name (parameters_at section ++ path) a in
            elim (Option-cases (lookup name settings.storage_profiles)) [
              | inl k ↦
                  let z : profile_not_found ≡ x = ground (arith, h, b, g, k) in
                  absurd (ground (arith, ap shown z, y))
              | inr (found, k) ↦
                  let inputs =
                    get (Shape.dict ShapeFields.end) (key name) settings.reference_inputs in
                  let fit =
                    resolve_block-shown inputs found x section es (ground (arith, h, b, g, k)) y in
                  let same : inputs ≡ reference_shape block =
                    ap (get (Shape.dict ShapeFields.end) (key name)) i ∙ f in
                  absurd (
                    ground (
                      arith,
                      d,
                      Fit-refers section block es e path (subst (λ s. Fit section s es) same fit) m
                          c,
                    ))
            ]
      ]
