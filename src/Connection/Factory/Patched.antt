-- ===== src/Connection/Factory/Patched.antt =====
-- connections/tunnel.py, _PatchedEndpointProfile: where a patched profile points.
use mountainash_transport.Prelude.{
  ℕ, ◌≡◌, refl, ap, ◌∙◌, ◌⊎◌, inl, inr, String, Bool, true, false, ◌&&◌, Option, none, some, Result,
  ok, err, if◌then◌else◌, ◌is◌, string_eq, arith, Bool-cases, Option-cases, Result-cases, >>=-eq-ok,
}
use mountainash_transport.Prelude.Dict.{lookup, insert, lookup-insert}
use mountainash_transport.Location.Schemes.{Provider}
use mountainash_transport.Connection.Failures.{Failure}
use mountainash_transport.Connection.Factory.{
  Value, text, number, http_url, Kwargs, has, replace_value, patch_endpoint, Profile, AuthProfile,
  Family, Emitted, flat, emit_kwargs, Made, make, ConnectionClass, null_class, http_class, s3_class,
  ssh_class, connection_for_provider, is_sftp, create_connection, check_auth, family_for_provider,
  provider_type_from_profile, null_connection, sftp_over_ssh, leaf_of, inner_factory, patched,
}

-- What a patched profile has for a key: its own value, but for the keys that say where to connect.
abbrev pub patched_value : String → ℕ → Kwargs → String → Option Value
patched_value host port kwargs key =
    if (key is "endpoint_url") && has "endpoint_url" kwargs
    then some (http_url host port)
    else if (key is "base_url") && has "base_url" kwargs
    then some (http_url host port)
    else if (key is "port") && has "hostname" kwargs
    then some (number port)
    else if (key is "hostname") && has "hostname" kwargs
    then some (text host)
    else lookup key kwargs

lookup-replace_value :
    (j key : String) (v : Value) (d : Kwargs)
    → lookup j (replace_value key v d) ≡ (if (j is key) && has key d then some v else lookup j d)
unfolding replace_value
lookup-replace_value j key v d = ground (arith, lookup-insert j key v d)

has-replace_value :
    (j key : String) (v : Value) (d : Kwargs)
    → (j is key) ≡ false
    → has j (replace_value key v d) ≡ has j d
has-replace_value j key v d h = ground (arith, lookup-replace_value j key v d, h)

abbrev named : String → ℕ → Kwargs → Kwargs
named host port kwargs =
    if has "hostname" kwargs
    then insert "port" (number port) (insert "hostname" (text host) kwargs)
    else kwargs

lookup-named :
    (host : String) (port : ℕ) (kwargs : Kwargs) (key : String)
    → lookup key (named host port kwargs) ≡ (
        if (key is "port") && has "hostname" kwargs
        then some (number port)
        else if (key is "hostname") && has "hostname" kwargs
        then some (text host)
        else lookup key kwargs)
lookup-named host port kwargs key = ground (
  arith,
  lookup-insert key "port" (number port) (insert "hostname" (text host) kwargs),
  lookup-insert key "hostname" (text host) kwargs,
)

pub lookup-patch_endpoint :
    (host : String) (port : ℕ) (kwargs : Kwargs) (key : String)
    → lookup key (patch_endpoint host port kwargs) ≡ patched_value host port kwargs key
unfolding patch_endpoint
lookup-patch_endpoint host port kwargs key =
    let url = http_url host port in
    let first = named host port kwargs in
    let second = replace_value "base_url" url first in
    let e : has "base_url" first ≡ has "base_url" kwargs =
      ap (λ o. elim o as (λ x. Bool) [ none ↦ false | some v ↦ true ])
        (lookup-named host port kwargs "base_url" ∙ refl) in
    let f : has "endpoint_url" second ≡ has "endpoint_url" kwargs =
      has-replace_value "endpoint_url" "base_url" url first refl
      ∙ ap (λ o. elim o as (λ x. Bool) [ none ↦ false | some v ↦ true ])
          (lookup-named host port kwargs "endpoint_url" ∙ refl) in
    ground (
      arith,
      lookup-replace_value key "endpoint_url" url second,
      f,
      e,
      lookup-replace_value key "base_url" url first,
      lookup-named host port kwargs key,
    )

-- The kwargs that a profile itself gives for a connection.
unfoldable pub Emits : Profile → Kwargs → Type 0
Emits p kwargs =
    (kwargs ≡ p.to_handler_kwargs)
    ⊎ ((emit : Family → Result Failure Kwargs) × (family : Family) × (p.emit ≡ some emit)
        × (emit family ≡ ok kwargs))

emit_kwargs-patched :
    (host : String) (port : ℕ) (target : Profile) (family : Option Family) (e : Emitted)
    → emit_kwargs (patched host port target) none family ≡ ok e
    → (base : Kwargs) × Emits target base × (e ≡ flat (patch_endpoint host port base))
unfolding emit_kwargs patched Emits
emit_kwargs-patched host port target none e h =
    (target.to_handler_kwargs, inl refl, ground (arith, h))
emit_kwargs-patched host port target (some family) e h = elim (Option-cases target.emit) [
  | inl a ↦ absurd (ground (arith, a, h))
  | inr (emit, a) ↦ elim (Result-cases (emit family)) [
    | inl (base, b) ↦ (base, inr (emit, family, a, b), ground (arith, a, b, h))
    | inr (f, b) ↦ absurd (ground (arith, a, b, h))
  ]
]

-- The kwargs of a connection that has any.
abbrev pub emitted_of : Made → Option Emitted
emitted_of null_connection = none
emitted_of (sftp_over_ssh e) = some e
emitted_of (leaf_of c e) = some e

emitted_of-make :
    (provider : Option Provider) (emitted : Result Failure Emitted) (made : Made)
    → make provider emitted ≡ ok made
    → (emitted_of made ≡ none) ⊎ ((e : Emitted) × (emitted_of made ≡ some e) × (emitted ≡ ok e))
unfolding make
emitted_of-make provider (ok e) made h = elim (Bool-cases (is_sftp provider)) [
  | inl a ↦ inr (e, ground (arith, a, h), refl)
  | inr a ↦ elim (by_class a (connection_for_provider provider) refl) [
    | inl b ↦ inl b
    | inr (x, b, c) ↦ inr (x, b, ap ok c)
  ]
]
  where
    by_class :
        is_sftp provider ≡ false
        → (c : ConnectionClass) → connection_for_provider provider ≡ c
        → (emitted_of made ≡ none) ⊎ ((x : Emitted) × (emitted_of made ≡ some x) × (e ≡ x))
    by_class a null_class b = inl (ground (arith, a, b, h))
    by_class a http_class b = inr (e, ground (arith, a, b, h), refl)
    by_class a s3_class b = inr (e, ground (arith, a, b, h), refl)
    by_class a ssh_class b = inr (e, ground (arith, a, b, h), refl)
emitted_of-make provider (err f) made h = inl (ground (arith, h))

emitted_of-create_connection :
    (is_mode : String → Bool) (profile : Profile) (auth : Option AuthProfile) (made : Made)
    → create_connection is_mode profile auth ≡ ok made
    → (emitted_of made ≡ none)
      ⊎ ((e : Emitted) × (emitted_of made ≡ some e)
          × (emit_kwargs profile auth (family_for_provider (provider_type_from_profile profile))
              ≡ ok e))
unfolding create_connection
emitted_of-create_connection is_mode profile auth made h =
    let provider = provider_type_from_profile profile in
    let (u, a, b) = >>=-eq-ok (check_auth is_mode profile auth) _ h in
    emitted_of-make provider (emit_kwargs profile auth (family_for_provider provider)) made b

-- A connection that the factory of a tunnel makes without an auth profile has either been given no
-- kwargs, or those of the target profile with the address and the port of the tunnel in place of its
-- own, key by key.
pub inner_factory-Local :
    (is_mode : String → Bool) (target : Profile) (port : ℕ) (made : Made)
    → inner_factory is_mode target none port ≡ ok made
    → (emitted_of made ≡ none)
      ⊎ ((base kwargs : Kwargs) × Emits target base
          × (emitted_of made ≡ some (flat kwargs))
          × ((key : String) → lookup key kwargs ≡ patched_value "127.0.0.1" port base key))
unfolding inner_factory
inner_factory-Local is_mode target port made h =
    let profile = patched "127.0.0.1" port target in
    elim (emitted_of-create_connection is_mode profile none made h) [
      | inl a ↦ inl a
      | inr (e, a, b) ↦
          let (base, given, c) =
            emit_kwargs-patched "127.0.0.1" port target
              (family_for_provider (provider_type_from_profile profile)) e b in
          inr (
            base,
            patch_endpoint "127.0.0.1" port base,
            given,
            a ∙ ap some c,
            λ key. lookup-patch_endpoint "127.0.0.1" port base key,
          )
    ]
