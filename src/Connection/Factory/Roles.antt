-- ===== src/Connection/Factory/Roles.antt =====
-- connections/__init__.py, _emit_kwargs: which connections assume a role.
use mountainash_transport.Prelude.{
  ◌≡◌, sym, ap, ◌∙◌, inl, inr, String, true, false, ◌&&◌, ◌||◌, Option, none, some, Result, ok,
  string_eq, contains, arith, Bool-cases, >>=-eq-ok,
}
use mountainash_transport.Connection.Failures.{Failure}
use mountainash_transport.Connection.Factory.{
  Kwargs, Profile, AuthProfile, Family, Emitted, flat, envelope, emit_kwargs, layer, flavor_of,
  is_boto, non_sts_flavors, is_set,
}

-- The role that a connection assumes.
abbrev pub role_of : Emitted → Option String
role_of (flat kwargs) = none
role_of (envelope client_config session role_arn session_name) = role_arn

-- Kwargs that ask for a role are only ever made for a flavor that reaches AWS STS, by an S3
-- profile, and carry the role of the auth profile.
pub role_of-emit_kwargs :
    (profile : Profile) (auth : AuthProfile) (family : Family) (e : Emitted)
    → emit_kwargs profile (some auth) (some family) ≡ ok e
    → is_set (role_of e) ≡ true
    → (contains non_sts_flavors (flavor_of profile) ≡ false)
      × (role_of e ≡ auth.role_arn)
      × (is_boto family ≡ true)
unfolding emit_kwargs layer
role_of-emit_kwargs profile auth family e h r =
    let base = elim profile.emit as (λ x. Result Failure Kwargs) [
      | none ↦ ok profile.to_handler_kwargs
      | some emit ↦ emit family
    ] in
    let (kwargs, a, b) = >>=-eq-ok base _ h in
    elim (Bool-cases auth.is_no_auth) [
      | inl c ↦ absurd (ground (arith, b, c, r))
      | inr c ↦
          elim (Bool-cases (is_boto family && (is_set auth.role_arn || is_set auth.profile_name))) [
            | inr d ↦ absurd (ground (arith, b, c, d, r))
            | inl d ↦
                elim (Bool-cases
                  (is_set auth.role_arn && contains non_sts_flavors (flavor_of profile))) [
                    | inl g ↦ absurd (ground (arith, b, c, d, g, r))
                    | inr g ↦
                        let same : role_of e ≡ auth.role_arn = ground (arith, b, c, d, g) in
                        let role : is_set auth.role_arn ≡ true = ap is_set (sym same) ∙ r in
                        (ground (arith, g, role), same, ground (arith, d))
                  ]
          ]
    ]
