-- ===== src/Location/Policy/Remote.antt =====
-- Which remote hosts a policy lets through.
use mountainash_transport.Prelude.{
  ◌≡◌, ◌⊎◌, inl, inr, true, Bool-cases, Option, Option-cases, none, some, List, [], ◌∷◌, map, Text,
  text_eq, text_beq_iff, ◌is◌, ok, arith,
}
use mountainash_transport.Prelude.Dict
use mountainash_transport.Prelude.Dict.{Dict}
use mountainash_transport.Location.Schemes.{Platform}
use mountainash_transport.Location.Policy.{
  LocationPolicy, active, has_host, entries_of, listed, allow_remote,
}

module _ (P : Platform) where
  -- A host of the list has this normal form.
  abbrev pub Names : Text → List Text → Type 0
  Names want [] = ⊥
  Names want (host ∷ hosts) = (P.idna host ≡ some want) ⊎ Names want hosts

  -- The policy's entry for the scheme allows the host: it is empty, which allows every host, or
  -- names it.
  abbrev pub Allows : Text → Option (List Text) → Type 0
  Allows want none = ⊥
  Allows want (some []) = Unit
  Allows want (some (host ∷ hosts)) = Names want (host ∷ hosts)

  -- The profile's own host.
  abbrev pub IsProfileHost : Text → Option Text → Type 0
  IsProfileHost want none = ⊥
  IsProfileHost want (some profile) = P.idna profile ≡ some want

  has_host-Names :
      (want : Text) (hosts : List Text) → has_host want (map P.idna hosts) ≡ true → Names want hosts
  unfolding has_host
  has_host-Names want [] h = absurd (ground (arith, h))
  has_host-Names want (host ∷ hosts) h = elim (Option-cases (P.idna host)) [
    | inl q ↦ inr (has_host-Names want hosts (ground (arith, q, h)))
    | inr (name, q) ↦ elim (Bool-cases (want is name)) [
      | inl e ↦ inl (ground (arith, q, (text_beq_iff want name).0 e))
      | inr e ↦ inr (has_host-Names want hosts (ground (arith, q, e, h)))
    ]
  ]

  listed-Allows :
      (want : Text) (entry : Option (List Text))
      → listed P want (entries_of P entry) ≡ true
      → Allows want entry
  unfolding listed entries_of
  listed-Allows want none h = absurd (ground (arith, h))
  listed-Allows want (some []) h = tt
  listed-Allows want (some (host ∷ hosts)) h = has_host-Names want (host ∷ hosts) h

  -- Under an active policy `allow_remote` lets a host through only where the host has a normal form
  -- and this is the profile's host or one that the policy's entry for the scheme allows; a scheme
  -- without an entry and a host outside the entry are refused.
  pub allow_remote-Allows :
      (scheme host : Text) (policy : LocationPolicy) (profile_host : Option Text)
      → active policy ≡ true
      → allow_remote P scheme host (some policy) profile_host ≡ ok tt
      → (want : Text) × (P.idna host ≡ some want)
        × (IsProfileHost want profile_host ⊎ Allows want (Dict.lookup scheme policy.allowed_remote))
  unfolding allow_remote
  allow_remote-Allows scheme host policy profile_host a h = elim (Option-cases (P.idna host)) [
    | inl q ↦ absurd (ground (arith, a, q, h))
    | inr (want, q) ↦ (want, q, go want q profile_host h)
  ]
    where
      go :
          (want : Text)
          → P.idna host ≡ some want
          → (profile_host : Option Text)
          → allow_remote P scheme host (some policy) profile_host ≡ ok tt
          → IsProfileHost want profile_host ⊎ Allows want (Dict.lookup scheme policy.allowed_remote)
      go want q none h = inr (listed-Allows want _ (ground (arith, a, q, h)))
      go want q (some profile) h = elim (Option-cases (P.idna profile)) [
        | inl e ↦ absurd (ground (arith, a, q, e, h))
        | inr (prof, e) ↦ elim (Bool-cases (want is prof)) [
          | inl same ↦ inl (ground (arith, e, (text_beq_iff want prof).0 same))
          | inr differs ↦ inr (listed-Allows want _ (ground (arith, a, q, e, differs, h)))
        ]
      ]
