-- ===== src/Location/Policy/Confined.antt =====
-- `confine_local` of location.py and the root of the policy.
use mountainash_transport.Prelude.{
  ℕ, zero, suc, ◌<◌, ◌≡◌, refl, sym, ◌∙◌, ◌≢◌, ap, ◌⊎◌, inl, inr, true, Bool-cases, Option,
  Option-cases, none, some, Text, text_eq, text_beq_iff, length, ◌is◌, Result, ok, err, ◌>>=◌,
  arith,
}
use mountainash_transport.Errors.{Error, value_error, location_not_allowed}
use mountainash_transport.Location.Schemes.{Platform, identify_scheme}
use mountainash_transport.Location.Policy.{
  LocationPolicy, active, sanitized, file_path, split_of, path_of, local_path, resolve, inside,
  confined, confine_local,
}

-- The head of a path is shorter than the path, unless it is the path (`os.path.split`).
abbrev pub Shortens : Platform → Type 0
Shortens P = (path : Text) → (P.split path).0 ≢ path → length (P.split path).0 < length path

module _ (P : Platform) where
  abbrev OnlyRefused : Option (Result Error Text) → Type 0
  OnlyRefused none = ⊥
  OnlyRefused (some (ok path)) = Unit
  OnlyRefused (some (err x)) = x ≡ location_not_allowed

  resolve-OnlyRefused :
      Shortens P → (fuel : ℕ) (path : Text) → length path < fuel → OnlyRefused (resolve P fuel path)
  unfolding resolve
  resolve-OnlyRefused shorter zero path h = absurd (omega arith)
  resolve-OnlyRefused shorter (suc fuel) path h = elim (Bool-cases ((P.split path).0 is path)) [
    | inl q ↦ ground (arith, q)
    | inr q ↦
        let ne : (P.split path).0 ≢ path =
          λ e. absurd (ground (arith, q, (text_beq_iff (P.split path).0 path).1 e)) in
        ground (
          arith,
          q,
          resolve-OnlyRefused shorter fuel (P.split path).0 (omega (arith, shorter path ne)),
        )
  ]

  -- The exceptions of reading a location.
  abbrev ReadErrs {ℓ} : {A : Type ℓ} → Result Error A → Type 0
  ReadErrs (ok a) = Unit
  ReadErrs (err x) = (x ≡ value_error) ⊎ (x ≡ location_not_allowed)

  identify_scheme-ReadErrs : (location : Text) → ReadErrs (identify_scheme P location)
  unfolding identify_scheme
  identify_scheme-ReadErrs location = ground arith

  path_of-ReadErrs : (location : Text) (scheme : Option Text) → ReadErrs (path_of P location scheme)
  unfolding path_of split_of file_path
  path_of-ReadErrs location none = tt
  path_of-ReadErrs location (some scheme) = ground arith

  local_path-ReadErrs : (location : Text) → ReadErrs (local_path P location)
  unfolding local_path
  local_path-ReadErrs location = go (identify_scheme P location) (identify_scheme-ReadErrs location)
    where
      go : (r : Result Error (Option Text)) → ReadErrs r → ReadErrs (r >>= path_of P location)
      go (ok scheme) k = path_of-ReadErrs location scheme
      go (err x) k = k

  -- A path within the root, or the refusal `LocationNotAllowed`.
  abbrev pub Within : Text → Option (Result Error Text) → Type 0
  Within root none = ⊥
  Within root (some (ok path)) = P.is_relative_to path root ≡ true
  Within root (some (err x)) = x ≡ location_not_allowed

  confined-Within :
      Shortens P
      → (fuel : ℕ) (root : Text) (r : Result Error Text) → ReadErrs r
      → ((path : Text) → r ≡ ok path → length (P.join root path) < fuel)
      → Within root (confined P fuel root (sanitized r))
  unfolding confined inside
  confined-Within shorter fuel root (err x) k h = ground (arith, k)
  confined-Within shorter fuel root (ok path) k h =
      let o = resolve-OnlyRefused shorter fuel (P.join root path) (h path refl) in ground (arith, o)

  pub confine_local-Within :
      Shortens P
      → (fuel : ℕ) (location root : Text) (policy : LocationPolicy) → active policy ≡ true
      → policy.root ≡ some root
      → ((path : Text)
          → local_path P location ≡ ok path
          → length (P.join (P.realpath root) path) < fuel)
      → Within (P.realpath root) (confine_local P fuel location (some policy))
  unfolding confine_local
  confine_local-Within shorter fuel location root policy a r h =
      rw (a, r)
        (confined-Within shorter fuel (P.realpath root) (local_path P location)
          (local_path-ReadErrs location) h)

  inside-Rooted :
      (root path : Text) (r : Result Error Text)
      → (r >>= inside P root) ≡ ok path
      → P.is_relative_to path root ≡ true
  unfolding inside
  inside-Rooted root path (err x) e = absurd (ground (arith, e))
  inside-Rooted root path (ok p) e = elim (Bool-cases (P.is_relative_to p root)) [
    | inl q ↦
        let same : p ≡ path = ground (arith, q, e) in
        ap (λ t. P.is_relative_to t root) (sym same) ∙ q
    | inr q ↦ absurd (ground (arith, q, e))
  ]

  confined-Rooted :
      (fuel : ℕ) (root path : Text) (l : Result Error Text)
      → confined P fuel root l ≡ some (ok path)
      → P.is_relative_to path root ≡ true
  unfolding confined
  confined-Rooted fuel root path (err x) e = absurd (ground (arith, e))
  confined-Rooted fuel root path (ok p) e = elim (Option-cases (resolve P fuel (P.join root p))) [
    | inl q ↦ absurd (ground (arith, q, e))
    | inr (r, q) ↦ inside-Rooted root path r (ground (arith, q, e))
  ]

  -- A path that `confine_local` gives lies within the root, however much fuel it was given.
  pub confine_local-inside :
      (fuel : ℕ) (location root path : Text) (policy : LocationPolicy)
      → active policy ≡ true
      → policy.root ≡ some root
      → confine_local P fuel location (some policy) ≡ some (ok path)
      → P.is_relative_to path (P.realpath root) ≡ true
  unfolding confine_local
  confine_local-inside fuel location root path policy a r e =
      confined-Rooted fuel (P.realpath root) path (sanitized (local_path P location))
        (ground (arith, a, r, e))
