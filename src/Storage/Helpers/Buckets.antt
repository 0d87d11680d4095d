-- ===== src/Storage/Helpers/Buckets.antt =====
-- The bucket and the key of an S3 path.
use mountainash_transport.Prelude.{
  ◌≡◌, refl, sym, ◌∙◌, ◌≢◌, ◌⊎◌, inl, inr, Bool-cases, not, Option, none, some, [], ◌∷◌, ◌++◌, Text,
  text_eq, ◌==◌, ==_iff, if◌then◌else◌, ◌is◌, Result, ok, contains, false, nat_eq, arith,
}
use mountainash_transport.Prelude.Dict
use mountainash_transport.Errors.{Error}
use mountainash_transport.Location.Schemes.{Platform}
use mountainash_transport.Storage.Helpers.{
  split_first, identify_scheme, family_bucket_key, is_s3_scheme, bare_bucket, bare_key, both,
  s3_bucket, s3_key, parse_s3_path,
}

-- A path written as a bucket, which has no slash, and a slash and a key, or as a bucket alone.
abbrev pub Writes : Text → Text → Text → Type 0
Writes path bucket key =
    (contains bucket b'/' ≡ false)
    × ((path ≡ bucket ++ b'/' ∷ key) ⊎ ((path ≡ bucket) × (key ≡ [])))

split_first-Writes :
    (path : Text)
    → Writes path
        (split_first b'/' path).0
        (elim (split_first b'/' path).1 [ none ↦ [] | some key ↦ key ])
split_first-Writes [] = (refl, inr (refl, refl))
split_first-Writes (x ∷ xs) = elim (Bool-cases (x == b'/')) [
  | inl q ↦ ground (arith, q, (==_iff x b'/').0 q)
  | inr q ↦ ground (arith, q, split_first-Writes xs, Bool-cases (b'/' == x))
]

module _ (P : Platform) where
  -- What the parse of a path without a scheme gives.
  abbrev bare : Text → Result Error (Text × Text)
  bare path =
      let parts = split_first b'/' path in
      both P (if not (parts.0 is []) then some parts.0 else none)
        (some (elim parts.1 [ none ↦ [] | some key ↦ key ]))

  bare-Writes :
      (path bucket key : Text)
      → bare path ≡ ok (bucket, key)
      → (bucket ≢ []) × Writes path bucket key
  unfolding both
  bare-Writes path bucket key h = go (split_first b'/' path) (split_first-Writes path) h
    where
      go :
          (parts : Text × Option Text)
          → Writes path parts.0 (elim parts.1 [ none ↦ [] | some k ↦ k ])
          → both P
              (if not (parts.0 is []) then some parts.0 else none)
              (some (elim parts.1 [ none ↦ [] | some k ↦ k ]))
            ≡ ok (bucket, key)
          → (bucket ≢ []) × Writes path bucket key
      go ([], k) w e = absurd (ground (arith, e))
      go (c ∷ cs, k) w e = ground (arith, w, e)

  no_family :
      (path : Text) → identify_scheme P path ≡ ok (some []) → family_bucket_key P path ≡ ok none
  unfolding family_bucket_key is_s3_scheme Dict.lookup
  no_family path s = rw s refl

  parse_s3_path-bare :
      (path : Text) → identify_scheme P path ≡ ok (some []) → parse_s3_path P path ≡ bare path
  unfolding parse_s3_path s3_bucket s3_key bare_bucket bare_key
  parse_s3_path-bare path s = rw (no_family path s, s) refl

  -- A path without a scheme that parses as an S3 path is its bucket, which is not empty and has no
  -- slash, followed by a slash and the key, or is the bucket alone, with an empty key.
  pub parse_s3_path-Writes :
      (path bucket key : Text)
      → identify_scheme P path ≡ ok (some [])
      → parse_s3_path P path ≡ ok (bucket, key)
      → (bucket ≢ []) × Writes path bucket key
  parse_s3_path-Writes path bucket key s h =
      bare-Writes path bucket key (sym (parse_s3_path-bare path s) ∙ h)
