-- ===== src/Storage/Suffixes.antt =====
-- storage/path_helpers/suffixes.py: the transforms that a path's suffixes name.
pub mod Chain
use mountainash_transport.Prelude.{
  ℕ, zero, suc, ◌-◌, ◌==◌, Bool, true, false, Option, none, some, List, [], ◌∷◌, ◌++◌, Text, codes,
  text_eq, lower, length, take, if◌then◌else◌, ◌is◌, Result, ok, err,
}
use mountainash_transport.Prelude.Dict
use mountainash_transport.Prelude.Dict.{Dict}
use mountainash_transport.Errors.{Error, value_error}

pub data Kind : Type 0 where
  gzip gpg : Kind

-- `SUFFIX_TRANSFORMS`
abbrev pub suffix_transforms : Dict Text Kind
suffix_transforms =
    (codes ".gz", gzip)
    ∷ (codes ".gzip", gzip)
    ∷ (codes ".gpg", gpg)
    ∷ (codes ".asc", gpg)
    ∷ (codes ".pgp", gpg)
    ∷ []

-- `_split_final_suffix`, where `suffix` is `PurePosixPath(…).suffix`: the stem, and the suffix in
-- lower case.
unfoldable pub split_final_suffix : (Text → Text) → Text → Text × Text
split_final_suffix suffix path =
    let s = lower (suffix path) in
    if s is [] then (path, []) else (take (length path - length s) path, s)

-- `A` is the type of transforms.
module _ {A : Type 0} (suffix : Text → Text) (default_gzip : A)
    (gzip_given gpg_given : Option A) where
  -- `gzip if gzip is not None else Gzip()`, and the caller's `gpg`.
  unfoldable pub transform : Kind → Option A
  transform gzip = some (elim gzip_given [ none ↦ default_gzip | some t ↦ t ])
  transform gpg = gpg_given

  prepend : A → Option (Result Error (List A × Text)) → Option (Result Error (List A × Text))
  prepend t (some (ok (ts, path))) = some (ok (t ∷ ts, path))
  prepend t r = r

  step :
      Option Kind
      → Text
      → Option (Result Error (List A × Text))
      → Option (Result Error (List A × Text))
  unfolding transform prepend
  step none path rest = some (ok ([], path))
  step (some kind) path rest = elim (transform kind) [
    | none ↦ some (err value_error)
    | some t ↦ prepend t rest
  ]

  -- The loop: the transforms, outermost first, and the path without their suffixes. `none` is
  -- fuel run out.
  unfoldable pub chain : ℕ → Text → Option (Result Error (List A × Text))
  unfolding split_final_suffix step
  chain zero path = none
  chain (suc fuel) path =
      let (stem, s) = split_final_suffix suffix path in
      let rest = chain fuel stem in
      if s is [] then some (ok ([], path)) else step (Dict.lookup s suffix_transforms) path rest

  inferred : Text → List A × Text → Option (List A) × Text
  inferred path ([], stripped) = (none, path)
  inferred path (t ∷ ts, stripped) = (some (t ∷ ts), stripped)

  -- `infer_pipeline`: each suffix takes at least one character.
  unfoldable pub infer_pipeline : Text → Option (Result Error (Option (List A) × Text))
  unfolding chain inferred
  infer_pipeline path = elim (chain (suc (length path)) path) [
    | none ↦ none
    | some (ok found) ↦ some (ok (inferred path found))
    | some (err x) ↦ some (err x)
  ]
