-- ===== src/Storage/Suffixes/Chain.antt =====
-- The loop of `infer_pipeline` in storage/path_helpers/suffixes.py.
use mathlib.Core.List.{append-nil}
use mountainash_transport.Prelude.{
  ℕ, zero, suc, ◌+◌, ◌-◌, ◌<◌, ◌≡◌, refl, sym, ap, ◌∙◌, ◌⊎◌, inl, inr, Bool, true, false, not, ◌&&◌,
  Bool-cases, Option, Option-cases, none, some, List, [], ◌∷◌, ◌++◌, Text, codes, text_eq,
  text_beq_iff, lower, lower_char, length, length-append, length-map, take, if◌then◌else◌, ◌is◌,
  ◌==◌, contains, nat_eq, Result, ok, err, arith,
}
use mountainash_transport.Prelude.Dict
use mountainash_transport.Errors.{Error, value_error}
use mountainash_transport.Storage.Suffixes.{
  Kind, gzip, gpg, suffix_transforms, split_final_suffix, transform, prepend, step, chain,
}

-- The last component of a path.
unfoldable pub name_of : Text → Text
name_of [] = []
name_of (c ∷ cs) =
    let rest = name_of cs in if contains cs b'/' then rest else if c == b'/' then cs else c ∷ cs

abbrev pub is_name : Text → Bool
is_name name = not (name is []) && (not (name is codes ".") && not (take 2 name is codes ".."))

-- What pathlib says of a path that ends with its name: a name that is not empty, "." or one that
-- begins with two dots. Its suffix is the end of the path, and what is before ends with a name too.
pub record IsPure (suffix : Text → Text) : Type 0 where
  pub splits :
      (path : Text)
      → is_name (name_of path) ≡ true
      → (stem : Text) × (path ≡ stem ++ suffix path)
        × ((suffix path ≡ []) ⊎ (is_name (name_of stem) ≡ true))

module _ {A : Type 0} (suffix : Text → Text) (default_gzip : A)
    (gzip_given gpg_given : Option A) where
  -- The transform of a kind: the caller's, or for gzip the default.
  abbrev pub Chosen : Kind → A → Type 0
  Chosen gzip t = (gzip_given ≡ some t) ⊎ ((gzip_given ≡ none) × (t ≡ default_gzip))
  Chosen gpg t = gpg_given ≡ some t

  -- Suffix by suffix from the right: each is in the table and gives its transform, and what is left
  -- has no suffix of the table.
  pub data Strips : Text → List A → Text → Type 0 where
    stop :
        {path : Text}
        → Dict.lookup (lower (suffix path)) suffix_transforms ≡ none
        → Strips path [] path
    strip :
        {path stripped : Text} {ts : List A} (kind : Kind) (t : A) (stem : Text)
        → path ≡ stem ++ suffix path
        → Dict.lookup (lower (suffix path)) suffix_transforms ≡ some kind
        → Chosen kind t
        → Strips stem ts stripped
        → Strips path (t ∷ ts) stripped

  -- The inferred transforms and path, or the `ValueError` for a key that is not given.
  abbrev pub Infers : Text → Option (Result Error (List A × Text)) → Type 0
  Infers path none = ⊥
  Infers path (some (ok (ts, stripped))) = Strips path ts stripped
  Infers path (some (err x)) = (x ≡ value_error) × (gpg_given ≡ none)

  prepend-Infers :
      (path stem : Text) (kind : Kind) (t : A) (r : Option (Result Error (List A × Text)))
      → path ≡ stem ++ suffix path
      → Dict.lookup (lower (suffix path)) suffix_transforms ≡ some kind
      → Chosen kind t
      → Infers stem r
      → Infers path (prepend suffix default_gzip gzip_given gpg_given t r)
  unfolding prepend
  prepend-Infers path stem kind t none p k c h = h
  prepend-Infers path stem kind t (some (ok (ts, stripped))) p k c h = strip kind t stem p k c h
  prepend-Infers path stem kind t (some (err x)) p k c h = h

  unfoldable chosen_gzip : A
  chosen_gzip = elim gzip_given [ none ↦ default_gzip | some t ↦ t ]

  chosen_gzip-Chosen : Chosen gzip chosen_gzip
  unfolding chosen_gzip
  chosen_gzip-Chosen = elim (Option-cases gzip_given) [
    | inl q ↦ inr (q, ground (arith, q))
    | inr (t, q) ↦ inl (ground (arith, q))
  ]

  step-Infers :
      (path stem : Text) (kind : Option Kind) (rest : Option (Result Error (List A × Text)))
      → path ≡ stem ++ suffix path
      → Dict.lookup (lower (suffix path)) suffix_transforms ≡ kind
      → Infers stem rest
      → Infers path (step suffix default_gzip gzip_given gpg_given kind path rest)
  unfolding step transform chosen_gzip
  step-Infers path stem none rest p k h = stop k
  step-Infers path stem (some gzip) rest p k h =
      prepend-Infers path stem gzip chosen_gzip rest p k chosen_gzip-Chosen h
  step-Infers path stem (some gpg) rest p k h = elim (Option-cases gpg_given) [
    | inl q ↦ rw q (refl, refl)
    | inr (t, q) ↦ ground (arith, q, prepend-Infers path stem gpg t rest p k q h)
  ]

  take-front : (xs ys : Text) → take (length xs) (xs ++ ys) ≡ xs
  take-front [] ys = refl
  take-front (x ∷ xs) ys = ap (λ l. x ∷ l) (take-front xs ys)

  -- The cut of a suffix that is the end of the path.
  split_final_suffix-end :
      (path stem : Text)
      → path ≡ stem ++ suffix path
      → ((lower (suffix path)) is []) ≡ false
      → (split_final_suffix suffix path ≡ (stem, lower (suffix path))) × (length stem < length path)
  unfolding split_final_suffix
  split_final_suffix-end path stem p n =
      let s = suffix path in
      let whole : length path ≡ length stem + length s =
        ap (length {A = ℕ}) p ∙ length-append stem s in
      let low : length (lower s) ≡ length s = length-map s lower_char in
      let cut : length path - length (lower s) ≡ length stem = omega (arith, whole, low) in
      let front : take (length path - length (lower s)) path ≡ stem =
        ap (λ n. take n path) cut ∙ ap (take (length stem)) p ∙ take-front stem s in
      (ground (arith, n, front), longer s whole n)
    where
      longer :
          (s : Text)
          → length path ≡ length stem + length s
          → ((lower s) is []) ≡ false
          → length stem < length path
      longer [] w m = absurd (ground (arith, m))
      longer (c ∷ cs) w m = omega (arith, w)

  -- With more fuel than the path has characters, the loop ends for a path that ends with its name: it
  -- has stripped suffixes of the table from the right until none was left, each of them the end of
  -- what was there, with the transform of each, or it raises `ValueError`, and then no `gpg` was
  -- given. Of `PurePosixPath.suffix` it is assumed that it is the end of such a path, and that what is
  -- before it ends with a name too.
  pub chain-Infers :
      IsPure suffix
      → (fuel : ℕ) (path : Text) → (suffix path ≡ []) ⊎ (is_name (name_of path) ≡ true)
      → length path < fuel
      → Infers path (chain suffix default_gzip gzip_given gpg_given fuel path)
  unfolding chain Dict.lookup
  chain-Infers pure zero path named h = absurd (omega arith)
  chain-Infers pure (suc fuel) path named h = elim (Bool-cases ((lower (suffix path)) is [])) [
    | inl q ↦
        let none_left : lower (suffix path) ≡ [] = (text_beq_iff (lower (suffix path)) []).0 q in
        let k : Dict.lookup (lower (suffix path)) suffix_transforms ≡ none = rw none_left refl in
        let e : split_final_suffix suffix path ≡ (path, []) =
          unfold split_final_suffix in ground (arith, q) in
        ground (arith, e, stop {path = path} k)
    | inr q ↦ elim named [
      | inl empty ↦ absurd (ground (arith, ap (λ s. (lower s) is []) empty, q))
      | inr name ↦
          let (stem, p, left) = pure.splits path name in
          let (e, less) = split_final_suffix-end path stem p q in
          let rest = chain-Infers pure fuel stem (still stem p left) (omega (arith, h, less)) in
          ground (arith, e, q, step-Infers path stem _ _ p refl rest)
    ]
  ]
    where
      still :
          (stem : Text)
          → path ≡ stem ++ suffix path
          → (suffix path ≡ []) ⊎ (is_name (name_of stem) ≡ true)
          → (suffix stem ≡ []) ⊎ (is_name (name_of stem) ≡ true)
      still stem p (inl e) = elim named [
        | inl a ↦ inl (ap suffix (sym (p ∙ ap (λ s. stem ++ s) e ∙ append-nil stem)) ∙ e)
        | inr a ↦ inl (ap suffix (sym (p ∙ ap (λ s. stem ++ s) e ∙ append-nil stem)) ∙ e)
      ]
      still stem p (inr n) = inr n
