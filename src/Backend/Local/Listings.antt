-- ===== src/Backend/Local/Listings.antt =====
-- storage/backends/local/local_enumerate.py: what `list_objects` gives.
use mathlib.Core.List.{Memᴰ}
use mountainash_transport.Prelude.{
  ℕ, ◌≤◌, ◌<◌, ◌≡◌, refl, sym, ap, ◌∙◌, subst, ◌⊎◌, ◌↔◌, inl, inr, false, Option, none, some, List,
  [], ◌∷◌, Result, ok, Text, ℤ, pos, pos_part, ltb_ℤ, arith, Result-cases,
}
use mountainash_transport.Errors.{Error}
use mountainash_transport.Backend.Entry.{StorageEntry, EnumerateResult}
use mountainash_transport.Backend.Walk.{Found, from}
use mountainash_transport.Backend.Walk.Ending.{weight, total}
use mountainash_transport.Backend.Walk.Enumerate.{
  count_result, enumerate-count, enumerate-Beneath, enumerate-Ends,
}
use mountainash_transport.Backend.Local.Beneath.{Beneath, Beneath-iff}
use mountainash_transport.Backend.Local.{FileSystem, Stat, dir, scan, root_of, target, list_objects}

module _ (fs : FileSystem) (fuel : ℕ) where
  -- A listing with a limit that succeeds has a limit that is not negative, and has at most so many
  -- files and prefixes.
  pub list_objects-Limited :
      (path : Text) (delimiter : Option Text) (n : ℤ) (r : EnumerateResult)
      → list_objects fs fuel path delimiter (some n) ≡ some (ok r)
      → (ltb_ℤ n (pos 0) ≡ false) × (count_result r ≤ pos_part n)
  unfolding list_objects
  list_objects-Limited path delimiter n r h =
      enumerate-count (scan fs) fuel (ok path) (target fs) delimiter n r h

  target-dir :
      (path : Text) (attrs : Stat)
      → fs.stat path ≡ ok attrs
      → attrs.kind ≡ dir
      → target fs path ≡ ok (from (root_of fs path ∷ []))
  unfolding target
  target-dir path attrs h k = ground (arith, h, k)

  -- A listing of a directory without a limit and a delimiter that succeeds has an entry exactly where
  -- it is that of a regular file in the directory, or in a directory that lies beneath it by
  -- directories that are no links and no junctions.
  pub list_objects-Exact :
      (path : Text) (attrs : Stat) (r : EnumerateResult) (e : StorageEntry)
      → fs.stat path ≡ ok attrs
      → attrs.kind ≡ dir
      → list_objects fs fuel path none none ≡ some (ok r)
      → Memᴰ e r.objects ↔ Beneath fs e (root_of fs path)
  unfolding list_objects
  list_objects-Exact path attrs r e h k g =
      let listed =
        enumerate-Beneath (scan fs) fuel (ok path) (target fs) path (root_of fs path) r e refl
          (target-dir path attrs h k) g in
      let same = Beneath-iff fs e (root_of fs path) in
      (λ m. same.0 (listed.0 m), λ b. listed.1 (same.1 b))

  target-from :
      (path : Text) (roots : List Text)
      → target fs path ≡ ok (from roots)
      → (roots ≡ []) ⊎ (roots ≡ root_of fs path ∷ [])
  unfolding target
  target-from path roots h = elim (Result-cases (fs.stat path)) [
    | inr (e, a) ↦ absurd (ground (arith, h, a))
    | inl (attrs, a) ↦ ground (arith, h, a)
  ]

  -- A listing of any path ends, with a result or an exception, with more fuel than its directory
  -- measures, where each directory measures more than those to enter in it do together.
  pub list_objects-Ends :
      (measure : Text → ℕ) (path : Text) (delimiter : Option Text) (max_results : Option ℤ)
      → ((d : Text) (found : List Found) → scan fs d ≡ ok found → weight measure found < measure d)
      → measure (root_of fs path) < fuel
      → (r : Result Error EnumerateResult) × (list_objects fs fuel path delimiter max_results
          ≡ some r)
  unfolding list_objects total
  list_objects-Ends measure path delimiter max_results small h =
      enumerate-Ends (scan fs) fuel measure (ok path) (target fs) delimiter max_results small
        (λ other roots e f. roots_small other roots (ground (arith, e)) f)
    where
      roots_small :
          (other : Text) (roots : List Text)
          → path ≡ other
          → target fs other ≡ ok (from roots)
          → total measure roots < fuel
      roots_small other roots e f = elim (target-from path roots (ap (target fs) e ∙ f)) [
        | inl a ↦ subst (λ l. total measure l < fuel) (sym a) (omega (arith, h))
        | inr a ↦ subst (λ l. total measure l < fuel) (sym a) (omega (arith, h))
      ]
