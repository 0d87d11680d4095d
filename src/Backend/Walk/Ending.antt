-- ===== src/Backend/Walk/Ending.antt =====
-- The loop of `list_objects`: that it ends.
use mountainash_transport.Prelude.{
  ℕ, zero, suc, ◌+◌, ◌≤◌, ◌<◌, ◌≡◌, refl, ap, subst, inl, inr, Bool, Option, some, List, [], ◌∷◌,
  Result, ok, err, ◌>>=◌, Text, arith, Bool-cases, Result-cases, >>=-eq-ok,
}
use mountainash_transport.Errors.{Error}
use mountainash_transport.Backend.Walk.{
  Found, found_file, found_dir, found_link, found_other, found_error, Listing, listing_from, full,
  note, visit, walk,
}

-- A measure of directories, summed over those to enter.
module _ (measure : Text → ℕ) where
  abbrev pub weight : List Found → ℕ
  weight [] = 0
  weight (found_dir x ∷ fs) = measure x.path + weight fs
  weight (_ ∷ fs) = weight fs

  weight-cons : (f : Found) (fs : List Found) → weight (f ∷ fs) ≡ weight (f ∷ []) + weight fs
  weight-cons (found_file x) fs = omega arith
  weight-cons (found_dir x) fs = omega arith
  weight-cons (found_link x) fs = omega arith
  weight-cons found_other fs = omega arith
  weight-cons (found_error x) fs = omega arith

  unfoldable pub total : List Text → ℕ
  total [] = 0
  total (p ∷ ps) = measure p + total ps

  module _ (max_results : Option ℕ) (grouped : Bool) where
    total-note :
        (f : Found) (s t : Listing)
        → note max_results grouped f s ≡ ok t
        → total t.pending ≤ total s.pending + weight (f ∷ [])
    unfolding note total
    total-note (found_file x) s t h = ground (arith, h)
    total-note (found_dir x) s t h = elim (Bool-cases grouped) [
      | inl a ↦ ground (arith, h, a)
      | inr a ↦ ground (arith, h, a)
    ]
    total-note (found_link x) s t h = ground (arith, h)
    total-note found_other s t h = ground (arith, h)
    total-note (found_error x) s t h = absurd (ground (arith, h))

    total-visit :
        (found : List Found) (s t : Listing)
        → visit max_results grouped found s ≡ ok t
        → total t.pending ≤ total s.pending + weight found
    unfolding visit
    total-visit [] s t h = ground (arith, h)
    total-visit (f ∷ fs) s t h = elim (Result-cases (note max_results grouped f s)) [
      | inr (x, a) ↦ absurd (ground (arith, h, a))
      | inl (s', a) ↦
          let one = total-note f s s' a in
          let split = weight-cons f fs in
          elim (Bool-cases (full max_results grouped s')) [
            | inl b ↦
                let same : s' ≡ t = ground (arith, h, a, b) in
                let fewer =
                  subst (λ u. total u.pending ≤ total s.pending + weight (f ∷ [])) same one in
                omega (arith, fewer, split)
            | inr b ↦ omega (arith, total-visit fs s' t (ground (arith, h, a, b)), one, split)
          ]
    ]

    module _ (scan : Text → Result Error (List Found))
        (small : (d : Text) (found : List Found)
          → scan d ≡ ok found
          → weight found < measure d) where
      Returns : ℕ → Listing → Type 0
      Returns fuel s = (r : Result Error Listing) × (walk max_results grouped scan fuel s ≡ some r)

      turn-ends :
          (fuel : ℕ) (s : Listing) (top : Text) (rest : List Text)
          → s.pending ≡ top ∷ rest
          → total s.pending < suc fuel
          → ((t : Listing) → total t.pending < fuel → Returns fuel t)
          → Returns (suc fuel) s
      unfolding walk total Returns
      turn-ends fuel s top rest e h later = elim (Bool-cases (full max_results grouped s)) [
        | inl b ↦ (ok s, ground (arith, e, b))
        | inr b ↦
            elim (Result-cases (
              scan top >>= λ found.
              visit max_results grouped found (record s { pending = rest }))) [
                | inr (x, a) ↦ (err x, ground (arith, e, b, a))
                | inl (s', a) ↦
                    let (found, c, d) = >>=-eq-ok (scan top) _ a in
                    let less = small top found c in
                    let left = total-visit found (record s { pending = rest }) s' d in
                    let whole = ap total e in
                    let (r, g) = later s' (omega (arith, less, left, whole, h)) in
                    (r, ground (arith, e, b, a, g))
              ]
      ]

      walk-ends : (fuel : ℕ) (s : Listing) → total s.pending < fuel → Returns fuel s
      unfolding walk Returns
      walk-ends zero s h = absurd (omega (arith, h))
      walk-ends (suc fuel) s h = by s.pending refl (walk-ends fuel)
        where
          by :
              (p : List Text)
              → s.pending ≡ p
              → ((t : Listing) → total t.pending < fuel → Returns fuel t)
              → Returns (suc fuel) s
          by [] e later = (ok s, ground (arith, e))
          by (top ∷ rest) e later = turn-ends fuel s top rest e h later

      pub walk-Ends :
          (fuel : ℕ) (roots : List Text)
          → total roots < fuel
          → (r : Result Error Listing) × (walk max_results grouped scan fuel (listing_from roots)
              ≡ some r)
      unfolding Returns
      walk-Ends fuel roots h = walk-ends fuel (listing_from roots) h
