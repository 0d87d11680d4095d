-- ===== src/Backend/Walk/Turn.antt =====
-- The loop of `list_objects`, a turn at a time.
use mountainash_transport.Prelude.{
  ℕ, suc, ◌≡◌, refl, ◌⊎◌, inl, inr, Bool, true, false, Option, some, List, [], ◌∷◌, Result, ok,
  ◌>>=◌, Text, arith, Bool-cases, >>=-eq-ok, Result-cases,
}
use mountainash_transport.Errors.{Error}
use mountainash_transport.Backend.Walk.{Found, Listing, full, visit, walk}

module _ (max_results : Option ℕ) (grouped : Bool) (scan : Text → Result Error (List Found)) where
  pub record Turn (fuel : ℕ) (s t : Listing) : Type 0 where
    pub top : Text
    pub rest : List Text
    pub found : List Found
    pub next : Listing
    pub popped : s.pending ≡ top ∷ rest
    pub goes_on : full max_results grouped s ≡ false
    pub scanned : scan top ≡ ok found
    pub visited : visit max_results grouped found (record s { pending = rest }) ≡ ok next
    pub walked : walk max_results grouped scan fuel next ≡ some (ok t)

  pub walk-Turn :
      (fuel : ℕ) (s t : Listing)
      → walk max_results grouped scan (suc fuel) s ≡ some (ok t)
      → ((s ≡ t) × ((s.pending ≡ []) ⊎ (full max_results grouped s ≡ true))) ⊎ Turn fuel s t
  unfolding walk
  walk-Turn fuel s t h = by s.pending refl
    where
      by :
          (p : List Text)
          → s.pending ≡ p
          → ((s ≡ t) × ((s.pending ≡ []) ⊎ (full max_results grouped s ≡ true))) ⊎ Turn fuel s t
      by [] e = inl (ground (arith, e, h), inl e)
      by (top ∷ rest) e = elim (Bool-cases (full max_results grouped s)) [
        | inl b ↦ inl (ground (arith, e, h, b), inr b)
        | inr b ↦
            elim (Result-cases (
              scan top >>= λ found.
              visit max_results grouped found (record s { pending = rest }))) [
                | inr (x, a) ↦ absurd (ground (arith, e, h, b, a))
                | inl (s', a) ↦
                    let (found, c, d) = >>=-eq-ok (scan top) _ a in
                    inr (record {
                      top = top;
                      rest = rest;
                      found = found;
                      next = s';
                      popped = e;
                      goes_on = b;
                      scanned = c;
                      visited = d;
                      walked = ground (arith, e, h, b, a);
                    })
              ]
      ]
