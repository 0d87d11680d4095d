-- ===== src/Backend/Walk/Limit.antt =====
-- The loop of `list_objects`: how many entries it gives.
use mountainash_transport.Prelude.{
  ℕ, zero, suc, ◌+◌, ◌≤◌, ◌≡◌, subst, inl, inr, Bool, false, some, List, [], ◌∷◌, Result, ok,
  length, length-append, Text, arith, Bool-cases, Result-cases,
}
use mountainash_transport.Errors.{Error}
use mountainash_transport.Backend.Walk.{
  Found, found_file, found_dir, found_link, found_other, found_error, Listing, full, note, visit,
  walk,
}
use mountainash_transport.Backend.Walk.Turn.{walk-Turn}

abbrev pub count : Listing → ℕ
count s = length s.objects + length s.prefixes

module _ (limit : ℕ) (grouped : Bool) where
  count-note :
      (f : Found) (s t : Listing) → note (some limit) grouped f s ≡ ok t → count t ≤ count s + 1
  unfolding note
  count-note (found_file e) s t h = ground (arith, h, length-append s.objects (e ∷ []))
  count-note (found_dir e) s t h = ground (arith, h, length-append s.prefixes (e ∷ []))
  count-note (found_link e) s t h = ground (arith, h, length-append s.prefixes (e ∷ []))
  count-note found_other s t h = ground (arith, h)
  count-note (found_error x) s t h = absurd (ground (arith, h))

  count-visit :
      (fs : List Found) (s t : Listing)
      → full (some limit) grouped s ≡ false
      → visit (some limit) grouped fs s ≡ ok t
      → count t ≤ limit
  unfolding visit full
  count-visit [] s t g h = ground (arith, g, h)
  count-visit (f ∷ fs) s t g h = elim (Result-cases (note (some limit) grouped f s)) [
    | inr (x, a) ↦ absurd (ground (arith, h, a))
    | inl (s', a) ↦ elim (Bool-cases (full (some limit) grouped s')) [
      | inl b ↦ ground (arith, g, h, a, b, count-note f s s' a)
      | inr b ↦ count-visit fs s' t b (ground (arith, h, a, b))
    ]
  ]

  pub count-walk :
      (scan : Text → Result Error (List Found)) (fuel : ℕ) (s t : Listing)
      → count s ≤ limit
      → walk (some limit) grouped scan fuel s ≡ some (ok t)
      → count t ≤ limit
  unfolding walk full
  count-walk scan zero s t g h = absurd (ground (arith, h))
  count-walk scan (suc fuel) s t g h = elim (walk-Turn (some limit) grouped scan fuel s t h) [
    | inl (a, b) ↦ subst (λ u. count u ≤ limit) a g
    | inr m ↦
        count-walk scan fuel m.next t
          (count-visit m.found (record s { pending = m.rest }) m.next (m.goes_on) m.visited)
          m.walked
  ]
