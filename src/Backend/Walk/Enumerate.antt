-- ===== src/Backend/Walk/Enumerate.antt =====
-- What `list_objects` gives, of storage/backends/local/local_enumerate.py and
-- storage/backends/sftp/sftp_enumerate.py.
use mathlib.Core.List.{Memᴰ}
use mountainash_transport.Prelude.{
  ℕ, ◌+◌, ◌≤◌, ◌<◌, ◌≡◌, refl, subst, ◌↔◌, inl, inr, Bool, false, Option, none, some, List, [], ◌∷◌,
  Result, ok, err, length, Text, text_eq, ℤ, pos, pos_part, ltb_ℤ, arith, Bool-cases, Option-cases,
  Result-cases,
}
use mountainash_transport.Errors.{Error, value_error}
use mountainash_transport.Backend.Entry.{StorageEntry, EnumerateResult}
use mountainash_transport.Backend.Walk.{
  Found, Listing, listing_from, full, walk, Target, nothing, one_file, from, select, enumerate,
  limit_of, is_given, is_negative, bad_delimiter, empty,
}
use mountainash_transport.Backend.Walk.Limit.{count-walk}
use mountainash_transport.Backend.Walk.Exact.{Beneath, walk-Beneath}
use mountainash_transport.Backend.Walk.Ending.{weight, total, walk-Ends}

abbrev pub count_result : EnumerateResult → ℕ
count_result r = length r.objects + length r.common_prefixes

nonzero : (m : ℕ) (g : Bool) → full (some m) g (listing_from []) ≡ false → 1 ≤ m
unfolding full
nonzero m g d = ground (arith, d)

module _ (scan : Text → Result Error (List Found)) (fuel : ℕ) where
  select-count :
      (limit : ℕ) (grouped : Bool) (target : Result Error Target) (r : EnumerateResult)
      → 1 ≤ limit
      → select scan fuel (some limit) grouped target ≡ some (ok r)
      → count_result r ≤ limit
  unfolding select
  select-count limit grouped (err x) r h g = absurd (ground (arith, g))
  select-count limit grouped (ok nothing) r h g = ground (arith, g, h)
  select-count limit grouped (ok (one_file e)) r h g = ground (arith, g, h)
  select-count limit grouped (ok (from roots)) r h g =
      elim (Option-cases (walk (some limit) grouped scan fuel (listing_from roots))) [
        | inl a ↦ absurd (ground (arith, g, a))
        | inr (ok s, a) ↦
            ground (
              arith,
              g,
              a,
              count-walk limit grouped scan fuel (listing_from roots) s (omega arith) a,
            )
        | inr (err x, a) ↦ absurd (ground (arith, g, a))
      ]

  pub enumerate-count :
      (prepared : Result Error Text) (target : Text → Result Error Target) (delimiter : Option Text)
      (n : ℤ) (r : EnumerateResult)
      → enumerate scan fuel prepared target delimiter (some n) ≡ some (ok r)
      → (ltb_ℤ n (pos 0) ≡ false) × (count_result r ≤ pos_part n)
  unfolding enumerate
  enumerate-count prepared target delimiter n r h = elim (Bool-cases (bad_delimiter delimiter)) [
    | inl a ↦ absurd (ground (arith, h, a))
    | inr a ↦ elim (Bool-cases (ltb_ℤ n (pos 0))) [
      | inl b ↦ absurd (ground (arith, h, a, b))
      | inr b ↦ elim (Result-cases prepared) [
        | inr (x, c) ↦ absurd (ground (arith, h, a, b, c))
        | inl (path, c) ↦
            elim (Bool-cases (full (some (pos_part n)) (is_given delimiter) (listing_from []))) [
              | inl d ↦ (b, ground (arith, h, a, b, c, d))
              | inr d ↦ (
                b,
                select-count (pos_part n) (is_given delimiter) (target path) r
                    (nonzero (pos_part n) (is_given delimiter) d) (ground (arith, h, a, b, c, d)),
              )
            ]
      ]
    ]
  ]

  full-none : (g : Bool) (s : Listing) → full none g s ≡ false
  unfolding full
  full-none g s = refl

  -- Without a limit and a delimiter, and where the path is a directory.
  enumerate-walk :
      (prepared : Result Error Text) (target : Text → Result Error Target) (path root : Text)
      (r : EnumerateResult)
      → prepared ≡ ok path
      → target path ≡ ok (from (root ∷ []))
      → enumerate scan fuel prepared target none none ≡ some (ok r)
      → (t : Listing) × (walk none false scan fuel (listing_from (root ∷ [])) ≡ some (ok t))
        × (t.objects ≡ r.objects)
  unfolding enumerate select
  enumerate-walk prepared target path root r p g h =
      let f = full-none false (listing_from []) in
      elim (Option-cases (walk none false scan fuel (listing_from (root ∷ [])))) [
        | inl a ↦ absurd (ground (arith, p, g, h, f, a))
        | inr (err x, a) ↦ absurd (ground (arith, p, g, h, f, a))
        | inr (ok t, a) ↦ (t, a, ground (arith, p, g, h, f, a))
      ]

  pub enumerate-Beneath :
      (prepared : Result Error Text) (target : Text → Result Error Target) (path root : Text)
      (r : EnumerateResult) (e : StorageEntry)
      → prepared ≡ ok path
      → target path ≡ ok (from (root ∷ []))
      → enumerate scan fuel prepared target none none ≡ some (ok r)
      → Memᴰ e r.objects ↔ Beneath scan e root
  enumerate-Beneath prepared target path root r e p g h =
      let (t, a, b) = enumerate-walk prepared target path root r p g h in
      subst (λ l. Memᴰ e l ↔ Beneath scan e root) b (walk-Beneath scan e fuel root t a)

  select-Ends :
      (measure : Text → ℕ) (limit : Option ℕ) (grouped : Bool) (target : Result Error Target)
      → ((d : Text) (found : List Found) → scan d ≡ ok found → weight measure found < measure d)
      → ((roots : List Text) → target ≡ ok (from roots) → total measure roots < fuel)
      → (r : Result Error EnumerateResult) × (select scan fuel limit grouped target ≡ some r)
  unfolding select
  select-Ends measure limit grouped (err x) small start = (err x, refl)
  select-Ends measure limit grouped (ok nothing) small start = (ok empty, refl)
  select-Ends measure limit grouped (ok (one_file e)) small start =
      (ok (record { objects = e ∷ []; common_prefixes = [] }), refl)
  select-Ends measure limit grouped (ok (from roots)) small start =
      let (x, a) = walk-Ends measure limit grouped scan small fuel roots (start roots refl) in
      elim (Result-cases x) [
        | inl (s, b) ↦ (
          ok (record { objects = s.objects; common_prefixes = s.prefixes }),
          ground (arith, a, b),
        )
        | inr (e, b) ↦ (err e, ground (arith, a, b))
      ]

  pub enumerate-Ends :
      (measure : Text → ℕ) (prepared : Result Error Text) (target : Text → Result Error Target)
      (delimiter : Option Text) (max_results : Option ℤ)
      → ((d : Text) (found : List Found) → scan d ≡ ok found → weight measure found < measure d)
      → ((path : Text) (roots : List Text)
          → prepared ≡ ok path
          → target path ≡ ok (from roots)
          → total measure roots < fuel)
      → (r : Result Error EnumerateResult) × (enumerate scan fuel prepared target delimiter
            max_results
          ≡ some r)
  unfolding enumerate
  enumerate-Ends measure prepared target delimiter max_results small start =
      elim (Bool-cases (bad_delimiter delimiter)) [
        | inl a ↦ (err value_error, ground (arith, a))
        | inr a ↦ elim (Bool-cases (is_negative max_results)) [
          | inl b ↦ (err value_error, ground (arith, a, b))
          | inr b ↦ elim (Result-cases prepared) [
            | inr (x, c) ↦ (err x, ground (arith, a, b, c))
            | inl (path, c) ↦
                elim (Bool-cases
                  (full (limit_of max_results) (is_given delimiter) (listing_from []))) [
                    | inl d ↦ (ok empty, ground (arith, a, b, c, d))
                    | inr d ↦
                        let (r, g) =
                          select-Ends measure (limit_of max_results) (is_given delimiter)
                            (target path) small (λ roots. start path roots c) in
                        (r, ground (arith, a, b, c, d, g))
                  ]
          ]
        ]
      ]
