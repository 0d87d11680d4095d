-- ===== src/Backend/Walk/Exact.antt =====
-- The loop of `list_objects`: which files it gives.
use mathlib.Core.List.{Memᴰ}
use mathlib.Core.List.Memᴰ.{
  head, tail, append_left, append_right, append_cases, cases_cons, eq_of_singleton, not-nil,
}
use mountainash_transport.Prelude.{
  ℕ, zero, suc, ◌≡◌, refl, sym, ap, subst, ◌⊎◌, ◌↔◌, ◌≢◌, inl, inr, false, none, some, List, [],
  ◌∷◌, ◌++◌, Result, ok, Text, arith,
}
use mountainash_transport.Errors.{Error}
use mountainash_transport.Backend.Entry.{StorageEntry}
use mountainash_transport.Backend.Walk.{
  Found, found_file, found_dir, found_link, found_other, found_error, Listing, listing_from, full,
  note, visit, walk,
}
use mountainash_transport.Backend.Walk.Turn.{walk-Turn}

-- A file of a directory, or of a directory that can be entered beneath it.
pub data Beneath (scan : Text → Result Error (List Found)) (e : StorageEntry) : Text → Type 0 where
  here :
      {d : Text} (found : List Found)
      → scan d ≡ ok found
      → Memᴰ (found_file e) found
      → Beneath scan e d
  below :
      {d : Text} (found : List Found) (x : StorageEntry)
      → scan d ≡ ok found
      → Memᴰ (found_dir x) found
      → Beneath scan e x.path
      → Beneath scan e d

module _ (scan : Text → Result Error (List Found)) (e : StorageEntry) where
  -- A listing has the file, or will come to it.
  Covers : Listing → Type 0
  Covers s = Memᴰ e s.objects ⊎ ((p : Text) × Memᴰ p s.pending × Beneath scan e p)

  Within : List Found → Type 0
  Within found =
      Memᴰ (found_file e) found
      ⊎ ((x : StorageEntry) × Memᴰ (found_dir x) found × Beneath scan e x.path)

  file_added :
      (x : StorageEntry) (s : Listing)
      → Covers s
      → Covers (record s { objects = s.objects ++ x ∷ [] })
  unfolding Covers
  file_added x s (inl m) = inl (append_left (x ∷ []) m)
  file_added x s (inr c) = inr c

  file_removed :
      (x : StorageEntry) (s : Listing)
      → Covers (record s { objects = s.objects ++ x ∷ [] })
      → Covers s ⊎ (e ≡ x)
  unfolding Covers
  file_removed x s (inl m) = elim (append_cases s.objects m) [
    | inl k ↦ inl (inl k)
    | inr k ↦ inr (eq_of_singleton k)
  ]
  file_removed x s (inr c) = inl (inr c)

  dir_added :
      (x : StorageEntry) (s : Listing)
      → Covers s ⊎ Beneath scan e x.path
      → Covers (record s { pending = x.path ∷ s.pending })
  unfolding Covers
  dir_added x s (inl (inl m)) = inl m
  dir_added x s (inl (inr (p, m, b))) = inr (p, tail m, b)
  dir_added x s (inr b) = inr (x.path, head refl, b)

  dir_removed :
      (p : Text) (s : Listing) (rest : List Text)
      → s.pending ≡ p ∷ rest
      → Covers s
      → Covers (record s { pending = rest }) ⊎ Beneath scan e p
  unfolding Covers
  dir_removed p s rest h (inl m) = inl (inl m)
  dir_removed p s rest h (inr (d, m, b)) = elim (cases_cons (subst (λ l. Memᴰ d l) h m)) [
    | inl same ↦ inr (subst (λ q. Beneath scan e q) same b)
    | inr k ↦ inl (inr (d, k, b))
  ]

  Within-skip : (f : Found) (fs : List Found) → Within fs → Within (f ∷ fs)
  unfolding Within
  Within-skip f fs (inl m) = inl (tail m)
  Within-skip f fs (inr (x, m, b)) = inr (x, tail m, b)

  -- The first entry of a directory, and the others.
  Within-cases :
      (f : Found) (fs : List Found)
      → Within (f ∷ fs)
      → (f ≡ found_file e)
        ⊎ ((x : StorageEntry) × (f ≡ found_dir x) × Beneath scan e x.path)
        ⊎ Within fs
  unfolding Within
  Within-cases f fs (inl m) = elim (cases_cons m) [
    | inl a ↦ inl (sym a)
    | inr k ↦ inr (inr (inl k))
  ]
  Within-cases f fs (inr (x, m, b)) = elim (cases_cons m) [
    | inl a ↦ inr (inl (x, sym a, b))
    | inr k ↦ inr (inr (inr (x, k, b)))
  ]

  -- What one entry adds to what a listing covers, and nothing else.
  abbrev Adds : Found → List Found → Listing → Listing → Type 0
  Adds f fs s t = (Covers s ⊎ Within (f ∷ fs)) ↔ (Covers t ⊎ Within fs)

  file-Adds :
      (x : StorageEntry) (fs : List Found) (s : Listing)
      → Adds (found_file x) fs s (record s { objects = s.objects ++ x ∷ [] })
  unfolding Covers Within
  file-Adds x fs s = (
    λ c. elim c [
      | inl k ↦ inl (file_added x s k)
      | inr w ↦ elim (Within-cases (found_file x) fs w) [
        | inl a ↦ inl (inl (append_right s.objects (head (ground (arith, a)))))
        | inr (inl (y, a, b)) ↦ absurd (ground (arith, a))
        | inr (inr k) ↦ inr k
      ]
    ],
    λ c. elim c [
      | inl k ↦ elim (file_removed x s k) [
        | inl d ↦ inl d
        | inr same ↦ inr (inl (head (ap found_file same)))
      ]
      | inr w ↦ inr (Within-skip (found_file x) fs w)
    ],
  )

  dir-Adds :
      (x : StorageEntry) (fs : List Found) (s : Listing)
      → Adds (found_dir x) fs s (record s { pending = x.path ∷ s.pending })
  unfolding Within
  dir-Adds x fs s = (
    λ c. elim c [
      | inl k ↦ inl (dir_added x s (inl k))
      | inr w ↦ elim (Within-cases (found_dir x) fs w) [
        | inl a ↦ absurd (ground (arith, a))
        | inr (inl (y, a, b)) ↦
            inl (dir_added x s (inr (subst (λ q. Beneath scan e q) (ground (arith, a)) b)))
        | inr (inr k) ↦ inr k
      ]
    ],
    λ c. elim c [
      | inl k ↦
          elim (dir_removed x.path (record s { pending = x.path ∷ s.pending }) s.pending refl k) [
            | inl d ↦ inl d
            | inr b ↦ inr (inr (x, head refl, b))
          ]
      | inr w ↦ inr (Within-skip (found_dir x) fs w)
    ],
  )

  plain-Adds :
      (f : Found) (fs : List Found) (s : Listing)
      → ((x : StorageEntry) → f ≢ found_file x)
      → ((x : StorageEntry) → f ≢ found_dir x)
      → Adds f fs s s
  plain-Adds f fs s no_file no_dir = (
    λ c. elim c [
      | inl k ↦ inl k
      | inr w ↦ elim (Within-cases f fs w) [
        | inl a ↦ absurd (no_file e a)
        | inr (inl (x, a, b)) ↦ absurd (no_dir x a)
        | inr (inr k) ↦ inr k
      ]
    ],
    λ c. elim c [ inl k ↦ inl k | inr w ↦ inr (Within-skip f fs w) ],
  )

  and_then : {A B C : Type 0} → A ↔ B → B ↔ C → A ↔ C
  and_then (f, g) (h, k) = (λ a. h (f a), λ c. g (k c))

  visit-Covers :
      (found : List Found) (s t : Listing)
      → visit none false found s ≡ ok t
      → (Covers s ⊎ Within found) ↔ Covers t
  unfolding visit note full Covers Within
  visit-Covers [] s t h =
      let same : s ≡ t = ground (arith, h) in
      (
        λ c. elim c [
          | inl k ↦ subst (λ u. Covers u) same k
          | inr (inl m) ↦ absurd (not-nil m)
          | inr (inr (x, m, b)) ↦ absurd (not-nil m)
        ],
        λ k. inl (subst (λ u. Covers u) (sym same) k),
      )
  visit-Covers (found_file x ∷ fs) s t h = and_then (file-Adds x fs s) (visit-Covers fs _ t h)
  visit-Covers (found_dir x ∷ fs) s t h = and_then (dir-Adds x fs s) (visit-Covers fs _ t h)
  visit-Covers (found_link x ∷ fs) s t h =
      and_then
        (plain-Adds (found_link x) fs s (λ y a. ground (arith, a)) (λ y a. ground (arith, a)))
        (visit-Covers fs s t h)
  visit-Covers (found_other ∷ fs) s t h =
      and_then (plain-Adds found_other fs s (λ y a. ground (arith, a)) (λ y a. ground (arith, a)))
        (visit-Covers fs s t h)
  visit-Covers (found_error x ∷ fs) s t h = absurd (ground (arith, h))

  Beneath-found :
      {d : Text} → Beneath scan e d → (found : List Found) → scan d ≡ ok found → Within found
  unfolding Within
  Beneath-found (here f g m) found h =
      let same : f ≡ found = ground (arith, g, h) in inl (subst (λ l. Memᴰ (found_file e) l) same m)
  Beneath-found (below f x g m b) found h =
      let same : f ≡ found = ground (arith, g, h) in
      inr (x, subst (λ l. Memᴰ (found_dir x) l) same m, b)

  Within-Beneath :
      (d : Text) (found : List Found) → scan d ≡ ok found → Within found → Beneath scan e d
  unfolding Within
  Within-Beneath d found h (inl m) = here found h m
  Within-Beneath d found h (inr (x, m, b)) = below found x h m b

  top-Covers :
      (s : Listing) (top : Text) (rest : List Text) (found : List Found)
      → s.pending ≡ top ∷ rest
      → scan top ≡ ok found
      → Covers s ↔ (Covers (record s { pending = rest }) ⊎ Within found)
  unfolding Covers
  top-Covers s top rest found p h = (
    λ c. elim (dir_removed top s rest p c) [
      | inl k ↦ inl k
      | inr b ↦ inr (Beneath-found b found h)
    ],
    λ c. elim c [
      | inl (inl m) ↦ inl m
      | inl (inr (d, m, b)) ↦ inr (d, subst (λ l. Memᴰ d l) (sym p) (tail m), b)
      | inr w ↦ inr (top, subst (λ l. Memᴰ top l) (sym p) (head refl), Within-Beneath top found h w)
    ],
  )

  walk-Covers :
      (fuel : ℕ) (s t : Listing)
      → walk none false scan fuel s ≡ some (ok t)
      → Covers s ↔ Memᴰ e t.objects
  unfolding walk full Covers
  walk-Covers zero s t h = absurd (ground (arith, h))
  walk-Covers (suc fuel) s t h = elim (walk-Turn none false scan fuel s t h) [
    | inl (a, inl b) ↦ (
      λ c. elim c [
        | inl m ↦ subst (λ u. Memᴰ e u.objects) a m
        | inr (p, m, d) ↦ absurd (not-nil (subst (λ l. Memᴰ p l) b m))
      ],
      λ m. inl (subst (λ u. Memᴰ e u.objects) (sym a) m),
    )
    | inl (a, inr b) ↦ absurd (ground (arith, b))
    | inr m ↦ and_then (top-Covers s m.top m.rest m.found m.popped m.scanned) (
        and_then (visit-Covers m.found (record s { pending = m.rest }) m.next m.visited)
          (walk-Covers fuel m.next t m.walked))
  ]

  -- A listing without a limit and without grouping that ends has just the files beneath its root.
  pub walk-Beneath :
      (fuel : ℕ) (root : Text) (t : Listing)
      → walk none false scan fuel (listing_from (root ∷ [])) ≡ some (ok t)
      → Memᴰ e t.objects ↔ Beneath scan e root
  unfolding Covers
  walk-Beneath fuel root t h =
      let (f, g) = walk-Covers fuel (listing_from (root ∷ [])) t h in
      (
        λ m. elim (g m) [
          | inl n ↦ absurd (not-nil n)
          | inr (p, n, b) ↦ subst (λ q. Beneath scan e q) (eq_of_singleton n) b
        ],
        λ b. f (inr (root, head refl, b)),
      )
