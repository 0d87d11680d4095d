-- ===== src/Location/Tree/Walk.antt =====
-- The directories that a walk of a tree has scanned, and those that can be reached from its top.
use mountainash_transport.Prelude.{
  ℕ, zero, suc, ◌≡◌, refl, ap, ◌∙◌, sym, subst, inl, inr, true, Bool-cases, ◌||◌, some, List, [],
  ◌∷◌, ◌++◌, map, Text, text_eq, text_beq_iff, contains, ok, ◌is◌, arith,
}
use mountainash_transport.Location.Schemes.{Platform}
use mountainash_transport.Location.Tree.{all_inside, dirnames, entries, walk}

-- Directories of one real path have the same entries, and each entry has one real path.
pub record IsOneTree (P : Platform) : Type 0 where
  pub scanned_alike : (d e : Text) → P.realpath d ≡ P.realpath e → P.scandir d ≡ P.scandir e
  pub joined_alike :
      (d e name : Text)
      → P.realpath d ≡ P.realpath e
      → P.realpath (P.join d name) ≡ P.realpath (P.join e name)

module _ (P : Platform) where
  -- Directories that are reached from the top, links followed.
  pub data Reaches (top : Text) : Text → Type 0 where
    at_top : Reaches top top
    below :
        (dir name : Text)
        → Reaches top dir
        → contains (dirnames P dir) name ≡ true
        → Reaches top (P.join dir name)

  abbrev reals : List Text → List Text
  reals dirs = map P.realpath dirs

  -- Scanned, or still to be visited.
  abbrev Known : List Text → List Text → Text → Type 0
  Known scanned pending real =
      (contains (reals scanned) real || contains (reals pending) real) ≡ true

  abbrev KnownBelow : List Text → List Text → Text → List Text → Type 0
  KnownBelow scanned pending dir names =
      (name : Text)
      → contains names name ≡ true
      → Known scanned pending (P.realpath (P.join dir name))

  abbrev Scanned : Text → List Text → List Text → List Text → Type 0
  Scanned root scanned pending [] = Unit
  Scanned root scanned pending (dir ∷ dirs) =
      (all_inside P root dir (entries P dir) ≡ true)
      × KnownBelow scanned pending dir (dirnames P dir)
      × Scanned root scanned pending dirs

  Scanned-weaken :
      (root : Text) (s p s' p' dirs : List Text)
      → ((x : Text) → Known s p x → Known s' p' x)
      → Scanned root s p dirs
      → Scanned root s' p' dirs
  Scanned-weaken root s p s' p' [] f h = tt
  Scanned-weaken root s p s' p' (dir ∷ dirs) f h =
      (h.0, (λ name k. f _ (h.1 name k)), Scanned-weaken root s p s' p' dirs f h.2)

  contains-append :
      (xs ys : List Text) (x : Text)
      → contains (reals (xs ++ ys)) x ≡ (contains (reals xs) x || contains (reals ys) x)
  contains-append [] ys x = refl
  contains-append (y ∷ xs) ys x = ground (arith, contains-append xs ys x)

  contains-joined :
      (dir : Text) (names : List Text) (name : Text)
      → contains names name ≡ true
      → contains (reals (map (P.join dir) names)) (P.realpath (P.join dir name)) ≡ true
  contains-joined dir [] name h = absurd (ground (arith, h))
  contains-joined dir (n ∷ names) name h = elim (Bool-cases (name is n)) [
    | inl q ↦
        let e : name ≡ n = (text_beq_iff name n).0 q in
        let self : (P.realpath (P.join dir name) is P.realpath (P.join dir n)) ≡ true =
          (text_beq_iff (P.realpath (P.join dir name)) (P.realpath (P.join dir n))).1
            (ap (λ t. P.realpath (P.join dir t)) e) in
        ground (arith, self)
    | inr q ↦ ground (arith, q, h, contains-joined dir names name)
  ]

  -- What holds of the directories scanned in the end.
  record Done (root : Text) (scanned pending found : List Text) : Type 0 where
    scans : Scanned root found [] found
    grows : (x : Text) → Known scanned pending x → contains (reals found) x ≡ true

  pruned-Known :
      (dir : Text) (s p : List Text)
      → contains (reals s) (P.realpath dir) ≡ true
      → (x : Text) → Known s (dir ∷ p) x
      → Known s p x
  pruned-Known dir s p q x k = elim (Bool-cases (x is P.realpath dir)) [
    | inl e ↦
        let same : P.realpath dir ≡ x = sym ((text_beq_iff x (P.realpath dir)).0 e) in
        let found : contains (reals s) x ≡ true = subst (λ t. contains (reals s) t ≡ true) same q in
        ground (arith, found)
    | inr e ↦ ground (arith, e, k)
  ]

  deeper-Known :
      (dir : Text) (s p : List Text) (x : Text)
      → Known s (dir ∷ p) x
      → Known (dir ∷ s) (map (P.join dir) (dirnames P dir) ++ p) x
  deeper-Known dir s p x k =
      ground (arith, k, contains-append (map (P.join dir) (dirnames P dir)) p x)

  below-Known :
      (dir : Text) (s p : List Text)
      → KnownBelow (dir ∷ s) (map (P.join dir) (dirnames P dir) ++ p) dir (dirnames P dir)
  below-Known dir s p name k =
      let real = P.realpath (P.join dir name) in
      ground (
        arith,
        contains-joined dir (dirnames P dir) name k,
        contains-append (map (P.join dir) (dirnames P dir)) p real,
      )

  walk-Done :
      (fuel : ℕ) (root : Text) (scanned pending found : List Text)
      → Scanned root scanned pending scanned
      → walk P fuel root scanned pending ≡ some (ok found)
      → Done root scanned pending found
  unfolding walk
  walk-Done zero root scanned pending found h e = absurd (ground (arith, e))
  walk-Done (suc fuel) root scanned [] found h e =
      let same : scanned ≡ found = ground (arith, e) in
      subst (Done root scanned []) same (record { scans = h; grows = λ x k. ground (arith, k) })
  walk-Done (suc fuel) root scanned (dir ∷ pending) found h e =
      elim (Bool-cases (contains (reals scanned) (P.realpath dir))) [
        | inl q ↦
            let f = pruned-Known dir scanned pending q in
            let d =
              walk-Done fuel root scanned pending found
                (Scanned-weaken root scanned (dir ∷ pending) scanned pending scanned f h)
                (ground (arith, q, e)) in
            record { scans = d.scans; grows = λ x k. d.grows x (f x k) }
        | inr q ↦ elim (Bool-cases (all_inside P root dir (entries P dir))) [
          | inl a ↦
              let next = map (P.join dir) (dirnames P dir) ++ pending in
              let f = deeper-Known dir scanned pending in
              let d =
                walk-Done fuel root (dir ∷ scanned) next found
                  (
                    a,
                    below-Known dir scanned pending,
                    Scanned-weaken root scanned (dir ∷ pending) (dir ∷ scanned) next scanned f h,
                  )
                  (ground (arith, q, a, e)) in
              record { scans = d.scans; grows = λ x k. d.grows x (f x k) }
          | inr a ↦ absurd (ground (arith, q, a, e))
        ]
      ]

  -- A directory that was scanned, with this real path.
  abbrev Found : Text → List Text → Text → Type 0
  Found root found real =
      (dir : Text) × (real ≡ P.realpath dir)
      × (all_inside P root dir (entries P dir) ≡ true)
      × KnownBelow found [] dir (dirnames P dir)

  find :
      (root real : Text) (found dirs : List Text)
      → Scanned root found [] dirs
      → contains (reals dirs) real ≡ true
      → Found root found real
  find root real found [] h k = absurd (ground (arith, k))
  find root real found (dir ∷ dirs) h k = elim (Bool-cases (real is P.realpath dir)) [
    | inl q ↦ (dir, (text_beq_iff real (P.realpath dir)).0 q, h.0, h.1)
    | inr q ↦ find root real found dirs h.2 (ground (arith, q, k))
  ]

  all_inside-alike :
      (root d e : Text) (names : List Text)
      → IsOneTree P
      → P.realpath d ≡ P.realpath e
      → all_inside P root d names ≡ all_inside P root e names
  unfolding all_inside
  all_inside-alike root d e [] t s = refl
  all_inside-alike root d e (name ∷ names) t s =
      ground (arith, t.joined_alike d e name s, all_inside-alike root d e names t s)

  reached-Known :
      (root top dir : Text) (found : List Text)
      → IsOneTree P
      → Scanned root found [] found
      → contains (reals found) (P.realpath top) ≡ true
      → Reaches top dir
      → contains (reals found) (P.realpath dir) ≡ true
  reached-Known root top dir found t h k at_top = k
  reached-Known root top dir found t h k (below parent name r member) =
      let (d, same, inside, deeper) =
        find root (P.realpath parent) found found h (reached-Known root top parent found t h k r) in
      let listed : contains (dirnames P d) name ≡ true =
        subst (λ s. contains s.0 name ≡ true) (t.scanned_alike parent d same) member in
      let there = deeper name listed in ground (arith, there, t.joined_alike parent d name same)

  -- Where the walk of `_check_tree` ends without a refusal, every entry of every directory that can be
  -- reached from the top, links to directories followed, has a real path within the root. Directories
  -- of one real path are assumed to have the same entries.
  pub walk-inside :
      (fuel : ℕ) (root top dir : Text) (found : List Text)
      → IsOneTree P
      → walk P fuel root [] (top ∷ []) ≡ some (ok found)
      → Reaches top dir
      → all_inside P root dir (entries P dir) ≡ true
  walk-inside fuel root top dir found t e r =
      let done = walk-Done fuel root [] (top ∷ []) found tt e in
      let self : (P.realpath top is P.realpath top) ≡ true =
        (text_beq_iff (P.realpath top) (P.realpath top)).1 refl in
      let k = done.grows (P.realpath top) (ground (arith, self)) in
      let (d, same, inside, deeper) =
        find root (P.realpath dir) found found done.scans
          (reached-Known root top dir found t done.scans k r) in
      let names : entries P dir ≡ entries P d = ap (λ s. s.0 ++ s.1) (t.scanned_alike dir d same) in
      ap (all_inside P root dir) names ∙ all_inside-alike root dir d (entries P d) t same ∙ inside
