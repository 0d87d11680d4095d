-- ===== src/Location/Redaction/Authority.antt =====
-- The authority of a redacted location.
use mountainash_transport.Prelude.{
  ℕ, ◌≡◌, refl, subst, ap, ◌&&◌, ◌∙◌, sym, ◌⊎◌, inl, inr, true, false, Bool-cases, Option,
  Option-cases, none, some, [], ◌∷◌, ◌++◌, Text, ◌==◌, contains, nat_eq, arith,
}
use mountainash_transport.Location.Redaction.{
  cleaned, prefixed, split_slashes, is_end, split_authority, after_at, redact_authority,
  redact_from, redact,
}

-- The authority of a location, as urllib reads it: what stands between the first `//` and the end.
abbrev pub authority : Text → Text
authority text = elim (split_slashes text) [ none ↦ [] | some parts ↦ (split_authority parts.1).0 ]

-- A text that no authority goes on in.
abbrev Ends : Text → Type 0
Ends [] = Unit
Ends (c ∷ text) = is_end c ≡ true

abbrev Inner : Text → Type 0
Inner [] = Unit
Inner (c ∷ text) = (is_end c ≡ false) × Inner text

split_authority-Ends :
    (text : Text) → Inner (split_authority text).0 × Ends (split_authority text).1
unfolding split_authority
split_authority-Ends [] = (tt, tt)
split_authority-Ends (c ∷ text) = ground (arith, split_authority-Ends text)

split_authority-append :
    (inner rest : Text) → Inner inner → Ends rest → (split_authority (inner ++ rest)).0 ≡ inner
unfolding split_authority
split_authority-append [] [] i e = refl
split_authority-append [] (c ∷ rest) i e = rw e refl
split_authority-append (c ∷ inner) rest i e =
    ground (arith, i, split_authority-append inner rest i.1 e)

after_at-Inner : (text : Text) → Inner text → Inner (after_at text)
unfolding after_at
after_at-Inner [] i = tt
after_at-Inner (c ∷ text) i = ground (arith, after_at-Inner text i.1)

contains-after_at : (text : Text) → contains (after_at text) b'@' ≡ false
unfolding after_at
contains-after_at [] = refl
contains-after_at (c ∷ text) = ground (arith, contains-after_at text)

-- Not both are slashes, so the cut is later.
later :
    (c d : ℕ) (front rest : Text)
    → ((c == b'/') ≡ false) ⊎ ((d == b'/') ≡ false)
    → split_slashes (d ∷ (front ++ rest)) ≡ some (d ∷ front, rest)
    → split_slashes (c ∷ d ∷ (front ++ rest)) ≡ some (c ∷ d ∷ front, rest)
unfolding split_slashes prefixed
later c d front rest (inl q) e = ground (arith, q, e)
later c d front rest (inr q) e = ground (arith, q, e)

split_slashes-head :
    (d : ℕ) (text front rest : Text)
    → split_slashes (d ∷ text) ≡ some (front, rest)
    → (g : Text) × (d ∷ g ≡ front)
unfolding split_slashes prefixed
split_slashes-head d [] front rest e = absurd (ground (arith, e))
split_slashes-head d (x ∷ text) front rest e = elim (Option-cases (split_slashes (x ∷ text))) [
  | inl q ↦ (x ∷ [], ground (arith, q, e))
  | inr ((f, r), q) ↦ elim (Bool-cases (d == b'/')) [
    | inl a ↦ elim (Bool-cases (x == b'/')) [
      | inl b ↦ (x ∷ [], ground (arith, a, b, q, e))
      | inr b ↦ (f, ground (arith, a, b, q, e))
    ]
    | inr a ↦ (f, ground (arith, a, q, e))
  ]
]

IsCut : Text → Text → Type 0
IsCut other front = split_slashes (front ++ other) ≡ some (front, other)

split_slashes-append :
    (text front rest other : Text) → split_slashes text ≡ some (front, rest) → IsCut other front
unfolding split_slashes prefixed IsCut
split_slashes-append [] front rest other e = absurd (ground (arith, e))
split_slashes-append (c ∷ []) front rest other e = absurd (ground (arith, e))
split_slashes-append (c ∷ d ∷ text) front rest other e =
    elim (Bool-cases ((c == b'/') && (d == b'/'))) [
      | inl q ↦
          let f : c ∷ d ∷ [] ≡ front = ground (arith, q, e) in
          subst (IsCut other) f (ground (arith, q))
      | inr q ↦ elim (Option-cases (split_slashes (d ∷ text))) [
        | inl none_left ↦ absurd (ground (arith, q, none_left, e))
        | inr ((f, r), found) ↦
            let same : c ∷ f ≡ front = ground (arith, q, found, e) in
            let (g, head) = split_slashes-head d text f r found in
            let ih : IsCut other (d ∷ g) =
              subst (IsCut other) (sym head) (split_slashes-append (d ∷ text) f r other found) in
            subst (IsCut other) (ap (λ t. c ∷ t) head ∙ same)
              (later c d g other (ground (arith, q)) ih)
      ]
    ]

redact_from-clean :
    (text : Text) (parts : Option (Text × Text))
    → split_slashes text ≡ parts
    → contains (authority (redact_from text parts)) b'@' ≡ false
unfolding redact_from redact_authority
redact_from-clean text none e =
    ap (λ o. contains (elim o [ none ↦ [] | some parts ↦ (split_authority parts.1).0 ]) b'@') e
redact_from-clean text (some (front, rest)) e =
    let cut = split_authority-Ends rest in
    let inner = after_at (split_authority rest).0 in
    let redacted = inner ++ (split_authority rest).1 in
    let k : split_slashes (front ++ redacted) ≡ some (front, redacted) =
      unfold IsCut in split_slashes-append text front rest redacted e in
    let a : (split_authority redacted).0 ≡ inner =
      split_authority-append inner (split_authority rest).1
        (after_at-Inner (split_authority rest).0 cut.0) cut.1 in
    ap (λ o. contains (elim o [ none ↦ [] | some parts ↦ (split_authority parts.1).0 ]) b'@') k
    ∙ ap (λ t. contains t b'@') a
    ∙ contains-after_at (split_authority rest).0

-- Whatever the location, the authority of the redacted one (what stands between its first `//` and
-- the next `/`, `?` or `#`) has no `@`, so no user info is shown.
pub contains-redact : (location : Text) → contains (authority (redact location)) b'@' ≡ false
unfolding redact
contains-redact location =
    redact_from-clean (cleaned location) (split_slashes (cleaned location)) refl
