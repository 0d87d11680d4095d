-- ===== src/Stream/Ranged/Slices.antt =====
-- Fetches of ranges against the object that they are taken from.
use mountainash_transport.Prelude.{
  ℕ, ◌-◌, ◌≤◌, min, ◌≡◌, ◌∙◌, sym, ap, inl, inr, true, false, Bool-cases, [], ◌++◌, Result, ok,
  Result-cases, length, drop, slice, leb, arith, length-take, length-drop, take_all, prefix_full,
}
use mountainash_transport.Errors.{Error}
use mountainash_transport.Stream.Sequential.{Bytes}
use mountainash_transport.Stream.Ranged.{RangedSource, fetch_range}

-- A source of ranges of `object` whose answers may be cut short, but are never other bytes.
pub record IsTruthful (source : RangedSource) (object : Bytes) : Type 0 where
  pub sized : source.size ≡ length object
  pub cut :
      (a b : ℕ) (bytes : Bytes)
      → source.fetch a b ≡ ok bytes
      → (rest : Bytes) × (bytes ++ rest ≡ slice a b object)

-- A fetcher whose answers are the ranges that it was asked for.
abbrev pub IsExact : (ℕ → ℕ → Result Error Bytes) → Bytes → Type 0
IsExact fetch object = (a b : ℕ) (bytes : Bytes) → fetch a b ≡ ok bytes → bytes ≡ slice a b object

-- A range beyond the end of the object holds what lies before the end.
slice-min : (a b : ℕ) (xs : Bytes) → slice a (min b (length xs)) xs ≡ slice a b xs
slice-min a b xs = elim (Bool-cases (leb b (length xs))) [
  | inl h ↦ let e : min b (length xs) ≡ b = omega (arith, inside h) in rw e
  | inr h ↦
      let e : min b (length xs) ≡ length xs = omega (arith, beyond h) in
      rw e (
        take_all _ _ (omega (arith, length-drop a xs))
        ∙ sym (take_all _ _ (omega (arith, length-drop a xs, beyond h))))
]
  where
    inside : leb b (length xs) ≡ true → b ≤ length xs
    inside h = ground arith

    beyond : leb b (length xs) ≡ false → length xs ≤ b
    beyond h = ground arith

slice-empty : (a b : ℕ) (xs : Bytes) → min b (length xs) ≤ a → slice a b xs ≡ []
slice-empty a b xs h =
    sym (slice-min a b xs) ∙ (let e : min b (length xs) - a ≡ 0 = omega arith in rw e)

exactly-whole :
    (n : ℕ) (bytes rest whole : Bytes)
    → bytes ++ rest ≡ whole
    → length whole ≤ n
    → length bytes ≡ n
    → bytes ≡ whole
exactly-whole n bytes rest whole e fits full = prefix_full bytes rest whole e (omega arith)

-- From a source that may cut its answers short but never gives other bytes, the bytes that `_fetch`
-- returns are those of the object at the range asked for, all of them up to the object's end.
pub fetch_range-exact :
    (source : RangedSource) (object : Bytes)
    → IsTruthful source object
    → (a b : ℕ) (bytes : Bytes) → fetch_range source a b ≡ ok bytes
    → bytes ≡ slice a b object
unfolding fetch_range
fetch_range-exact source object t a b bytes h =
    elim (Result-cases (source.fetch a (min b source.size))) [
      | inl (d, e) ↦ ground (arith, e, slice-empty a b object, t.sized, whole d e)
      | inr (x, e) ↦ ground (arith, e, slice-empty a b object, t.sized)
    ]
  where
    whole :
        (d : Bytes)
        → source.fetch a (min b source.size) ≡ ok d
        → length d ≡ min b source.size - a
        → d ≡ slice a b object
    whole d e n =
        let (rest, joined) = t.cut a _ d e in
        exactly-whole _ d rest _
          (joined ∙ ap (λ k. slice a (min b k) object) t.sized ∙ slice-min a b object)
          (omega (arith, length-take (b - a) (drop a object), length-drop a object)) n
