-- ===== src/Backend/S3/Listings.antt =====
-- storage/backends/s3/s3_enumerate.py: the cut of a listing.
use mountainash_transport.Prelude.{
  ℕ, zero, suc, ◌-◌, ◌≤◌, ◌≡◌, refl, sym, ap, ◌∙◌, subst, inl, inr, false, Option, none, some, List,
  [], ◌∷◌, ◌++◌, Result, ok, ◌>>=◌, length, length-take, take, take_all, Text, pos, ltb_ℤ, ◌-ℤ◌,
  arith, Bool-cases, >>=-eq-ok,
}
use mountainash_transport.Errors.{Error}
use mountainash_transport.Location.Schemes.{Platform}
use mountainash_transport.Backend.Entry.{StorageEntry, EnumerateResult}
use mountainash_transport.Backend.S3.{
  S3Client, all_objects, all_prefixes, take_ℤ, max_zero, cut, truncated, list_pages, list_objects,
}

take-append :
    {A : Type 0} (n : ℕ) (xs ys : List A) → take n (xs ++ ys) ≡ take n xs ++ take (n - length xs) ys
take-append {A} zero xs ys = let e : 0 - length xs ≡ 0 = omega arith in rw e refl
take-append {A} (suc n) [] ys = let e : suc n - 0 ≡ suc n = omega arith in rw e refl
take-append {A} (suc n) (x ∷ xs) ys =
    let e : suc n - suc (length xs) ≡ n - length xs = omega arith in
    rw e (ap (λ l. x ∷ l) (take-append n xs ys))

remaining : (n k : ℕ) → k ≤ n → max_zero (pos n -ℤ pos k) ≡ pos (n - k)
unfolding ◌-ℤ◌
remaining n k h = ground arith

cut-take :
    (n : ℕ) (objects prefixes : List StorageEntry)
    → let r = cut (pos n) objects prefixes in
      r.objects ++ r.common_prefixes ≡ take n (objects ++ prefixes)
unfolding cut take_ℤ
cut-take n objects prefixes =
    let k = length (take n objects) in
    let bound : k ≤ n = omega (arith, length-take n objects) in
    let left : n - k ≡ n - length objects = omega (arith, length-take n objects) in
    let rest = ap (λ z. take_ℤ z prefixes) (remaining n k bound) ∙ ap (λ m. take m prefixes) left in
    ap (λ l. take n objects ++ l) rest ∙ sym (take-append n objects prefixes)

truncated-take :
    (n : ℕ) (objects prefixes : List StorageEntry)
    → let r = truncated (some (pos n)) objects prefixes in
      r.objects ++ r.common_prefixes ≡ take n (objects ++ prefixes)
unfolding truncated
truncated-take n objects prefixes =
    elim (Bool-cases (ltb_ℤ (pos n) (pos (length (objects ++ prefixes))))) [
      | inl a ↦ ground (arith, a, cut-take n objects prefixes)
      | inr a ↦ ground (arith, a, take_all n (objects ++ prefixes) (within a))
    ]
  where
    within :
        ltb_ℤ (pos n) (pos (length (objects ++ prefixes))) ≡ false
        → length (objects ++ prefixes) ≤ n
    within a = ground (arith, a)

ok_injective : {A : Type 0} {a b : A} → ◌≡◌ {A = Result Error A} (ok a) (ok b) → a ≡ b
ok_injective h = cc

-- A listing with a limit that is not negative is the start of the one without it, files before
-- prefixes.
pub list_objects-Start :
    (P : Platform) (C : S3Client) (path : Text) (delimiter : Option Text) (n : ℕ)
    (r : EnumerateResult)
    → list_objects P C path delimiter (some (pos n)) ≡ ok r
    → (whole : EnumerateResult) × (list_objects P C path delimiter none ≡ ok whole)
      × (r.objects ++ r.common_prefixes ≡ take n (whole.objects ++ whole.common_prefixes))
unfolding list_objects truncated
list_objects-Start P C path delimiter n r h =
    let ((bucket, pages), a, last) = >>=-eq-ok (list_pages P C path delimiter) _ h in
    let objects = all_objects bucket pages in
    let prefixes = all_prefixes bucket pages in
    (
      record { objects = objects; common_prefixes = prefixes },
      ap (λ x. x >>= λ (b, ps). ok (truncated none (all_objects b ps) (all_prefixes b ps))) a
          ∙ refl,
      subst (λ x. x.objects ++ x.common_prefixes ≡ take n (objects ++ prefixes)) (ok_injective last)
          (truncated-take n objects prefixes),
    )
