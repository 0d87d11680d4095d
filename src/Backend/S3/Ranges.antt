-- ===== src/Backend/S3/Ranges.antt =====
-- storage/backends/s3/s3_read.py: ranges of an object.
use mountainash_transport.Prelude.{
  take, ◌≤◌, ◌⊎◌, ◌<◌, Result-cases, length-take, length-drop, take_all, zero, suc, [], ◌∷◌, pos,
  sub_ℕ, prefix_full, length-take-le, drop, ℕ, ◌+◌, ◌-◌, ◌≡◌, refl, sym, ap, ◌∙◌, subst, inl, inr,
  Option, none, some, ◌++◌, Result, ok, err, ◌>>=◌, length, slice, Text, ◌==◌, arith, Bool-cases,
  >>=-eq-ok,
}
use mountainash_transport.Errors.{Error}
use mountainash_transport.Location.Schemes.{Platform}
use mountainash_transport.Storage.Helpers.{parse_s3_path}
use mountainash_transport.Stream.Sequential.{Bytes}
use mountainash_transport.Stream.Ranged.{RangedSource, fetch_range, strong_etag}
use mountainash_transport.Stream.Ranged.Slices.{IsTruthful, fetch_range-exact}
use mountainash_transport.Backend.S3.{
  S3Error, S3Client, Head, native, fetch, open_object, open_ranged,
}

-- A store that has a version of an object at a key, which a strong entity tag names if there is one:
-- the head is that of the version, and of a range that is asked for with the version's tag the bytes
-- answered are the first of the version's, up to the last one asked for, never others.
pub record Serves (C : S3Client) (bucket key : Text) (tag : Option Text) (object : Bytes)
    : Type 0 where
  pub head_has :
      (head : Head)
      → C.head_object bucket key ≡ ok head
      → (head.content_length ≡ some (length object)) × (strong_etag head.etag ≡ tag)
  pub range_has :
      (start last : ℕ) (body : ℕ → Result S3Error Bytes) (n : ℕ) (bytes : Bytes)
      → C.get_range bucket key start (pos last) tag ≡ ok body
      → body n ≡ ok bytes
      → (rest : Bytes) × (bytes ++ rest ≡ slice start (last + 1) object)

native-ok : {A : Type 0} (r : Result S3Error A) {a : A} → native r ≡ ok a → r ≡ ok a
native-ok (ok b) h = cc
native-ok (err e) h = absurd (ground (arith, h))

abbrev ok_bytes : Bytes → Result Error Bytes
ok_bytes bytes = ok bytes

abbrev native_bytes : Bytes → Result S3Error Bytes
native_bytes bytes = ok bytes

module _ (P : Platform) (C : S3Client) where
  -- A fetch gives as many bytes as were asked for.
  fetch-length :
      (bucket key : Text) (etag : Option Text) (a b : ℕ) (bytes : Bytes)
      → fetch P C bucket key etag a b ≡ ok bytes
      → (body : ℕ → Result S3Error Bytes) × (C.get_range bucket key a (sub_ℕ b 1) etag ≡ ok body)
        × (body (b - a + 1) ≡ ok bytes)
        × (length bytes ≡ b - a)
  unfolding fetch
  fetch-length bucket key etag a b bytes h =
      let (body, c, d) = >>=-eq-ok (native (C.get_range bucket key a (sub_ℕ b 1) etag)) _ h in
      let (got, e, f) = >>=-eq-ok (native (body (b - a + 1))) _ d in
      elim (Bool-cases (length got == (b - a))) [
        | inl k ↦
            let same : got ≡ bytes = ground (arith, f, k) in
            (
              body,
              native-ok _ c,
              subst (λ x. body (b - a + 1) ≡ ok x) same (native-ok _ e),
              subst (λ x. length x ≡ b - a) same (ground (arith, k)),
            )
        | inr k ↦ absurd (ground (arith, f, k))
      ]

  fetch-Exact :
      (bucket key : Text) (tag : Option Text) (object : Bytes)
      → Serves C bucket key tag object
      → (a b : ℕ) (bytes : Bytes) → fetch P C bucket key tag a b ≡ ok bytes
      → (length bytes ≡ b - a) × ((rest : Bytes) × (bytes ++ rest ≡ slice a b object))
  fetch-Exact bucket key tag object s a zero bytes h =
      let (body, c, d, n) = fetch-length bucket key tag a 0 bytes h in
      (n, (slice a 0 object, ap (λ l. l ++ slice a 0 object) (empty bytes (ground (arith, n)))))
    where
      empty : (l : Bytes) → length l ≡ 0 → l ≡ []
      empty [] e = refl
      empty (x ∷ l) e = ground (arith, e)
  fetch-Exact bucket key tag object s a (suc b) bytes h =
      let (body, c, d, n) = fetch-length bucket key tag a (suc b) bytes h in
      let (rest, e) = s.range_has a b body (suc b - a + 1) bytes (ground (arith, c)) d in
      (n, (rest, e ∙ ap (λ x. slice a x object) (omega arith)))

  open_object-Source :
      (bucket key : Text) (tag : Option Text) (object : Bytes) (source : RangedSource)
      → Serves C bucket key tag object
      → open_object P C bucket key ≡ ok source
      → record { size = length object; fetch = fetch P C bucket key tag; on_close = none } ≡ source
  unfolding open_object
  open_object-Source bucket key tag object source s h =
      let (head, c, d) = >>=-eq-ok (native (C.head_object bucket key)) _ h in
      let (sized, tagged) = s.head_has head (native-ok _ c) in
      let made : RangedSource = record {
        size = length object;
        fetch = fetch P C bucket key (strong_etag head.etag);
        on_close = none;
      } in
      let same : made ≡ source = ground (arith, d, sized) in
      subst
        (λ e.
          ◌≡◌ {A = RangedSource}
            (record { size = length object; fetch = fetch P C bucket key e; on_close = none })
            source)
        tagged same

  open_ranged-Source :
      (path bucket key : Text) (tag : Option Text) (object : Bytes) (source : RangedSource)
      → parse_s3_path P path ≡ ok (bucket, key)
      → Serves C bucket key tag object
      → open_ranged P C path ≡ ok source
      → record { size = length object; fetch = fetch P C bucket key tag; on_close = none } ≡ source
  unfolding open_ranged
  open_ranged-Source path bucket key tag object source p s h =
      open_object-Source bucket key tag object source s
        (ap (λ r. r >>= λ (k, l). open_object P C k l) (sym p) ∙ h)

  -- A store that answers a whole range of the version, however much of it is read at once.
  abbrev pub Whole : Text → Text → Option Text → Bytes → ℕ → ℕ → Type 0
  Whole bucket key tag object a b =
      (body : ℕ → Result S3Error Bytes) × (C.get_range bucket key a (sub_ℕ b 1) tag ≡ ok body)
      × ((n : ℕ) → body n ≡ ok (take n (slice a b object)))

  fetch-Whole :
      (bucket key : Text) (tag : Option Text) (object : Bytes) (a b : ℕ)
      → a < b
      → b ≤ length object
      → Whole bucket key tag object a b
      → fetch P C bucket key tag a b ≡ ok (slice a b object)
  unfolding fetch
  fetch-Whole bucket key tag object a b less within (body, c, d) =
      let whole : length (slice a b object) ≡ b - a =
        length-take (b - a) (drop a object)
        ∙ (let l = length-drop a object in omega (arith, l, less, within)) in
      let all : take (b - a + 1) (slice a b object) ≡ slice a b object =
        take_all (b - a + 1) (slice a b object) (omega (arith, whole)) in
      let got : body (b - a + 1) ≡ ok (slice a b object) = d (b - a + 1) ∙ ap native_bytes all in
      ground (arith, c, got, whole)

  -- Of a version of an object that the store has, what a source that `open_ranged` gives fetches of a
  -- range within the object, which is not empty, are the version's bytes there, all of them; or it
  -- raises, and the store has not answered the range as a whole.
  pub fetch-open_ranged :
      (path bucket key : Text) (tag : Option Text) (object : Bytes) (source : RangedSource)
      (a b : ℕ)
      → parse_s3_path P path ≡ ok (bucket, key)
      → Serves C bucket key tag object
      → open_ranged P C path ≡ ok source
      → a < b
      → b ≤ length object
      → (source.size ≡ length object)
        × ((source.fetch a b ≡ ok (slice a b object))
            ⊎ (((x : Error) × (source.fetch a b ≡ err x)) × ¬ Whole bucket key tag object a b))
  fetch-open_ranged path bucket key tag object source a b p s h less within =
      let made = open_ranged-Source path bucket key tag object source p s h in
      let same : fetch P C bucket key tag a b ≡ source.fetch a b = ap (λ x. x.fetch a b) made in
      (
        sym (ap (λ x. x.size) made),
        elim (Result-cases (fetch P C bucket key tag a b)) [
          | inl (bytes, f) ↦
              let (n, cut) = fetch-Exact bucket key tag object s a b bytes f in
              let (rest, e) = cut in
              let all : bytes ≡ slice a b object =
                prefix_full bytes rest (slice a b object) e
                  (omega (arith, n, length-take-le (b - a) (drop a object))) in
              inl (sym same ∙ f ∙ ap ok_bytes all)
          | inr (x, f) ↦ inr (
            (x, sym same ∙ f),
            λ w. absurd (ground (arith, f, fetch-Whole bucket key tag object a b less within w)),
          )
        ],
      )

  -- The bytes that a reader over such a source has of any range are the version's, up to its end.
  pub fetch_range-open_ranged :
      (path bucket key : Text) (tag : Option Text) (object : Bytes) (source : RangedSource)
      → parse_s3_path P path ≡ ok (bucket, key)
      → Serves C bucket key tag object
      → open_ranged P C path ≡ ok source
      → (a b : ℕ) (bytes : Bytes) → fetch_range source a b ≡ ok bytes
      → bytes ≡ slice a b object
  fetch_range-open_ranged path bucket key tag object source p s h =
      let made = open_ranged-Source path bucket key tag object source p s h in
      fetch_range-exact source object (
        subst (λ x. IsTruthful x object) made
          (record {
            sized = refl;
            cut = λ a b bytes f. (fetch-Exact bucket key tag object s a b bytes f).1;
          }))
