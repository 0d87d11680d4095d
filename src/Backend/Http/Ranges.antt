-- ===== src/Backend/Http/Ranges.antt =====
-- storage/backends/http/http_read.py: ranges of an object.
use mountainash_transport.Prelude.{
  ℕ, ◌+◌, ◌-◌, ◌≡◌, refl, sym, ap, ◌∙◌, subst, inl, inr, true, not, ◌&&◌, ◌||◌, Option, none, some,
  List, [], ◌∷◌, ◌++◌, Result, ok, length, slice, Text, ◌==◌, ==_iff, leb, ltb, arith, Bool-cases,
  Result-cases, >>=-eq-ok,
}
use mathlib.Core.List.{append-nil, append_assoc}
use mountainash_transport.Errors.{Error}
use mountainash_transport.Stream.Sequential.{Bytes}
use mountainash_transport.Stream.Chunks.Content.{concat}
use mountainash_transport.Stream.Ranged.{RangedSource, fetch_range, strong_etag}
use mountainash_transport.Stream.Ranged.Slices.{IsTruthful, fetch_range-exact}
use mountainash_transport.Backend.Http.{
  Response, ContentRange, range_headers, gather, matches, receive, fetch, answered, open_ranged,
}

-- What a server that serves one object says of it: a partial response has the object's size, and
-- its bytes are the start of the range that it names, whichever range was asked for.
pub record Honest (digit : ℕ → Option ℕ) (object : Bytes) (r : Response) : Type 0 where
  pub sized : (range : ContentRange) → range_headers digit r ≡ ok range → range.size ≡ length object
  pub cut :
      (range : ContentRange)
      → range_headers digit r ≡ ok range
      → (rest : Bytes) × (concat r.chunks ++ rest ≡ slice range.start (range.last + 1) object)

gather-concat :
    (limit : ℕ) (got : Bytes) (chunks : List Bytes) (failure : Option Error) (bytes : Bytes)
    → gather limit got chunks failure ≡ ok bytes
    → bytes ≡ got ++ concat chunks
unfolding gather concat
gather-concat limit got [] none bytes h = ground (arith, h, append-nil got)
gather-concat limit got [] (some e) bytes h = absurd (ground (arith, h))
gather-concat limit got (chunk ∷ chunks) failure bytes h =
    elim (Bool-cases (ltb limit (length got + length chunk))) [
      | inl a ↦ absurd (ground (arith, h, a))
      | inr a ↦
          gather-concat limit (got ++ chunk) chunks failure bytes (ground (arith, h, a))
          ∙ append_assoc got chunk (concat chunks)
    ]

no_bytes : (bytes : Bytes) → length bytes ≡ 0 → bytes ≡ []
no_bytes [] h = refl
no_bytes (b ∷ bytes) h = absurd (omega (arith, h))

module _ (digit : ℕ → Option ℕ) (ask : ℕ → ℕ → Option Text → Result Error Response)
    (object : Bytes) where
  matches-same :
      (range : ContentRange) (start end size : ℕ)
      → matches range start end size ≡ true
      → (range.start ≡ start) × (range.last ≡ end - 1)
  matches-same range start end size h =
      ground (arith, h, ==_iff range.start start, ==_iff range.last (end - 1))

  receive-slice :
      (size start end : ℕ) (r : Response) (bytes : Bytes)
      → Honest digit object r
      → receive digit ask size start end r ≡ ok bytes
      → (rest : Bytes) × (bytes ++ rest ≡ slice start end object)
  unfolding receive
  receive-slice size start end r bytes o h =
      let (range, a, b) = >>=-eq-ok (range_headers digit r) _ h in
      elim (Bool-cases (matches range start end size)) [
        | inr m ↦ absurd (ground (arith, b, m))
        | inl m ↦ elim (Result-cases (gather (end - start) [] r.chunks r.failure)) [
          | inr (x, c) ↦ absurd (ground (arith, b, m, c))
          | inl (got, c) ↦ elim (Bool-cases (length got == (end - start))) [
            | inr k ↦ absurd (ground (arith, b, m, c, k))
            | inl k ↦
                let same : got ≡ bytes = ground (arith, b, m, c, k) in
                let all = sym same ∙ gather-concat (end - start) [] r.chunks r.failure got c in
                let size_is : length bytes ≡ end - start =
                  ap length (sym same) ∙ (==_iff (length got) (end - start)).0 k in
                within range start end bytes (matches-same range start end size m) size_is (
                  subst
                    (λ l. (rest : Bytes) × (l ++ rest ≡ slice range.start (range.last + 1) object))
                    (sym all) (o.cut range a))
          ]
        ]
      ]
    where
      within :
          (range : ContentRange) (start end : ℕ) (bytes : Bytes)
          → (range.start ≡ start) × (range.last ≡ end - 1)
          → length bytes ≡ end - start
          → (rest : Bytes) × (bytes ++ rest ≡ slice range.start (range.last + 1) object)
          → (rest : Bytes) × (bytes ++ rest ≡ slice start end object)
      within range start end bytes (s, l) k (rest, g) = elim (Bool-cases (end == 0)) [
        | inl z ↦
            let none_asked : length bytes ≡ 0 = omega (arith, k, (==_iff end 0).0 z) in
            (
              slice start end object,
              ap (λ l. l ++ slice start end object) (no_bytes bytes none_asked),
            )
        | inr z ↦
            let last : range.last + 1 ≡ end = ground (arith, z, l) in
            (
              rest,
              g ∙ ap (λ x. slice x (range.last + 1) object) s ∙ ap (λ x. slice start x object) last,
            )
      ]

  open_ranged-Truthful :
      (probe : Response) (source : RangedSource)
      → Honest digit object probe
      → ((start last : ℕ) (etag : Option Text) (r : Response)
          → ask start last etag ≡ ok r
          → Honest digit object r)
      → open_ranged digit ask (answered probe) ≡ ok source
      → IsTruthful source object
  unfolding open_ranged fetch
  open_ranged-Truthful probe source o honest h =
      let (range, a, b) = >>=-eq-ok (range_headers digit probe) _ h in
      let made : RangedSource = record {
        size = range.size;
        fetch = fetch digit ask range.size (strong_etag probe.etag);
        on_close = none;
      } in
      elim (Bool-cases (not ((range.start == 0) && (range.last == 0)) || leb range.size 0)) [
        | inl c ↦ absurd (ground (arith, b, c))
        | inr c ↦
            let same : made ≡ source = ground (arith, b, c) in
            subst (λ x. IsTruthful x object) same
              (record {
                sized = o.sized range a;
                cut = λ i j bytes f.
                    let (r, d, e) = >>=-eq-ok (ask i (j - 1) (strong_etag probe.etag)) _ f in
                    receive-slice range.size i j r bytes
                      (honest i (j - 1) (strong_etag probe.etag) r d) e;
              })
      ]

  -- Of an object on a server that never names a range with other bytes than its own, the bytes that
  -- a reader over `open_ranged` fetches for a range are the object's bytes there, whichever ranges
  -- the server answers with.
  pub fetch_range-answered :
      (probe : Response) (source : RangedSource)
      → Honest digit object probe
      → ((start last : ℕ) (etag : Option Text) (r : Response)
          → ask start last etag ≡ ok r
          → Honest digit object r)
      → open_ranged digit ask (answered probe) ≡ ok source
      → (a b : ℕ) (bytes : Bytes) → fetch_range source a b ≡ ok bytes
      → bytes ≡ slice a b object
  fetch_range-answered probe source o honest h a b bytes f =
      fetch_range-exact source object (open_ranged-Truthful probe source o honest h) a b bytes f
