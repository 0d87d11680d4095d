-- ===== src/Stream/Ranged/Reading.antt =====
-- Reads through a cache: what a `RangedReader` delivers, and where it stands after it.
use mountainash_transport.Prelude.{
  ℕ, ◌+◌, ◌-◌, ◌≡◌, refl, ◌∙◌, sym, ap, List, [], ◌∷◌, ◌++◌, Result, ok, err, Result-cases, inl,
  inr, ℤ, negsuc, length, drop, slice, arith, length-drop, drop_all, drop-drop, take_all,
  take-append-drop-length,
}
use mathlib.Core.List.{append_assoc}
use mountainash_transport.Errors.{Error}
use mountainash_transport.Stream.Sequential.{Bytes}
use mountainash_transport.Stream.Ranged.{Cache, RangedReader, fetch_range, read, read_end, advance}
use mountainash_transport.Stream.Ranged.Slices.{IsTruthful, IsExact, fetch_range-exact}

-- What the reader relies on of a cache from `fsspec.caching`: over a fetcher that answers exactly
-- for one object, the cache answers exactly too, in every state that it comes to.
pub record IsTransparent (C : Cache) (object : Bytes) : Type 1 where
  pub Holds : C.State → Type 0
  pub exact :
      (f : ℕ → ℕ → Result Error Bytes) (a b : ℕ) (s : C.State) (bytes : Bytes)
      → IsExact f object
      → Holds s
      → (C.cached f a b s).0 ≡ ok bytes
      → bytes ≡ slice a b object
  pub keeps :
      (f : ℕ → ℕ → Result Error Bytes) (a b : ℕ) (s : C.State)
      → IsExact f object
      → Holds s
      → Holds (C.cached f a b s).1

module _ (C : Cache) (object : Bytes) (T : IsTransparent C object) where
  -- A reader of the object: its source is truthful and its cache is in a state that holds.
  pub record Reads (r : RangedReader C) : Type 0 where
    pub truthful : IsTruthful r.source object
    pub holds : T.Holds r.cache

  slice-split :
      (p stop : ℕ) (d : Bytes)
      → d ≡ slice p stop object
      → d ++ drop (p + length d) object ≡ drop p object
  slice-split p stop d e =
      ap (λ t. d ++ t) (sym (drop-drop p (length d) object))
      ∙ ap (λ t. t ++ drop (length t) (drop p object)) e
      ∙ take-append-drop-length (stop - p) (drop p object)

  advance-split :
      (r : RangedReader C) (stop : ℕ) (res : Result Error Bytes × C.State) (bytes : Bytes)
      → ((d : Bytes) → res.0 ≡ ok d → d ≡ slice r.position stop object)
      → (advance C r res).0 ≡ ok bytes
      → bytes ++ drop (advance C r res).1.position object ≡ drop r.position object
  unfolding advance
  advance-split r stop (ok d, s) bytes h e =
      ground (arith, slice-split r.position stop d (h d refl))
  advance-split r stop (err x, s) bytes h e = cc

  advance-Reads :
      (r : RangedReader C) (res : Result Error Bytes × C.State)
      → Reads r
      → T.Holds res.1
      → Reads (advance C r res).1
  unfolding advance
  advance-Reads r (ok d, s) h k = record { truthful = h.truthful; holds = k }
  advance-Reads r (err x, s) h k = record { truthful = h.truthful; holds = k }

  IsExact-source : (r : RangedReader C) → Reads r → IsExact (fetch_range r.source) object
  IsExact-source r h = fetch_range-exact r.source object h.truthful

  -- A read takes the next bytes of the object.
  read-split :
      (r : RangedReader C) (size : ℤ) (bytes : Bytes)
      → Reads r
      → (read C size r).0 ≡ ok bytes
      → bytes ++ drop (read C size r).1.position object ≡ drop r.position object
  unfolding read
  read-split r size bytes h e =
      let stop = read_end C r size in
      let res = C.cached (fetch_range r.source) r.position stop r.cache in
      ground (
        arith,
        advance-split r stop res bytes (λ d q. T.exact _ _ _ _ d (IsExact-source r h) h.holds q),
      )

  read-Reads : (r : RangedReader C) (size : ℤ) → Reads r → Reads (read C size r).1
  unfolding read
  read-Reads r size h =
      let stop = read_end C r size in
      let res = C.cached (fetch_range r.source) r.position stop r.cache in
      ground (
        arith,
        advance-Reads r res h (T.keeps _ r.position stop r.cache (IsExact-source r h) h.holds),
      )

  advance-slice :
      (r : RangedReader C) (stop : ℕ) (res : Result Error Bytes × C.State) (bytes : Bytes)
      → ((d : Bytes) → res.0 ≡ ok d → d ≡ slice r.position stop object)
      → (advance C r res).0 ≡ ok bytes
      → bytes ≡ slice r.position stop object
  unfolding advance
  advance-slice r stop (ok d, s) bytes h e = ground (arith, h d refl)
  advance-slice r stop (err x, s) bytes h e = cc

  slice_rest : (p stop : ℕ) → stop ≡ length object → slice p stop object ≡ drop p object
  slice_rest p stop e = take_all (stop - p) (drop p object) (omega (arith, length-drop p object))

  -- A read of a negative size takes all that is left.
  read-rest :
      (r : RangedReader C) (n : ℕ) (bytes : Bytes)
      → Reads r
      → (read C (negsuc n) r).0 ≡ ok bytes
      → bytes ≡ drop r.position object
  unfolding read
  read-rest r n bytes h e =
      let stop = read_end C r (negsuc n) in
      let res = C.cached (fetch_range r.source) r.position stop r.cache in
      ground (
        arith,
        drop_all r.position object,
        slice_rest r.position r.source.size h.truthful.sized,
        advance-slice r stop res bytes (λ d q. T.exact _ _ _ _ d (IsExact-source r h) h.holds q),
      )

  -- A client's reads, one after the other, until one raises.
  join : Bytes → Result Error Bytes × RangedReader C → Result Error Bytes × RangedReader C
  join bytes (ok more, r) = (ok (bytes ++ more), r)
  join bytes (err e, r) = (err e, r)

  unfoldable pub read_many : List ℤ → RangedReader C → Result Error Bytes × RangedReader C
  unfolding join
  read_many [] r = (ok [], r)
  read_many (size ∷ sizes) r = elim (read C size r).0 [
    | ok bytes ↦ join bytes (read_many sizes (read C size r).1)
    | err e ↦ (err e, (read C size r).1)
  ]

  join-ok :
      (bytes all : Bytes) (res : Result Error Bytes × RangedReader C)
      → (join bytes res).0 ≡ ok all
      → (more : Bytes) × (res.0 ≡ ok more) × (all ≡ bytes ++ more) × ((join bytes res).1 ≡ res.1)
  unfolding join
  join-ok bytes all (ok more, r) e = (more, refl, cc, refl)
  join-ok bytes all (err x, r) e = cc

  read_many-split :
      (sizes : List ℤ) (r : RangedReader C) (bytes : Bytes)
      → Reads r
      → (read_many sizes r).0 ≡ ok bytes
      → (bytes ++ drop (read_many sizes r).1.position object ≡ drop r.position object)
        × Reads (read_many sizes r).1
  unfolding read_many
  read_many-split [] r bytes h e = ground arith
  read_many-split (size ∷ sizes) r bytes h e = elim (Result-cases (read C size r).0) [
    | inr (x, q) ↦ cc (rw (q, read_many) at e)
    | inl (first, q) ↦
        let after = read_many sizes (read C size r).1 in
        let (more, ran, all, same) = join-ok first bytes after (rw (q, read_many) at e) in
        let (split, h') = read_many-split sizes (read C size r).1 more (read-Reads r size h) ran in
        rw (q, read_many, same, all)
          (append_assoc first more _ ∙ ap (λ t. first ++ t) split ∙ read-split r size first h q, h')
  ]

  -- Over a transparent cache and a source that may cut its answers short, reads of any sizes that
  -- all succeed, and a read of the rest, deliver the object from the position where they start:
  -- each byte once and in order.
  pub read_many-rest :
      (sizes : List ℤ) (n : ℕ) (r : RangedReader C) (bytes rest : Bytes)
      → Reads r
      → (read_many sizes r).0 ≡ ok bytes
      → (read C (negsuc n) (read_many sizes r).1).0 ≡ ok rest
      → bytes ++ rest ≡ drop r.position object
  read_many-rest sizes n r bytes rest h e q =
      let (split, h') = read_many-split sizes r bytes h e in
      ap (λ t. bytes ++ t) (read-rest (read_many sizes r).1 n rest h' q) ∙ split
