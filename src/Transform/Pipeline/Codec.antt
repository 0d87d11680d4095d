-- ===== src/Transform/Pipeline/Codec.antt =====
-- Reading and writing through one pipeline: `apply_read` and `apply_write` of pipeline.py.
use mountainash_transport.Prelude.{
  ℕ, suc, ◌+◌, ◌≡◌, refl, ◌∙◌, sym, ap, Option, none, some, List, [], ◌∷◌, ◌++◌, ok, arith, Eq,
  Result-cases, Bool-cases, length, ◌==◌, false, inl, inr, ◌>>=◌, >>=-eq-ok,
}
use mathlib.Core.List.{reverse, reverse-append}
use mountainash_transport.Errors.{Error}
use mountainash_transport.Stream.Sequential.{Bytes}
use mountainash_transport.Transform.Pipeline.Cleanup.{stream-push}
use mountainash_transport.Transform.Pipeline.{
  StreamTransform, Pipeline, World, Built, Opened, as_is, owned, wrap_all, apply_write, start, push,
  peel, finish, apply_read,
}

-- Of the bytes that streams have: decoding a stream with the bytes of one that a transform encoded,
-- in any call, makes a stream with the bytes of the one that was encoded.
abbrev pub IsReversible : {S : Type 0} → (S → Bytes) → StreamTransform S → Type 0
IsReversible {S} content t =
    (m n : ℕ) (plain coded stored : S)
    → t.wrap m plain ≡ ok coded
    → content stored ≡ content coded
    → (decoded : S) × (t.unwrap n stored ≡ ok decoded) × (content decoded ≡ content plain)

abbrev pub AllReversible : {S : Type 0} → (S → Bytes) → List (StreamTransform S) → Type 0
AllReversible content [] = Unit
AllReversible content (t ∷ ts) = IsReversible content t × AllReversible content ts

-- The stream that a reader reads from.
abbrev pub reading : {S : Type 0} → Opened S → S
reading (as_is s) = s
reading (owned r) = r.wrapped

module _ {S : Type 0} where
  wrap_all-append :
      (call : ℕ) (ts us : List (StreamTransform S)) (s : S)
      → wrap_all call (ts ++ us) s ≡ (wrap_all call ts s >>= wrap_all (call + length ts) us)
  unfolding wrap_all
  wrap_all-append call [] us s = ap (λ n. wrap_all n us s) (omega arith)
  wrap_all-append call (t ∷ ts) us s = elim (Result-cases (t.wrap call s)) [
    | inl (layer, q) ↦ ground (
      arith,
      q,
      wrap_all-append (suc call) ts us layer
          ∙ ap (λ n. wrap_all (suc call) ts layer >>= wrap_all n us) (shift call (length ts)),
    )
    | inr (x, q) ↦ ground (arith, q)
  ]
    where
      shift : (a b : ℕ) → suc a + b ≡ a + suc b
      shift a b = omega arith

  -- The outermost transform is the last to wrap.
  wrap_all-reverse :
      (call : ℕ) (t : StreamTransform S) (ts : List (StreamTransform S)) (plain coded : S)
      → wrap_all call (reverse (t ∷ ts)) plain ≡ ok coded
      → (mid : S) × (wrap_all call (reverse ts) plain ≡ ok mid)
        × (t.wrap (call + length (reverse ts)) mid ≡ ok coded)
  wrap_all-reverse call t ts plain coded w =
      let split =
        sym (
          ap (λ us. wrap_all call us plain) (reverse-append (t ∷ []) ts)
          ∙ wrap_all-append call (reverse ts) (t ∷ []) plain)
        ∙ w in
      let (mid, first, last) =
        >>=-eq-ok (wrap_all call (reverse ts) plain)
          (wrap_all (call + length (reverse ts)) (t ∷ [])) split in
      (mid, first, unfold wrap_all in ground (arith, last))

module _ {S : Type 0} ⦃e : Eq S⦄ (content : S → Bytes) where
  -- The outermost layer comes off first.
  peel-wrap_all :
      (m n : ℕ) (ts : List (StreamTransform S)) (plain coded : S) (b : Built S)
      → AllReversible content ts
      → wrap_all m (reverse ts) plain ≡ ok coded
      → content b.stream ≡ content coded
      → ((peel n ts b).0 ≡ none) × (content (peel n ts b).1.stream ≡ content plain)
  unfolding peel wrap_all push
  peel-wrap_all m n [] plain coded b h w q = (refl, q ∙ ap content (ground (arith, w)))
  peel-wrap_all m n (t ∷ ts) plain coded b h w q =
      let (mid, inner, outer) = wrap_all-reverse m t ts plain coded w in
      let (layer, decoded, same) = h.0 _ n mid coded b.stream outer q in
      ground (
        arith,
        decoded,
        peel-wrap_all m (suc n) ts plain mid (push layer b) h.1 inner
            (ap content (stream-push layer b) ∙ same),
      )

  finish-opens :
      (fails : S → Option Error) (res : Option Error × Built S) (w : World S)
      → res.0 ≡ none
      → (o : Opened S) × (finish fails res w ≡ (ok o, w)) × (reading o ≡ res.1.stream)
  unfolding finish
  finish-opens fails (some x, b) w n = cc
  finish-opens fails (none, b) w n = elim (Bool-cases (length b.seen == 1)) [
    | inl q ↦ (as_is b.stream, ground arith, refl)
    | inr q ↦ (
      owned (record { wrapped = b.stream; cleanup = b.stack; is_closed = false }),
      ground arith,
      refl,
    )
  ]

  -- What `apply_write` makes of a stream through transforms that can be undone: of any stream with the
  -- same bytes `apply_read` of the same pipeline opens one with the bytes of the first, whatever new
  -- streams the transforms make; no close is called.
  pub apply_read-apply_write :
      (fails : S → Option Error) (m n : ℕ) (p : Pipeline S) (plain coded stored : S) (w : World S)
      → AllReversible content p.outer_to_inner
      → apply_write m p plain ≡ ok coded
      → content stored ≡ content coded
      → (o : Opened S) × (apply_read fails n p stored w ≡ (ok o, w))
        × (content (reading o) ≡ content plain)
  unfolding apply_read apply_write
  apply_read-apply_write fails m n p plain coded stored w h q same =
      let found = peel-wrap_all m n p.outer_to_inner plain coded (start stored) h q same in
      let (o, opened, last) = finish-opens fails _ w found.0 in
      (o, opened, ap content last ∙ found.1)
