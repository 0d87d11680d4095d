-- ===== src/Stream/Chunks/Content.antt =====
-- The bytes that an `IterBytesReader` has yet to deliver, and one call of `_next`.
use mountainash_transport.Prelude.{
  ℕ, suc, ◌≤◌, ◌≡◌, refl, ◌∙◌, sym, ap, Option, none, some, List, [], ◌∷◌, ◌++◌, Result, ok, err,
  length, take, arith, length-take-le, take-append-drop-length,
}
use mathlib.Core.List.{append_assoc}
use mountainash_transport.Errors.{Error}
use mountainash_transport.Stream.Sequential.{Bytes}
use mountainash_transport.Stream.Chunks.{Chunks, refill, serve, next}

unfoldable pub concat : List Bytes → Bytes
concat [] = []
concat (chunk ∷ chunks) = chunk ++ concat chunks

-- The bytes that a reader has yet to deliver.
unfoldable pub content : Chunks → Bytes
unfolding concat
content s = s.pending ++ concat s.chunks

refill-content :
    (pending : Bytes) (chunks : List Bytes)
    → (refill pending chunks).0 ++ concat (refill pending chunks).1 ≡ pending ++ concat chunks
unfolding refill concat
refill-content (b ∷ rest) chunks = refl
refill-content [] [] = refl
refill-content [] (chunk ∷ chunks) = refill-content chunk chunks

-- The loop stops with nothing in hand only where the iterator is at its end.
refill-nil :
    (pending : Bytes) (chunks : List Bytes)
    → (refill pending chunks).0 ≡ []
    → (refill pending chunks).1 ≡ []
unfolding refill
refill-nil (b ∷ rest) chunks h = cc
refill-nil [] [] h = refl
refill-nil [] (chunk ∷ chunks) h = refill-nil chunk chunks h

-- How an iterator ends: what `_next` gives once its bytes are delivered.
abbrev pub ending : Option Error → Result Error Bytes
ending none = ok []
ending (some e) = err e

-- A read of an iterator at its end, and one that delivers at least one byte.
pub data Served (size : ℕ) (s : Chunks) (r : Result Error Bytes) (s' : Chunks) : Type 0 where
  at_end : content s ≡ [] → r ≡ ending s.failure → Served size s r s'
  delivers :
      (b : ℕ) (bytes : Bytes)
      → r ≡ ok (b ∷ bytes)
      → (b ∷ bytes) ++ content s' ≡ content s
      → length (b ∷ bytes) ≤ size
      → s'.failure ≡ s.failure
      → Served size s r s'

serve-Served :
    (n : ℕ) (s : Chunks) (failure : Option Error) (pending : Bytes) (chunks : List Bytes)
    → s.failure ≡ failure
    → pending ++ concat chunks ≡ content s
    → (pending ≡ [] → chunks ≡ [])
    → let (r, s') = serve (suc n) failure (pending, chunks) in Served (suc n) s r s'
unfolding serve content concat
serve-Served n s none [] chunks e h z = at_end (sym h ∙ ap concat (z refl)) (ap ending (sym e))
serve-Served n s (some x) [] chunks e h z = at_end (sym h ∙ ap concat (z refl)) (ap ending (sym e))
serve-Served n s failure (b ∷ rest) chunks e h z =
    delivers b (take n rest) refl
      (ap (λ t. b ∷ t)
          (sym (append_assoc (take n rest) _ (concat chunks))
            ∙ ap (λ t. t ++ concat chunks) (take-append-drop-length n rest))
        ∙ h)
      (omega (arith, length-take-le n rest)) (sym e)

pub next-Served : (n : ℕ) (s : Chunks) → let (r, s') = next (suc n) s in Served (suc n) s r s'
unfolding next content
next-Served n s =
    serve-Served n s s.failure _ _ refl (refill-content s.pending s.chunks)
      (refill-nil s.pending s.chunks)
