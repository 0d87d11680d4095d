-- ===== src/Stream/Chunks/Delivery.antt =====
-- Reading an `IterBytesReader` to its end, in reads of any size.
use mountainash_transport.Prelude.{
  ℕ, zero, suc, ◌<◌, ◌≡◌, ap, false, Option, none, some, ◌∷◌, Result, ok, err, length, arith,
  length-append,
}
use mountainash_transport.Errors.{Error}
use mountainash_transport.Stream.Sequential.{
  Bytes, ForwardOnlyReader, MapError, translate, readinto, readall,
}
use mountainash_transport.Stream.Chunks.{Chunks, next, iter_bytes}
use mountainash_transport.Stream.Chunks.Content.{content, Served, at_end, delivers, next-Served}

-- The outcome of reading everything: the bytes, or the translated failure of the iterator.
abbrev pub whole : MapError → Option Error → Bytes → Result Error Bytes
whole m none bytes = ok bytes
whole m (some e) bytes = err (translate m e)

module _ (close : Chunks → Result Error (Unit {0}) × Chunks) (m : MapError) where
  abbrev reader : Chunks → ForwardOnlyReader (iter_bytes close)
  reader s = record { source = s; map_error = m; closed = false }

  abbrev ReadsWhole : ℕ → ℕ → Chunks → Type 0
  ReadsWhole fuel n s =
      length (content s) < fuel
      → readall (iter_bytes close) fuel (suc n) (reader s) ≡ some (whole m s.failure (content s))

  -- One round of the loop.
  readall-Served :
      (fuel n : ℕ) (s : Chunks)
      → Served (suc n) s (next (suc n) s).0 (next (suc n) s).1
      → ReadsWhole fuel n (next (suc n) s).1
      → ReadsWhole (suc fuel) n s
  unfolding readall readinto
  readall-Served fuel n s (at_end empty ends) ih h = ground (arith, empty, ends)
  readall-Served fuel n s (delivers b bytes er split fits same) ih h = ground (
    arith,
    ih (
        omega (
          arith,
          ap (length {A = ℕ}) split,
          length-append {0} (b ∷ bytes) (content (next (suc n) s).1),
        )),
    er,
    split,
    same,
  )

  -- Whatever the size of the reads, an `IterBytesReader` read to its end gives the bytes of all
  -- chunks in order (the rest of the chunk in hand first), or the translated exception by which
  -- the iterator ends; one round more than there are bytes suffices.
  pub readall-whole :
      (fuel n : ℕ) (s : Chunks)
      → length (content s) < fuel
      → readall (iter_bytes close) fuel (suc n) (reader s) ≡ some (whole m s.failure (content s))
  readall-whole zero n s h = absurd (omega arith)
  readall-whole (suc fuel) n s h =
      readall-Served fuel n s (next-Served n s) (readall-whole fuel n (next (suc n) s).1) h
