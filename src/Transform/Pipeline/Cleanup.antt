-- ===== src/Transform/Pipeline/Cleanup.antt =====
-- The closing of the layers that `apply_read` of pipeline.py builds.
use mountainash_transport.Prelude.{
  ℕ, suc, ◌≡◌, refl, ap, Bool, false, not, ◌&&◌, ◌||◌, Option, List, [], ◌∷◌, ok, err, arith, Eq,
  ◌is◌, contains, Result-cases, inl, inr,
}
use mountainash_transport.Errors.{Error}
use mountainash_transport.Transform.Pipeline.{
  StreamTransform, Pipeline, World, Built, ReadStream, owned, close_if_open, exit_stack, start,
  push, peel, apply_read, close,
}

module _ {S : Type 0} ⦃e : Eq S⦄ where
  -- The streams that the transforms yield, one after the other, up to the first that raises.
  unfoldable pub layers : ℕ → List (StreamTransform S) → S → List S
  layers call [] stream = []
  layers call (t ∷ ts) stream = elim (t.unwrap call stream) [
    | ok layer ↦ layer ∷ layers (suc call) ts layer
    | err x ↦ []
  ]

  -- A layer that was made, other than the input.
  unfoldable pub is_built : ℕ → List (StreamTransform S) → S → S → Bool
  unfolding layers
  is_built call ts stream x = contains (layers call ts stream) x && not (x is stream)

  -- The input is in `seen` and not among the callbacks; all else that was seen is.
  record Tracks (stream : S) (b : Built S) : Type 0 where
    tracked : (x : S) → contains b.seen x ≡ (contains b.stack x || (x is stream))
    spared : contains b.stack stream ≡ false

  push-Tracks : (stream layer : S) (b : Built S) → Tracks stream b → Tracks stream (push layer b)
  unfolding push
  push-Tracks stream layer b t = record {
    tracked = λ x. ground (arith, t.tracked x, t.tracked layer);
    spared =
        ground (arith, t.spared, t.tracked layer, e.beq_iff layer stream, e.beq_iff stream layer);
  }

  pub stream-push : (layer : S) (b : Built S) → (push layer b).stream ≡ layer
  unfolding push
  stream-push layer b = ground arith

  stack-push :
      (stream layer x : S) (b : Built S)
      → Tracks stream b
      → contains (push layer b).stack x
        ≡ (contains b.stack x || ((x is layer) && not (x is stream)))
  unfolding push
  stack-push stream layer x b t = ground (
    arith,
    t.tracked layer,
    t.tracked x,
    e.beq_iff x layer,
    e.beq_iff x stream,
    e.beq_iff layer stream,
  )

  peel-stack :
      (call : ℕ) (ts : List (StreamTransform S)) (stream x : S) (b : Built S)
      → Tracks stream b
      → contains (peel call ts b).1.stack x
        ≡ (contains b.stack x || (contains (layers call ts b.stream) x && not (x is stream)))
  unfolding peel layers
  peel-stack call [] stream x b t = ground arith
  peel-stack call (u ∷ ts) stream x b t = elim (Result-cases (u.unwrap call b.stream)) [
    | inr (_, q) ↦ ground (arith, q)
    | inl (layer, q) ↦ ground (
      arith,
      q,
      peel-stack (suc call) ts stream x (push layer b) (push-Tracks stream layer b t),
      ap (λ s. contains (layers (suc call) ts s) x) (stream-push layer b),
      stack-push stream layer x b t,
    )
  ]

  start-Tracks : (stream : S) → Tracks stream (start stream)
  start-Tracks stream = record { tracked = λ x. ground arith; spared = refl }

module _ {S : Type 0} ⦃e : Eq S⦄ (fails : S → Option Error) where
  closed-exit_stack :
      (stack : List S) (w : World S) (x : S)
      → (exit_stack fails stack w).1.closed x ≡ (contains stack x || w.closed x)
  unfolding exit_stack
  closed-exit_stack [] w x = refl
  closed-exit_stack (s ∷ rest) w x =
      ground (arith, closed-exit_stack rest (close_if_open fails s w).1 x, e.beq_iff x s)

  -- Where `apply_read` raises, as it does when a transform raises, the streams that are closed are
  -- those that were closed before and every layer that was built, whatever closing them raises: its
  -- input stays as it was.
  pub closed-apply_read :
      (call : ℕ) (p : Pipeline S) (stream : S) (w : World S) (x : Error)
      → (apply_read fails call p stream w).0 ≡ err x
      → (y : S)
      → (apply_read fails call p stream w).1.closed y
        ≡ (is_built call p.outer_to_inner stream y || w.closed y)
  unfolding apply_read is_built
  closed-apply_read call p stream w x h y = ground (
    arith,
    peel-stack call p.outer_to_inner stream y (start stream) (start-Tracks stream),
    closed-exit_stack (peel call p.outer_to_inner (start stream)).1.stack w y,
  )

  -- Closing what `apply_read` returns closes every layer that was built and nothing else, whatever
  -- closing them raises.
  pub closed-close :
      (call : ℕ) (p : Pipeline S) (stream : S) (w w' : World S) (r : ReadStream S)
      → (apply_read fails call p stream w).0 ≡ ok (owned r)
      → (y : S)
      → (close fails r w').2.closed y ≡ (is_built call p.outer_to_inner stream y || w'.closed y)
  unfolding apply_read close is_built
  closed-close call p stream w w' r h y = ground (
    arith,
    peel-stack call p.outer_to_inner stream y (start stream) (start-Tracks stream),
    closed-exit_stack (peel call p.outer_to_inner (start stream)).1.stack w' y,
  )
