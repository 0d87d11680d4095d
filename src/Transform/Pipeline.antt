-- ===== src/Transform/Pipeline.antt =====
-- _core/transforms/pipeline.py: ordered stacks of transforms over streams with an identity.
pub mod Cleanup
pub mod Codec
use mountainash_transport.Prelude.{
  ℕ, suc, Bool, true, false, Option, none, some, List, [], ◌∷◌, ◌++◌, Result, ok, err, ◌==◌, length,
  Eq, ◌is◌, contains, if◌then◌else◌, ◌>>=◌,
}
use mathlib.Core.List.{reverse}
use mountainash_transport.Errors.{Error}

-- `StreamTransform`: each method makes a stream over another, or raises. Neither closes its input. A
-- call has a number, since what it makes may be a new object each time.
pub record StreamTransform (S : Type 0) : Type 0 where
  pub wrap : ℕ → S → Result Error S
  pub unwrap : ℕ → S → Result Error S

-- `Pipeline`, its transforms listed outermost first.
pub record Pipeline (S : Type 0) : Type 0 where
  pub outer_to_inner : List (StreamTransform S)

module _ {S : Type 0} where
  unfoldable pub is_empty : Pipeline S → Bool
  is_empty p = length p.outer_to_inner == 0

  wrap_all : ℕ → List (StreamTransform S) → S → Result Error S
  wrap_all call [] stream = ok stream
  wrap_all call (t ∷ ts) stream = elim (t.wrap call stream) [
    | ok layer ↦ wrap_all (suc call) ts layer
    | err e ↦ err e
  ]

  -- `apply_write`, from a call on: the layers are added in the reverse of the list's order.
  unfoldable pub apply_write : ℕ → Pipeline S → S → Result Error S
  unfolding wrap_all
  apply_write call p stream = wrap_all call (reverse p.outer_to_inner) stream

-- Which streams are closed, and the calls of `close` so far.
pub record World (S : Type 0) : Type 0 where
  pub closed : S → Bool
  pub closes : List S

-- `fails s` is what closing `s` raises, if it does; the stream counts as closed all the same.
module _ {S : Type 0} ⦃e : Eq S⦄ (fails : S → Option Error) where
  unfoldable pub close_if_open : S → World S → Option Error × World S
  close_if_open s w = if w.closed s then (none, w) else (
    fails s,
    record {
      closed = λ other. if other is s then true else w.closed other;
      closes = w.closes ++ s ∷ [];
    },
  )

  later : Option Error → Option Error → Option Error
  later first none = first
  later first (some x) = some x

  -- `contextlib.ExitStack.close()` over `_close_if_open` callbacks, the last one registered first.
  -- All run; the exception that was raised last leaves.
  unfoldable pub exit_stack : List S → World S → Option Error × World S
  unfolding close_if_open later
  exit_stack [] w = (none, w)
  exit_stack (s ∷ rest) w =
      let (first, w') = close_if_open s w in
      let (second, w'') = exit_stack rest w' in (later first second, w'')

-- The loop's variables: the stream, the identities seen, and the callbacks, the last one first.
pub record Built (S : Type 0) : Type 0 where
  pub stream : S
  pub seen : List S
  pub stack : List S

-- `_ReadStream`: the decoded stream with the callbacks that it owns.
pub record ReadStream (S : Type 0) : Type 0 where
  pub wrapped : S
  pub cleanup : List S
  pub is_closed : Bool

-- What `apply_read` returns: its input as it is, or a stream that owns its layers.
pub data Opened (S : Type 0) : Type 0 where
  as_is : S → Opened S
  owned : ReadStream S → Opened S

module _ {S : Type 0} ⦃e : Eq S⦄ where
  abbrev pub start : S → Built S
  start stream = record { stream = stream; seen = stream ∷ []; stack = [] }

  pub push : S → Built S → Built S
  push layer b =
      if contains b.seen layer
      then record b { stream = layer }
      else record { stream = layer; seen = layer ∷ b.seen; stack = layer ∷ b.stack }

  -- The loop of `apply_read`, up to the exception that a transform raises.
  peel : ℕ → List (StreamTransform S) → Built S → Option Error × Built S
  peel call [] b = (none, b)
  peel call (t ∷ ts) b = elim (t.unwrap call b.stream) [
    | ok layer ↦ peel (suc call) ts (push layer b)
    | err x ↦ (some x, b)
  ]

module _ {S : Type 0} ⦃e : Eq S⦄ (fails : S → Option Error) where
  finish : Option Error × Built S → World S → Result Error (Opened S) × World S
  finish (none, b) w =
      if length b.seen == 1
      then (ok (as_is b.stream), w)
      else (ok (owned (record { wrapped = b.stream; cleanup = b.stack; is_closed = false })), w)
  finish (some x, b) w = (err x, (exit_stack fails b.stack w).1)

  -- `apply_read`, from a call on: a failure closes what was built, and is raised whatever the closing
  -- raises.
  unfoldable pub apply_read : ℕ → Pipeline S → S → World S → Result Error (Opened S) × World S
  unfolding finish peel push exit_stack
  apply_read call p stream w = finish (peel call p.outer_to_inner (start stream)) w

  -- `_ReadStream.close()`
  unfoldable pub close : ReadStream S → World S → Option Error × ReadStream S × World S
  unfolding exit_stack
  close r w =
      if r.is_closed
      then (none, r, w)
      else let (raised, w') = exit_stack fails r.cleanup w in
        (raised, record r { is_closed = true }, w')
