-- ===== src/Transform/Bounded/Limit.antt =====
-- How far a bounded gzip file decodes.
use mountainash_transport.Prelude.{
  ℕ, zero, suc, ◌+◌, ◌-◌, ◌≤◌, ◌<◌, min, ◌≡◌, refl, ◌∙◌, sym, ap, some, [], ◌∷◌, ◌++◌, Result, ok,
  err, pos, ◌+ℤ◌, ◌-ℤ◌, min_ℤ, length, take, drop, leb, if◌then◌else◌, arith, length-take,
  length-drop, take-append-drop-length, drop-drop, take_all, drop_all, ◌⊎◌, inl, inr,
}
use mathlib.Core.List.{append_assoc, append-nil}
use mountainash_transport.Errors.{Error, transform_error}
use mountainash_transport.Stream.Sequential.{Bytes}
use mountainash_transport.Transform.Bounded.{
  BoundedGzipFile, chunk_size, room, cap, take_next, super_read, read_chunk, check, read_loop, read,
  read_all,
}

room-within : (f : BoundedGzipFile) → f.position ≤ f.limit → room f ≡ pos (f.limit - f.position + 1)
unfolding room ◌+ℤ◌ ◌-ℤ◌
room-within f h = ground arith

min_ℤ-pos : (a b : ℕ) → min_ℤ (pos a) (pos b) ≡ pos (min a b)
min_ℤ-pos a b = ground arith

-- The chunk that the loop reads at a position within the limit.
abbrev chunk : BoundedGzipFile → Bytes
chunk f = take (min chunk_size (f.limit - f.position + 1)) (drop f.position f.decoded)

read_chunk-within :
    (f : BoundedGzipFile)
    → f.position ≤ f.limit
    → read_chunk f ≡ (ok (chunk f), record f { position = f.position + length (chunk f) })
unfolding read_chunk cap super_read take_next
read_chunk-within f h = rw (room-within f h, min_ℤ-pos) refl

cap-within :
    (n : ℕ) (f : BoundedGzipFile)
    → f.position ≤ f.limit
    → cap (pos n) f ≡ pos (min n (f.limit - f.position + 1))
unfolding cap
cap-within n f h = rw (room-within f h) (ground arith)

read-step :
    (n : ℕ) (f : BoundedGzipFile)
    → f.position ≤ f.limit
    → read n f ≡ check (take_next (min n (f.limit - f.position + 1)) f)
read-step n f h = opened ∙ ap (λ size. check (super_read size f)) (cap-within n f h) ∙ computed
  where
    opened : read n f ≡ check (super_read (cap (pos n) f) f)
    opened = unfold read in refl

    computed :
        check (super_read (pos (min n (f.limit - f.position + 1))) f)
        ≡ check (take_next (min n (f.limit - f.position + 1)) f)
    computed = unfold super_read in refl

-- Taking more makes no difference where less already came short.
take-short :
    (m n : ℕ) (xs : Bytes) → m ≤ n → (m ≡ n) ⊎ (length (take m xs) < m) → take m xs ≡ take n xs
take-short m n xs le (inl e) = rw e
take-short m n xs le (inr short) =
    let fits : length xs ≤ m = omega (arith, length-take m xs) in
    take_all m xs fits ∙ sym (take_all n xs (omega arith))

-- A sized read within the limit gives the next bytes and stays within it, or it is refused with
-- at most one byte decoded past the limit.
pub read-within :
    (n : ℕ) (f : BoundedGzipFile)
    → f.position ≤ f.limit
    → let f' = (read n f).1 in
      (f'.position ≤ f.limit + 1)
      × ((read n f).0 ≡ (
          if leb f'.position f.limit
          then ok (take n (drop f.position f.decoded))
          else err transform_error))
unfolding check take_next
read-within n f h =
    let k = min n (f.limit - f.position + 1) in
    let taken = take k (drop f.position f.decoded) in
    let fits = length-take k (drop f.position f.decoded) in
    let same : f.position + length taken ≤ f.limit → taken ≡ take n (drop f.position f.decoded) =
      λ q. take-short k n _ (omega arith) (omega (arith, fits)) in
    rw (read-step n f h) (ground (arith, fits, same))

-- What reading to the end comes to: all of it, or the refusal one byte past the limit.
abbrev pub finished : Bytes → BoundedGzipFile → Result Error Bytes × BoundedGzipFile
finished out f =
    if leb (length f.decoded) f.limit
    then (ok (out ++ drop f.position f.decoded), record f { position = length f.decoded })
    else (err transform_error, record f { position = f.limit + 1 })

abbrev after : BoundedGzipFile → BoundedGzipFile
after f = record f { position = f.position + length (chunk f) }

length-chunk :
    (f : BoundedGzipFile)
    → length (chunk f)
      ≡ min (min chunk_size (f.limit - f.position + 1)) (length f.decoded - f.position)
length-chunk f = omega (
  arith,
  length-take (min chunk_size (f.limit - f.position + 1)) (drop f.position f.decoded),
  length-drop f.position f.decoded,
)

finished-after :
    (out : Bytes) (f : BoundedGzipFile) → finished (out ++ chunk f) (after f) ≡ finished out f
finished-after out f =
    let joined =
      append_assoc out (chunk f) _
      ∙ ap (λ t. out ++ t)
          (ap (λ t. chunk f ++ t) (sym (drop-drop f.position (length (chunk f)) f.decoded))
            ∙ take-append-drop-length _ (drop f.position f.decoded)) in
    ground (arith, joined)

read_loop-step :
    (fuel : ℕ) (out : Bytes) (f : BoundedGzipFile) (c : Bytes)
    → chunk f ≡ c
    → f.position ≤ f.limit
    → f.position ≤ length f.decoded
    → (f.position + length c ≤ f.limit
        → 0 < length c
        → read_loop fuel (out ++ c) (after f) ≡ some (finished (out ++ c) (after f)))
    → read_loop (suc fuel) out f ≡ some (finished out f)
unfolding read_loop check
read_loop-step fuel out f [] e h k ih =
    let n : f.position ≡ length f.decoded = omega (arith, length-chunk f, ap (length {A = ℕ}) e) in
    ground (arith, read_chunk-within f h, e, n, drop_all f.position f.decoded, append-nil out)
read_loop-step fuel out f (b ∷ bytes) e h k ih = ground (
  arith,
  read_chunk-within f h,
  e,
  length-chunk f,
  ap (length {A = ℕ}) e,
  finished-after out f,
  ih,
)

read_loop-within :
    (fuel : ℕ) (out : Bytes) (f : BoundedGzipFile)
    → f.position ≤ f.limit
    → f.position ≤ length f.decoded
    → length f.decoded - f.position < fuel
    → read_loop fuel out f ≡ some (finished out f)
read_loop-within zero out f h k enough = absurd (omega arith)
read_loop-within (suc fuel) out f h k enough =
    read_loop-step fuel out f (chunk f) refl h k λ fits more.
      read_loop-within fuel (out ++ chunk f) (after f) fits (omega (arith, length-chunk f))
        (omega (arith, length-chunk f))

-- Reading to the end from a position within the limit returns everything that is left where the
-- stream decodes to no more than the limit, and is otherwise refused with one byte decoded past
-- the limit; a round for each byte suffices.
pub read_all-finished :
    (fuel : ℕ) (f : BoundedGzipFile)
    → f.position ≤ f.limit
    → f.position ≤ length f.decoded
    → length f.decoded < fuel
    → read_all fuel f ≡ some (finished [] f)
read_all-finished fuel f h k enough = opened ∙ read_loop-within fuel [] f h k (omega arith)
  where
    opened : read_all fuel f ≡ read_loop fuel [] f
    opened = unfold read_all in refl
