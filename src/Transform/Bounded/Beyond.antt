-- ===== src/Transform/Bounded/Beyond.antt =====
-- `_BoundedGzipFile` of compression.py with its position past the limit.
use mountainash_transport.Prelude.{
  ℕ, suc, ◌+◌, ◌≤◌, ◌<◌, ◌≡◌, refl, some, [], ok, err, pos, negsuc, ◌+ℤ◌, ◌-ℤ◌, length, drop, arith,
  length-drop, take_all,
}
use mountainash_transport.Errors.{transform_error}
use mountainash_transport.Stream.Ranged.{seek_set}
use mountainash_transport.Transform.Bounded.{
  BoundedGzipFile, room, cap, super_read, take_next, rest_length, read_chunk, read_all, seek,
}
use mountainash_transport.Transform.Bounded.Limit.{read_all-finished}

-- A stream longer than the limit: reading it to the end is refused, and reading it again returns
-- no bytes and no error, as at the end of a stream.
pub read_all_again :
    (fuel : ℕ) (f : BoundedGzipFile)
    → f.position ≤ f.limit
    → f.limit < length f.decoded
    → length f.decoded < suc fuel
    → let f' : BoundedGzipFile = record f { position = f.limit + 1 } in
      (read_all (suc fuel) f ≡ some (err transform_error, f'))
      × ((r : BoundedGzipFile) × (read_all (suc fuel) f' ≡ some (ok [], r))
          × (r.position ≡ f.limit + 1))
read_all_again fuel f h long enough = (
  ground (arith, read_all-finished (suc fuel) f h (omega arith) enough),
  (record f { position = f.limit + 1 + 0 }, unfold read_all in ground arith, omega arith),
)

room-beyond : (f : BoundedGzipFile) → f.position ≡ f.limit + 2 → room f ≡ negsuc 0
unfolding room ◌+ℤ◌ ◌-ℤ◌
room-beyond f at = ground arith

-- The chunk that is read two bytes past the limit is all that is left.
read_chunk-beyond :
    (f : BoundedGzipFile)
    → f.position ≡ f.limit + 2
    → f.position ≤ length f.decoded
    → read_chunk f ≡ (ok (drop f.position f.decoded), record f { position = length f.decoded })
unfolding read_chunk cap super_read take_next rest_length
read_chunk-beyond f at fits =
    let rest = drop f.position f.decoded in
    rw (room-beyond f at) (
      rw (take_all (length rest) rest (omega arith))
        (ground (arith, length-drop f.position f.decoded)))

-- A seek two bytes past the limit is refused, but the next read to the end decodes the whole of the
-- stream, however long, before it is refused too: the cap is then -1, which stands for no cap.
pub seek_beyond :
    (fuel : ℕ) (f : BoundedGzipFile)
    → f.limit + 2 < length f.decoded
    → let f' : BoundedGzipFile = record f { position = f.limit + 2 } in
      (seek (pos (f.limit + 2)) seek_set f ≡ (err transform_error, f'))
      × (read_all (suc fuel) f'
          ≡ some (err transform_error, record f { position = length f.decoded }))
unfolding seek read_all
seek_beyond fuel f long =
    let f' : BoundedGzipFile = record f { position = f.limit + 2 } in
    (
      ground arith,
      ground (arith, read_chunk-beyond f' refl (omega arith), length-drop (f.limit + 2) f.decoded),
    )
