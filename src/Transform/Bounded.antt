-- ===== src/Transform/Bounded.antt =====
-- _core/transforms/compression.py: the reader that stops a decompression bomb.
pub mod Limit
pub mod Beyond
use mountainash_transport.Prelude.{
  ℕ, zero, suc, ◌+◌, ◌-◌, ◌*◌, min, Bool, true, false, Option, none, some, List, [], ◌∷◌, ◌++◌,
  Result, ok, err, ℤ, pos, negsuc, ◌+ℤ◌, ◌-ℤ◌, ltb_ℤ, min_ℤ, length, take, drop, ltb, leb, ◌==◌,
  if◌then◌else◌,
}
use mountainash_transport.Errors.{Error, value_error, transform_error}
use mountainash_transport.Stream.Sequential.{Bytes}
use mountainash_transport.Stream.Ranged.{Whence, seek_set, seek_cur, seek_end, invalid_whence}

abbrev pub default_max_decompressed_bytes : ℕ
default_max_decompressed_bytes = 1024 * 1024 * 1024

-- `_CHUNK`
abbrev pub chunk_size : ℕ
chunk_size = 64 * 1024

-- A `_BoundedGzipFile` over a valid gzip stream: all that it decodes to, the position in it, and
-- the limit.
pub record BoundedGzipFile : Type 0 where
  pub decoded : Bytes
  pub position : ℕ
  pub limit : ℕ

take_next : ℕ → BoundedGzipFile → Result Error Bytes × BoundedGzipFile
take_next n f =
    let bytes = take n (drop f.position f.decoded) in
    (ok bytes, record f { position = f.position + length bytes })

rest_length : BoundedGzipFile → ℕ
rest_length f = length (drop f.position f.decoded)

-- `gzip.GzipFile.read(size)`, which is that of its `io.BufferedReader`: -1 reads all that is left,
-- and another negative size is refused.
super_read : ℤ → BoundedGzipFile → Result Error Bytes × BoundedGzipFile
super_read (pos n) f = take_next n f
super_read (negsuc zero) f = take_next (rest_length f) f
super_read (negsuc (suc n)) f = (err value_error, f)

room : BoundedGzipFile → ℤ
room f = pos f.limit -ℤ pos f.position +ℤ pos 1

-- `_cap(size)`; the default of `size` and `None` count as negative.
cap : ℤ → BoundedGzipFile → ℤ
cap size f = if ltb_ℤ size (pos 0) then room f else min_ℤ size (room f)

-- `_check()` after the call that gave a result.
check : Result Error Bytes × BoundedGzipFile → Result Error Bytes × BoundedGzipFile
check (ok bytes, f) = if ltb f.limit f.position then (err transform_error, f) else (ok bytes, f)
check (err e, f) = (err e, f)

-- One call of the `while` loop of `read`.
read_chunk : BoundedGzipFile → Result Error Bytes × BoundedGzipFile
read_chunk f = super_read (min_ℤ (pos chunk_size) (cap (negsuc 0) f)) f

-- The `while` loop of `read`, over what it has collected; `none` is fuel run out.
read_loop : ℕ → Bytes → BoundedGzipFile → Option (Result Error Bytes × BoundedGzipFile)
read_loop zero out f = none
read_loop (suc fuel) out f = elim (read_chunk f).0 [
  | err e ↦ some (err e, (read_chunk f).1)
  | ok [] ↦ some (ok out, (read_chunk f).1)
  | ok (b ∷ bytes) ↦ elim (check (ok [], (read_chunk f).1)).0 [
    | err e ↦ some (err e, (read_chunk f).1)
    | ok _ ↦ read_loop fuel (out ++ b ∷ bytes) (read_chunk f).1
  ]
]

-- `read(size)` of a size that is not negative
unfoldable pub read : ℕ → BoundedGzipFile → Result Error Bytes × BoundedGzipFile
unfolding super_read take_next rest_length cap room check ◌+ℤ◌ ◌-ℤ◌
read n f = check (super_read (cap (pos n) f) f)

-- `read()` of a negative size or `None`
unfoldable pub read_all : ℕ → BoundedGzipFile → Option (Result Error Bytes × BoundedGzipFile)
unfolding read_loop read_chunk super_read take_next rest_length cap room check ◌+ℤ◌ ◌-ℤ◌
read_all fuel f = read_loop fuel [] f

target : ℤ → Whence → BoundedGzipFile → Option ℤ
target offset seek_set f = some offset
target offset seek_cur f = some (pos f.position +ℤ offset)
target offset seek_end f = some (pos (length f.decoded) +ℤ offset)
target offset invalid_whence f = none

-- `gzip.GzipFile.seek`: it rewinds or decodes forward, and stops at the end of the data.
super_seek : Option ℤ → BoundedGzipFile → Result Error Bytes × BoundedGzipFile
super_seek none f = (err value_error, f)
super_seek (some (pos n)) f = (ok [], record f { position = min n (length f.decoded) })
super_seek (some (negsuc n)) f = (ok [], record f { position = 0 })

-- `seek(offset, whence)`; the position that it returns is that of the file.
unfoldable pub seek : ℤ → Whence → BoundedGzipFile → Result Error Bytes × BoundedGzipFile
unfolding target super_seek check ◌+ℤ◌
seek offset whence f = check (super_seek (target offset whence f) f)
