-- ===== src/Stream/Sequential.antt =====
-- _core/sequential_io.py: forward-only readers over a native reader or an iterator of chunks.
pub mod Closing
use mountainash_transport.Prelude.{
  ℕ, zero, suc, Bool, true, Option, none, some, List, [], ◌∷◌, ◌++◌, Result, ok, err, length, leb,
  ◌==◌, if◌then◌else◌,
}
use mountainash_transport.Errors.{Error, value_error}

abbrev pub Bytes : Type 0
Bytes = List ℕ

-- `map_error`, where `none` is the argument left out.
abbrev pub MapError : Type 0
MapError = Option (Error → Option Error)

-- The exception that leaves an `except` clause which translates with `map_error`.
pub translate : MapError → Error → Error
translate none e = e
translate (some f) e = elim (f e) [ none ↦ e | some mapped ↦ mapped ]

-- What a reader is built over: `read(n)` and `close()` of a native stream.
pub record Native : Type 1 where
  pub State : Type 0
  pub read : ℕ → State → Result Error Bytes × State
  pub close : State → Result Error (Unit {0}) × State

module _ (N : Native) where
  pub record ForwardOnlyReader : Type 0 where
    pub source : N.State
    pub map_error : MapError
    pub closed : Bool

  -- The `except` clause of `readinto`; a buffer takes no more bytes than it has room for.
  store_into : MapError → ℕ → Result Error Bytes → Result Error Bytes
  store_into m room (ok bytes) = if leb (length bytes) room then ok bytes else err value_error
  store_into m room (err e) = err (translate m e)

  -- `readinto(b)` of a buffer of `room` bytes: the bytes that it stores.
  unfoldable pub readinto : ℕ → ForwardOnlyReader → Result Error Bytes × ForwardOnlyReader
  unfolding store_into translate
  readinto room r =
      if r.closed
      then (err value_error, r)
      else if room == 0
      then (ok [], r)
      else let (result, source') = N.read room r.source in
        (store_into r.map_error room result, record r { source = source' })

  close_result : MapError → Result Error (Unit {0}) → Result Error (Unit {0})
  close_result m (ok u) = ok u
  close_result m (err e) = err (translate m e)

  -- `close()`: the native close runs once, and the reader is closed also where that raises.
  unfoldable pub close : ForwardOnlyReader → Result Error (Unit {0}) × ForwardOnlyReader
  unfolding close_result translate
  close r =
      if r.closed
      then (ok tt, r)
      else let (result, source') = N.close r.source in
        (close_result r.map_error result, record r { source = source'; closed = true })

  prepend : Bytes → Option (Result Error Bytes) → Option (Result Error Bytes)
  prepend bytes (some (ok rest)) = some (ok (bytes ++ rest))
  prepend bytes other = other

  -- `io.RawIOBase.readall()`, in reads of `size` bytes until one is empty. `none` is fuel run out.
  unfoldable pub readall : ℕ → ℕ → ForwardOnlyReader → Option (Result Error Bytes)
  unfolding prepend
  readall zero size r = none
  readall (suc fuel) size r = elim (readinto size r).0 [
    | err e ↦ some (err e)
    | ok [] ↦ some (ok [])
    | ok (b ∷ bytes) ↦ prepend (b ∷ bytes) (readall fuel size (readinto size r).1)
  ]
