-- ===== src/Stream/Chunks.antt =====
-- _core/sequential_io.py: `IterBytesReader`, over an iterator of chunks that may end by raising.
pub mod Content
pub mod Delivery
use mountainash_transport.Prelude.{
  ℕ, zero, suc, Bool, true, false, Option, none, some, List, [], ◌∷◌, ◌++◌, Result, ok, err, length,
  take, drop,
}
use mountainash_transport.Errors.{Error}
use mountainash_transport.Stream.Sequential.{Bytes, Native, ForwardOnlyReader, MapError, readinto}

-- The iterator's chunks to come and how it ends: by `StopIteration`, or by an exception, after
-- which a generator yields nothing more. `pending` is the rest of the chunk in hand.
pub record Chunks : Type 0 where
  pub pending : Bytes
  pub chunks : List Bytes
  pub failure : Option Error

-- `while not self._pending: ...`, as the pending bytes and the chunks that it leaves.
refill : Bytes → List Bytes → Bytes × List Bytes
refill (b ∷ rest) chunks = (b ∷ rest, chunks)
refill [] [] = ([], [])
refill [] (chunk ∷ chunks) = refill chunk chunks

serve : ℕ → Option Error → Bytes × List Bytes → Result Error Bytes × Chunks
serve size none ([], chunks) = (ok [], record { pending = []; chunks = chunks; failure = none })
serve size (some e) ([], chunks) = (err e, record { pending = []; chunks = chunks; failure = none })
serve size failure (b ∷ rest, chunks) =
    let bytes = take size (b ∷ rest) in
    (
      ok bytes,
      record { pending = drop (length bytes) (b ∷ rest); chunks = chunks; failure = failure },
    )

-- `_next(size)`
unfoldable pub next : ℕ → Chunks → Result Error Bytes × Chunks
unfolding refill serve
next size s = serve size s.failure (refill s.pending s.chunks)

-- The native reader of an `IterBytesReader`, with the `close` that it is given.
abbrev pub iter_bytes : (Chunks → Result Error (Unit {0}) × Chunks) → Native
iter_bytes close = record { State = Chunks; read = next; close = close }

-- `IterBytesReader.__init__`: nothing is taken from the iterator.
unfoldable pub iter_bytes_reader :
    (close : Chunks → Result Error (Unit {0}) × Chunks)
    → List Bytes
    → Option Error
    → MapError
    → ForwardOnlyReader (iter_bytes close)
iter_bytes_reader close chunks failure map_error = record {
  source = record { pending = []; chunks = chunks; failure = failure };
  map_error = map_error;
  closed = false;
}
