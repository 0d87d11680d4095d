-- ===== src/Stream/Sequential/Closing.antt =====
-- The life cycle of a forward-only reader.
use mountainash_transport.Prelude.{ℕ, ◌≡◌, true, ok, err, arith}
use mountainash_transport.Errors.{value_error}
use mountainash_transport.Stream.Sequential.{Native, ForwardOnlyReader, close, readinto}

module _ (N : Native) where
  -- `close` closes the reader whether or not the native close raises; after it, another `close`
  -- calls nothing and succeeds, and every read is refused and touches nothing.
  pub close_once :
      (r : ForwardOnlyReader N) (room : ℕ)
      → let r' = (close N r).1 in
        (r'.closed ≡ true)
        × (close N r' ≡ (ok tt, r'))
        × (readinto N room r' ≡ (err value_error, r'))
  unfolding close readinto
  close_once r room = ground arith
