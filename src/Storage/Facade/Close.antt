-- ===== src/Storage/Facade/Close.antt =====
-- The life of a facade's connection: `close`, `__enter__` and `_ensure_open`.
use mountainash_transport.Prelude.{
  ℕ, zero, suc, ◌+◌, ◌≡◌, refl, ap, ◌∙◌, Bool, true, false, Option, none, some, if◌then◌else◌,
  Result, ok, err, arith,
}
use mountainash_transport.Errors.{Error, storage_connection}

-- The facade's connection, as `disconnect` behaves (what it raises), and the calls of it so far.
pub record Lifecycle : Type 0 where
  pub closed : Bool
  pub connection : Option (Option Error)
  pub disconnects : ℕ

-- `close()`
unfoldable pub close : Lifecycle → Result Error (Unit {0}) × Lifecycle
close s = if s.closed then (ok tt, s) else elim s.connection [
  | none ↦ (ok tt, record s { closed = true; connection = none })
  | some none ↦
      (ok tt, record s { closed = true; connection = none; disconnects = s.disconnects + 1 })
  | some (some x) ↦
      (err x, record s { closed = true; connection = none; disconnects = s.disconnects + 1 })
]

-- `_ensure_open()`, which `__enter__` is as well.
unfoldable pub ensure_open : Lifecycle → Result Error (Unit {0})
ensure_open s = if s.closed then err storage_connection else ok tt

-- The nth `close` after the first.
abbrev pub close_again : ℕ → Lifecycle → Lifecycle
close_again zero s = s
close_again (suc n) s = (close (close_again n s)).1

close-closed : (s : Lifecycle) → (close s).1.closed ≡ true
unfolding close
close-closed s = ground arith

close_again-same : (n : ℕ) (s : Lifecycle) → s.closed ≡ true → close_again n s ≡ s
unfolding close
close_again-same zero s h = refl
close_again-same (suc n) s h = ap (λ t. (close t).1) (close_again-same n s h) ∙ ground (arith, h)

-- After a `close` of an open facade, whatever `disconnect` raises, every later `close` returns
-- without a failure and changes nothing, use is refused, and the connection, if there was one, was
-- disconnected exactly once.
pub ensure_open-close :
    (n : ℕ) (s : Lifecycle)
    → s.closed ≡ false
    → let after = (close s).1 in
      (close (close_again n after) ≡ (ok tt, after))
      × (ensure_open (close_again n after) ≡ err storage_connection)
      × (after.disconnects ≡ s.disconnects + elim s.connection [ none ↦ 0 | some c ↦ 1 ])
unfolding close ensure_open
ensure_open-close n s h =
    let done = close-closed s in
    rw (close_again-same n (close s).1 done)
      (ground (arith, done), ground (arith, done), ground (arith, h))
