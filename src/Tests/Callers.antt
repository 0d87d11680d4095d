-- ===== src/Tests/Callers.antt =====
-- _core/stream_errors.py: an upload whose source raises.
use mountainash_transport.Prelude.{
  ℕ, ◌<◌, ◌==◌, if◌then◌else◌, ◌≡◌, refl, ◌⊎◌, none, some, [], ◌∷◌, Result, err, nat_eq, arith,
}
use mountainash_transport.Prelude.Dict.{lookup}
use mountainash_transport.Stream.Caller.{
  Exceptions, Errors, invoke, search, push, original_in, write_from_stream,
}
use mountainash_transport.Stream.Caller.Search.{Found, write_from_stream-Raises}

-- The storage error 0, caused by the client's 1, raised while 2 of the caller was handled, which has 0
-- as its context in turn.
abbrev exceptions : Exceptions
exceptions = record {
  cause = λ e. if e == 0 then some 1 else none;
  context = λ e. if e == 1 then some 2 else if e == 2 then some 0 else none;
}

abbrev raised_2 : Errors
raised_2 = (2, 7) ∷ []

caller_sees_2 : write_from_stream exceptions raised_2 8 (err 0) ≡ some (err 2)
unfolding write_from_stream original_in search push lookup
caller_sees_2 = refl

abbrev failed_read : Result (ℕ × ℕ) ℕ
failed_read = err (2, 7)

invoke_records : invoke failed_read [] ≡ raised_2
unfolding invoke
invoke_records = refl

cause_small : (x y : ℕ) → exceptions.cause x ≡ some y → y < 3
cause_small x y h = ground (arith, h)

context_small : (x y : ℕ) → exceptions.context x ≡ some y → y < 3
context_small x y h = ground (arith, h)

write_from_stream-Raises_example :
    (x : ℕ) × (write_from_stream exceptions raised_2 8 (err 0) ≡ some (err x))
    × (Found exceptions raised_2 0 none × (x ≡ 0)
        ⊎ ((traceback : ℕ) × Found exceptions raised_2 0 (some (x, traceback))))
write_from_stream-Raises_example =
    write_from_stream-Raises exceptions raised_2 3 cause_small context_small 8 0 (omega arith)
      (omega arith)
