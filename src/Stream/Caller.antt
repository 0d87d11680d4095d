-- ===== src/Stream/Caller.antt =====
-- _core/stream_errors.py: the errors of a caller's stream during a transfer, and
-- storage/backends/http/http_write.py, `write_from_stream`, which gives them back.
pub mod Search
use mountainash_transport.Prelude.{
  ℕ, zero, suc, Bool, true, false, Option, none, some, List, [], ◌∷◌, ◌++◌, Result, ok, err, ◌==◌,
  if◌then◌else◌, contains, nat_eq,
}
use mountainash_transport.Prelude.Dict.{Dict, lookup}

-- The exceptions, by their identities: `__cause__` and `__context__`.
pub record Exceptions : Type 0 where
  pub cause : ℕ → Option ℕ
  pub context : ℕ → Option ℕ

-- The errors of a transfer, each with its traceback.
abbrev pub Errors : Type 0
Errors = Dict ℕ ℕ

-- `self._errors.append((exc, exc.__traceback__))`, of a call or of the access to an attribute.
unfoldable pub invoke : {A : Type 0} → Result (ℕ × ℕ) A → Errors → Errors
invoke (ok a) errors = errors
invoke (err e) errors = errors ++ e ∷ []

-- `if exc is not None: pending.append(exc)`
unfoldable pub push : Option ℕ → List ℕ → List ℕ
push none pending = pending
push (some e) pending = e ∷ pending

module _ (E : Exceptions) (errors : Errors) where
  -- `while pending`; the last of `pending` is the head of the list.
  unfoldable pub search : ℕ → List ℕ → List ℕ → Option (Option (ℕ × ℕ))
  search zero pending seen = none
  search (suc fuel) [] seen = some none
  search (suc fuel) (current ∷ pending) seen = elim (contains seen current) [
    | true ↦ search fuel pending seen
    | false ↦ elim (lookup current errors) [
      | some traceback ↦ some (some (current, traceback))
      | none ↦
          search fuel (push (E.cause current) (push (E.context current) pending)) (current ∷ seen)
    ]
  ]

  unfoldable pub original_in : ℕ → ℕ → Option (Option (ℕ × ℕ))
  original_in fuel error = search fuel (error ∷ []) []

  -- `write_from_stream`, given how the request ended: the exception that it raises.
  unfoldable pub write_from_stream : ℕ → Result ℕ (Unit {0}) → Option (Result ℕ (Unit {0}))
  write_from_stream fuel (ok _) = some (ok tt)
  write_from_stream fuel (err exc) = elim (original_in fuel exc) [
    | none ↦ none
    | some none ↦ some (err exc)
    | some (some (original, traceback)) ↦
        if original == exc then some (err exc) else some (err original)
  ]
