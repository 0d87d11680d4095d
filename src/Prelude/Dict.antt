-- ===== src/Prelude/Dict.antt =====
-- Python's `dict` as an association list with one entry for a key.
use mathlib.Core.Path.{◌≡◌, refl}
use mathlib.Core.Option.{Option, none, some}
use mathlib.Core.List.{List, [], ◌∷◌}
use native.Mathlib.Omega.{arith}
use mountainash_transport.Prelude.Tests.{if◌then◌else◌}
use mountainash_transport.Prelude.Equality.{Eq, ◌is◌}

abbrev pub Dict {ℓ κ} : Type ℓ → Type κ → Type (ℓ ⊔ κ)
Dict K V = List (K × V)

abbrev pub or_else {ℓ} : {V : Type ℓ} → Option V → Option V → Option V
or_else none o = o
or_else (some v) o = some v

module _ {ℓ κ} {K : Type ℓ} {V : Type κ} ⦃e : Eq K⦄ where
  -- d.get(k)
  unfoldable pub lookup : K → Dict K V → Option V
  lookup k [] = none
  lookup k ((j, v) ∷ d) = if k is j then some v else lookup k d

  -- d[k] = v
  unfoldable pub insert : K → V → Dict K V → Dict K V
  insert k v [] = (k, v) ∷ []
  insert k v ((j, w) ∷ d) = if k is j then (j, v) ∷ d else (j, w) ∷ insert k v d

  -- d.update(other)
  unfoldable pub update : Dict K V → Dict K V → Dict K V
  unfolding insert
  update d [] = d
  update d ((k, v) ∷ other) = update (insert k v d) other

  -- No key has two entries.
  abbrev pub IsDict : Dict K V → Type κ
  IsDict [] = Unit
  IsDict ((k, v) ∷ d) = (lookup k d ≡ none) × IsDict d

  pub lookup-insert :
      (j k : K) (v : V) (d : Dict K V)
      → lookup j (insert k v d) ≡ (if j is k then some v else lookup j d)
  unfolding lookup insert
  lookup-insert j k v [] = refl
  lookup-insert j k v ((i, w) ∷ d) =
      ground (arith, lookup-insert j k v d, e.beq_iff j k, e.beq_iff k i, e.beq_iff j i)

  -- After an update, a key of the other dict has its value there, and any other its own.
  pub lookup-update :
      (j : K) (d other : Dict K V)
      → IsDict other
      → lookup j (update d other) ≡ or_else (lookup j other) (lookup j d)
  unfolding lookup update
  lookup-update j d [] h = refl
  lookup-update j d ((k, v) ∷ other) h =
      ground
        (arith, lookup-update j (insert k v d) other h.1, lookup-insert j k v d, e.beq_iff j k, h.0)
