-- ===== src/Connection/Leaf/Ends.antt =====
-- connections/http.py, s3.py, ssh.py: what a connect and a disconnect leave open.
use mountainash_transport.Prelude.{
  ℕ, ◌≡◌, refl, ap, ◌∙◌, ◌⊎◌, inl, inr, Bool, true, Option, none, some, List, ◌∷◌, ok, err,
  string_eq, arith, Result-cases,
}
use mountainash_transport.Connection.Failures.{Failure, Raised, raised}
use mountainash_transport.Connection.World.{World, Acquired, Acquires, release, remove, remove-head}
use mountainash_transport.Connection.Protocol.{Done, Stance, holding}
use mountainash_transport.Connection.Leaf.Http.{reconnect, disconnect}

-- A connection whose library cannot be imported never gets a client.
abbrev pub leaf_stance : Bool → Stance (Option ℕ)
leaf_stance importable = record {
  held = holding;
  IsValid = λ s. (importable ≡ true) ⊎ (s ≡ none);
  IsIdle = λ s. s ≡ none;
}

pub disconnect-idle : (s : Option ℕ) (w : World) → (disconnect s w).state ≡ none
unfolding disconnect
disconnect-idle none w = refl
disconnect-idle (some h) w = refl

pub disconnect-open :
    (rest : List ℕ) (s : Option ℕ) (w : World)
    → w.open_now ≡ holding s rest
    → (disconnect s w).world.open_now ≡ rest
unfolding disconnect release
disconnect-open rest none w h = h
disconnect-open rest (some x) w h = ap (remove x) h ∙ remove-head x rest

-- What a connect of a leaf may end in.
abbrev pub Ends : Bool → List ℕ → Done (Option ℕ) → Type 0
Ends importable rest d =
    ((h : ℕ) × (importable ≡ true)
      × (d.result ≡ ok tt)
      × (d.state ≡ some h)
      × (d.world.open_now ≡ h ∷ rest))
    ⊎ ((x : Raised) × (d.result ≡ err x) × (d.state ≡ none) × (d.world.open_now ≡ rest))

module _ (make : World → Acquired) (failure : Failure → Failure)
    (make-Acquires : (w : World) → Acquires w (make w)) where
  pub reconnect-Ends :
      (rest : List ℕ) (s : Option ℕ) (w : World)
      → w.open_now ≡ holding s rest
      → Ends true rest (reconnect make failure s w)
  unfolding reconnect
  reconnect-Ends rest s w h =
      let o = disconnect-open rest s w h in
      let i = disconnect-idle s w in
      elim (Result-cases (disconnect s w).result) [
        | inr (x, e) ↦ inr (x, ground (arith, e), ground (arith, e, i), ground (arith, e, o))
        | inl (u, e) ↦ elim (make-Acquires (disconnect s w).world).ends [
          | inl (new, p, q) ↦
              inl
                (new, refl, ground (arith, e, p), ground (arith, e, p), ground (arith, e, p, q, o))
          | inr (f, p, q) ↦ inr (
            raised (failure f),
            ground (arith, e, p),
            ground (arith, e, p, i),
            ground (arith, e, p, q, o),
          )
        ]
      ]
