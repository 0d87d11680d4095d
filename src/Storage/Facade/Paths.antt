-- ===== src/Storage/Facade/Paths.antt =====
-- The paths that a local facade with a root hands to its backend.
use mountainash_transport.Prelude.{
  ℕ, ◌≡◌, subst, inl, inr, true, some, List, [], ◌∷◌, Text, Result-cases, ok, All, arith,
}
use mountainash_transport.Location.Schemes.{Platform, local}
use mountainash_transport.Location.Policy.{LocationPolicy, active, require_known_scheme}
use mountainash_transport.Location.Policy.Confined.{confine_local-inside}
use mountainash_transport.Transform.Pipeline.{StreamTransform}
use mountainash_transport.Storage.Facade.{
  Facade, BackendCall, check, check_provider, Operation, dispatch,
}
use mountainash_transport.Storage.Facade.Dispatch.{paths_of, Given, dispatch-Safe}

module _ (P : Platform) (fuel : ℕ) where
  abbrev Rooted : Text → Text → Type 0
  Rooted root path = P.is_relative_to path root ≡ true

  check-Rooted :
      (f : Facade) (location root path : Text) (policy : LocationPolicy)
      → f.provider_type ≡ local
      → f.policy ≡ some policy
      → active policy ≡ true
      → policy.root ≡ some root
      → check P fuel f location ≡ some (ok path)
      → Rooted (P.realpath root) path
  unfolding check check_provider
  check-Rooted f location root path policy l p a r e =
      let known = require_known_scheme P location (some policy) in
      elim (Result-cases known) [
        | inl (scheme, q) ↦
            confine_local-inside P fuel location root path policy a r
              (ground (arith, l, p, a, q, e))
        | inr (x, q) ↦ absurd (ground (arith, l, p, a, q, e))
      ]

  All-Rooted :
      (f : Facade) (root : Text) (policy : LocationPolicy)
      → f.provider_type ≡ local
      → f.policy ≡ some policy
      → active policy ≡ true
      → policy.root ≡ some root
      → (paths : List Text)
      → All (λ path. (location : Text) × (check P fuel f location ≡ some (ok path))) paths
      → All (Rooted (P.realpath root)) paths
  All-Rooted f root policy l p a r [] h = tt
  All-Rooted f root policy l p a r (path ∷ paths) h = (
    check-Rooted f h.0.0 root path policy l p a r h.0.1,
    All-Rooted f root policy l p a r paths h.1,
  )

  pub dispatch-Rooted :
      (S : Type 0) (suffix : Text → Text) (default_gzip : StreamTransform S) (f : Facade)
      (op : Operation P fuel S) (root : Text) (policy : LocationPolicy) (call : BackendCall)
      → f.provider_type ≡ local
      → f.policy ≡ some policy
      → active policy ≡ true
      → policy.root ≡ some root
      → dispatch P fuel S suffix default_gzip f op ≡ some (ok call)
      → All (λ path. P.is_relative_to path (P.realpath root) ≡ true) (paths_of call)
  dispatch-Rooted S suffix default_gzip f op root policy call l p a r e =
      let safe = dispatch-Safe P fuel S suffix default_gzip f op in
      All-Rooted f root policy l p a r (paths_of call)
        (subst (Given P fuel S suffix default_gzip f) e safe.given)
