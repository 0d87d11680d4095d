-- ===== src/Http/Engine/Loop/Answer.antt =====
-- What `request` and `stream` send, and what they answer with.
use mountainash_transport.Prelude.{
  ℕ, ◌≡◌, refl, ap, sym, subst, inl, inr, Bool, true, false, string_eq, Bool-cases, Option, some,
  Text, upper, nat_eq, arith,
}
use mountainash_transport.Prelude.Dict
use mountainash_transport.Stream.Sequential.{Bytes}
use mountainash_transport.Http.Policy.{Seconds, RequestPolicy, is_safe}
use mountainash_transport.Http.Engine.{
  Headers, Response, Final, success, raised, unclassified, propagated, resolve_body,
  raise_for_status,
}
use mountainash_transport.Http.Engine.Headers.{IsMapping}
use mountainash_transport.Http.Engine.Loop.{
  Outcome, responded, invalid_url, failed, aborted, Env, auth_headers, Loop, Decision, stop, pause,
  refresh, on_failure, wants_refresh, is_success, initial,
}
use mountainash_transport.Http.Engine.Loop.Request.{Call, decide_request, request_call, may_repeat}
use mountainash_transport.Http.Engine.Loop.Streaming.{
  StreamCall, after_refresh, decide_stream, stream_call,
}
use mountainash_transport.Http.Engine.Loop.History.{Correct, Apt, run-Correct, initial-Own}

module _ (T : Seconds) where
  -- No success, and no refresh.
  unfoldable quiet : Decision T → Bool
  quiet (stop (success r)) = false
  quiet (stop f) = true
  quiet (pause t) = true
  quiet (refresh d) = false

  quiet_plain :
      (d : Decision T)
      → quiet d ≡ true
      → (elim d as (λ x. Type 0) [ stop f ↦ Unit {0} | pause t ↦ Unit {0} | refresh e ↦ ⊥ ])
  unfolding quiet
  quiet_plain (stop f) h = tt
  quiet_plain (pause t) h = tt
  quiet_plain (refresh d) h = ground (arith, h)

  quiet-Apt :
      (env : Env) (caller : Headers) (method : Text) (body : Option Bytes) (d : Decision T)
      (s : Loop T) (o : Outcome)
      → quiet d ≡ true
      → Apt T env caller method body d s o
  unfolding quiet
  quiet-Apt env caller method body (stop (success r)) s o h = absurd (ground (arith, h))
  quiet-Apt env caller method body (stop (raised c status after)) s o h =
      λ r e. absurd (ground (arith, e))
  quiet-Apt env caller method body (stop unclassified) s o h = λ r e. absurd (ground (arith, e))
  quiet-Apt env caller method body (stop (propagated x)) s o h = λ r e. absurd (ground (arith, e))
  quiet-Apt env caller method body (pause t) s o h = tt
  quiet-Apt env caller method body (refresh d) s o h = absurd (ground (arith, h))

  success_injective : (r r' : Response) → ◌≡◌ {A = Final T} (success r) (success r') → r ≡ r'
  success_injective r r' h = cc

  success_status :
      (r r' : Response)
      → ◌≡◌ {A = Final T} (success r) (success r')
      → is_success T r.status_code ≡ true
      → is_success T r'.status_code ≡ true
  success_status r r' h a =
      subst (λ x. is_success T x.status_code ≡ true) (success_injective r r' h) a

module _ (T : Seconds) (pol : RequestPolicy T) (env : Env) where
  decide_request-Apt :
      (caller : Headers) (method : Text) (body : Option Bytes) (again : Bool) (s : Loop T)
      (o : Outcome)
      → Apt T env caller method body (decide_request T pol env again s o) s o
  unfolding decide_request on_failure wants_refresh raise_for_status quiet
  decide_request-Apt caller method body again s (responded r) =
      elim (Bool-cases (is_success T r.status_code)) [
        | inl a ↦
            let e : decide_request T pol env again s (responded r) ≡ stop (success r) =
              ground (arith, a) in
            subst (λ d. Apt T env caller method body d s (responded r)) (sym e)
              (λ r' h. (ap responded (success_injective T r r' h), success_status T r r' h a))
        | inr a ↦ elim (Bool-cases (wants_refresh T pol env s r)) [
          | inl b ↦
              let e : decide_request T pol env again s (responded r)
                  ≡ refresh (stop (raise_for_status T r)) =
                ground (arith, a, b) in
              subst (λ d. Apt T env caller method body d s (responded r)) (sym e)
                (
                  ground (arith, b),
                  (r, refl, ground (arith, b)),
                  tt,
                  λ r' h. absurd (ground (arith, h)),
                )
          | inr b ↦
              quiet-Apt T env caller method body (decide_request T pol env again s (responded r)) s
                (responded r) (ground (arith, a, b))
        ]
      ]
  decide_request-Apt caller method body again s invalid_url =
      quiet-Apt T env caller method body (decide_request T pol env again s invalid_url) s
        invalid_url refl
  decide_request-Apt caller method body again s (failed exc) =
      quiet-Apt T env caller method body (decide_request T pol env again s (failed exc)) s
        (failed exc) (ground arith)
  decide_request-Apt caller method body again s (aborted x) =
      quiet-Apt T env caller method body (decide_request T pol env again s (aborted x)) s
        (aborted x) refl

  decide_stream-Apt :
      (caller : Headers) (method : Text) (body : Option Bytes) (again : Bool) (s : Loop T)
      (o : Outcome)
      → Apt T env caller method body (decide_stream T pol env again s o) s o
  unfolding decide_stream on_failure wants_refresh after_refresh quiet
  decide_stream-Apt caller method body again s (responded r) =
      elim (Bool-cases (is_success T r.status_code)) [
        | inl a ↦
            let e : decide_stream T pol env again s (responded r) ≡ stop (success r) =
              ground (arith, a) in
            subst (λ d. Apt T env caller method body d s (responded r)) (sym e)
              (λ r' h. (ap responded (success_injective T r r' h), success_status T r r' h a))
        | inr a ↦ elim (Bool-cases (wants_refresh T pol env s r)) [
          | inl b ↦
              let e : decide_stream T pol env again s (responded r)
                  ≡ refresh (after_refresh T pol env again s r) =
                ground (arith, a, b) in
              subst (λ d. Apt T env caller method body d s (responded r)) (sym e)
                (
                  ground (arith, b),
                  (r, refl, ground (arith, b)),
                  quiet_plain T (after_refresh T pol env again s r) (ground (arith, a)),
                  quiet-Apt T env caller method body (after_refresh T pol env again s r) s
                      (responded r) (ground (arith, a)),
                )
          | inr b ↦
              quiet-Apt T env caller method body (decide_stream T pol env again s (responded r)) s
                (responded r) (ground (arith, a, b))
        ]
      ]
  decide_stream-Apt caller method body again s invalid_url =
      quiet-Apt T env caller method body (decide_stream T pol env again s invalid_url) s invalid_url
        refl
  decide_stream-Apt caller method body again s (failed exc) =
      quiet-Apt T env caller method body (decide_stream T pol env again s (failed exc)) s
        (failed exc) (ground arith)
  decide_stream-Apt caller method body again s (aborted x) =
      quiet-Apt T env caller method body (decide_stream T pol env again s (aborted x)) s (aborted x)
        refl

  -- Whatever the server does, where the headers of the call and of the auth strategy are mappings and
  -- `request` ends: every request that it sent has the call's method and body, and for every name the
  -- call's header, or where the call has none that of the auth strategy after the refreshes that
  -- succeeded before it, each of which came after a 401; and a response that it returns is the answer
  -- to the last request, with a 2xx status.
  pub request_call-Correct :
      (fuel : ℕ) (c : Call) (f : Final T) (s : Loop T)
      → ((n : ℕ) → IsMapping (auth_headers env n))
      → Dict.IsDict c.headers
      → request_call T pol env fuel c ≡ some (f, s)
      → Correct T env c.headers (upper c.method) (resolve_body c.content c.stream) f s
  unfolding request_call
  request_call-Correct fuel c f s mapping dict e =
      let method = upper c.method in
      let body = resolve_body c.content c.stream in
      run-Correct T env c.headers method body mapping dict
        (decide_request T pol env (may_repeat T pol env c))
        (decide_request-Apt c.headers method body (may_repeat T pol env c)) fuel
        (initial T env c.headers) f s
        (initial-Own T env c.headers method body mapping dict
          (decide_request T pol env (may_repeat T pol env c))
          (decide_request-Apt c.headers method body (may_repeat T pol env c)))
        e

  -- Whatever the server does, where the headers of the call and of the auth strategy are mappings and
  -- `stream` yields or raises: every request that it sent has the call's method and body, and for every
  -- name the call's header, or where the call has none that of the auth strategy after the refreshes
  -- that succeeded before it, each of which came after a 401; and a response that it yields is the
  -- answer to the last request, with a 2xx status.
  pub stream_call-Correct :
      (fuel : ℕ) (c : StreamCall) (f : Final T) (s : Loop T)
      → ((n : ℕ) → IsMapping (auth_headers env n))
      → Dict.IsDict c.headers
      → stream_call T pol env fuel c ≡ some (f, s)
      → Correct T env c.headers (upper c.method) c.content f s
  unfolding stream_call
  stream_call-Correct fuel c f s mapping dict e =
      let method = upper c.method in
      let safe = is_safe T method pol.retry in
      run-Correct T env c.headers method c.content mapping dict (decide_stream T pol env safe)
        (decide_stream-Apt c.headers method c.content safe) fuel (initial T env c.headers) f s
        (initial-Own T env c.headers method c.content mapping dict (decide_stream T pol env safe)
          (decide_stream-Apt c.headers method c.content safe))
        e
