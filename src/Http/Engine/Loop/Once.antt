-- ===== src/Http/Engine/Loop/Once.antt =====
-- How often `request` of _core/http/engine.py sends a call that may not be repeated.
use mountainash_transport.Prelude.{
  ℕ, suc, ◌≡◌, refl, ap, ◌≢◌, Text, upper, false, Option, some, [], length, nat_eq, arith,
}
use mountainash_transport.Stream.Sequential.{Bytes}
use mountainash_transport.Http.Policy.{Seconds, RequestPolicy}
use mountainash_transport.Http.Engine.{Headers, resolve_body, Response, Final}
use mountainash_transport.Http.Engine.Loop.{
  Outcome, responded, invalid_url, failed, aborted, Sent, Env, Loop, Decision, stop, pause, refresh,
  on_failure, wants_refresh, initial, act, round, run, sending, outcome_of,
}
use mountainash_transport.Http.Engine.Loop.Request.{Call, decide_request, request_call, may_repeat}

module _ (T : Seconds) (pol : RequestPolicy T) (env : Env) where
  -- No 429 is ever answered.
  abbrev pub Unlimited : Type 0
  Unlimited = (n : ℕ) (x : Sent) (r : Response) → env.send n x ≡ responded r → r.status_code ≢ 429

  -- The call ended after one send.
  abbrev pub SentOnce : Option (Final T × Loop T) → Type 0
  SentOnce end = (f : Final T) × (s : Loop T) × (end ≡ some (f, s)) × (length s.sent ≡ 1)

  abbrev Stops : Decision T → Type 0
  Stops (stop f) = Unit
  Stops (pause t) = ⊥
  Stops (refresh d) = ⊥

  decide_request-Stops :
      (s : Loop T) (o : Outcome)
      → env.refreshable ≡ false
      → ((r : Response) → o ≡ responded r → r.status_code ≢ 429)
      → Stops (decide_request T pol env false s o)
  unfolding decide_request on_failure wants_refresh
  decide_request-Stops s (responded r) h k = let k' = k r refl in ground arith
  decide_request-Stops s invalid_url h k = tt
  decide_request-Stops s (failed exc) h k = ground arith
  decide_request-Stops s (aborted x) h k = tt

  run-SentOnce :
      (caller : Headers) (method : Text) (body : Option Bytes)
      (decide : Loop T → Outcome → Decision T) (fuel : ℕ) (s : Loop T) (d : Decision T)
      → s.sent ≡ []
      → decide (sending T method body s) (outcome_of T env method body s) ≡ d
      → Stops d
      → SentOnce (run T env caller method body decide (suc fuel) s)
  unfolding run round act
  run-SentOnce caller method body decide fuel s (stop f) h e k =
      (f, sending T method body s, ground (arith, e), ground (arith, ap (length {A = Sent}) h))
  run-SentOnce caller method body decide fuel s (pause t) h e k = absurd k
  run-SentOnce caller method body decide fuel s (refresh d) h e k = absurd k

  -- A call whose method is not idempotent (and whose repetition the policy does not allow), or whose
  -- body cannot be replayed, is sent exactly once, where no response is a 429 and the auth strategy
  -- cannot refresh: no status and no transport failure makes `request` send it again.
  pub request_call-SentOnce :
      (fuel : ℕ) (c : Call)
      → may_repeat T pol env c ≡ false
      → env.refreshable ≡ false
      → Unlimited
      → SentOnce (request_call T pol env (suc fuel) c)
  unfolding request_call
  request_call-SentOnce fuel c h k u =
      let method = upper c.method in
      let body = resolve_body c.content c.stream in
      let s = initial T env c.headers in
      let o = outcome_of T env method body s in
      rw h (
        run-SentOnce c.headers method body (decide_request T pol env false) fuel s _ refl refl
          (decide_request-Stops (sending T method body s) o k (u _ _)))
