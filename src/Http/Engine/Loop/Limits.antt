-- ===== src/Http/Engine/Loop/Limits.antt =====
-- The attempts and pauses of `request` and `stream` of _core/http/engine.py, against the policy.
use mountainash_transport.Prelude.{
  ℕ, ◌+◌, ◌≤◌, max, ◌≡◌, ◌⊎◌, inl, inr, Bool, Bool-cases, Option-cases, Option, some, length, All,
  nat_eq, arith,
}
use mountainash_transport.Http.Policy.{Seconds, RequestPolicy}
use mountainash_transport.Http.Engine.{
  Headers, Response, Final, HttpxError, backoff, rate_limit_pause, parse_retry_after,
}
use mountainash_transport.Http.Engine.Loop.{
  Outcome, responded, invalid_url, failed, aborted, Env, Loop, Decision, on_failure, wants_refresh,
  initial,
}
use mountainash_transport.Http.Engine.Loop.Bounds.{Keeps, Ends, run-Ends}
use mountainash_transport.Http.Engine.Loop.Request.{Call, decide_request, request_call, may_repeat}
use mountainash_transport.Http.Engine.Loop.Streaming.{StreamCall, decide_stream, stream_call}

-- An order on the seconds for which `min` and `random.uniform` are what they are documented to be.
pub record SecondsOrder (T : Seconds) : Type 1 where
  pub Le : T.Time → T.Time → Type 0
  pub least-le : (a b : T.Time) → Le (T.least a b) b
  pub uniform-le : (n : ℕ) (t : T.Time) → Le (T.uniform n t) t
  pub le_trans : {a b c : T.Time} → Le a b → Le b c → Le a c

module _ (T : Seconds) (O : SecondsOrder T) (pol : RequestPolicy T) where
  -- A pause within one of the policy's two limits.
  abbrev pub Short : T.Time → Type 0
  Short t = O.Le t pol.retry.backoff_max ⊎ O.Le t pol.retry.max_retry_after

  backoff-Short : (draws attempt : ℕ) → Short (backoff T pol.retry draws attempt)
  unfolding backoff
  backoff-Short draws attempt = elim (Bool-cases pol.retry.backoff_jitter) [
    | inl q ↦ rw q (inl (O.le_trans (O.uniform-le draws _) (O.least-le _ _)))
    | inr q ↦ rw q (inl (O.least-le _ _))
  ]

  rate_limit_pause-Short :
      (draws attempt : ℕ) (r : Response) → Short (rate_limit_pause T pol.retry draws attempt r)
  unfolding rate_limit_pause
  rate_limit_pause-Short draws attempt r = elim (Option-cases (parse_retry_after T r.retry_after)) [
    | inl q ↦ rw q (backoff-Short draws attempt)
    | inr (t, q) ↦ rw q (inr (O.least-le _ _))
  ]

  abbrev Within : Loop T → Decision T → Type 0
  Within s d = Keeps T pol.retry.max_attempts Short s.attempt s.refreshed d

  on_failure-Within :
      (again : Bool) (s : Loop T) (exc : HttpxError) → Within s (on_failure T pol again s exc)
  unfolding on_failure
  on_failure-Within again s exc = ground (arith, backoff-Short (length s.sleeps) s.attempt)

  module _ (env : Env) where
    decide_request-Within :
        (again : Bool) (s : Loop T) (o : Outcome) → Within s (decide_request T pol env again s o)
    unfolding decide_request wants_refresh
    decide_request-Within again s (responded r) = ground (
      arith,
      backoff-Short (length s.sleeps) s.attempt,
      rate_limit_pause-Short (length s.sleeps) s.attempt r,
    )
    decide_request-Within again s invalid_url = tt
    decide_request-Within again s (failed exc) = on_failure-Within again s exc
    decide_request-Within again s (aborted x) = tt

    decide_stream-Within :
        (safe : Bool) (s : Loop T) (o : Outcome) → Within s (decide_stream T pol env safe s o)
    unfolding decide_stream wants_refresh
    decide_stream-Within safe s (responded r) = ground (
      arith,
      backoff-Short (length s.sleeps) s.attempt,
      rate_limit_pause-Short (length s.sleeps) s.attempt r,
    )
    decide_stream-Within safe s invalid_url = tt
    decide_stream-Within safe s (failed exc) = on_failure-Within safe s exc
    decide_stream-Within safe s (aborted x) = tt

    -- The end of a call: what it returns or raises, after how many sends and refreshes, and which pauses.
    pub record Bounded (end : Option (Final T × Loop T)) : Type 0 where
      pub final : Final T
      pub state : Loop T
      pub returned : end ≡ some (final, state)
      pub sends : length state.sent ≤ max 1 pol.retry.max_attempts + 1
      pub refreshes : state.refreshes ≤ 1
      pub sleeps : All Short state.sleeps

    Ends-Bounded :
        (caller : Headers) {end : Option (Final T × Loop T)}
        → Ends T pol.retry.max_attempts Short (initial T env caller) end
        → Bounded end
    Ends-Bounded caller h = record {
      final = h.final;
      state = h.state;
      returned = h.returned;
      sends = omega (arith, h.sends);
      refreshes = ground (arith, h.refreshes);
      sleeps = h.sleeps tt;
    }

    -- With more fuel than the policy has attempts and one round for a refresh, `request` ends: it
    -- sends at most the policy's attempts (one, where the policy has none) and once more after a
    -- refresh, refreshes at most once, and each pause is within `backoff_max` or `max_retry_after`.
    pub request_call-Bounded :
        (fuel : ℕ) (c : Call)
        → max 1 pol.retry.max_attempts + 1 ≤ fuel
        → Bounded (request_call T pol env fuel c)
    unfolding request_call
    request_call-Bounded fuel c h = Ends-Bounded c.headers (
        run-Ends T pol.retry.max_attempts Short env c.headers _ _ _
          (decide_request-Within (may_repeat T pol env c)) fuel (initial T env c.headers)
          (omega arith))

    -- With more fuel than the policy has attempts and one round for a refresh, `stream` ends, up to
    -- the response that it yields: it sends at most the policy's attempts (one, where the policy has
    -- none) and once more after a refresh, refreshes at most once, and each pause is within
    -- `backoff_max` or `max_retry_after`.
    pub stream_call-Bounded :
        (fuel : ℕ) (c : StreamCall)
        → max 1 pol.retry.max_attempts + 1 ≤ fuel
        → Bounded (stream_call T pol env fuel c)
    unfolding stream_call
    stream_call-Bounded fuel c h = Ends-Bounded c.headers (
        run-Ends T pol.retry.max_attempts Short env c.headers _ _ _ (decide_stream-Within _) fuel
          (initial T env c.headers) (omega arith))
