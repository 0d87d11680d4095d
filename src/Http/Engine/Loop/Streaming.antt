-- ===== src/Http/Engine/Loop/Streaming.antt =====
-- `HttpRequestEngine.stream`, up to the response that it yields.
use mountainash_transport.Prelude.{
  ℕ, Bool, ◌&&◌, ◌||◌, Option, none, some, Text, upper, ◌==◌, ltb, if◌then◌else◌, contains, nat_eq,
  length,
}
use mountainash_transport.Stream.Sequential.{Bytes}
use mountainash_transport.Http.Errors.{HttpClass, request, redirect, map_status_to_error}
use mountainash_transport.Http.Policy.{Seconds, RequestPolicy, is_safe}
use mountainash_transport.Http.Engine.{
  Headers, Response, Final, success, raised, unclassified, propagated, parse_retry_after, backoff,
  rate_limit_pause,
}
use mountainash_transport.Http.Engine.Loop.{
  Outcome, responded, invalid_url, failed, aborted, Env, Loop, Decision, stop, pause, refresh,
  on_failure, wants_refresh, is_success, is_redirect, run, initial,
}

-- The arguments of a call.
pub record StreamCall : Type 0 where
  pub method : Text
  pub headers : Headers
  pub content : Option Bytes

module _ (T : Seconds) (pol : RequestPolicy T) (env : Env) where
  -- `raise cls(…)`, with `retry_after` by the status.
  error_of : Response → Option HttpClass → Final T
  error_of r none = unclassified
  error_of r (some c) =
      raised c (some r.status_code)
        (if r.status_code == 429 then parse_retry_after T r.retry_after else none)

  -- `delay(response)`
  delay : Loop T → Response → T.Time
  delay s r =
      if r.status_code == 429
      then rate_limit_pause T pol.retry (length s.sleeps) s.attempt r
      else backoff T pol.retry (length s.sleeps) s.attempt

  -- The decision after the refresh, or where none is tried.
  unfoldable pub after_refresh : Bool → Loop T → Response → Decision T
  unfolding delay error_of
  after_refresh safe s r =
      if contains pol.retry.retry_on_status r.status_code
        && (ltb s.attempt pol.retry.max_attempts && ((r.status_code == 429) || safe))
      then pause (delay s r)
      else if is_redirect T r.status_code
      then stop (raised redirect none none)
      else stop (error_of r (map_status_to_error r.status_code))

  -- One round; `safe` is that the method may be repeated.
  unfoldable pub decide_stream : Bool → Loop T → Outcome → Decision T
  unfolding after_refresh delay error_of
  decide_stream safe s (responded r) =
      if is_success T r.status_code
      then stop (success r)
      else if wants_refresh T pol env s r
      then refresh (after_refresh safe s r)
      else after_refresh safe s r
  decide_stream safe s invalid_url = stop (raised request none none)
  decide_stream safe s (failed exc) = on_failure T pol safe s exc
  decide_stream safe s (aborted x) = stop (propagated x)

  -- `stream(method, url, …)`: its success is the response that is yielded.
  unfoldable pub stream_call : ℕ → StreamCall → Option (Final T × Loop T)
  unfolding run decide_stream is_safe
  stream_call fuel c =
      run T env c.headers (upper c.method) c.content
        (decide_stream (is_safe T (upper c.method) pol.retry)) fuel (initial T env c.headers)
