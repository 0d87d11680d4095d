-- ===== src/Http/Engine/Loop/Request.antt =====
-- `HttpRequestEngine.request`: the buffered request.
use mountainash_transport.Prelude.{
  ℕ, Bool, ◌&&◌, Option, none, Text, upper, ◌==◌, ltb, if◌then◌else◌, contains, nat_eq, length,
}
use mountainash_transport.Stream.Sequential.{Bytes}
use mountainash_transport.Http.Errors.{request, redirect}
use mountainash_transport.Http.Policy.{Seconds, RequestPolicy, is_safe}
use mountainash_transport.Http.Engine.{
  BodyStream, Headers, Response, Final, success, raised, propagated, is_body_replayable,
  resolve_body, raise_for_status, backoff, rate_limit_pause,
}
use mountainash_transport.Http.Engine.Loop.{
  Outcome, responded, invalid_url, failed, aborted, Env, Loop, Decision, stop, pause, refresh,
  on_failure, wants_refresh, is_success, is_redirect, run, initial,
}

-- The arguments of a call.
pub record Call : Type 0 where
  pub method : Text
  pub headers : Headers
  pub content : Option Bytes
  pub stream : Option BodyStream

module _ (T : Seconds) (pol : RequestPolicy T) (env : Env) where
  -- The decision on a response whose status is not 2xx and that no refresh is for.
  on_error_status : Bool → Loop T → Response → Decision T
  on_error_status may_repeat s r =
      let retry = pol.retry in
      let may_try = ltb s.attempt retry.max_attempts in
      let listed = contains retry.retry_on_status r.status_code in
      if (r.status_code == 429) && (listed && may_try)
      then pause (rate_limit_pause T retry (length s.sleeps) s.attempt r)
      else if is_redirect T r.status_code
      then stop (raised redirect none none)
      else if listed && (may_repeat && may_try)
      then pause (backoff T retry (length s.sleeps) s.attempt)
      else stop (raise_for_status T r)

  -- One round; `may_repeat` is that the method may be repeated and the body replayed.
  unfoldable pub decide_request : Bool → Loop T → Outcome → Decision T
  unfolding on_error_status
  decide_request may_repeat s (responded r) =
      if is_success T r.status_code
      then stop (success r)
      else if wants_refresh T pol env s r
      then refresh (stop (raise_for_status T r))
      else on_error_status may_repeat s r
  decide_request may_repeat s invalid_url = stop (raised request none none)
  decide_request may_repeat s (failed exc) = on_failure T pol may_repeat s exc
  decide_request may_repeat s (aborted x) = stop (propagated x)

  -- May this call be sent again after a failure?
  unfoldable pub may_repeat : Call → Bool
  unfolding is_safe is_body_replayable
  may_repeat c = is_safe T (upper c.method) pol.retry && is_body_replayable c.content c.stream

  -- `request(method, url, …)`
  unfoldable pub request_call : ℕ → Call → Option (Final T × Loop T)
  unfolding run decide_request may_repeat resolve_body
  request_call fuel c =
      run T env c.headers (upper c.method) (resolve_body c.content c.stream)
        (decide_request (may_repeat c)) fuel (initial T env c.headers)
