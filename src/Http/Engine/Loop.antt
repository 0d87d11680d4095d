-- ===== src/Http/Engine/Loop.antt =====
-- The loop that `request` and `stream` run: send, decide, and stop or go round again.
pub mod Request
pub mod Streaming
pub mod Bounds
pub mod Limits
pub mod History
pub mod Answer
pub mod Once
use mountainash_transport.Prelude.{
  ℕ, zero, suc, ◌+◌, ◌-◌, Bool, true, false, not, ◌&&◌, ◌||◌, Option, none, some, List, [], ◌∷◌,
  ◌++◌, ◌⊎◌, inl, inr, Text, length, ◌==◌, leb, ltb, if◌then◌else◌, contains, nat_eq,
}
use mountainash_transport.Errors.{Error}
use mountainash_transport.Stream.Sequential.{Bytes}
use mountainash_transport.Http.Errors.{HttpClass, request}
use mountainash_transport.Http.Policy.{Seconds, RetryPolicy, RequestPolicy}
use mountainash_transport.Http.Engine.{
  HttpxError, Headers, Response, Final, propagated, raised, map_httpx_exception,
  is_retryable_transport, backoff, merge_headers,
}

-- What a send comes to: a response, `httpx.InvalidURL`, another `httpx.HTTPError`, or an exception
-- that the loop does not catch (a refused location, too many redirects).
pub data Outcome : Type 0 where
  responded : Response → Outcome
  invalid_url : Outcome
  failed : HttpxError → Outcome
  aborted : HttpClass ⊎ Error → Outcome

-- What is handed to `_send_with_redirects`.
pub record Sent : Type 0 where
  pub method : Text
  pub headers : Headers
  pub body : Option Bytes

-- The server and the auth strategy: the outcome of the nth send and of the nth `refresh()`, and
-- `get_headers()` after n refreshes. `refreshable` is isinstance(…, RefreshableAuthStrategy).
pub record Env : Type 0 where
  pub send : ℕ → Sent → Outcome
  pub refreshable : Bool
  pub refresh : ℕ → Bool
  pub get_headers : ℕ → Headers

abbrev pub auth_headers : Env → ℕ → Option Headers
auth_headers env n = if env.refreshable then some (env.get_headers n) else none

module _ (T : Seconds) where
  -- The loop's variables, and what it has done: requests sent, refreshes tried, pauses slept.
  pub record Loop : Type 0 where
    pub attempt : ℕ
    pub refreshed : Bool
    pub headers : Headers
    pub sent : List Sent
    pub refreshes : ℕ
    pub sleeps : List T.Time

  -- What a round decides: to end, to sleep and go round, or to try a refresh, and what to do
  -- where the refresh fails.
  pub data Decision : Type 0 where
    stop : Final T → Decision
    pause : T.Time → Decision
    refresh : Decision → Decision

  -- A transport error is tried again under the policy's conditions, and raised otherwise.
  unfoldable pub on_failure : RequestPolicy T → Bool → Loop → HttpxError → Decision
  on_failure pol may_repeat s exc =
      let retry = pol.retry in
      let mapped = map_httpx_exception exc in
      if retry.retry_on_transport
        && (is_retryable_transport mapped && (may_repeat && ltb s.attempt retry.max_attempts))
      then pause (backoff T retry (length s.sleeps) s.attempt)
      else stop (raised mapped none none)

  -- Is this the 401 that a refresh may mend?
  unfoldable pub wants_refresh : RequestPolicy T → Env → Loop → Response → Bool
  wants_refresh pol env s r =
      (r.status_code == 401) && (pol.auth_refresh_on_401 && (not s.refreshed && env.refreshable))

  abbrev pub is_success : ℕ → Bool
  is_success status = leb 200 status && ltb status 300

  abbrev pub is_redirect : ℕ → Bool
  is_redirect status = leb 300 status && ltb status 400

  -- The rest of the round: the end, or the state in which the next round starts.
  act : Env → Headers → Decision → Loop → (Final T × Loop) ⊎ Loop
  act env caller (stop f) s = inl (f, s)
  act env caller (pause t) s = inr (record s { sleeps = s.sleeps ++ t ∷ [] })
  act env caller (refresh otherwise) s =
      let s' = record s { refreshed = true; refreshes = s.refreshes + 1 } in
      let rest = act env caller otherwise s' in
      if env.refresh s.refreshes
      then inr (record s' {
        attempt = s.attempt - 1;
        headers = merge_headers (auth_headers env (s.refreshes + 1)) caller;
      })
      else rest

  -- The state in which the nth send is made.
  abbrev pub sending : Text → Option Bytes → Loop → Loop
  sending method body s = record s {
    attempt = s.attempt + 1;
    sent = s.sent ++ record { method = method; headers = s.headers; body = body } ∷ [];
  }

  -- The outcome of the send that a state has just made.
  abbrev pub outcome_of : Env → Text → Option Bytes → Loop → Outcome
  outcome_of env method body s =
      env.send (length s.sent) (record { method = method; headers = s.headers; body = body })

  module _ (env : Env) (caller : Headers) (method : Text) (body : Option Bytes)
      (decide : Loop → Outcome → Decision) where
    round : Loop → (Final T × Loop) ⊎ Loop
    round s =
        act env caller (decide (sending method body s) (outcome_of env method body s))
          (sending method body s)

    -- `while True: …`; `none` is fuel run out.
    unfoldable pub run : ℕ → Loop → Option (Final T × Loop)
    unfolding round act
    run zero s = none
    run (suc fuel) s = elim (round s) [ inl end ↦ some end | inr s' ↦ run fuel s' ]

  -- The loop's variables before the first round.
  abbrev pub initial : Env → Headers → Loop
  initial env caller = record {
    attempt = 0;
    refreshed = false;
    headers = merge_headers (auth_headers env 0) caller;
    sent = [];
    refreshes = 0;
    sleeps = [];
  }
