-- ===== src/Http/Policy.antt =====
-- _core/http/policy.py: how often, how long and how far a request is tried.
use mountainash_transport.Prelude.{
  ℕ, Bool, Option, List, [], ◌∷◌, ◌++◌, String, Text, codes, text_eq, contains, ◌||◌,
}

-- What the program uses of floating-point seconds, random numbers and the clock.
pub record Seconds : Type 1 where
  pub Time : Type 0
  -- base * 2 ** k
  pub times_power : Time → ℕ → Time
  -- min(a, b) and max(t, 0.0)
  pub least : Time → Time → Time
  pub at_least_zero : Time → Time
  -- The nth `random.uniform(0, t)`.
  pub uniform : ℕ → Time → Time
  -- float(text), and the seconds from now to the date `text`; `none` where parsing raises.
  pub from_float : String → Option Time
  pub from_date : String → Option Time

abbrev pub safe_methods : List Text
safe_methods = codes "GET" ∷ codes "HEAD" ∷ codes "OPTIONS" ∷ codes "TRACE" ∷ []

abbrev pub idempotent_methods : List Text
idempotent_methods = safe_methods ++ codes "PUT" ∷ codes "DELETE" ∷ []

pub record RedirectPolicy : Type 0 where
  pub follow_redirects : Bool
  pub max_redirects : ℕ

module _ (T : Seconds) where
  pub record RetryPolicy : Type 0 where
    pub max_attempts : ℕ
    pub backoff_base : T.Time
    pub backoff_max : T.Time
    pub backoff_jitter : Bool
    pub retry_on_status : List ℕ
    pub retry_on_transport : Bool
    pub retry_unsafe_methods : Bool
    pub max_retry_after : T.Time

  pub record TimeoutPolicy : Type 0 where
    pub connect : T.Time
    pub read : T.Time
    pub write : T.Time
    pub pool : T.Time

  pub record RequestPolicy : Type 0 where
    pub retry : RetryPolicy
    pub timeout : TimeoutPolicy
    pub redirect : RedirectPolicy
    pub auth_refresh_on_401 : Bool

  unfoldable pub with_timeout : RequestPolicy → TimeoutPolicy → RequestPolicy
  with_timeout p timeout = record p { timeout = timeout }

  unfoldable pub with_retry : RequestPolicy → RetryPolicy → RequestPolicy
  with_retry p retry = record p { retry = retry }

  unfoldable pub with_redirect : RequestPolicy → RedirectPolicy → RequestPolicy
  with_redirect p redirect = record p { redirect = redirect }

  -- May a request of this method, in upper case, be sent again?
  unfoldable pub is_safe : Text → RetryPolicy → Bool
  is_safe method retry = contains idempotent_methods method || retry.retry_unsafe_methods
