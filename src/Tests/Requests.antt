-- ===== src/Tests/Requests.antt =====
-- Examples of _core/http.
use mountainash_transport.Prelude.{
  ℕ, zero, suc, ◌*◌, ◌^◌, ◌≤◌, min, ◌≡◌, refl, true, false, Option, none, some, [], ◌∷◌, String,
  Text, codes, Result, ok, err, string_eq, upper_char, arith,
}
use mountainash_transport.Prelude.Dict
use mountainash_transport.Http.Policy.{Seconds, RequestPolicy, RedirectPolicy}
use mountainash_transport.Http.Engine.{
  Headers, Response, success, merge_headers, resolve_body, backoff,
}
use mountainash_transport.Http.Engine.Loop.{responded, Sent, Env, Loop, wants_refresh}
use mountainash_transport.Http.Engine.Loop.Limits.{
  SecondsOrder, Bounded, request_call-Bounded, stream_call-Bounded,
}
use mountainash_transport.Http.Engine.Loop.History.{Correct}
use mountainash_transport.Http.Engine.Loop.Answer.{request_call-Correct, stream_call-Correct}
use mountainash_transport.Http.Engine.Loop.Once.{SentOnce, request_call-SentOnce}
use mountainash_transport.Http.Engine.Loop.Request.{Call, request_call, may_repeat}
use mountainash_transport.Http.Engine.Loop.Streaming.{StreamCall, stream_call}
use mountainash_transport.Http.Engine.Redirects.{
  Net, Event, too_many_redirects, Trip, send_with_redirects,
}
use mountainash_transport.Http.Engine.Redirects.Safety.{Safe, send_with_redirects-Safe}

-- Whole seconds; a random number is the bound itself.
abbrev whole_seconds : Seconds
whole_seconds = record {
  Time = ℕ;
  times_power = λ base k. base * 2 ^ k;
  least = min;
  at_least_zero = λ t. t;
  uniform = λ n t. t;
  from_float = λ text. some 5;
  from_date = λ text. none;
}

abbrev whole_seconds_order : SecondsOrder whole_seconds
whole_seconds_order = record {
  Le = λ a b. a ≤ b;
  least-le = λ a b. omega arith;
  uniform-le = λ n t. omega arith;
  le_trans = λ p q. omega arith;
}

abbrev policy : RequestPolicy whole_seconds
policy = record {
  retry = record {
    max_attempts = 3;
    backoff_base = 1;
    backoff_max = 30;
    backoff_jitter = true;
    retry_on_status = 429 ∷ 503 ∷ [];
    retry_on_transport = true;
    retry_unsafe_methods = false;
    max_retry_after = 60;
  };
  timeout = record { connect = 10; read = 60; write = 60; pool = 10 };
  redirect = record { follow_redirects = true; max_redirects = 5 };
  auth_refresh_on_401 = true;
}

abbrev reply : ℕ → Response
reply status = record { status_code = status; retry_after = none; headers = []; content = 1 ∷ [] }

abbrev later_reply : ℕ → ℕ
later_reply zero = 503
later_reply (suc n) = 200

-- A server that is unavailable once.
abbrev busy_once : Env
busy_once = record {
  send = λ n x. responded (reply (later_reply n));
  refreshable = false;
  refresh = λ n. false;
  get_headers = λ n. [];
}

abbrev get_call : Call
get_call = record {
  method = codes "get";
  headers = ("Accept", "*/*") ∷ [];
  content = none;
  stream = none;
}

abbrev post_call : Call
post_call = record { method = codes "POST"; headers = []; content = none; stream = none }

abbrev stream_get : StreamCall
stream_get = record { method = codes "get"; headers = []; content = none }

request_call-Bounded_example :
    Bounded whole_seconds whole_seconds_order policy busy_once
      (request_call whole_seconds policy busy_once 4 get_call)
request_call-Bounded_example =
    request_call-Bounded whole_seconds whole_seconds_order policy busy_once 4 get_call (omega arith)

stream_call-Bounded_example :
    Bounded whole_seconds whole_seconds_order policy busy_once
      (stream_call whole_seconds policy busy_once 4 stream_get)
stream_call-Bounded_example =
    stream_call-Bounded whole_seconds whole_seconds_order policy busy_once 4 stream_get
      (omega arith)

abbrev sent_get : Headers → Sent
sent_get headers = record { method = codes "GET"; headers = headers; body = none }

abbrev token : ℕ → String
token zero = "old"
token (suc n) = "new"

abbrev later_status : ℕ → ℕ
later_status zero = 401
later_status (suc n) = 200

-- A server that refuses the first token and accepts the one that a refresh gives.
abbrev expired_once : Env
expired_once = record {
  send = λ n x. responded (reply (later_status n));
  refreshable = true;
  refresh = λ n. true;
  get_headers = λ n. ("Authorization", token n) ∷ [];
}

abbrev authorized : String → Headers
authorized value = ("Authorization", value) ∷ ("Accept", "*/*") ∷ []

-- The end of that call: the second answer, after a refresh.
abbrev refreshed_once : Loop whole_seconds
refreshed_once = record {
  attempt = 1;
  refreshed = true;
  headers = authorized "new";
  sent = sent_get (authorized "old") ∷ sent_get (authorized "new") ∷ [];
  refreshes = 1;
  sleeps = [];
}

-- The end of the call: the second answer, after two sends and a pause of a second.
abbrev second : Headers → Loop whole_seconds
second headers = record {
  attempt = 2;
  refreshed = false;
  headers = headers;
  sent = sent_get headers ∷ sent_get headers ∷ [];
  refreshes = 0;
  sleeps = 1 ∷ [];
}

request_call-Correct_example :
    Correct whole_seconds expired_once get_call.headers
      (codes "GET")
      none
      (success (reply 200))
      refreshed_once
unfolding resolve_body wants_refresh upper_char Dict.lookup
request_call-Correct_example =
    request_call-Correct whole_seconds policy expired_once 4 get_call (success (reply 200))
      refreshed_once (λ n. (refl, tt)) (refl, tt)
      (unfold request_call merge_headers Dict.update Dict.insert in refl)

stream_call-Correct_example :
    Correct whole_seconds busy_once [] (codes "GET") none (success (reply 200)) (second [])
unfolding wants_refresh upper_char backoff
stream_call-Correct_example =
    stream_call-Correct whole_seconds policy busy_once 4 stream_get (success (reply 200))
      (second []) (λ n. tt) tt (unfold stream_call merge_headers Dict.update in refl)

request_call-SentOnce_example :
    SentOnce whole_seconds policy busy_once
      (request_call whole_seconds policy busy_once 4 post_call)
unfolding upper_char
request_call-SentOnce_example =
    request_call-SentOnce whole_seconds policy busy_once 3 post_call (unfold may_repeat in refl)
      refl never_limited
  where
    never_limited :
        (n : ℕ) (x : Sent) (r : Response)
        → busy_once.send n x ≡ responded r
        → r.status_code ≡ 429
        → ⊥
    never_limited zero x r e h = ground (arith, e, h)
    never_limited (suc n) x r e h = ground (arith, e, h)

-- Requests by number: each answer redirects to the request before, down to number 0.
abbrev previous : ℕ → Option ℕ
previous zero = none
previous (suc n) = some n

abbrev countdown : Net
countdown = record {
  Request = ℕ;
  Response = ℕ;
  Raised = Unit {0};
  url = λ request. request ∷ [];
  next_request = previous;
  send = λ n request. ok request;
  read = λ response. ok tt;
  first = λ request. ok request;
  resume = λ responses. ok none;
}

abbrev anywhere : Text → Result (Unit {0}) (Unit {0})
anywhere url = ok tt

-- Two redirects are followed, and the third is refused.
abbrev third_trip : Trip countdown
third_trip = record {
  redirects = 2;
  history = 3 ∷ 2 ∷ [];
  flow = [];
  opened = false ∷ false ∷ false ∷ [];
  log =
      Event.sent (1 ∷ [])
      ∷ Event.checked (1 ∷ [])
      ∷ Event.sent (2 ∷ [])
      ∷ Event.checked (2 ∷ [])
      ∷ Event.sent (3 ∷ [])
      ∷ Event.checked (3 ∷ [])
      ∷ [];
}

abbrev two_redirects : RedirectPolicy
two_redirects = record { follow_redirects = true; max_redirects = 2 }

send_with_redirects-Safe_example :
    Safe countdown two_redirects false (some anywhere) (err too_many_redirects) third_trip
send_with_redirects-Safe_example =
    send_with_redirects-Safe countdown two_redirects false (some anywhere) 9 3
      (err too_many_redirects) third_trip (unfold send_with_redirects in refl)
