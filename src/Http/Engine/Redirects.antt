-- ===== src/Http/Engine/Redirects.antt =====
-- `HttpRequestEngine._send_with_redirects`: one send of the loop, with the redirects it follows.
pub mod Safety
use mountainash_transport.Prelude.{
  ℕ, length, zero, suc, ◌+◌, ◌-◌, Bool, true, false, ◌&&◌, Option, none, some, List, [], ◌∷◌, ◌++◌,
  Text, Result, ok, err, leb, if◌then◌else◌, map,
}
use mountainash_transport.Http.Policy.{RedirectPolicy}

-- What the code uses of httpx: requests and responses, the client's sends, and the auth flow,
-- which is given the responses so far and yields a further request, stops (`none`) or raises.
pub record Net : Type 1 where
  pub Request : Type 0
  pub Response : Type 0
  pub Raised : Type 0
  pub url : Request → Text
  pub next_request : Response → Option Request
  pub send : ℕ → Request → Result Raised Response
  pub read : Response → Result Raised (Unit {0})
  pub first : Request → Result Raised Request
  pub resume : List Response → Result Raised (Option Request)

-- An event at a location: its check passed or raised, or a request was sent there.
pub data Event : Type 0 where
  checked : Text → Event
  refused : Text → Event
  sent : Text → Event

module _ (N : Net) where
  pub data Failure : Type 0 where
    too_many_redirects : Failure
    raised : N.Raised → Failure

  -- The local variables, and what has happened, the newest first: the events, and whether each
  -- response is open.
  pub record Trip : Type 0 where
    pub redirects : ℕ
    pub history : List N.Response
    pub flow : List N.Response
    pub opened : List Bool
    pub log : List Event

  pub data Step : Type 0 where
    done : Result Failure N.Response → Trip → Step
    again : N.Request → Trip → Step

  -- `response.close()` on the newest response.
  abbrev pub close_newest : List Bool → List Bool
  close_newest [] = []
  close_newest (b ∷ bs) = false ∷ bs

  abbrev pub closed : Trip → Trip
  closed s = record s { opened = close_newest s.opened }

  -- `except BaseException: response.close(); raise`
  fail : Failure → Trip → Step
  fail x s = done (err x) (closed s)

  -- `response.read(); response.close(); history.append(response)`, and the next request.
  proceed : N.Request → N.Response → Trip → Step
  unfolding fail
  proceed next r s = elim (N.read r) [
    | err x ↦ fail (raised x) s
    | ok u ↦ again next (record s { history = s.history ++ r ∷ []; opened = close_newest s.opened })
  ]

  -- The auth flow stopped: the response is the result, read and closed unless it is streamed.
  finish : Bool → N.Response → Trip → Step
  unfolding fail
  finish true r s = done (ok r) s
  finish false r s = elim (N.read r) [ err x ↦ fail (raised x) s | ok u ↦ done (ok r) (closed s) ]

  module _ (policy : RedirectPolicy) (stream : Bool) where
    redirected : Option N.Request → N.Response → Trip → Step
    unfolding fail proceed finish
    redirected (some next) r s =
        if leb policy.max_redirects s.redirects
        then fail too_many_redirects s
        else proceed next r (record s { redirects = s.redirects + 1 })
    redirected none r s =
        let flow = s.flow ++ r ∷ [] in
        let s' = record s { flow = flow } in
        elim (N.resume flow) [
          | err x ↦ fail (raised x) s'
          | ok none ↦ finish stream r s'
          | ok (some next) ↦ proceed next r s'
        ]

    -- The response to a send.
    respond : N.Request → Trip → Step
    unfolding redirected fail
    respond request s =
        let s' = record s { log = sent (N.url request) ∷ s.log } in
        elim (N.send (length s.opened) request) [
          | err x ↦ fail (raised x) s'
          | ok r ↦
              redirected (if policy.follow_redirects then N.next_request r else none) r
                (record s' { opened = true ∷ s.opened })
        ]

    -- A round: the location's check, where there is one, and the send.
    turn : Option (Text → Result N.Raised (Unit {0})) → N.Request → Trip → Step
    unfolding respond fail
    turn none request s = respond request s
    turn (some check) request s = elim (check (N.url request)) [
      | err x ↦ fail (raised x) (record s { log = refused (N.url request) ∷ s.log })
      | ok u ↦ respond request (record s { log = checked (N.url request) ∷ s.log })
    ]

    -- `while True: …`; `none` is fuel run out.
    unfoldable pub travel :
        Option (Text → Result N.Raised (Unit {0}))
        → ℕ
        → N.Request
        → Trip
        → Option (Result Failure N.Response × Trip)
    unfolding turn
    travel location_check zero request s = none
    travel location_check (suc fuel) request s = elim (turn location_check request s) [
      | done r s' ↦ some (r, s')
      | again next s' ↦ travel location_check fuel next s'
    ]

    abbrev pub departure : Trip
    departure = record { redirects = 0; history = []; flow = []; opened = []; log = [] }

    -- `_send_with_redirects(method, url, …)` for the request that `build_request` gives.
    unfoldable pub send_with_redirects :
        Option (Text → Result N.Raised (Unit {0}))
        → ℕ
        → N.Request
        → Option (Result Failure N.Response × Trip)
    unfolding travel
    send_with_redirects location_check fuel request = elim (N.first request) [
      | err x ↦ some (err (raised x), departure)
      | ok authorised ↦ travel location_check fuel authorised departure
    ]
