-- ===== src/Http/Engine/Redirects/Safety.antt =====
-- What a send with redirects keeps to: the location check, the limit, and open responses.
use mountainash_transport.Prelude.{
  ℕ, zero, suc, ◌+◌, ◌≤◌, ◌≡◌, refl, subst, ◌⊎◌, inl, inr, length-append, Bool, true, false,
  Bool-cases, length, Option, none, some, List, [], ◌∷◌, ◌++◌, Text, Result, Result-cases, ok, err,
  leb, All, if◌then◌else◌, arith,
}
use mountainash_transport.Http.Policy.{RedirectPolicy}
use mountainash_transport.Http.Engine.Redirects.{
  Net, Event, checked, refused, sent, Failure, too_many_redirects, Trip, Step, respond, done, again,
  close_newest, fail, proceed, finish, redirected, respond, turn, travel, departure,
  send_with_redirects,
}

-- A log, the newest first, in which each send directly follows a passed check of its location.
abbrev pub IsGuarded : List Event → Type 0
IsGuarded [] = Unit
IsGuarded (checked u ∷ log) = IsGuarded log
IsGuarded (refused u ∷ log) = IsGuarded log
IsGuarded (sent u ∷ []) = ⊥
IsGuarded (sent u ∷ refused v ∷ log) = ⊥
IsGuarded (sent u ∷ sent v ∷ log) = ⊥
IsGuarded (sent u ∷ checked v ∷ log) = (u ≡ v) × IsGuarded log

-- Every location checked in a log passed the check.
abbrev pub Passed {ℓ} : {X : Type ℓ} → (Text → Result X (Unit {0})) → List Event → Type ℓ
Passed check [] = Unit
Passed check (checked u ∷ log) = (check u ≡ ok tt) × Passed check log
Passed check (refused u ∷ log) = Passed check log
Passed check (sent u ∷ log) = Passed check log

-- How many requests were sent.
abbrev pub sends : List Event → ℕ
sends [] = 0
sends (sent u ∷ log) = suc (sends log)
sends (checked u ∷ log) = sends log
sends (refused u ∷ log) = sends log

-- The redirects that a policy allows.
abbrev pub allowed : RedirectPolicy → ℕ
allowed policy = if policy.follow_redirects then policy.max_redirects else 0

module _ (N : Net) (policy : RedirectPolicy) (stream : Bool) where
  -- The requests sent are the first, one for each redirect, and one for each further request of the
  -- auth flow, which was given a response for it.
  abbrev Counted : ℕ → Trip N → Type 0
  Counted one s =
      (sends s.log ≡ one + (s.redirects + length s.flow)) × (s.redirects ≤ allowed policy)

  -- Where there is a location check, it is passed directly before each send.
  abbrev pub Watched : Option (Text → Result N.Raised (Unit {0})) → List Event → Type 0
  Watched none log = Unit
  Watched (some check) log = IsGuarded log × Passed check log

  abbrev IsClosed : Bool → Type 0
  IsClosed b = b ≡ false

  -- Every response is closed, but the one that a streaming send returns.
  abbrev pub Settled : Result (Failure N) N.Response → List Bool → Type 0
  Settled (err x) opened = All IsClosed opened
  Settled (ok r) [] = Unit
  Settled (ok r) (b ∷ opened) = (b ≡ stream) × All IsClosed opened

  -- A log that grows by a send after a passed check.
  abbrev pub Kept : Option (Text → Result N.Raised (Unit {0})) → Step N → Type 0
  Kept check (done r s) =
      Watched check s.log
      × (sends s.log ≤ suc (allowed policy + length s.flow))
      × Settled r s.opened
  Kept check (again next s) = Watched check s.log × Counted 0 s × All IsClosed s.opened

  module _ (check : Option (Text → Result N.Raised (Unit {0}))) where
    close_newest-IsClosed :
        (opened : List Bool) → All IsClosed opened → All IsClosed (close_newest N opened)
    close_newest-IsClosed [] o = tt
    close_newest-IsClosed (b ∷ bs) o = (refl, o.1)

    -- A trip in which every response but the newest is closed, and which may go on, after a send or
    -- once the next request is known.
    abbrev Fresh : ℕ → Trip N → Type 0
    Fresh one s = Watched check s.log × Counted one s × All IsClosed (close_newest N s.opened)

    limited :
        (s : Trip N)
        → Counted 0 s ⊎ Counted 1 s
        → sends s.log ≤ suc (allowed policy + length s.flow)
    limited s (inl c) = omega (arith, c.0, c.1)
    limited s (inr c) = omega (arith, c.0, c.1)

    fail-Kept :
        (x : Failure N) (s : Trip N)
        → Watched check s.log
        → sends s.log ≤ suc (allowed policy + length s.flow)
        → All IsClosed (close_newest N s.opened)
        → Kept check (fail N x s)
    unfolding fail
    fail-Kept x s w c o = (w, c, o)

    proceed-Kept :
        (next : N.Request) (r : N.Response) (s : Trip N)
        → Fresh 0 s
        → Kept check (proceed N next r s)
    unfolding proceed
    proceed-Kept next r s h = elim (Result-cases (N.read r)) [
      | inl (u, q) ↦ ground (arith, q, h)
      | inr (x, q) ↦ ground (arith, q, fail-Kept (Failure.raised x) s h.0 (limited s (inl h.1)) h.2)
    ]

    finish-Kept :
        (r : N.Response) (s : Trip N) (bs : List Bool)
        → s.opened ≡ true ∷ bs
        → Watched check s.log
        → sends s.log ≤ suc (allowed policy + length s.flow)
        → All IsClosed (close_newest N s.opened)
        → Kept check (finish N stream r s)
    unfolding finish
    finish-Kept r s bs e w c o = ground (arith, Result-cases (N.read r))

    -- After a send, where the auth flow is given the response.
    given :
        (r : N.Response) (s : Trip N) → Fresh 1 s → Fresh 0 (record s { flow = s.flow ++ r ∷ [] })
    given r s h =
        let longer = length-append s.flow (r ∷ []) in
        (h.0, (omega (arith, h.1.0, longer), h.1.1), h.2)

    redirected-Kept :
        (next : Option N.Request) (r : N.Response) (s : Trip N) (bs : List Bool)
        → s.opened ≡ true ∷ bs
        → (next ≡ none) ⊎ (policy.follow_redirects ≡ true)
        → Fresh 1 s
        → Kept check (redirected N policy stream next r s)
    unfolding redirected
    redirected-Kept (some next) r s bs e f h =
        elim (Bool-cases (leb policy.max_redirects s.redirects)) [
          | inl q ↦ ground (arith, q, fail-Kept too_many_redirects s h.0 (limited s (inr h.1)) h.2)
          | inr q ↦ ground (
            arith,
            q,
            proceed-Kept next r (record s { redirects = s.redirects + 1 })
                (h.0, (omega (arith, h.1.0), more f q), h.2),
          )
        ]
      where
        more :
            (some next ≡ none) ⊎ (policy.follow_redirects ≡ true)
            → leb policy.max_redirects s.redirects ≡ false
            → s.redirects + 1 ≤ allowed policy
        more (inl a) q = ground (arith, a)
        more (inr a) q = ground (arith, a, q)
    redirected-Kept none r s bs e f h =
        let s' = record s { flow = s.flow ++ r ∷ [] } in
        let h' = given r s h in
        elim (Result-cases (N.resume (s.flow ++ r ∷ []))) [
          | inl (none, q) ↦
              ground (arith, q, finish-Kept r s' bs e h'.0 (limited s' (inl h'.1)) h'.2)
          | inl (some next, q) ↦ ground (arith, q, proceed-Kept next r s' h')
          | inr (x, q) ↦
              ground (arith, q, fail-Kept (Failure.raised x) s' h'.0 (limited s' (inl h'.1)) h'.2)
        ]

    respond-Kept :
        (request : N.Request) (s : Trip N)
        → Watched check (sent (N.url request) ∷ s.log)
        → Counted 0 s
        → All IsClosed s.opened
        → Kept check (respond N policy stream request s)
    unfolding respond
    respond-Kept request s w h o =
        let s' = record s { log = sent (N.url request) ∷ s.log } in
        let k = close_newest-IsClosed s.opened o in
        let one : Counted 1 s' = (omega (arith, h.0), h.1) in
        elim (Result-cases (N.send (length s.opened) request)) [
          | inl (r, q) ↦ ground (
            arith,
            q,
            redirected-Kept (if policy.follow_redirects then N.next_request r else none) r
                (record s' { opened = true ∷ s.opened }) s.opened refl (followed r)
                (w, one, (refl, o)),
          )
          | inr (x, q) ↦
              ground (arith, q, fail-Kept (Failure.raised x) s' w (limited s' (inr one)) k)
        ]
      where
        followed :
            (r : N.Response)
            → ((if policy.follow_redirects then N.next_request r else none) ≡ none)
              ⊎ (policy.follow_redirects ≡ true)
        followed r = elim (Bool-cases policy.follow_redirects) [
          | inl a ↦ inr a
          | inr a ↦ inl (ground (arith, a))
        ]

  turn-Kept :
      (check : Option (Text → Result N.Raised (Unit {0}))) (request : N.Request) (s : Trip N)
      → Watched check s.log
      → Counted 0 s
      → All IsClosed s.opened
      → Kept check (turn N policy stream check request s)
  unfolding turn
  turn-Kept none request s w h o = respond-Kept none request s tt h o
  turn-Kept (some check) request s w h o =
      let url = N.url request in
      let k = close_newest-IsClosed (some check) s.opened o in
      elim (Result-cases (check url)) [
        | inl (u, q) ↦
            let s' = record s { log = checked url ∷ s.log } in
            ground (arith, q, respond-Kept (some check) request s' ((refl, w.0), (q, w.1)) h o)
        | inr (x, q) ↦
            let s' = record s { log = refused url ∷ s.log } in
            ground (
              arith,
              q,
              fail-Kept (some check) (Failure.raised x) s' w (limited (some check) s' (inl h)) k,
            )
      ]

  -- What holds at the end of a trip.
  pub record Safe (check : Option (Text → Result N.Raised (Unit {0})))
      (end : Result (Failure N) N.Response) (s : Trip N) : Type 0 where
    pub watched : Watched check s.log
    pub limited_to : sends s.log ≤ suc (allowed policy + length s.flow)
    pub settled : Settled end s.opened

  ended :
      (check : Option (Text → Result N.Raised (Unit {0}))) {r end : Result (Failure N) N.Response}
      {t s : Trip N}
      → Safe check r t
      → ◌≡◌ {A = Option (Result (Failure N) N.Response × Trip N)} (some (r, t)) (some (end, s))
      → Safe check end s
  ended check {r} {end} {t} {s} h e =
      let (er, et) : (r ≡ end) × (t ≡ s) = ground (arith, e) in
      subst (λ u. Safe check u s) er (subst (λ u. Safe check r u) et h)

  start : (check : Option (Text → Result N.Raised (Unit {0}))) → Watched check []
  start none = tt
  start (some check) = (tt, tt)

  travel-Safe :
      (check : Option (Text → Result N.Raised (Unit {0}))) (fuel : ℕ) (request : N.Request)
      (s : Trip N) {end : Result (Failure N) N.Response} {s' : Trip N}
      → Kept check (again request s)
      → travel N policy stream check fuel request s ≡ some (end, s')
      → Safe check end s'
  unfolding travel
  travel-Safe check zero request s k e = absurd (ground (arith, e))
  travel-Safe check (suc fuel) request s {end} {s'} k e =
      go (turn N policy stream check request s) (turn-Kept check request s k.0 k.1 k.2)
        (λ next s'' k' e'. travel-Safe check fuel next s'' k' e') e
    where
      go :
          (t : Step N)
          → Kept check t
          → ((next : N.Request) (s'' : Trip N)
              → Kept check (again next s'')
              → travel N policy stream check fuel next s'' ≡ some (end, s')
              → Safe check end s')
          → ◌≡◌ {A = Option (Result (Failure N) N.Response × Trip N)}
              (elim t [
                | done r s'' ↦ some (r, s'')
                | again next s'' ↦ travel N policy stream check fuel next s''
              ])
              (some (end, s'))
          → Safe check end s'
      go (done r s'') k' ih e' =
          ended check (record { watched = k'.0; limited_to = k'.1; settled = k'.2 }) e'
      go (again next s'') k' ih e' = ih next s'' k' e'

  -- However the server redirects and the auth flow goes on: where the engine has a location check,
  -- each request is sent only directly after the check of its own location has passed; beside the first
  -- request at most `max_redirects` are sent, and none where redirects are not followed, and one for
  -- each response that the auth flow was given; and at the end every response is closed, but the one
  -- that a streaming send returns.
  pub send_with_redirects-Safe :
      (check : Option (Text → Result N.Raised (Unit {0}))) (fuel : ℕ) (request : N.Request)
      (end : Result (Failure N) N.Response) (s : Trip N)
      → send_with_redirects N policy stream check fuel request ≡ some (end, s)
      → Safe check end s
  unfolding send_with_redirects
  send_with_redirects-Safe check fuel request end s e = go (N.first request) e
    where
      go :
          (first : Result N.Raised N.Request)
          → (elim first [
            | err x ↦ some (err (Failure.raised x), departure N policy stream)
            | ok authorised ↦
                travel N policy stream check fuel authorised (departure N policy stream)
          ])
            ≡ some (end, s)
          → Safe check end s
      go (ok authorised) e' =
          travel-Safe check fuel authorised (departure N policy stream)
            (start check, (refl, omega arith), tt) e'
      go (err x) e' =
          ended check (record { watched = start check; limited_to = omega arith; settled = tt }) e'
