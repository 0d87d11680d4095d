-- ===== src/Http/Engine/Loop/History.antt =====
-- The requests that the two loops send, with the refreshes between them, and the last response.
use mountainash_transport.Prelude.{
  ℕ, zero, suc, ◌+◌, ◌-◌, ◌≡◌, refl, ap, ◌∙◌, sym, subst, ◌⊎◌, inl, inr, true, false, String,
  string_eq, if◌then◌else◌, Bool-cases, Option, some, List, [], ◌∷◌, ◌++◌, Text, length, nat_eq,
  arith,
}
use mountainash_transport.Prelude.Dict
use mountainash_transport.Stream.Sequential.{Bytes}
use mountainash_transport.Http.Policy.{Seconds}
use mountainash_transport.Http.Engine.{
  Headers, Response, Final, success, raised, unclassified, propagated, merge_headers,
}
use mountainash_transport.Http.Engine.Headers.{auth_header, IsMapping, lookup-merge_headers}
use mountainash_transport.Http.Engine.Loop.{
  Outcome, responded, Sent, Env, auth_headers, Loop, Decision, stop, pause, refresh, is_success,
  initial, act, round, run, sending, outcome_of,
}

module _ (T : Seconds) (env : Env) (caller : Headers) (method : Text) (body : Option Bytes) where
  -- For every name the caller's value, or the auth strategy's after some number of refreshes, where
  -- the caller has none.
  abbrev pub Carries : ℕ → Headers → Type 0
  Carries n headers =
      (name : String)
      → Dict.lookup name headers
        ≡ Dict.or_else (Dict.lookup name caller) (auth_header (auth_headers env n) name)

  -- The requests of a call, the last one at the end, with the refreshes that succeeded so far: each has
  -- the auth strategy's headers as of its time, and a refresh comes after a 401.
  pub data Follows : List Sent → ℕ → Type 0 where
    none_sent : Follows [] 0
    sends :
        (before : List Sent) {n : ℕ} (x : Sent)
        → Follows before n
        → x.method ≡ method
        → x.body ≡ body
        → Carries n x.headers
        → Follows (before ++ x ∷ []) n
    refreshes :
        (before : List Sent) {n : ℕ} (x : Sent) (r : Response)
        → Follows (before ++ x ∷ []) n
        → env.send (length before) x ≡ responded r
        → r.status_code ≡ 401
        → env.refresh n ≡ true
        → Follows (before ++ x ∷ []) (n + 1)

  -- The refreshes that succeeded, of those tried, which are one at most.
  abbrev pub succeeded : ℕ → ℕ
  succeeded tried = if env.refresh 0 then tried else 0

  unfoldable pub Tried : Loop T → Type 0
  Tried s = ((s.refreshed ≡ false) × (s.refreshes ≡ 0)) ⊎ ((s.refreshed ≡ true) × (s.refreshes ≡ 1))

  pub record Own (s : Loop T) : Type 0 where
    pub follows : Follows s.sent (succeeded s.refreshes)
    pub carries : Carries (succeeded s.refreshes) s.headers
    pub tried : Tried s

  -- The response is the one to the last request, and its status is 2xx.
  abbrev pub Answers : Response → List Sent → Type 0
  Answers r sent =
      (before : List Sent) × (x : Sent) × (sent ≡ before ++ x ∷ [])
      × (env.send (length before) x ≡ responded r)
      × (is_success T r.status_code ≡ true)

  abbrev pub Answered : Final T → List Sent → Type 0
  Answered (success r) sent = Answers r sent
  Answered (raised c status after) sent = Unit
  Answered unclassified sent = Unit
  Answered (propagated x) sent = Unit

  answered :
      (f : Final T) (sent : List Sent)
      → ((r : Response) → f ≡ success r → Answers r sent)
      → Answered f sent
  answered (success r) sent h = h r refl
  answered (raised c status after) sent h = tt
  answered unclassified sent h = tt
  answered (propagated x) sent h = tt

  -- What holds at the end.
  pub record Correct (f : Final T) (s : Loop T) : Type 0 where
    pub follows : Follows s.sent (succeeded s.refreshes)
    pub answers : Answered f s.sent

  abbrev pub IsPlain : Decision T → Type 0
  IsPlain (stop f) = Unit
  IsPlain (pause t) = Unit
  IsPlain (refresh d) = ⊥

  abbrev pub IsSuccess : Outcome → Response → Type 0
  IsSuccess o r = (o ≡ responded r) × (is_success T r.status_code ≡ true)

  -- A decision that fits the outcome of the last send.
  abbrev pub Apt : Decision T → Loop T → Outcome → Type 0
  Apt (stop f) s o = (r : Response) → f ≡ success r → IsSuccess o r
  Apt (pause t) s o = Unit
  Apt (refresh d) s o =
      (s.refreshed ≡ false)
      × ((r : Response) × (o ≡ responded r) × (r.status_code ≡ 401))
      × IsPlain d
      × Apt d s o

  abbrev Sound : Outcome → Loop T → (Final T × Loop T) ⊎ Loop T → Type 0
  Sound o u (inl (f, s')) =
      (s'.sent ≡ u.sent)
      × Follows s'.sent (succeeded s'.refreshes)
      × ((r : Response) → f ≡ success r → IsSuccess o r)
  Sound o u (inr s') = Own s'

  act-plain :
      (d : Decision T) (u s : Loop T) (o : Outcome)
      → IsPlain d
      → Apt d u o
      → s.sent ≡ u.sent
      → Own s
      → Sound o u (act T env caller d s)
  unfolding act Tried
  act-plain (stop f) u s o p a e w = (e, w.follows, a)
  act-plain (pause t) u s o p a e w = record {
    follows = w.follows;
    carries = w.carries;
    tried = w.tried;
  }
  act-plain (refresh d) u s o p a e w = absurd p

  module _ (mapping : (n : ℕ) → IsMapping (auth_headers env n)) (dict : Dict.IsDict caller) where
    act-Sound :
        (d : Decision T) (u : Loop T) (o : Outcome) (before : List Sent) (x : Sent)
        → u.sent ≡ before ++ x ∷ []
        → env.send (length before) x ≡ o
        → Own u
        → Apt d u o
        → Sound o u (act T env caller d u)
    unfolding act Tried
    act-Sound (stop f) u o before x e q w a = act-plain (stop f) u u o tt a refl w
    act-Sound (pause t) u o before x e q w a = act-plain (pause t) u u o tt a refl w
    act-Sound (refresh d) u o before x e q w a =
        let (fresh, answer, plain, rest) = a in
        let (r, got, status) = answer in
        let zero_yet : u.refreshes ≡ 0 = untried u fresh w.tried in
        elim (Bool-cases (env.refresh u.refreshes)) [
          | inl k ↦ rw k (renewed u before x r e (q ∙ got) status w zero_yet k)
          | inr k ↦ rw k (act-plain d u _ o plain rest refl (unrenewed u w zero_yet k))
        ]
      where
        untried : (u : Loop T) → u.refreshed ≡ false → Tried u → u.refreshes ≡ 0
        untried u fresh t = ground (arith, fresh, t)

        one : (n : ℕ) → n ≡ 0 → env.refresh n ≡ true → succeeded (n + 1) ≡ n + 1
        one n z k = ground (arith, z, subst (λ m. env.refresh m ≡ true) z k)

        none : (n : ℕ) → n ≡ 0 → succeeded n ≡ n
        none n z = ground (arith, z)

        renewed :
            (u : Loop T) (before : List Sent) (x : Sent) (r : Response)
            → u.sent ≡ before ++ x ∷ []
            → env.send (length before) x ≡ responded r
            → r.status_code ≡ 401
            → Own u
            → u.refreshes ≡ 0
            → env.refresh u.refreshes ≡ true
            → Own (record u {
              refreshed = true;
              refreshes = u.refreshes + 1;
              attempt = u.attempt - 1;
              headers = merge_headers (auth_headers env (u.refreshes + 1)) caller;
            })
        renewed u before x r e g status w z k =
            let n = u.refreshes in
            let base = subst (λ l. Follows l (succeeded n)) e w.follows in
            let known = subst (λ m. Follows (before ++ x ∷ []) m) (none n z) base in
            let next = refreshes before x r known g status k in
            record {
              follows =
                  subst (λ l. Follows l (succeeded (n + 1))) (sym e)
                    (subst (λ m. Follows (before ++ x ∷ []) m) (sym (one n z k)) next);
              carries =
                  subst (λ m. Carries m (merge_headers (auth_headers env (n + 1)) caller))
                    (sym (one n z k))
                    (λ name.
                      lookup-merge_headers (auth_headers env (n + 1)) caller name (mapping (n + 1))
                        dict);
              tried = inr (refl, ground (arith, z));
            }

        unrenewed :
            (u : Loop T)
            → Own u
            → u.refreshes ≡ 0
            → env.refresh u.refreshes ≡ false
            → Own (record u { refreshed = true; refreshes = u.refreshes + 1 })
        unrenewed u w z k =
            let n = u.refreshes in
            let same : succeeded n ≡ succeeded (n + 1) =
              ground (arith, z, subst (λ m. env.refresh m ≡ false) z k) in
            record {
              follows = subst (λ m. Follows u.sent m) same w.follows;
              carries = subst (λ m. Carries m u.headers) same w.carries;
              tried = inr (refl, ground (arith, z));
            }

    module _ (decide : Loop T → Outcome → Decision T)
        (apt : (s : Loop T) (o : Outcome) → Apt (decide s o) s o) where
      -- What is so after a send.
      sending-Own : (s : Loop T) → Own s → Own (sending T method body s)
      unfolding Tried
      sending-Own s w = record {
        follows =
            sends s.sent (record { method = method; headers = s.headers; body = body }) w.follows
              refl refl w.carries;
        carries = w.carries;
        tried = w.tried;
      }

      step :
          (fuel : ℕ) (s : Loop T) (f : Final T) (s' : Loop T) (e : (Final T × Loop T) ⊎ Loop T)
          → Sound (outcome_of T env method body s) (sending T method body s) e
          → ((t : Loop T)
              → Own t
              → run T env caller method body decide fuel t ≡ some (f, s')
              → Correct f s')
          → (elim e [ inl end ↦ some end | inr s'' ↦ run T env caller method body decide fuel s'' ])
            ≡ some (f, s')
          → Correct f s'
      step fuel s f s' (inl (g, t)) k ih e =
          let x : Sent = record { method = method; headers = s.headers; body = body } in
          let (eg, et) : (g ≡ f) × (t ≡ s') = ground (arith, e) in
          let (same, history, ends) = k in
          record {
            follows = subst (λ u. Follows u.sent (succeeded u.refreshes)) et history;
            answers = answered f s'.sent (λ r q.
                let (a, b) = ends r (eg ∙ q) in
                (s.sent, x, ap (λ u. u.sent) (sym et) ∙ same, a, b));
          }
      step fuel s f s' (inr t) k ih e = ih t k e

      pub run-Correct :
          (fuel : ℕ) (s : Loop T) (f : Final T) (s' : Loop T)
          → Own s
          → run T env caller method body decide fuel s ≡ some (f, s')
          → Correct f s'
      unfolding run round
      run-Correct zero s f s' o e = absurd (ground (arith, e))
      run-Correct (suc fuel) s f s' o e =
          step fuel s f s' (round T env caller method body decide s)
            (act-Sound _ (sending T method body s) (outcome_of T env method body s) s.sent _ refl
              refl (sending-Own s o)
              (apt (sending T method body s) (outcome_of T env method body s)))
            (λ t o' e'. run-Correct fuel t f s' o' e') e

      pub initial-Own : Own (initial T env caller)
      unfolding Tried
      initial-Own = record {
        follows = subst (λ n. Follows [] n) (ground arith) none_sent;
        carries =
            subst (λ n. Carries n (merge_headers (auth_headers env 0) caller)) (ground arith)
              (λ name. lookup-merge_headers (auth_headers env 0) caller name (mapping 0) dict);
        tried = inl (refl, refl);
      }
