-- ===== src/Http/Engine/Loop/Bounds.antt =====
-- The rounds, refreshes and pauses of a loop, for any way to decide.
use mountainash_transport.Prelude.{
  ℕ, zero, suc, ◌+◌, ◌-◌, ◌≤◌, ◌<◌, ◌≡◌, refl, ap, ◌⊎◌, inl, inr, Bool, true, false, Bool-cases,
  Option, some, [], ◌∷◌, Text, length, length-append, All, All-append, if◌then◌else◌, arith,
}
use mountainash_transport.Stream.Sequential.{Bytes}
use mountainash_transport.Http.Policy.{Seconds}
use mountainash_transport.Http.Engine.{Headers, Final}
use mountainash_transport.Http.Engine.Loop.{
  Outcome, Sent, Env, Loop, Decision, stop, pause, refresh, act, round, run, sending,
}

module _ (T : Seconds) (limit : ℕ) (Short : T.Time → Type 0) where
  -- A decision that keeps to the policy, in a state with these attempts, refreshed or not: it goes
  -- round again only with attempts left and after a short pause, and tries a refresh only once.
  abbrev pub Keeps : ℕ → Bool → Decision T → Type 0
  Keeps attempt refreshed (stop f) = Unit
  Keeps attempt refreshed (pause t) = (attempt < limit) × Short t
  Keeps attempt refreshed (refresh otherwise) = (refreshed ≡ false) × Keeps attempt true otherwise

  -- Rounds that may still follow, from a state before a round.
  abbrev pub left : ℕ → Bool → ℕ
  left attempt refreshed = (limit - 1 - attempt) + (if refreshed then 0 else 1)

  abbrev pub once : Bool → ℕ
  once refreshed = if refreshed then 1 else 0

  -- From one state to a later one: a refresh is tried once, and pauses are short.
  pub record Follows (s s' : Loop T) : Type 0 where
    pub counted : s'.refreshes + once s.refreshed ≤ s.refreshes + once s'.refreshed
    pub short : All Short s.sleeps → All Short s'.sleeps

  abbrev After : Loop T → (Final T × Loop T) ⊎ Loop T → Type 0
  After s (inl (f, s')) = (s'.sent ≡ s.sent) × Follows s s'
  After s (inr s') =
      (s'.sent ≡ s.sent)
      × Follows s s'
      × (suc (left s'.attempt s'.refreshed) ≤ left (s.attempt - 1) s.refreshed)

  abbrev tried : Loop T → Loop T
  tried s = record s { refreshed = true; refreshes = s.refreshes + 1 }

  After-tried :
      (s : Loop T) (r : (Final T × Loop T) ⊎ Loop T)
      → s.refreshed ≡ false
      → After (tried s) r
      → After s r
  After-tried s (inl (f, s')) h (e, k) =
      (e, record { counted = ground (arith, k.counted); short = k.short })
  After-tried s (inr s') h (e, k, n) =
      (e, record { counted = ground (arith, k.counted); short = k.short }, ground (arith, n))

  module _ (env : Env) (caller : Headers) where
    act-After :
        (d : Decision T) (s : Loop T)
        → 0 < s.attempt
        → Keeps s.attempt s.refreshed d
        → After s (act T env caller d s)
    unfolding act
    act-After (stop f) s h k = (refl, record { counted = omega arith; short = λ p. p })
    act-After (pause t) s h k = (
      refl,
      record { counted = omega arith; short = λ p. All-append Short s.sleeps (t ∷ []) p (k.1, tt) },
      omega arith,
    )
    act-After (refresh d) s h k = elim (Bool-cases (env.refresh s.refreshes)) [
      | inl q ↦ rw q (refl, record { counted = ground arith; short = λ p. p }, ground arith)
      | inr q ↦ rw q (After-tried s _ k.0 (act-After d (tried s) h k.1))
    ]

  -- The end of a loop that starts in `s`.
  pub record Ends (s : Loop T) (end : Option (Final T × Loop T)) : Type 0 where
    pub final : Final T
    pub state : Loop T
    pub returned : end ≡ some (final, state)
    pub sends : length state.sent ≤ length s.sent + left s.attempt s.refreshed + 1
    pub refreshes : state.refreshes + once s.refreshed ≤ s.refreshes + once state.refreshed
    pub sleeps : All Short s.sleeps → All Short state.sleeps

  module _ (env : Env) (caller : Headers) (method : Text) (body : Option Bytes)
      (decide : Loop T → Outcome → Decision T)
      (keeps : (s : Loop T) (o : Outcome) → Keeps s.attempt s.refreshed (decide s o)) where
    abbrev run_from : ℕ → Loop T → Option (Final T × Loop T)
    run_from = run T env caller method body decide

    run-step :
        (fuel : ℕ) (s : Loop T) (r : (Final T × Loop T) ⊎ Loop T)
        → round T env caller method body decide s ≡ r
        → After (sending T method body s) r
        → left s.attempt s.refreshed < suc fuel
        → ((s' : Loop T) → left s'.attempt s'.refreshed < fuel → Ends s' (run_from fuel s'))
        → Ends s (run_from (suc fuel) s)
    unfolding run
    run-step fuel s (inl (f, s')) e (same, k) h ih = record {
      final = f;
      state = s';
      returned = ground (arith, e);
      sends = omega (arith, ap (length {A = Sent}) same, length-append {0} s.sent);
      refreshes = k.counted;
      sleeps = k.short;
    }
    run-step fuel s (inr s') e (same, k, fewer) h ih =
        let end = ih s' (omega arith) in
        record {
          final = end.final;
          state = end.state;
          returned = ground (arith, e, end.returned);
          sends = omega (arith, end.sends, ap (length {A = Sent}) same, length-append {0} s.sent);
          refreshes = omega (arith, end.refreshes, k.counted);
          sleeps = λ p. end.sleeps (k.short p);
        }

    pub run-Ends :
        (fuel : ℕ) (s : Loop T) → left s.attempt s.refreshed < fuel → Ends s (run_from fuel s)
    run-Ends zero s h = absurd (omega arith)
    run-Ends (suc fuel) s h =
        run-step fuel s (round T env caller method body decide s) refl
          (unfold round in
            act-After env caller _ (sending T method body s) (omega arith) (keeps _ _))
          h (λ s' k. run-Ends fuel s' k)
