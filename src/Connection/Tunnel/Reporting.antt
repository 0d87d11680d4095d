-- ===== src/Connection/Tunnel/Reporting.antt =====
-- connections/tunnel.py: which failures a disconnect reports.
use mountainash_transport.Prelude.{
  ℕ, ◌+◌, ◌≡◌, refl, sym, ap, ◌∙◌, subst, inl, inr, true, false, Bool-cases, Option, none, some, [],
  ◌∷◌, Result, ok, err, arith, Option-cases,
}
use mountainash_transport.Connection.Failures.{
  Failure, connection_timeout, Raised, with_note, is_timeout,
}
use mountainash_transport.Connection.World.{World, release, call}
use mountainash_transport.Connection.Protocol.{Protocol}
use mountainash_transport.Connection.Tunnel.{
  Forwarder, TunnelState, Teardown, combine, wait_stopped, request_stop, record_cleanup_error,
  disconnect_inner, stop_forwarder, disconnect_ssh, wait_forwarder, run_actions, teardown,
  disconnect,
}

combine-none :
    (e : Option Raised) (r : Result Raised (Unit {0}))
    → combine e r ≡ none
    → (e ≡ none) × (r ≡ ok tt)
unfolding combine
combine-none none (ok u) h = (refl, refl)
combine-none (some x) (ok u) h = absurd (ground (arith, h))
combine-none none (err x) h = absurd (ground (arith, h))
combine-none (some x) (err y) h = absurd (ground (arith, h))

combine-timeout :
    (e : Option Raised) (x : Raised)
    → x.error ≡ connection_timeout
    → (y : Raised) × (combine e (err x) ≡ some y) × (y.error ≡ connection_timeout)
unfolding combine is_timeout
combine-timeout none x h = (x, refl, h)
combine-timeout (some e) x h = (with_note x e.error, ground (arith, h), h)

wait_stopped-timeout :
    (fwd : Forwarder) (w : World)
    → w.answers w.clock ≡ true
    → (x : Raised) × (wait_stopped fwd w ≡ err x) × (x.error ≡ connection_timeout)
unfolding wait_stopped
wait_stopped-timeout fwd w h = elim (Option-cases fwd.cleanup_error) [
  | inl a ↦ (record { error = connection_timeout; notes = [] }, ground (arith, h, a), refl)
  | inr (f, a) ↦ (record { error = connection_timeout; notes = f ∷ [] }, ground (arith, h, a), refl)
]

module _ {S I : Type 0} (ssh : Protocol S) (inner : Protocol I) (factory : ℕ → Result Failure I)
    (port_of : ℕ → ℕ) where
  -- Where a disconnect stands before each of its actions.
  abbrev pub begun : TunnelState S I → World → Teardown S
  begun s w = record { ssh = s.ssh; forwarder = s.forwarder; error = none; world = w }

  abbrev pub after_inner : TunnelState S I → World → Teardown S
  after_inner s w = disconnect_inner ssh inner factory port_of s.inner (begun s w)

  abbrev pub after_stop : TunnelState S I → World → Teardown S
  after_stop s w = stop_forwarder ssh inner factory port_of (after_inner s w)

  abbrev pub after_ssh : TunnelState S I → World → Teardown S
  after_ssh s w = disconnect_ssh ssh inner factory port_of true (after_stop s w)

  -- What the actions for an inner connection and a forwarder end in, where there is one.
  abbrev pub inner_result : Option I → World → Result Raised (Unit {0})
  inner_result none w = ok tt
  inner_result (some i) w = (inner.disconnect i w).result

  abbrev pub wait_result : Option Forwarder → World → Result Raised (Unit {0})
  wait_result none w = ok tt
  wait_result (some fwd) w = wait_stopped fwd w

  run_actions-error :
      (s : TunnelState S I) (w : World)
      → let stopped = after_stop s w in
        let left = after_ssh s w in
        (run_actions ssh inner factory port_of true s w).error
        ≡ combine
            (combine
              (combine none (inner_result s.inner w))
              (ssh.disconnect stopped.ssh stopped.world).result)
            (wait_result left.forwarder left.world)
  unfolding run_actions disconnect_ssh wait_forwarder stop_forwarder disconnect_inner combine
  run_actions-error s w = elim (Option-cases s.inner) [
    | inl a ↦ elim (Option-cases s.forwarder) [
      | inl b ↦ ground (arith, a, b)
      | inr (fwd, b) ↦ ground (arith, a, b)
    ]
    | inr (i, a) ↦ elim (Option-cases s.forwarder) [
      | inl b ↦ ground (arith, a, b)
      | inr (fwd, b) ↦ ground (arith, a, b)
    ]
  ]

  -- Of the native calls for a forwarder, those of its stop from one world on, and that of the wait in
  -- another: none raises, no thread is left, and no error was kept before.
  abbrev pub Undisturbed : Option Forwarder → World → World → Type 0
  Undisturbed none stopping waiting = Unit
  Undisturbed (some fwd) stopping waiting =
      (fwd.cleanup_error ≡ none)
      × (stopping.raises stopping.clock ≡ none)
      × (stopping.raises (stopping.clock + 1) ≡ none)
      × (waiting.answers waiting.clock ≡ false)

  undisturbed :
      (fwd : Forwarder) (stopping waiting : World)
      → wait_stopped (request_stop fwd stopping).forwarder waiting ≡ ok tt
      → Undisturbed (some fwd) stopping waiting
  unfolding wait_stopped request_stop record_cleanup_error release call
  undisturbed fwd v w h = elim (Bool-cases (w.answers w.clock)) [
    | inl a ↦ absurd (ground (arith, a, h))
    | inr a ↦ elim (Option-cases fwd.cleanup_error) [
      | inr (f, b) ↦ absurd (ground (arith, a, b, h))
      | inl b ↦ elim (Option-cases (v.raises v.clock)) [
        | inr (f, c) ↦ absurd (ground (arith, a, b, c, h))
        | inl c ↦ elim (Option-cases (v.raises (v.clock + 1))) [
          | inr (f, d) ↦ absurd (ground (arith, a, b, c, d, h))
          | inl d ↦ (b, c, d, a)
        ]
      ]
    ]
  ]

  wait_result-Undisturbed :
      (s : TunnelState S I) (w : World)
      → let left = after_ssh s w in
        wait_result left.forwarder left.world ≡ ok tt
        → Undisturbed s.forwarder (after_inner s w).world left.world
  unfolding disconnect_ssh stop_forwarder disconnect_inner
  wait_result-Undisturbed s w h = elim (Option-cases s.inner) [
    | inl a ↦ by none a s.forwarder refl
    | inr (i, a) ↦ by (some i) a s.forwarder refl
  ]
    where
      stopped :
          (j : Option I)
          → s.inner ≡ j
          → (fwd : Forwarder) → s.forwarder ≡ some fwd
          → wait_stopped (request_stop fwd (after_inner s w).world).forwarder (after_ssh s w).world
            ≡ ok tt
      stopped none a fwd b = ground (arith, a, b, h)
      stopped (some i) a fwd b = ground (arith, a, b, h)

      by :
          (j : Option I)
          → s.inner ≡ j
          → (o : Option Forwarder) → s.forwarder ≡ o
          → Undisturbed s.forwarder (after_inner s w).world (after_ssh s w).world
      by j a none b =
          subst (λ o. Undisturbed o (after_inner s w).world (after_ssh s w).world) (sym b) tt
      by j a (some fwd) b =
          subst (λ o. Undisturbed o (after_inner s w).world (after_ssh s w).world) (sym b)
            (undisturbed fwd (after_inner s w).world (after_ssh s w).world (stopped j a fwd b))

  pub disconnect-Silent :
      (s : TunnelState S I) (w : World)
      → (disconnect ssh inner factory port_of s w).result ≡ ok tt
      → let stopped = after_stop s w in
        (inner_result s.inner w ≡ ok tt)
        × ((ssh.disconnect stopped.ssh stopped.world).result ≡ ok tt)
        × Undisturbed s.forwarder (after_inner s w).world (after_ssh s w).world
  unfolding disconnect teardown
  disconnect-Silent s w h =
      let t = run_actions ssh inner factory port_of true s w in
      elim (Option-cases t.error) [
        | inr (x, a) ↦ absurd (ground (arith, h, a))
        | inl a ↦
            let (b, c) = combine-none _ _ (sym (run_actions-error s w) ∙ a) in
            let (d, e) = combine-none _ _ b in
            ((combine-none none (inner_result s.inner w) d).1, e, wait_result-Undisturbed s w c)
      ]

  -- Where threads of the forwarder are left after a disconnect of its tunnel, it raises
  -- `ConnectionTimeoutError`, whatever failed before.
  pub disconnect-Timeout :
      (s : TunnelState S I) (w : World) (fwd : Forwarder)
      → let left = after_ssh s w in
        left.forwarder ≡ some fwd
        → left.world.answers left.world.clock ≡ true
        → (y : Raised) × ((disconnect ssh inner factory port_of s w).result ≡ err y)
          × (y.error ≡ connection_timeout)
  unfolding disconnect teardown
  disconnect-Timeout s w fwd h r =
      let left = after_ssh s w in
      let (x, a, b) = wait_stopped-timeout fwd left.world r in
      let earlier =
        combine (combine none (inner_result s.inner w))
          (ssh.disconnect (after_stop s w).ssh (after_stop s w).world).result in
      let (y, c, d) = combine-timeout earlier x b in
      let waited = ap (λ o. wait_result o left.world) h ∙ a in
      let e = run_actions-error s w ∙ ap (combine earlier) waited ∙ c in (y, ground (arith, e), d)
