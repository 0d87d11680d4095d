-- ===== src/Connection/Tunnel/Owning.antt =====
-- connections/tunnel.py: what a tunnel owns, over what its connections own.
use mountainash_transport.Prelude.{
  ℕ, ◌≡◌, refl, sym, ap, ◌∙◌, ◌⊎◌, inl, inr, true, false, Option, none, some, List, Result, ok, err,
  subst, arith, Bool-cases, Option-cases, Result-cases,
}
use mountainash_transport.Connection.Failures.{Failure, Raised, raised}
use mountainash_transport.Connection.World.{World, call, release, remove-head}
use mountainash_transport.Connection.Protocol.{
  Done, Protocol, Stance, Connected, Failed, Released, Contract,
}
use mountainash_transport.Connection.Sftp.{after_cleanup}
use mountainash_transport.Connection.Tunnel.{
  TunnelState, Teardown, combine, request_stop, disconnect_inner, stop_forwarder, disconnect_ssh,
  wait_forwarder, run_actions, teardown, disconnect, connect_ssh, open_forwarder, connect_inner,
  attempt, connect, is_connected, tunnelled_connection,
}
use mountainash_transport.Connection.Tunnel.Starting.{listening, start_forwarder-Starts}

module _ {S I : Type 0} (p : Protocol S) (q : Protocol I) (factory : ℕ → Result Failure I)
    (port_of : ℕ → ℕ) (cs : Stance S) (ds : Stance I) (c : Contract p cs) (d : Contract q ds) where
  abbrev inner_held : Option I → List ℕ → List ℕ
  inner_held none rest = rest
  inner_held (some i) rest = ds.held i rest

  abbrev InnerValid : Option I → Type 0
  InnerValid none = Unit
  InnerValid (some i) = ds.IsValid i

  abbrev pub tunnel_stance : Stance (TunnelState S I)
  tunnel_stance = record {
    held = λ s rest. inner_held s.inner (listening s.forwarder (cs.held s.ssh rest));
    IsValid = λ s. cs.IsValid s.ssh × InnerValid s.inner;
    IsIdle = λ s. cs.IsIdle s.ssh × (s.inner ≡ none) × (s.forwarder ≡ none) × (s.local_port ≡ none);
  }

  abbrev Same : Teardown S → Teardown S → Type 0
  Same t u = (t.ssh ≡ u.ssh) × (t.forwarder ≡ u.forwarder)

  disconnect_inner-open :
      (rest : List ℕ) (i : Option I) (t : Teardown S)
      → InnerValid i
      → t.world.open_now ≡ inner_held i rest
      → let u = disconnect_inner p q factory port_of i t in Same u t × (u.world.open_now ≡ rest)
  unfolding disconnect_inner
  disconnect_inner-open rest none t v o = ((refl, refl), o)
  disconnect_inner-open rest (some i) t v o = ((refl, refl), (d.releases rest i t.world v o).freed)

  stop_forwarder-open :
      (rest : List ℕ) (t : Teardown S)
      → t.world.open_now ≡ listening t.forwarder rest
      → let u = stop_forwarder p q factory port_of t in (u.ssh ≡ t.ssh) × (u.world.open_now ≡ rest)
  unfolding stop_forwarder request_stop release call
  stop_forwarder-open rest t o = elim (Option-cases t.forwarder) [
    | inl e ↦ (ground (arith, e), ground (arith, e, o))
    | inr (fwd, e) ↦ (ground (arith, e), ground (arith, e, o, remove-head fwd.listener rest))
  ]

  wait_forwarder-same :
      (t : Teardown S)
      → let u = wait_forwarder p q factory port_of t in
        (u.ssh ≡ t.ssh) × (u.world.open_now ≡ t.world.open_now)
  unfolding wait_forwarder
  wait_forwarder-same t = elim (Option-cases t.forwarder) [
    | inl e ↦ (ground (arith, e), ground (arith, e))
    | inr (fwd, e) ↦ (ground (arith, e), ground (arith, e))
  ]

  -- The first two actions, and the state that the others start from.
  stopped : TunnelState S I → World → Teardown S
  stopped s w = stop_forwarder p q factory port_of (
      disconnect_inner p q factory port_of s.inner
        (record { ssh = s.ssh; forwarder = s.forwarder; error = none; world = w }))

  stopped-open :
      (rest : List ℕ) (s : TunnelState S I) (w : World)
      → tunnel_stance.IsValid s
      → w.open_now ≡ tunnel_stance.held s rest
      → ((stopped s w).ssh ≡ s.ssh) × ((stopped s w).world.open_now ≡ cs.held s.ssh rest)
  unfolding stopped
  stopped-open rest s w v o =
      let start : Teardown S = record {
        ssh = s.ssh;
        forwarder = s.forwarder;
        error = none;
        world = w;
      } in
      let a =
        disconnect_inner-open (listening s.forwarder (cs.held s.ssh rest)) s.inner start v.1 o in
      let u = disconnect_inner p q factory port_of s.inner start in
      let b =
        stop_forwarder-open (cs.held s.ssh rest) u
          (a.1 ∙ ap (λ f. listening f (cs.held s.ssh rest)) (sym a.0.1)) in
      (b.0 ∙ a.0.0, b.1)

  pub disconnect-Released :
      (rest : List ℕ) (s : TunnelState S I) (w : World)
      → tunnel_stance.IsValid s
      → w.open_now ≡ tunnel_stance.held s rest
      → Released
          (tunnelled_connection p q factory port_of)
          tunnel_stance
          rest
          (disconnect p q factory port_of s w)
  unfolding disconnect teardown run_actions stopped disconnect_ssh
  disconnect-Released rest s w v o =
      let t = stopped s w in
      let a = stopped-open rest s w v o in
      let done =
        c.releases rest t.ssh t.world (subst (λ x. cs.IsValid x) (sym a.0) v.0)
          (a.1 ∙ ap (λ x. cs.held x rest) (sym a.0)) in
      let b = wait_forwarder-same (disconnect_ssh p q factory port_of true t) in
      record {
        idle = (subst (λ x. cs.IsIdle x) (sym b.0) done.idle, refl, refl, refl);
        freed = b.1 ∙ done.freed;
      }

  -- What one step of `attempt` leaves.
  record Steps (rest : List ℕ) (e : Done (TunnelState S I)) : Type 0 where
    pub valid : tunnel_stance.IsValid e.state
    pub holds : e.world.open_now ≡ tunnel_stance.held e.state rest

  -- The states from which `attempt` goes on: with no inner connection, and no forwarder.
  record Cleared (rest : List ℕ) (s : TunnelState S I) (w : World) : Type 0 where
    pub valid : cs.IsValid s.ssh
    pub no_inner : s.inner ≡ none
    pub no_forwarder : s.forwarder ≡ none
    pub holds : w.open_now ≡ cs.held s.ssh rest

  teardown-Cleared :
      (rest : List ℕ) (s : TunnelState S I) (w : World)
      → tunnel_stance.IsValid s
      → w.open_now ≡ tunnel_stance.held s rest
      → let e = teardown p q factory port_of false s w in Cleared rest e.state e.world
  unfolding teardown run_actions stopped disconnect_ssh
  teardown-Cleared rest s w v o =
      let t = stopped s w in
      let a = stopped-open rest s w v o in
      let b = wait_forwarder-same t in
      record {
        valid = subst (λ x. cs.IsValid x) (sym (b.0 ∙ a.0)) v.0;
        no_inner = refl;
        no_forwarder = refl;
        holds = b.1 ∙ a.1 ∙ ap (λ x. cs.held x rest) (sym (b.0 ∙ a.0));
      }

  connect_ssh-Cleared :
      (rest : List ℕ) (s : TunnelState S I) (w : World)
      → Cleared rest s w
      → let e = connect_ssh p q factory port_of s w in Cleared rest e.state e.world
  unfolding connect_ssh
  connect_ssh-Cleared rest s w h = elim (Bool-cases (p.is_connected s.ssh)) [
    | inl b ↦ record {
      valid = ground (arith, b, h.valid);
      no_inner = ground (arith, b, h.no_inner);
      no_forwarder = ground (arith, b, h.no_forwarder);
      holds = ground (arith, b, h.holds);
    }
    | inr b ↦ elim (c.connects rest s.ssh w h.valid h.holds) [
      | inl done ↦ record {
        valid = ground (arith, b, done.valid);
        no_inner = ground (arith, b, h.no_inner);
        no_forwarder = ground (arith, b, h.no_forwarder);
        holds = ground (arith, b, done.holds);
      }
      | inr done ↦ record {
        valid = ground (arith, b, c.valid done.idle);
        no_inner = ground (arith, b, h.no_inner);
        no_forwarder = ground (arith, b, h.no_forwarder);
        holds = ground (arith, b, done.freed, c.holds_nothing done.idle rest);
      }
    ]
  ]

  Cleared→Steps :
      (rest : List ℕ) (e : Done (TunnelState S I)) → Cleared rest e.state e.world → Steps rest e
  Cleared→Steps rest e h = record {
    valid = (h.valid, rw h.no_inner tt);
    holds = h.holds ∙ ground (arith, h.no_inner, h.no_forwarder);
  }

  open_forwarder-Steps :
      (rest : List ℕ) (s : TunnelState S I) (w : World)
      → Cleared rest s w
      → let e = open_forwarder p q factory port_of s w in Steps rest e × (e.state.inner ≡ none)
  unfolding open_forwarder
  open_forwarder-Steps rest s w h = elim (Option-cases (p.client s.ssh)) [
    | inl a ↦ (
      record {
        valid = ground (arith, a, h.valid, h.no_inner);
        holds = ground (arith, a, h.holds, h.no_inner, h.no_forwarder);
      },
      ground (arith, a, h.no_inner),
    )
    | inr (client, a) ↦ elim (start_forwarder-Starts w) [
      | inl (fwd, b, o) ↦ (
        record {
          valid = ground (arith, a, b, h.valid, h.no_inner);
          holds = ground (arith, a, b, o, h.holds, h.no_inner);
        },
        ground (arith, a, b, h.no_inner),
      )
      | inr (x, b, o) ↦ (
        record {
          valid = ground (arith, a, b, h.valid, h.no_inner);
          holds = ground (arith, a, b, o, h.holds, h.no_inner, h.no_forwarder);
        },
        ground (arith, a, b, h.no_inner),
      )
    ]
  ]

  -- How `attempt` ends.
  abbrev Joins : Done (TunnelState S I) → Type 0
  Joins e =
      ((e.result ≡ ok tt) × (is_connected p q factory port_of e.state ≡ true))
      ⊎ ((x : Raised) × (e.result ≡ err x))

  connect_inner-Steps :
      (idle : (port : ℕ) (i : I) → factory port ≡ ok i → ds.IsIdle i)
      → (rest : List ℕ) (e : Done (TunnelState S I)) → Steps rest e
      → e.state.inner ≡ none
      → let f = connect_inner p q factory port_of e.state e.world in Steps rest f × Joins f
  unfolding connect_inner is_connected
  connect_inner-Steps idle rest e h n =
      let s = e.state in
      let base = listening s.forwarder (cs.held s.ssh rest) in
      let port = elim s.local_port as (λ x. ℕ) [ none ↦ 0 | some n ↦ n ] in
      elim (Result-cases (factory port)) [
        | inr (f, a) ↦ (
          record { valid = ground (arith, a, h.valid); holds = ground (arith, a, h.holds) },
          inr (raised f, ground (arith, a)),
        )
        | inl (i, a) ↦
            let start =
              h.holds
              ∙ ap (λ x. inner_held x base) n
              ∙ sym (d.holds_nothing (idle port i a) base) in
            elim (d.connects base i e.world (d.valid (idle port i a)) start) [
              | inl done ↦ (
                record {
                  valid = ground (arith, a, h.valid, done.valid);
                  holds = ground (arith, a, done.holds);
                },
                inl (ground (arith, a, done.returned), ground (arith, a, done.connected)),
              )
              | inr done ↦ (
                record {
                  valid = ground (arith, a, h.valid, d.valid done.idle);
                  holds = ground (arith, a, done.freed, d.holds_nothing done.idle base);
                },
                inr (done.failure, ground (arith, a, done.raises)),
              )
            ]
      ]

  attempt-Steps :
      (idle : (port : ℕ) (i : I) → factory port ≡ ok i → ds.IsIdle i)
      → (rest : List ℕ) (s : TunnelState S I) (w : World) → tunnel_stance.IsValid s
      → w.open_now ≡ tunnel_stance.held s rest
      → let e = attempt p q factory port_of s w in Steps rest e × Joins e
  unfolding attempt
  attempt-Steps idle rest s w v o =
      let e₁ = teardown p q factory port_of false s w in
      let h₁ = teardown-Cleared rest s w v o in
      let e₂ = connect_ssh p q factory port_of e₁.state e₁.world in
      let h₂ = connect_ssh-Cleared rest e₁.state e₁.world h₁ in
      let e₃ = open_forwarder p q factory port_of e₂.state e₂.world in
      let (h₃, n) = open_forwarder-Steps rest e₂.state e₂.world h₂ in
      let (h₄, j) = connect_inner-Steps idle rest e₃ h₃ n in
      elim (Result-cases e₁.result) [
        | inr (x, a) ↦ stops rest e₁ (Cleared→Steps rest e₁ h₁) (ground (arith, a)) x a
        | inl (u, a) ↦ elim (Result-cases e₂.result) [
          | inr (x, b) ↦ stops rest e₂ (Cleared→Steps rest e₂ h₂) (ground (arith, a, b)) x b
          | inl (u₂, b) ↦ elim (Result-cases e₃.result) [
            | inr (x, r) ↦ stops rest e₃ h₃ (ground (arith, a, b, r)) x r
            | inl (u₃, r) ↦
                carries rest (connect_inner p q factory port_of e₃.state e₃.world)
                  (ground (arith, a, b, r)) (h₄, j)
          ]
        ]
      ]
    where
      stops :
          (rest : List ℕ) (e : Done (TunnelState S I)) {f : Done (TunnelState S I)}
          → Steps rest e
          → f ≡ e
          → (x : Raised) → e.result ≡ err x
          → Steps rest f × Joins f
      stops rest e h same x a = subst (λ g. Steps rest g × Joins g) (sym same) (h, inr (x, a))

      carries :
          (rest : List ℕ) (e : Done (TunnelState S I)) {f : Done (TunnelState S I)}
          → f ≡ e
          → Steps rest e × Joins e
          → Steps rest f × Joins f
      carries rest e same h = subst (λ g. Steps rest g × Joins g) (sym same) h

  pub connect-Ends :
      (idle : (port : ℕ) (i : I) → factory port ≡ ok i → ds.IsIdle i)
      → (rest : List ℕ) (s : TunnelState S I) (w : World) → tunnel_stance.IsValid s
      → w.open_now ≡ tunnel_stance.held s rest
      → let e = connect p q factory port_of s w in
        Connected (tunnelled_connection p q factory port_of) tunnel_stance rest e
        ⊎ Failed (tunnelled_connection p q factory port_of) tunnel_stance rest e
  unfolding connect tunnelled_connection
  connect-Ends idle rest s w v o =
      let tried = attempt p q factory port_of s w in
      let (step, joins) = attempt-Steps idle rest s w v o in
      elim joins [
        | inl (a, b) ↦ inl (record {
          returned = ground (arith, a);
          valid = ground (arith, a, step.valid);
          connected = ground (arith, a, b);
          holds = ground (arith, a, step.holds);
        })
        | inr (x, a) ↦
            let done = disconnect-Released rest tried.state tried.world step.valid step.holds in
            let cleaned = disconnect p q factory port_of tried.state tried.world in
            let same = cleaned_up tried x a in
            inr (record {
              failure = after_cleanup x cleaned.result;
              raises = ap (λ e. e.result) same;
              idle = subst (λ e. tunnel_stance.IsIdle e) (sym (ap (λ e. e.state) same)) done.idle;
              freed = ap (λ e. e.world.open_now) same ∙ done.freed;
            })
      ]
    where
      cleaned_up :
          (tried : Done (TunnelState S I)) (x : Raised)
          → tried.result ≡ err x
          → elim tried.result as (λ r. Done (TunnelState S I)) [
            | ok _ ↦ tried
            | err primary ↦
                let cleaned = disconnect p q factory port_of tried.state tried.world in
                record cleaned { result = err (after_cleanup primary cleaned.result) }
          ]
            ≡ record (disconnect p q factory port_of tried.state tried.world) {
              result =
                  err (
                    after_cleanup x
                      (disconnect p q factory port_of tried.state tried.world).result);
            }
      cleaned_up tried x a = ground (arith, a)

  disconnect-again :
      (s : TunnelState S I) (w : World)
      → tunnel_stance.IsIdle s
      → disconnect p q factory port_of s w ≡ record { result = ok tt; state = s; world = w }
  unfolding disconnect teardown run_actions disconnect_inner stop_forwarder disconnect_ssh
      wait_forwarder combine
  disconnect-again s w (i, a, b, e) = ground (arith, a, b, e, c.again i w)

  pub tunnelled_connection-Contract :
      (idle : (port : ℕ) (i : I) → factory port ≡ ok i → ds.IsIdle i)
      → Contract (tunnelled_connection p q factory port_of) tunnel_stance
  unfolding tunnelled_connection is_connected
  tunnelled_connection-Contract idle = record {
    valid = λ {s} i. (c.valid i.0, rw i.1 tt);
    holds_nothing = λ {s} (i, a, b, e) rest. ground (arith, a, b, c.holds_nothing i rest);
    unconnected = λ {s} (i, a, b, e). ground (arith, a);
    again = λ {s} i w. disconnect-again s w i;
    releases = disconnect-Released;
    connects = connect-Ends idle;
  }
