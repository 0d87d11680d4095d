-- ===== src/Connection/Sftp/Owning.antt =====
-- connections/sftp.py: what an SFTP connection owns, over what its SSH connection owns.
use mountainash_transport.Prelude.{
  ℕ, ◌≡◌, sym, ap, ◌∙◌, ◌⊎◌, inl, inr, true, none, List, ok, err, subst, arith, Bool-cases,
  Option-cases, Result-cases,
}
use mountainash_transport.Connection.Failures.{transport_connection, Raised, raised}
use mountainash_transport.Connection.World.{World, acquire-Acquires, release, remove-head}
use mountainash_transport.Connection.Protocol.{
  Done, Protocol, Stance, holding, Connected, Failed, Released, Contract,
}
use mountainash_transport.Connection.Sftp.{
  SftpState, after_cleanup, channel_failure, close_channel, disconnect, open_channel, connect_ssh,
  attempt, connect, is_connected, sftp_connection,
}

module _ {S : Type 0} (p : Protocol S) (i : Stance S) (c : Contract p i) where
  abbrev held : SftpState S → List ℕ → List ℕ
  held s rest = holding s.channel (i.held s.ssh rest)

  abbrev pub sftp_stance : Stance (SftpState S)
  sftp_stance = record {
    held = held;
    IsValid = λ s. i.IsValid s.ssh;
    IsIdle = λ s. i.IsIdle s.ssh × (s.channel ≡ none);
  }

  close_channel-none : (s : SftpState S) (w : World) → (close_channel p s w).state.channel ≡ none
  unfolding close_channel
  close_channel-none s w = elim (Option-cases s.channel) [
    | inl q ↦ ground (arith, q)
    | inr (h, q) ↦ ground (arith, q)
  ]

  close_channel-ssh : (s : SftpState S) (w : World) → (close_channel p s w).state.ssh ≡ s.ssh
  unfolding close_channel
  close_channel-ssh s w = elim (Option-cases s.channel) [
    | inl q ↦ ground (arith, q)
    | inr (h, q) ↦ ground (arith, q)
  ]

  close_channel-open :
      (rest : List ℕ) (s : SftpState S) (w : World)
      → w.open_now ≡ held s rest
      → (close_channel p s w).world.open_now ≡ i.held s.ssh rest
  unfolding close_channel release
  close_channel-open rest s w o = elim (Option-cases s.channel) [
    | inl q ↦ ground (arith, q, o)
    | inr (h, q) ↦ ground (arith, q, o, remove-head h (i.held s.ssh rest))
  ]

  pub disconnect-Released :
      (rest : List ℕ) (s : SftpState S) (w : World)
      → i.IsValid s.ssh
      → w.open_now ≡ held s rest
      → Released (sftp_connection p) sftp_stance rest (disconnect p s w)
  unfolding disconnect
  disconnect-Released rest s w v o =
      let closed = close_channel p s w in
      let same = close_channel-ssh s w in
      let done =
        c.releases rest closed.state.ssh closed.world (rw same v)
          (close_channel-open rest s w o ∙ ap (λ t. i.held t rest) (sym same)) in
      record { idle = (done.idle, close_channel-none s w); freed = done.freed }

  -- What one step of `attempt` leaves.
  record Steps (rest : List ℕ) (d : Done (SftpState S)) : Type 0 where
    pub valid : i.IsValid d.state.ssh
    pub holds : d.world.open_now ≡ held d.state rest

  connect_ssh-Steps :
      (rest : List ℕ) (s : SftpState S) (w : World)
      → i.IsValid s.ssh
      → s.channel ≡ none
      → w.open_now ≡ i.held s.ssh rest
      → Steps rest (connect_ssh p s w) × ((connect_ssh p s w).state.channel ≡ none)
  unfolding connect_ssh
  connect_ssh-Steps rest s w v n o = elim (Bool-cases (p.is_connected s.ssh)) [
    | inl q ↦ (
      record { valid = ground (arith, q, v); holds = ground (arith, q, n, o) },
      ground (arith, q, n),
    )
    | inr q ↦ elim (c.connects rest s.ssh w v o) [
      | inl done ↦ (
        record { valid = ground (arith, q, done.valid); holds = ground (arith, q, n, done.holds) },
        ground (arith, q, n),
      )
      | inr done ↦ (
        record {
          valid = ground (arith, q, c.valid done.idle);
          holds = ground (arith, q, n, done.freed, c.holds_nothing done.idle rest);
        },
        ground (arith, q, n),
      )
    ]
  ]

  abbrev Opens : Done (SftpState S) → Type 0
  Opens d =
      ((d.result ≡ ok tt) × (is_connected p d.state ≡ true)) ⊎ ((x : Raised) × (d.result ≡ err x))

  open_channel-Steps :
      (rest : List ℕ) (s : SftpState S) (w : World)
      → i.IsValid s.ssh
      → s.channel ≡ none
      → w.open_now ≡ i.held s.ssh rest
      → Steps rest (open_channel p s w) × Opens (open_channel p s w)
  unfolding open_channel
  open_channel-Steps rest s w v n o = elim (Option-cases (p.client s.ssh)) [
    | inl q ↦ (
      record { valid = ground (arith, q, v); holds = ground (arith, q, n, o) },
      inr (raised transport_connection, ground (arith, q)),
    )
    | inr (client, q) ↦ elim (acquire-Acquires w).ends [
      | inl (new, a, b) ↦ (
        record { valid = ground (arith, q, a, v); holds = ground (arith, q, a, b, o) },
        inl (ground (arith, q, a), ground (arith, q, a)),
      )
      | inr (f, a, b) ↦ (
        record { valid = ground (arith, q, a, v); holds = ground (arith, q, a, b, n, o) },
        inr (raised (channel_failure f), ground (arith, q, a)),
      )
    ]
  ]

  attempt-Steps :
      (rest : List ℕ) (s : SftpState S) (w : World)
      → i.IsValid s.ssh
      → w.open_now ≡ held s rest
      → Steps rest (attempt p s w) × Opens (attempt p s w)
  unfolding attempt
  attempt-Steps rest s w v o =
      let closed = close_channel p s w in
      let empty = close_channel-none s w in
      let same = close_channel-ssh s w in
      let valid = subst (λ t. i.IsValid t) (sym same) v in
      let held = close_channel-open rest s w o ∙ ap (λ t. i.held t rest) (sym same) in
      elim (Result-cases closed.result) [
        | inr (x, e) ↦ (
          record { valid = ground (arith, e, valid); holds = ground (arith, e, held, empty) },
          inr (x, ground (arith, e)),
        )
        | inl (u, e) ↦
            let joined = connect_ssh p closed.state closed.world in
            let (step, alone) = connect_ssh-Steps rest closed.state closed.world valid empty held in
            elim (Result-cases joined.result) [
              | inr (x, r) ↦ (
                record {
                  valid = ground (arith, e, r, step.valid);
                  holds = ground (arith, e, r, step.holds);
                },
                inr (x, ground (arith, e, r)),
              )
              | inl (u', r) ↦
                  let (last, opens) =
                    open_channel-Steps rest joined.state joined.world step.valid alone
                      (step.holds ∙ ground (arith, alone)) in
                  (
                    record {
                      valid = ground (arith, e, r, last.valid);
                      holds = ground (arith, e, r, last.holds);
                    },
                    elim opens [
                      | inl (a, b) ↦ inl (ground (arith, e, r, a), ground (arith, e, r, b))
                      | inr (x, a) ↦ inr (x, ground (arith, e, r, a))
                    ],
                  )
            ]
      ]

  pub connect-Ends :
      (rest : List ℕ) (s : SftpState S) (w : World)
      → i.IsValid s.ssh
      → w.open_now ≡ held s rest
      → Connected (sftp_connection p) sftp_stance rest (connect p s w)
        ⊎ Failed (sftp_connection p) sftp_stance rest (connect p s w)
  unfolding connect sftp_connection
  connect-Ends rest s w v o =
      let tried = attempt p s w in
      let (step, opens) = attempt-Steps rest s w v o in
      elim opens [
        | inl (a, b) ↦ inl (record {
          returned = ground (arith, a);
          valid = ground (arith, a, step.valid);
          connected = ground (arith, a, b);
          holds = ground (arith, a, step.holds);
        })
        | inr (x, a) ↦
            let done = disconnect-Released rest tried.state tried.world step.valid step.holds in
            inr (record {
              failure = after_cleanup x (disconnect p tried.state tried.world).result;
              raises = ground (arith, a);
              idle = (ground (arith, a, done.idle), ground (arith, a, done.idle));
              freed = ground (arith, a, done.freed);
            })
      ]

  disconnect-again :
      (s : SftpState S) (w : World)
      → i.IsIdle s.ssh × (s.channel ≡ none)
      → disconnect p s w ≡ record { result = ok tt; state = s; world = w }
  unfolding disconnect close_channel
  disconnect-again s w (e, n) = ground (arith, n, c.again e w)

  pub sftp_connection-Contract : Contract (sftp_connection p) sftp_stance
  unfolding sftp_connection
  sftp_connection-Contract = record {
    valid = λ {s} e. c.valid e.0;
    holds_nothing = λ {s} e rest. ground (arith, e.1, c.holds_nothing e.0 rest);
    unconnected = λ {s} e. ground (arith, e.1);
    again = λ {s} e w. disconnect-again s w e;
    releases = λ rest s w v o. disconnect-Released rest s w v o;
    connects = λ rest s w v o. connect-Ends rest s w v o;
  }
