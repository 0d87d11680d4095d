-- ===== src/Connection/Leaf/SshEnds.antt =====
-- connections/ssh.py: what its connect leaves open.
use mountainash_transport.Prelude.{
  ℕ, ◌≡◌, ap, ◌∙◌, inl, inr, true, false, Option, none, some, List, ◌∷◌, Result, ok, err, string_eq,
  arith, Option-cases, Result-cases,
}
use mountainash_transport.Connection.Failures.{
  value_error, transport_connection, Raised, raised, with_note,
}
use mountainash_transport.Prelude.Dict.{lookup}
use mountainash_transport.Connection.World.{World, acquire, acquire-Acquires, call}
use mountainash_transport.Connection.Protocol.{holding}
use mountainash_transport.Connection.Leaf.Http.{disconnect}
use mountainash_transport.Connection.Leaf.Ssh.{SshConfig, ssh_connection}
use mountainash_transport.Connection.Leaf.Ssh as Ssh
use mountainash_transport.Connection.Leaf.Ends.{disconnect-idle, disconnect-open, Ends}

prepare-open : (config : SshConfig) (w : World) → (Ssh.prepare config w).world.open_now ≡ w.open_now
unfolding Ssh.prepare Ssh.dial call
prepare-open config w = ground arith

cleaned_failure : Raised → Result Raised (Unit {0}) → Raised
cleaned_failure primary (ok _) = primary
cleaned_failure primary (err cleanup) = with_note primary cleanup.error

connect_new-Ends :
    (config : SshConfig) (rest : List ℕ) (w : World)
    → config.importable ≡ true
    → w.open_now ≡ rest
    → Ends config.importable rest (Ssh.connect_new config w)
unfolding Ssh.connect_new cleaned_failure
connect_new-Ends config rest w i h =
    elim (Option-cases (lookup (Ssh.policy_name config) Ssh.host_key_policies)) [
      | inl p ↦ inr (raised value_error, ground (arith, p), ground (arith, p), ground (arith, p, h))
      | inr (name, p) ↦ elim (acquire-Acquires w).ends [
        | inr (f, q, o) ↦
            inr (raised f, ground (arith, p, q), ground (arith, p, q), ground (arith, p, q, o, h))
        | inl (new, q, o) ↦
            let prepared = Ssh.prepare config (acquire w).world in
            let same = prepare-open config (acquire w).world in
            let freed =
              disconnect-open rest (some new) prepared.world (same ∙ o ∙ ap (λ l. new ∷ l) h) in
            let idle = disconnect-idle (some new) prepared.world in
            elim (Result-cases prepared.outcome) [
              | inl (u, r) ↦ inl (
                new,
                i,
                ground (arith, p, q, r),
                ground (arith, p, q, r),
                ground (arith, p, q, r, same, o, h),
              )
              | inr (x, r) ↦ inr (
                cleaned_failure x (disconnect (some new) prepared.world).result,
                ground (arith, p, q, r),
                ground (arith, p, q, r, idle),
                ground (arith, p, q, r, freed),
              )
            ]
      ]
    ]

pub ssh-Ends :
    (config : SshConfig) (rest : List ℕ) (s : Option ℕ) (w : World)
    → config.importable ≡ true
    → w.open_now ≡ holding s rest
    → Ends config.importable rest (Ssh.connect config s w)
unfolding Ssh.connect
ssh-Ends config rest none w i h = elim (connect_new-Ends config rest w i h) [
  | inl (new, a, p, q, o) ↦
      inl (new, a, ground (arith, i, p), ground (arith, i, q), ground (arith, i, o))
  | inr (x, p, q, o) ↦ inr (x, ground (arith, i, p), ground (arith, i, q), ground (arith, i, o))
]
ssh-Ends config rest (some old) w i h =
    let d = disconnect (some old) w in
    let o = disconnect-open rest (some old) w h in
    let idle = disconnect-idle (some old) w in
    elim (Result-cases d.result) [
      | inr (x, e) ↦
          inr (x, ground (arith, i, e), ground (arith, i, e, idle), ground (arith, i, e, o))
      | inl (u, e) ↦ elim (connect_new-Ends config rest d.world i o) [
        | inl (new, a, p, q, c) ↦
            inl (new, a, ground (arith, i, e, p), ground (arith, i, e, q), ground (arith, i, e, c))
        | inr (x, p, q, c) ↦
            inr (x, ground (arith, i, e, p), ground (arith, i, e, q), ground (arith, i, e, c))
      ]
    ]

pub ssh-unimportable :
    (config : SshConfig) (s : Option ℕ) (w : World)
    → config.importable ≡ false
    → Ssh.connect config s w
      ≡ record { result = err (raised transport_connection); state = s; world = w }
unfolding Ssh.connect
ssh-unimportable config s w i = ground (arith, i)
