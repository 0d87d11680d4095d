-- ===== src/Connection/Tunnel/Starting.antt =====
-- connections/tunnel.py: what starting a forwarder leaves open.
use mountainash_transport.Prelude.{
  ℕ, ◌≡◌, ◌⊎◌, inl, inr, Option, none, some, List, ◌∷◌, ok, err, arith, Option-cases,
}
use mountainash_transport.Connection.Failures.{Raised, raised}
use mountainash_transport.Connection.World.{
  World, acquire, acquire-Acquires, call, tick, release, remove-head,
}
use mountainash_transport.Connection.Tunnel.{
  Forwarder, Started, request_stop, start_failure, start_forwarder,
}

abbrev pub listening : Option Forwarder → List ℕ → List ℕ
listening none rest = rest
listening (some fwd) rest = fwd.listener ∷ rest

-- What starting a forwarder may do to the ledger.
abbrev pub Starts : World → Started → Type 0
Starts w e =
    ((fwd : Forwarder) × (e.outcome ≡ ok fwd) × (e.world.open_now ≡ fwd.listener ∷ w.open_now))
    ⊎ ((x : Raised) × (e.outcome ≡ err x) × (e.world.open_now ≡ w.open_now))

pub start_forwarder-Starts : (w : World) → Starts w (start_forwarder w)
unfolding start_forwarder request_stop call release
start_forwarder-Starts w = elim (Option-cases (w.raises w.clock)) [
  | inr (f, a) ↦ inr (raised f, ground (arith, a), ground (arith, a))
  | inl a ↦
      let v = tick w in
      elim (acquire-Acquires v).ends [
        | inr (f, b, o) ↦ inr (raised f, ground (arith, a, b), ground (arith, a, b, o))
        | inl (h, b, o) ↦
            let u = (acquire v).world in
            elim (Option-cases (u.raises u.clock)) [
              | inl e ↦ inl (
                record { listener = h; cleanup_error = none },
                ground (arith, a, b, e),
                ground (arith, a, b, e, o),
              )
              | inr (f, e) ↦
                  let fwd : Forwarder = record { listener = h; cleanup_error = none } in
                  inr (
                    start_failure f (request_stop fwd (tick u)).forwarder.cleanup_error,
                    ground (arith, a, b, e),
                    ground (arith, a, b, e, o, remove-head h w.open_now),
                  )
            ]
      ]
]
