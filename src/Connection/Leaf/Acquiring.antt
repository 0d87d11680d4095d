-- ===== src/Connection/Leaf/Acquiring.antt =====
-- connections/s3.py: what making a client does to what is open.
use mountainash_transport.Prelude.{
  ◌≡◌, refl, inl, inr, Bool, true, false, not, ◌&&◌, none, some, if◌then◌else◌, string_eq, arith,
  Option-cases,
}
use mountainash_transport.Connection.Failures.{Failure, value_error, transport_connection}
use mountainash_transport.Connection.World.{
  World, tick, Acquired, acquire, acquire-Acquires, Acquires, Called, call,
}
use mountainash_transport.Connection.Leaf.S3.{S3Config, Envelope, s3_connection, build}
use mountainash_transport.Connection.Leaf.S3 as S3

before-Acquires :
    (c : Called) (next : World → Acquired) (w : World)
    → c.world.open_now ≡ w.open_now
    → Acquires c.world (next c.world)
    → Acquires w (S3.before c next)
unfolding S3.before
before-Acquires c next w same rec = record {
  ends = elim (Option-cases c.failure) [
    | inr (f, p) ↦ inr (f, ground (arith, p), ground (arith, p, same))
    | inl p ↦ elim rec.ends [
      | inl (h, q, o) ↦ inl (h, ground (arith, p, q), ground (arith, p, o, same))
      | inr (f, q, o) ↦ inr (f, ground (arith, p, q), ground (arith, p, o, same))
    ]
  ];
}

call-before :
    {w : World} {next : World → Acquired}
    → ((v : World) → Acquires v (next v))
    → Acquires w (S3.before (call w) next)
unfolding call
call-before {w} {next} rec = before-Acquires (call w) next w refl (rec (tick w))

if-Acquires :
    {w : World} {left right : Acquired} (b : Bool)
    → Acquires w left
    → Acquires w right
    → Acquires w (if b then left else right)
if-Acquires true on_left on_right = on_left
if-Acquires false on_left on_right = on_right

refused-Acquires : (f : Failure) (w : World) → Acquires w (S3.refused f w)
refused-Acquires f w = record { ends = inr (f, refl, refl) }

build_assumed-Acquires : (e : Envelope) (w : World) → Acquires w (S3.build_assumed e w)
unfolding S3.build_assumed
build_assumed-Acquires e w =
    if-Acquires (not (w.answers w.clock)) (refused-Acquires transport_connection w) (
      call-before (λ v.
        if-Acquires (S3.is_set e.region) (call-before (λ u. call-before acquire-Acquires))
          (call-before acquire-Acquires)))

assume_role-Acquires : (e : Envelope) (w : World) → Acquires w (S3.assume_role e w)
unfolding S3.assume_role call
assume_role-Acquires e w = record {
  ends = elim (Option-cases (w.raises w.clock)) [
    | inr (f, p) ↦ inr (S3.import_failure f, ground (arith, p), ground (arith, p))
    | inl p ↦ elim (call-before {w = tick w} (build_assumed-Acquires e)).ends [
      | inl (h, q, o) ↦ inl (h, ground (arith, p, q), ground (arith, p, o))
      | inr (f, q, o) ↦ inr (f, ground (arith, p, q), ground (arith, p, o))
    ]
  ];
}

pub build-Acquires : (config : S3Config) (w : World) → Acquires w (build config w)
unfolding build S3.build_via_session
build-Acquires config w =
    elim config.envelope
      as (λ o. Acquires w (elim o [ some e ↦ S3.build_via_session e w | none ↦ acquire w ])) [
        | none ↦ acquire-Acquires w
        | some e ↦
            if-Acquires (S3.is_set e.profile_name && e.has_keys) (refused-Acquires value_error w) (
              call-before (λ v.
                if-Acquires (not (S3.is_set e.role_arn)) (acquire-Acquires v)
                  (assume_role-Acquires e v)))
      ]
