-- ===== src/Connection/Leaf/Ssh.antt =====
-- connections/ssh.py: SSHConnection. paramiko is calls of the world.
use mountainash_transport.Prelude.{
  ℕ, String, Bool, not, Option, none, some, [], ◌∷◌, Result, ok, err, if◌then◌else◌, string_eq,
}
use mountainash_transport.Prelude.Dict.{Dict, lookup}
use mountainash_transport.Connection.Failures.{
  Failure, transport_connection, connection_timeout, value_error, socket_timeout, is_exception,
  Raised, raised, with_note,
}
use mountainash_transport.Connection.World.{World, acquire, call}
use mountainash_transport.Connection.Protocol.{Done, Protocol}
use mountainash_transport.Connection.Leaf.Http.{disconnect, is_connected}

unfoldable pub host_key_policies : Dict String String
host_key_policies =
    ("reject", "RejectPolicy") ∷ ("warn", "WarningPolicy") ∷ ("auto_add", "AutoAddPolicy") ∷ []

-- The connect kwargs, as far as the connection tests them: those under `_post_connect`.
pub record SshConfig : Type 0 where
  pub importable : Bool
  pub host_key_policy : Option String
  pub has_known_hosts : Bool

abbrev pub policy_name : SshConfig → String
policy_name config = elim config.host_key_policy [ none ↦ "reject" | some name ↦ name ]

-- What `connect` raises for what `client.connect` raises.
unfoldable pub connect_failure : Failure → Failure
connect_failure socket_timeout = connection_timeout
connect_failure f = if is_exception f then transport_connection else f

-- The calls of a client up to its connection: the exception, and the world.
pub record Prepared : Type 0 where
  pub outcome : Result Raised (Unit {0})
  pub world : World

abbrev step : World → (World → Prepared) → Prepared
step w next =
    let c = call w in
    elim c.failure [
      | none ↦ next c.world
      | some f ↦ record { outcome = err (raised f); world = c.world }
    ]

unfoldable pub dial : World → Prepared
dial w =
    let c = call w in
    record {
      outcome = elim c.failure [ none ↦ ok tt | some f ↦ err (raised (connect_failure f)) ];
      world = c.world;
    }

unfoldable pub prepare : SshConfig → World → Prepared
prepare config w =
    step w (λ w₁. step w₁ (λ w₂. if config.has_known_hosts then step w₂ dial else dial w₂))

-- `connect`, once an earlier client is closed.
unfoldable pub connect_new : SshConfig → World → Done (Option ℕ)
connect_new config w = elim (lookup (policy_name config) host_key_policies) [
  | none ↦ record { result = err (raised value_error); state = none; world = w }
  | some _ ↦
      let made = acquire w in
      elim made.handle [
        | err f ↦ record { result = err (raised f); state = none; world = made.world }
        | ok h ↦
            let prepared = prepare config made.world in
            elim prepared.outcome [
              | ok _ ↦ record { result = ok tt; state = some h; world = prepared.world }
              | err primary ↦
                  let cleaned = disconnect (some h) prepared.world in
                  record cleaned {
                    result = elim cleaned.result [
                      | ok _ ↦ err primary
                      | err cleanup ↦ err (with_note primary cleanup.error)
                    ];
                  }
            ]
      ]
]

unfoldable pub connect : SshConfig → Option ℕ → World → Done (Option ℕ)
connect config s w =
    if not config.importable
    then record { result = err (raised transport_connection); state = s; world = w }
    else elim s [
      | none ↦ connect_new config w
      | some h ↦
          let freed = disconnect (some h) w in
          elim freed.result [ err x ↦ freed | ok _ ↦ connect_new config freed.world ]
    ]

unfoldable pub ssh_connection : SshConfig → Protocol (Option ℕ)
ssh_connection config = record {
  connect = connect config;
  disconnect = disconnect;
  client = λ s. s;
  is_connected = is_connected;
}
