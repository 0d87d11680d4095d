-- ===== src/Connection/Leaf/Contracts.antt =====
-- connections/http.py, s3.py, ssh.py: the connections as owners of their native client.
use mountainash_transport.Prelude.{
  ℕ, ◌≡◌, sym, ap, ◌∙◌, ◌⊎◌, inl, inr, Bool, true, Option, none, List, string_eq, arith, Bool-cases,
}
use mountainash_transport.Connection.Failures.{transport_connection, raised}
use mountainash_transport.Connection.World.{World, acquire, acquire-Acquires}
use mountainash_transport.Connection.Protocol.{Done, holding, Contract}
use mountainash_transport.Connection.Leaf.Http.{
  reconnect, disconnect, is_connected, http_connection,
}
use mountainash_transport.Connection.Leaf.Http as Http
use mountainash_transport.Connection.Leaf.S3.{S3Config, Envelope, s3_connection, build}
use mountainash_transport.Connection.Leaf.S3 as S3
use mountainash_transport.Connection.Leaf.Ssh.{SshConfig, ssh_connection}
use mountainash_transport.Connection.Leaf.Ssh as Ssh
use mountainash_transport.Connection.Leaf.Ends.{
  leaf_stance, disconnect-idle, disconnect-open, Ends, reconnect-Ends,
}
use mountainash_transport.Connection.Leaf.Acquiring.{build-Acquires}
use mountainash_transport.Connection.Leaf.SshEnds.{ssh-Ends, ssh-unimportable}

leaf-Contract :
    (connect : Option ℕ → World → Done (Option ℕ)) (importable : Bool)
    → ((rest : List ℕ) (s : Option ℕ) (w : World)
        → (importable ≡ true) ⊎ (s ≡ none)
        → w.open_now ≡ holding s rest
        → Ends importable rest (connect s w))
    → Contract
        (record {
          connect = connect;
          disconnect = disconnect;
          client = λ s. s;
          is_connected = is_connected;
        })
        (leaf_stance importable)
unfolding disconnect
leaf-Contract connect importable ends = record {
  valid = inr;
  holds_nothing = λ i rest. ap (λ s. holding s rest) i;
  unconnected = λ i. ap is_connected i;
  again = λ {s} i w. ground (arith, i);
  releases =
      λ rest s w v h. record { idle = disconnect-idle s w; freed = disconnect-open rest s w h };
  connects = λ rest s w v h. elim (ends rest s w v h) [
    | inl (new, a, p, q, o) ↦ inl (record {
      returned = p;
      valid = inl a;
      connected = ap is_connected q;
      holds = o ∙ ap (λ s. holding s rest) (sym q);
    })
    | inr (x, p, q, o) ↦ inr (record { failure = x; raises = p; idle = q; freed = o })
  ];
}

pub http_connection-Contract : Contract http_connection (leaf_stance true)
unfolding http_connection Http.connect
http_connection-Contract =
    leaf-Contract Http.connect true
      (λ rest s w v h. reconnect-Ends acquire Http.connect_failure acquire-Acquires rest s w h)

pub s3_connection-Contract :
    (config : S3Config) → Contract (s3_connection config) (leaf_stance config.importable)
unfolding s3_connection S3.connect
s3_connection-Contract config = leaf-Contract (S3.connect config) config.importable (λ rest s w v h.
    elim (Bool-cases config.importable) [
      | inl p ↦
          elim (reconnect-Ends (build config) S3.connect_failure (build-Acquires config) rest s w
            h) [
              | inl (new, a, b, c, d) ↦
                  inl (new, p, ground (arith, p, b), ground (arith, p, c), ground (arith, p, d))
              | inr (x, b, c, d) ↦
                  inr (x, ground (arith, p, b), ground (arith, p, c), ground (arith, p, d))
            ]
      | inr p ↦ elim v [
        | inl q ↦ absurd (ground (arith, p, q))
        | inr q ↦ inr (
          raised transport_connection,
          ground (arith, p),
          ground (arith, p, q),
          ground (arith, p, q, h),
        )
      ]
    ])

pub ssh_connection-Contract :
    (config : SshConfig) → Contract (ssh_connection config) (leaf_stance config.importable)
unfolding ssh_connection
ssh_connection-Contract config =
    leaf-Contract (Ssh.connect config) config.importable (λ rest s w v h.
      elim (Bool-cases config.importable) [
        | inl p ↦ ssh-Ends config rest s w p h
        | inr p ↦ elim v [
          | inl q ↦ absurd (ground (arith, p, q))
          | inr q ↦
              let same = ssh-unimportable config s w p in
              inr (
                raised transport_connection,
                ap (λ d. d.result) same,
                ap (λ d. d.state) same ∙ q,
                ap (λ d. d.world.open_now) same ∙ ground (arith, q, h),
              )
        ]
      ])
