-- ===== src/Connection/Lifecycle/Stacks.antt =====
-- connections/: the connections that the factories build, over any sequence of operations.
use mountainash_transport.Prelude.{
  subst, ℕ, ◌≡◌, refl, true, false, Option, none, some, List, ok, err,
}
use mountainash_transport.Connection.World.{World}
use mountainash_transport.Connection.Protocol.{Protocol, holding}
use mountainash_transport.Connection.Leaf.{
  S3Config, SshConfig, http_connection, s3_connection, ssh_connection, http_connection-Contract,
  s3_connection-Contract, ssh_connection-Contract, leaf_stance,
}
use mountainash_transport.Connection.Sftp.{SftpState, sftp_connection}
use mountainash_transport.Connection.Sftp.Owning.{sftp_connection-Contract}
use mountainash_transport.Connection.Tunnel.{TunnelState, tunnelled_connection}
use mountainash_transport.Connection.Tunnel.Owning.{tunnelled_connection-Contract}
use mountainash_transport.Connection.Tunnel.Starting.{listening}
use mountainash_transport.Connection.Lifecycle.{Op, run, spec_run, Refines, run-Refines}

-- The connections with a client of their own.
pub data Leaf : Type 0 where
  http : Leaf
  s3 : S3Config → Leaf
  ssh : SshConfig → Leaf

unfoldable pub leaf : Leaf → Protocol (Option ℕ)
leaf http = http_connection
leaf (s3 config) = s3_connection config
leaf (ssh config) = ssh_connection config

abbrev pub new_sftp : SftpState (Option ℕ)
new_sftp = record { ssh = none; channel = none }

-- A file system of a remote host, through a bastion.
unfoldable pub tunnelled_sftp :
    SshConfig → SshConfig → (ℕ → ℕ) → Protocol (TunnelState (Option ℕ) (SftpState (Option ℕ)))
tunnelled_sftp bastion target port_of =
    tunnelled_connection (ssh_connection bastion) (sftp_connection (ssh_connection target))
      (λ port. ok new_sftp) port_of

abbrev pub new_tunnel : TunnelState (Option ℕ) (SftpState (Option ℕ))
new_tunnel = record { ssh = none; inner = none; forwarder = none; local_port = none }

abbrev pub sftp_held : SftpState (Option ℕ) → List ℕ → List ℕ
sftp_held s rest = holding s.channel (holding s.ssh rest)

abbrev inner_held : Option (SftpState (Option ℕ)) → List ℕ → List ℕ
inner_held none rest = rest
inner_held (some i) rest = sftp_held i rest

abbrev pub tunnel_held : TunnelState (Option ℕ) (SftpState (Option ℕ)) → List ℕ → List ℕ
tunnel_held s rest = inner_held s.inner (listening s.forwarder (holding s.ssh rest))

-- However a new HTTP, S3 or SSH connection is used, and whatever the native calls raise, it is
-- connected exactly when its last operation was a connect that returned; while it is connected, its
-- client is all that is open beyond what was open before, and else nothing is.
pub leaf-Refines :
    (kind : Leaf) (ops : List Op) (w : World)
    → let t = run (leaf kind) ops none w in
      Refines (leaf kind) holding w.open_now (spec_run false t.events) t.state t.world
unfolding leaf
leaf-Refines http ops w =
    run-Refines http_connection (leaf_stance true) http_connection-Contract w.open_now ops none w
      refl refl
leaf-Refines (s3 config) ops w =
    run-Refines (s3_connection config) (leaf_stance config.importable)
      (s3_connection-Contract config) w.open_now ops none w refl refl
leaf-Refines (ssh config) ops w =
    run-Refines (ssh_connection config) (leaf_stance config.importable)
      (ssh_connection-Contract config) w.open_now ops none w refl refl

-- However a new SFTP connection over its own new SSH connection is used, and whatever the native
-- calls raise, it is connected exactly when its last operation was a connect that returned; while it
-- is connected, its channel and its SSH client are all that is open beyond what was open before, and
-- else nothing is.
pub sftp-Refines :
    (config : SshConfig) (ops : List Op) (w : World)
    → let p = sftp_connection (ssh_connection config) in
      let t = run p ops new_sftp w in
      Refines p sftp_held w.open_now (spec_run false t.events) t.state t.world
sftp-Refines config ops w =
    run-Refines (sftp_connection (ssh_connection config)) _
      (sftp_connection-Contract _ _ (ssh_connection-Contract config)) w.open_now ops new_sftp w
      (refl, refl) refl

-- However a new tunnel to a remote file system is used, and whatever the native calls raise, it is
-- connected exactly when its last operation was a connect that returned; while it is connected, the
-- channel and the SSH client of its inner connection, the listener, if it has not closed, and the SSH
-- client of the bastion are all that is open beyond what was open before, and else nothing is.
pub tunnel-Refines :
    (bastion target : SshConfig) (port_of : ℕ → ℕ) (ops : List Op) (w : World)
    → let p = tunnelled_sftp bastion target port_of in
      let t = run p ops new_tunnel w in
      Refines p tunnel_held w.open_now (spec_run false t.events) t.state t.world
unfolding tunnelled_sftp
tunnel-Refines bastion target port_of ops w =
    run-Refines (tunnelled_sftp bastion target port_of) _
      (tunnelled_connection-Contract (ssh_connection bastion)
        (sftp_connection (ssh_connection target)) (λ port. ok new_sftp) port_of _ _
        (ssh_connection-Contract bastion)
        (sftp_connection-Contract _ _ (ssh_connection-Contract target))
        (λ port i made.
          subst
            (λ r. elim r as (λ x. Type 0) [
              | ok s ↦ (s.ssh ≡ none) × (s.channel ≡ none)
              | err f ↦ Unit
            ])
            made (refl, refl)))
      w.open_now ops new_tunnel w (refl, refl, refl, refl) refl
