-- ===== src/Connection/Sftp.antt =====
-- connections/sftp.py: SFTPConnection, over the SSH connection that it owns.
pub mod Owning
use mountainash_transport.Prelude.{
  ℕ, Bool, true, false, Option, none, some, Result, ok, err, if◌then◌else◌,
}
use mountainash_transport.Connection.Failures.{
  Failure, transport_connection, is_exception, Raised, raised, with_cleanup,
}
use mountainash_transport.Connection.World.{World, acquire, release}
use mountainash_transport.Connection.Protocol.{Done, Protocol}

pub record SftpState (S : Type 0) : Type 0 where
  pub ssh : S
  pub channel : Option ℕ

-- `except Exception`, where the channel is opened or closed
unfoldable pub channel_failure : Failure → Failure
channel_failure f = if is_exception f then transport_connection else f

-- What is raised for a failure and what its clean-up ended in.
unfoldable pub after_cleanup : Raised → Result Raised (Unit {0}) → Raised
after_cleanup primary (ok _) = primary
after_cleanup primary (err cleanup) = with_cleanup primary cleanup

module _ {S : Type 0} (inner : Protocol S) where
  -- `_close_channel`
  unfoldable pub close_channel : SftpState S → World → Done (SftpState S)
  close_channel s w = elim s.channel [
    | none ↦ record { result = ok tt; state = s; world = w }
    | some h ↦
        let closed = release h w in
        record {
          result = elim closed.failure [ none ↦ ok tt | some f ↦ err (raised (channel_failure f)) ];
          state = record s { channel = none };
          world = closed.world;
        }
  ]

  unfoldable pub disconnect : SftpState S → World → Done (SftpState S)
  disconnect s w =
      let closed = close_channel s w in
      let left = inner.disconnect closed.state.ssh closed.world in
      record {
        result = elim closed.result [
          | ok _ ↦ left.result
          | err primary ↦ err (after_cleanup primary left.result)
        ];
        state = record { ssh = left.state; channel = closed.state.channel };
        world = left.world;
      }

  -- `self._sftp = self._ssh.client.open_sftp()`; a client that is `None` has no such attribute.
  unfoldable pub open_channel : SftpState S → World → Done (SftpState S)
  open_channel s w = elim (inner.client s.ssh) [
    | none ↦ record { result = err (raised transport_connection); state = s; world = w }
    | some _ ↦
        let made = acquire w in
        elim made.handle [
          | ok h ↦ record {
            result = ok tt;
            state = record s { channel = some h };
            world = made.world;
          }
          | err f ↦ record {
            result = err (raised (channel_failure f));
            state = s;
            world = made.world;
          }
        ]
  ]

  -- `if not self._ssh.is_connected: self._ssh.connect()`
  unfoldable pub connect_ssh : SftpState S → World → Done (SftpState S)
  connect_ssh s w =
      if inner.is_connected s.ssh
      then record { result = ok tt; state = s; world = w }
      else let joined = inner.connect s.ssh w in
        record {
          result = joined.result;
          state = record s { ssh = joined.state };
          world = joined.world;
        }

  -- The body of the outer `try` of `connect`.
  unfoldable pub attempt : SftpState S → World → Done (SftpState S)
  attempt s w =
      let closed = close_channel s w in
      elim closed.result [
        | err x ↦ closed
        | ok _ ↦
            let joined = connect_ssh closed.state closed.world in
            elim joined.result [ err x ↦ joined | ok _ ↦ open_channel joined.state joined.world ]
      ]

  unfoldable pub connect : SftpState S → World → Done (SftpState S)
  connect s w =
      let tried = attempt s w in
      elim tried.result [
        | ok _ ↦ tried
        | err primary ↦
            let cleaned = disconnect tried.state tried.world in
            record cleaned { result = err (after_cleanup primary cleaned.result) }
      ]

  abbrev pub is_connected : SftpState S → Bool
  is_connected s = elim s.channel [ none ↦ false | some h ↦ true ]

  unfoldable pub sftp_connection : Protocol (SftpState S)
  sftp_connection = record {
    connect = connect;
    disconnect = disconnect;
    client = λ s. s.channel;
    is_connected = is_connected;
  }
