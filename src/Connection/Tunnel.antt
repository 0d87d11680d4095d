-- ===== src/Connection/Tunnel.antt =====
-- connections/tunnel.py: TunnelledConnection, over the SSH connection and the inner connection that
-- it owns. Of the forwarder this has the listener and what its two halves of a stop raise; its
-- threads are in Connection.Forwarder.
pub mod Starting
pub mod Owning
pub mod Reporting
use mountainash_transport.Prelude.{
  ℕ, Bool, true, false, Option, none, some, List, [], ◌∷◌, Result, ok, err, if◌then◌else◌,
}
use mountainash_transport.Connection.Failures.{
  Failure, transport_connection, connection_timeout, is_exception, is_os_error, is_timeout, Raised,
  raised, with_note,
}
use mountainash_transport.Connection.World.{World, acquire, call, release, tick}
use mountainash_transport.Connection.Protocol.{Done, Protocol}
use mountainash_transport.Connection.Sftp.{after_cleanup}

pub record Forwarder : Type 0 where
  pub listener : ℕ
  pub cleanup_error : Option Failure

-- `_record_cleanup_error`: the first is kept.
unfoldable pub record_cleanup_error : Option Failure → Forwarder → Forwarder
record_cleanup_error found fwd = elim fwd.cleanup_error [
  | none ↦ record fwd { cleanup_error = found }
  | some f ↦ fwd
]

pub record Stopped : Type 0 where
  pub forwarder : Forwarder
  pub world : World

-- `request_stop`, which raises nothing. What the second call raises is the first failure of the
-- closes of the accepted sockets.
unfoldable pub request_stop : Forwarder → World → Stopped
request_stop fwd w =
    let closed = release fwd.listener w in
    let sockets = call closed.world in
    record {
      forwarder = record_cleanup_error sockets.failure (record_cleanup_error closed.failure fwd);
      world = sockets.world;
    }

-- `wait_stopped`: the world answers whether a thread remains.
unfoldable pub wait_stopped : Forwarder → World → Result Raised (Unit {0})
wait_stopped fwd w =
    if w.answers w.clock
    then err (record {
      error = connection_timeout;
      notes = elim fwd.cleanup_error [ none ↦ [] | some f ↦ f ∷ [] ];
    })
    else elim fwd.cleanup_error [
      | none ↦ ok tt
      | some f ↦ err (raised (if is_exception f then transport_connection else f))
    ]

-- `primary.add_note(...)`, where the thread did not start
unfoldable pub start_failure : Failure → Option Failure → Raised
start_failure f none = raised f
start_failure f (some g) = with_note (raised f) g

pub record Started : Type 0 where
  pub outcome : Result Raised Forwarder
  pub world : World

-- `_Forwarder(client.get_transport(), ...)`
unfoldable pub start_forwarder : World → Started
start_forwarder w =
    let transport = call w in
    elim transport.failure [
      | some f ↦ record { outcome = err (raised f); world = transport.world }
      | none ↦
          let bound = acquire transport.world in
          elim bound.handle [
            | err f ↦ record { outcome = err (raised f); world = bound.world }
            | ok h ↦
                let started = call bound.world in
                let fwd : Forwarder = record { listener = h; cleanup_error = none } in
                elim started.failure [
                  | none ↦ record { outcome = ok fwd; world = started.world }
                  | some f ↦
                      let stopped = request_stop fwd started.world in
                      record {
                        outcome = err (start_failure f stopped.forwarder.cleanup_error);
                        world = stopped.world;
                      }
                ]
          ]
    ]

-- `except OSError` around it
unfoldable pub bind_failure : Raised → Raised
bind_failure x = if is_os_error x.error then raised transport_connection else x

-- The error of a teardown so far, and that of one more action.
unfoldable pub combine : Option Raised → Result Raised (Unit {0}) → Option Raised
combine error (ok _) = error
combine none (err x) = some x
combine (some e) (err x) =
    some (if is_timeout x.error then with_note x e.error else with_note e x.error)

pub record TunnelState (S I : Type 0) : Type 0 where
  pub ssh : S
  pub inner : Option I
  pub forwarder : Option Forwarder
  pub local_port : Option ℕ

-- Where a teardown stands: the forwarder that it took from the state, the error so far.
pub record Teardown (S : Type 0) : Type 0 where
  pub ssh : S
  pub forwarder : Option Forwarder
  pub error : Option Raised
  pub world : World

-- The connections that it owns, the factory of the inner one, and the port of a listener.
module _ {S I : Type 0} (ssh : Protocol S) (inner : Protocol I)
    (inner_factory : ℕ → Result Failure I) (port_of : ℕ → ℕ) where
  -- The actions of `_teardown`, each where it applies.
  unfoldable pub disconnect_inner : Option I → Teardown S → Teardown S
  disconnect_inner none t = t
  disconnect_inner (some i) t =
      let d = inner.disconnect i t.world in
      record t { error = combine t.error d.result; world = d.world }

  unfoldable pub stop_forwarder : Teardown S → Teardown S
  stop_forwarder t = elim t.forwarder [
    | none ↦ t
    | some fwd ↦
        let stopped = request_stop fwd t.world in
        record t { forwarder = some stopped.forwarder; world = stopped.world }
  ]

  unfoldable pub disconnect_ssh : Bool → Teardown S → Teardown S
  disconnect_ssh false t = t
  disconnect_ssh true t =
      let d = ssh.disconnect t.ssh t.world in
      record t { ssh = d.state; error = combine t.error d.result; world = d.world }

  unfoldable pub wait_forwarder : Teardown S → Teardown S
  wait_forwarder t = elim t.forwarder [
    | none ↦ t
    | some fwd ↦ record t {
      error = combine t.error (wait_stopped fwd t.world);
      world = tick t.world;
    }
  ]

  unfoldable pub run_actions : Bool → TunnelState S I → World → Teardown S
  run_actions close_ssh s w = wait_forwarder (
      disconnect_ssh close_ssh (
        stop_forwarder (
          disconnect_inner s.inner
            (record { ssh = s.ssh; forwarder = s.forwarder; error = none; world = w }))))

  -- `_teardown`
  unfoldable pub teardown : Bool → TunnelState S I → World → Done (TunnelState S I)
  teardown close_ssh s w =
      let t = run_actions close_ssh s w in
      record {
        result = elim t.error [ none ↦ ok tt | some x ↦ err x ];
        state = record { ssh = t.ssh; inner = none; forwarder = none; local_port = none };
        world = t.world;
      }

  unfoldable pub disconnect : TunnelState S I → World → Done (TunnelState S I)
  disconnect = teardown true

  -- `if not self._ssh.is_connected: self._ssh.connect()`
  unfoldable pub connect_ssh : TunnelState S I → World → Done (TunnelState S I)
  connect_ssh s w =
      if ssh.is_connected s.ssh
      then record { result = ok tt; state = s; world = w }
      else let joined = ssh.connect s.ssh w in
        record {
          result = joined.result;
          state = record s { ssh = joined.state };
          world = joined.world;
        }

  -- The forwarder, given the client that is there or not.
  unfoldable pub open_forwarder : TunnelState S I → World → Done (TunnelState S I)
  open_forwarder s w = elim (ssh.client s.ssh) [
    | none ↦ record { result = err (raised transport_connection); state = s; world = w }
    | some _ ↦
        let started = start_forwarder w in
        elim started.outcome [
          | err x ↦ record { result = err (bind_failure x); state = s; world = started.world }
          | ok fwd ↦ record {
            result = ok tt;
            state = record s { forwarder = some fwd; local_port = some (port_of fwd.listener) };
            world = started.world;
          }
        ]
  ]

  -- The inner connection, made for the local port and connected.
  unfoldable pub connect_inner : TunnelState S I → World → Done (TunnelState S I)
  connect_inner s w = elim (inner_factory (elim s.local_port [ none ↦ 0 | some port ↦ port ])) [
    | err f ↦ record { result = err (raised f); state = s; world = w }
    | ok i ↦
        let joined = inner.connect i w in
        record {
          result = joined.result;
          state = record s { inner = some joined.state };
          world = joined.world;
        }
  ]

  abbrev and_then :
      Done (TunnelState S I)
      → (TunnelState S I → World → Done (TunnelState S I))
      → Done (TunnelState S I)
  and_then d next = elim d.result [ ok _ ↦ next d.state d.world | err x ↦ d ]

  -- The body of the outer `try` of `connect`.
  unfoldable pub attempt : TunnelState S I → World → Done (TunnelState S I)
  attempt s w =
      and_then (and_then (and_then (teardown false s w) connect_ssh) open_forwarder) connect_inner

  unfoldable pub connect : TunnelState S I → World → Done (TunnelState S I)
  connect s w =
      let tried = attempt s w in
      elim tried.result [
        | ok _ ↦ tried
        | err primary ↦
            let cleaned = disconnect tried.state tried.world in
            record cleaned { result = err (after_cleanup primary cleaned.result) }
      ]

  unfoldable pub is_connected : TunnelState S I → Bool
  is_connected s = elim s.inner [ none ↦ false | some i ↦ inner.is_connected i ]

  unfoldable pub client : TunnelState S I → Option ℕ
  client s = elim s.inner [ none ↦ none | some i ↦ inner.client i ]

  unfoldable pub tunnelled_connection : Protocol (TunnelState S I)
  tunnelled_connection = record {
    connect = connect;
    disconnect = disconnect;
    client = client;
    is_connected = is_connected;
  }
