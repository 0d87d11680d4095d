-- ===== src/Connection/Leaf/Http.antt =====
-- connections/http.py: HTTPConnection. The disconnect is that of S3Connection and SSHConnection too.
use mountainash_transport.Prelude.{ℕ, Bool, true, false, Option, none, some, ok, err, if◌then◌else◌}
use mountainash_transport.Connection.Failures.{
  Failure, transport_connection, connection_timeout, httpx_timeout, interrupt, is_exception, raised,
}
use mountainash_transport.Connection.World.{World, Acquired, acquire, release}
use mountainash_transport.Connection.Protocol.{Done, Protocol}

-- `except Exception`, where a client is closed
unfoldable pub close_failure : Failure → Failure
close_failure f = if is_exception f then transport_connection else f

unfoldable pub disconnect : Option ℕ → World → Done (Option ℕ)
disconnect none w = record { result = ok tt; state = none; world = w }
disconnect (some h) w =
    let closed = release h w in
    record {
      result = elim closed.failure [ none ↦ ok tt | some f ↦ err (raised (close_failure f)) ];
      state = none;
      world = closed.world;
    }

abbrev pub is_connected : Option ℕ → Bool
is_connected none = false
is_connected (some h) = true

-- What `connect` raises for what `httpx.Client` raises.
unfoldable pub connect_failure : Failure → Failure
connect_failure httpx_timeout = connection_timeout
connect_failure interrupt = interrupt
connect_failure _ = transport_connection

-- A new client for the old one, given how it is made and what is raised for the exception of that.
unfoldable pub reconnect :
    (World → Acquired) → (Failure → Failure) → Option ℕ → World → Done (Option ℕ)
reconnect make failure s w =
    let before = disconnect s w in
    elim before.result [
      | err x ↦ before
      | ok _ ↦
          let made = make before.world in
          elim made.handle [
            | ok h ↦ record { result = ok tt; state = some h; world = made.world }
            | err f ↦ record {
              result = err (raised (failure f));
              state = before.state;
              world = made.world;
            }
          ]
    ]

unfoldable pub connect : Option ℕ → World → Done (Option ℕ)
connect = reconnect acquire connect_failure

unfoldable pub http_connection : Protocol (Option ℕ)
http_connection = record {
  connect = connect;
  disconnect = disconnect;
  client = λ s. s;
  is_connected = is_connected;
}
