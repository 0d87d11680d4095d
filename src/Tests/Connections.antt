-- ===== src/Tests/Connections.antt =====
-- Examples of connections/.
use mountainash_transport.Prelude.{
  ℕ, ◌≡◌, refl, true, false, Option, none, some, String, List, [], ◌∷◌, Result, ok, if◌then◌else◌,
  arith, ◌==◌, ◌≤◌, ◌<◌, ◌+◌, string_eq, ◌⊎◌,
}
use mountainash_transport.Prelude.Dict.{lookup, insert}
use mountainash_transport.Connection.Failures.{Failure, os_error}
use mountainash_transport.Connection.World.{World, acquire, call, release, remove}
use mountainash_transport.Connection.Leaf.{SshConfig, http_connection, ssh_connection}
use mountainash_transport.Connection.Leaf.Http as Http
use mountainash_transport.Connection.Leaf.Ssh as Ssh
use mountainash_transport.Connection.Sftp.{sftp_connection}
use mountainash_transport.Connection.Sftp as Sftp
use mountainash_transport.Connection.Tunnel.{TunnelState, disconnect, tunnelled_connection}
use mountainash_transport.Connection.Tunnel as Tunnel
use mountainash_transport.Connection.Tunnel.Reporting.{
  after_inner, after_stop, after_ssh, inner_result, Undisturbed, disconnect-Silent,
}
use mountainash_transport.Connection.Lifecycle.{
  Op, op_connect, op_disconnect, run, perform, spec_run, Refines,
}
use mountainash_transport.Connection.Lifecycle.Stacks.{
  new_sftp, new_tunnel, sftp_held, tunnel_held, tunnelled_sftp, sftp-Refines, tunnel-Refines,
}
use mountainash_transport.Connection.Factory.{
  Profile, AuthProfile, create_connection, inner_factory, check_auth, make, replace_value, patched,
  layer, session, provider_type_from_profile, family_for_provider, provider_family_map, value,
  Emitted, flat, envelope, emit_kwargs, text, number, Kwargs, sftp_over_ssh, member, boto,
  patch_endpoint,
}
use mountainash_transport.Location.Schemes.{sftp, s3}
use mountainash_transport.Connection.Factory.Patched.{
  emitted_of, patched_value, Emits, inner_factory-Local,
}
use mountainash_transport.Connection.Forwarder.{
  System, update, Steps, Reach, begin, later, accept, register, start, set_stop, close_server,
  close_next, return_stop, returned, accepted, refusing, ended,
}
use mountainash_transport.Connection.Forwarder.Stopping.{returned-Closed, returned-Ends}

abbrev ssh_config : SshConfig
ssh_config = record { importable = true; host_key_policy = none; has_known_hosts = false }

-- A world in which the native call at one time raises, where there is one.
abbrev world_of : Option (ℕ × Failure) → World
world_of failing = record {
  clock = 0;
  raises = λ n. elim failing [ none ↦ none | some (time, f) ↦ if n == time then some f else none ];
  answers = λ n. false;
  open_now = 99 ∷ [];
}

-- A connect whose channel fails to open, a connect, and a disconnect.
abbrev sftp_ops : List Op
sftp_ops = op_connect ∷ op_connect ∷ op_disconnect ∷ []

-- The world of a channel that fails to open: the client is made, prepared and connected before.
abbrev failing_channel : World
failing_channel = world_of (some (4, os_error))

sftp_trace :
    let t = run (sftp_connection (ssh_connection ssh_config)) sftp_ops new_sftp failing_channel in
    (t.events
      ≡ record { op = op_connect; returned = false }
        ∷ record { op = op_connect; returned = true }
        ∷ record { op = op_disconnect; returned = true }
        ∷ [])
    × (t.world.open_now ≡ 99 ∷ [])
unfolding run perform sftp_connection Sftp.connect Sftp.attempt Sftp.close_channel Sftp.connect_ssh
    Sftp.open_channel Sftp.disconnect Sftp.after_cleanup ssh_connection Ssh.connect Ssh.connect_new
    Ssh.prepare Ssh.dial Ssh.host_key_policies lookup Http.disconnect acquire call release remove
sftp_trace = (refl, refl)

sftp-Refines_example :
    let p = sftp_connection (ssh_connection ssh_config) in
    let t = run p sftp_ops new_sftp failing_channel in
    Refines p sftp_held (99 ∷ []) (spec_run false t.events) t.state t.world
sftp-Refines_example = sftp-Refines ssh_config sftp_ops failing_channel

-- The bastion's client is made, and the listener cannot be bound; then it can.
abbrev failing_listener : World
failing_listener = world_of (some (5, os_error))

tunnel-Refines_example :
    let p = tunnelled_sftp ssh_config ssh_config (λ h. 40000 + h) in
    let t = run p sftp_ops new_tunnel failing_listener in
    Refines p tunnel_held (99 ∷ []) (spec_run false t.events) t.state t.world
tunnel-Refines_example =
    tunnel-Refines ssh_config ssh_config (λ h. 40000 + h) sftp_ops failing_listener

-- A tunnel to an HTTP server that is connected.
abbrev http_tunnel : TunnelState (Option ℕ) (Option ℕ)
http_tunnel = record {
  ssh = some 1;
  inner = some (some 3);
  forwarder = some (record { listener = 2; cleanup_error = none });
  local_port = some 40000;
}

abbrev quiet : World
quiet = world_of none

http_tunnel_disconnects :
    (disconnect
      (ssh_connection ssh_config)
      http_connection
      (λ port. ok none)
      (λ h. h)
      http_tunnel
      quiet).result
    ≡ ok tt
unfolding disconnect Tunnel.teardown Tunnel.run_actions Tunnel.disconnect_inner
    Tunnel.stop_forwarder Tunnel.disconnect_ssh Tunnel.wait_forwarder Tunnel.combine
    Tunnel.request_stop Tunnel.record_cleanup_error Tunnel.wait_stopped http_connection
    ssh_connection Http.disconnect call release remove
http_tunnel_disconnects = refl

disconnect-Silent_example :
    let factory : ℕ → Result Failure (Option ℕ) = λ port. ok none in
    let port : ℕ → ℕ = λ h. h in
    let stopped =
      after_stop (ssh_connection ssh_config) http_connection factory port http_tunnel quiet in
    (inner_result (ssh_connection ssh_config) http_connection factory port (some (some 3)) quiet
      ≡ ok tt)
    × (((ssh_connection ssh_config).disconnect stopped.ssh stopped.world).result ≡ ok tt)
    × Undisturbed
        (ssh_connection ssh_config)
        http_connection
        factory
        port
        http_tunnel.forwarder
        (after_inner
          (ssh_connection ssh_config)
          http_connection
          factory
          port
          http_tunnel
          quiet).world
        (after_ssh (ssh_connection ssh_config) http_connection factory port http_tunnel quiet).world
disconnect-Silent_example =
    disconnect-Silent (ssh_connection ssh_config) http_connection (λ port. ok none) (λ h. h)
      http_tunnel quiet http_tunnel_disconnects

-- A profile of an SFTP server, and one of an S3 store.
abbrev sftp_profile : Profile
sftp_profile = record {
  spec_provider = some (member sftp);
  supported_auth = none;
  flavor = none;
  emit = some (λ family. ok (("hostname", text "files.example.org") ∷ ("port", number 22) ∷ []));
  to_handler_kwargs = [];
}

abbrev local_kwargs : Kwargs
local_kwargs = ("hostname", text "127.0.0.1") ∷ ("port", number 40000) ∷ []

inner_factory_runs :
    inner_factory (λ mode. true) sftp_profile none 40000 ≡ ok (sftp_over_ssh (flat local_kwargs))
unfolding inner_factory create_connection check_auth make provider_type_from_profile
    family_for_provider provider_family_map value emit_kwargs patched patch_endpoint replace_value
    lookup insert
inner_factory_runs = refl

inner_factory-Local_example :
    (emitted_of (sftp_over_ssh (flat local_kwargs)) ≡ none)
    ⊎ ((base kwargs : Kwargs) × Emits sftp_profile base
        × (emitted_of (sftp_over_ssh (flat local_kwargs)) ≡ some (flat kwargs))
        × ((key : String) → lookup key kwargs ≡ patched_value "127.0.0.1" 40000 base key))
inner_factory-Local_example =
    inner_factory-Local (λ mode. true) sftp_profile 40000 (sftp_over_ssh (flat local_kwargs))
      inner_factory_runs

abbrev s3_profile : Profile
s3_profile = record {
  spec_provider = some (member s3);
  supported_auth = none;
  flavor = some "express";
  emit = some (λ family. ok (("region_name", text "eu-west-1") ∷ []));
  to_handler_kwargs = [];
}

abbrev reader : AuthProfile
reader = record {
  is_no_auth = false;
  spec_mode = some "iam";
  role_arn = some "arn:aws:iam::1:role/reader";
  profile_name = some "base";
  emit = λ family. [];
  emit_on = λ family base. base;
}

abbrev reader_envelope : Emitted
reader_envelope =
    envelope (("region_name", text "eu-west-1") ∷ [])
      (("profile_name", text "base") ∷ ("region_name", text "eu-west-1") ∷ [])
      (some "arn:aws:iam::1:role/reader") "mountainash-transport"

emit_kwargs_runs : emit_kwargs s3_profile (some reader) (some boto) ≡ ok reader_envelope
unfolding emit_kwargs layer session lookup insert
emit_kwargs_runs = refl

-- A request is registered, the stop begins, and one more is accepted before the listener closes.
stopped_system : (s : System) × Reach s × (s.stopper ≡ returned) × (1 < s.accepted_so_far)
unfolding update
stopped_system = (
  _,
  later
      (later
        (later
          (later
            (later
              (later (later (later begin (accept refl refl)) (register refl refl)) (start refl))
              (set_stop refl))
            (accept refl refl))
          (close_server refl))
        (close_next refl))
      (return_stop refl),
  refl,
  omega arith,
)

returned-Closed_example :
    let s = stopped_system.0 in
    (s.listener_open ≡ false)
    × ((s.is_closed 1 ≡ true) ⊎ (s.server ≡ accepted 1) ⊎ (s.server ≡ refusing 1))
returned-Closed_example =
    returned-Closed {s = stopped_system.0} 1 stopped_system.1 stopped_system.2 stopped_system.3

returned-Ends_example :
    (n : ℕ) × (t : System) × Steps stopped_system.0 n t
    × (n ≤ 3)
    × (t.server ≡ ended)
    × (t.is_closed 1 ≡ true)
returned-Ends_example =
    returned-Ends {s = stopped_system.0} 1 stopped_system.1 stopped_system.2 stopped_system.3
