-- ===== src/Lib.antt =====
-- mountainash-transport: reading and writing stored objects by one interface, over local files,
-- HTTP, S3 and SFTP. The package is src/mountainash_transport.
--
-- A `StorageFacade` takes an operation and a path, checks that it is open and that its backend has
-- the operation's protocol, has the path checked against the caller's location policy, and makes
-- one call of its backend. What the backend opens is a stream: of chunks (`IterBytesReader`), of
-- ranges (`RangedReader`) or native; a pipeline of transforms is laid over it. HTTP backends send
-- by `HttpRequestEngine`, which retries, refreshes and follows redirects under a policy, and asks
-- the facade's location check before each send. A backend is built on a connection, which the
-- factories make from a profile: HTTP, S3 and SSH have a client of their own, SFTP has a channel
-- over an SSH connection, and a tunnel has a listener that forwards to the host, behind which an
-- inner connection of any kind is made.
--
--   Errors      _core/exceptions.py, with the built-in exceptions that the code names.
--   Stream      _core/sequential_io.py (Sequential, Chunks), _core/ranged_io.py (Ranged), and
--               _core/stream_errors.py with the HTTP upload that uses it (Caller).
--   Transform   _core/transforms: pipeline.py (Pipeline), compression.py (Bounded) and
--               _stream_encoder.py (Encoder).
--   Http        _core/http: errors.py (Errors), policy.py (Policy) and engine.py (Engine, with its
--               two loops under Engine/Loop and `_send_with_redirects` in Engine/Redirects).
--   Location    _schemes.py (Schemes) and location.py (Policy, Redaction, Tree).
--   Storage     storage/path_helpers (Helpers, Suffixes), storage/registry (Registry) and
--               storage/facade: facade.py (Facade) and cross_backend.py (Transfer).
--   Connection  connections: the protocol (Protocol), http.py, s3.py and ssh.py (Leaf), sftp.py
--               (Sftp), tunnel.py (Tunnel, and Forwarder for its threads), __init__.py (Factory) and
--               errors.py (Failures), over the native calls (World) and in any sequence of
--               operations (Lifecycle).
--   Backend     storage/backends: local (Local), sftp (Sftp), s3 (S3) and http (Http), with the loop
--               that the listings of local and sftp share (Walk), and
--               _core/dataclasses/storage_entry.py (Entry).
--   Settings    settings/storage/loader.py: the secret references and the errors that may show them
--               (References), and `resolve_storage` (Loader).
--   Prelude     names, lists, integers, dictionaries and results that the parts share.
--   Tests       each theorem at a concrete input, and runs of the definitions.
--
-- Names are those of the source, without leading underscores. A method that changes its object is
-- a function that returns its result beside the changed record; an exception is the `err` of a
-- `Result`. Texts that are taken apart are lists of code points. Loops over a server or a stream
-- run on fuel, with `none` for fuel run out, and theorems give the fuel that suffices: one round
-- for a byte when a stream is read to its end, one for an attempt and one for a refresh in a
-- request, one for a directory in a listing, two for an exception in a search of causes, one for a
-- character of a path whose parents are made, one for a character of a path that is resolved or
-- whose suffixes are read. The send with redirects has no such bound, since an auth flow may go on
-- for ever, so what is said of it is said of each end.
--
-- The connections count their native calls: the world says which of them raises, and keeps the
-- list of the handles that are open, which the code has no name for; a call that makes a client, a
-- channel or a listener puts it in, and its close takes it out, also where it raises. The threads
-- of a forwarder are the steps of one system, in any order.
--
-- Parameters stand for code that is elsewhere: the native streams, fsspec's caches, zlib, httpx
-- and its auth flows, paramiko, boto3, sockets, urllib, `os.path` and the file system, UPath,
-- `PurePosixPath.suffix`, `posixpath`, pydantic and the settings library, floating-point seconds,
-- random numbers and dates. What is assumed of one is a hypothesis of the theorem.
--
-- Not modelled: the constructor of a facade; of the backends the sequential reads, the writes but
-- for the HTTP upload of a stream, the copies and deletes; the copying of bytes by a forwarder;
-- the profiles of the settings, the auth strategy, GPG, and the text of messages, but for the
-- redaction of the locations in them. The walk of a directory tree has no bound on its fuel: a
-- file system may have links without end.
pub mod Prelude
pub mod Errors
pub mod Stream
pub mod Transform
pub mod Http
pub mod Location
pub mod Storage
pub mod Connection
pub mod Settings
pub mod Backend
pub mod Tests
