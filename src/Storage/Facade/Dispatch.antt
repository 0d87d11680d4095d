-- ===== src/Storage/Facade/Dispatch.antt =====
-- The guards of the operations of storage/facade/facade.py, and the paths of their calls.
use mountainash_transport.Prelude.{
  ℕ, ◌≡◌, refl, ◌⊎◌, Bool, true, false, not, ◌&&◌, none, some, List, [], ◌∷◌, Text, if◌then◌else◌,
  Result, ok, err, All, arith,
}
use mountainash_transport.Errors.{
  Error, storage_connection, unsupported_operation, value_error, location_not_allowed,
}
use mountainash_transport.Location.Schemes.{Platform}
use mountainash_transport.Location.Policy.{is_active}
use mountainash_transport.Transform.Pipeline.{StreamTransform, Pipeline, is_empty}
use mountainash_transport.Storage.Facade.{
  Protocol, reads, writes, enumerates, deletes, copies, directories, ranged_reads, Facade,
  BackendCall, Run, ◌>>?◌, check, require, Access, ReadArgs, Operation, resolve_pipeline, is_local,
  opening, open_stream, calling, copy_into, dispatch, is_access, is_random, sequential,
}

-- The paths that a call of the backend is given.
abbrev pub paths_of : BackendCall → List Text
paths_of (BackendCall.read_to_stream path) = path ∷ []
paths_of (BackendCall.open_ranged path) = path ∷ []
paths_of (BackendCall.write_from_bytes path parents) = path ∷ []
paths_of (BackendCall.write_from_stream path parents) = path ∷ []
paths_of (BackendCall.list_objects path delimiter max_results) = path ∷ []
paths_of (BackendCall.delete_file path) = path ∷ []
paths_of (BackendCall.path_exists path) = path ∷ []
paths_of (BackendCall.get_metadata path) = path ∷ []
paths_of (BackendCall.get_size path) = path ∷ []
paths_of (BackendCall.copy source destination) = source ∷ destination ∷ []
paths_of (BackendCall.list_dir path) = path ∷ []
paths_of (BackendCall.mkdir path parents) = path ∷ []
paths_of (BackendCall.rmdir path) = path ∷ []

module _ (P : Platform) (fuel : ℕ) (S : Type 0) where
  -- The protocol that an operation needs.
  abbrev pub protocol_of : Operation P fuel S → Protocol
  protocol_of (Operation.read_stream a) = reads
  protocol_of (Operation.read a) = reads
  protocol_of (Operation.write path pipeline parents) = writes
  protocol_of (Operation.write_stream path pipeline parents) = writes
  protocol_of (Operation.list_objects prefix delimiter max_results) = enumerates
  protocol_of (Operation.delete path) = deletes
  protocol_of (Operation.exists path) = Protocol.metadata
  protocol_of (Operation.metadata path) = Protocol.metadata
  protocol_of (Operation.get_size path) = Protocol.metadata
  protocol_of (Operation.copy source destination) = copies
  protocol_of (Operation.list_dir path) = directories
  protocol_of (Operation.mkdir path parents) = directories
  protocol_of (Operation.rmdir path) = directories

  module _ (suffix : Text → Text) (default_gzip : StreamTransform S) where
    refused :
        (f : Facade) (op : Operation P fuel S) (x : Error)
        → require P fuel f (protocol_of op) ≡ err x
        → dispatch P fuel S suffix default_gzip f op ≡ some (err x)
    unfolding dispatch open_stream
    refused f (Operation.read_stream a) x h = rw h refl
    refused f (Operation.read a) x h = rw h refl
    refused f (Operation.write path pipeline parents) x h = rw h refl
    refused f (Operation.write_stream path pipeline parents) x h = rw h refl
    refused f (Operation.list_objects prefix delimiter max_results) x h = rw h refl
    refused f (Operation.delete path) x h = rw h refl
    refused f (Operation.exists path) x h = rw h refl
    refused f (Operation.metadata path) x h = rw h refl
    refused f (Operation.get_size path) x h = rw h refl
    refused f (Operation.copy source destination) x h = rw h refl
    refused f (Operation.list_dir path) x h = rw h refl
    refused f (Operation.mkdir path parents) x h = rw h refl
    refused f (Operation.rmdir path) x h = rw h refl

    -- A closed facade refuses every operation with `StorageConnectionError`, and an open one whose
    -- backend lacks the operation's protocol with `UnsupportedOperationError`: before the path is
    -- looked at, and without a call of the backend.
    pub dispatch-refused :
        (f : Facade) (op : Operation P fuel S)
        → (f.closed ≡ true) ⊎ (f.supports (protocol_of op) ≡ false)
        → dispatch P fuel S suffix default_gzip f op
          ≡ some (err (if f.closed then storage_connection else unsupported_operation))
    unfolding require
    dispatch-refused f op h = refused f op _ (ground (arith, h))

    -- A path that the facade's check gave for some location.
    abbrev pub Checked : Facade → Text → Type 0
    Checked f path = (location : Text) × (check P fuel f location ≡ some (ok path))

    abbrev pub Given : Facade → Run BackendCall → Type 0
    Given f none = Unit
    Given f (some (err x)) = Unit
    Given f (some (ok call)) = All (Checked f) (paths_of call)

    -- No call, or one on checked paths.
    pub record Safe (f : Facade) (r : Run BackendCall) : Type 0 where
      pub given : Given f r

    no_call : (f : Facade) (x : Error) → Safe f (some (err x))
    no_call f x = record { given = tt }

    after_check :
        (f : Facade) (location : Text) (k : Text → Run BackendCall)
        → ((path : Text) → Checked f path → Safe f (k path))
        → Safe f (check P fuel f location >>? k)
    after_check f location k h = go (check P fuel f location) refl
      where
        go : (r : Run Text) → check P fuel f location ≡ r → Safe f (r >>? k)
        go none e = record { given = tt }
        go (some (err x)) e = no_call f x
        go (some (ok path)) e = h path (location, e)

    after_any :
        {A : Type 0} (f : Facade) (r : Run A) (k : A → Run BackendCall)
        → ((a : A) → Safe f (k a))
        → Safe f (r >>? k)
    after_any f none k h = record { given = tt }
    after_any f (some (err x)) k h = no_call f x
    after_any f (some (ok a)) k h = h a

    either-Safe :
        (f : Facade) (b : Bool) {r r' : Run BackendCall}
        → Safe f r
        → Safe f r'
        → Safe f (if b then r else r')
    either-Safe f true h h' = h
    either-Safe f false h h' = h'

    ranged-Safe :
        (f : Facade) (path : Text)
        → Checked f path
        → (r : Result Error (Unit {0}))
        → Safe f (elim r [ err x ↦ some (err x) | ok u ↦ some (ok (BackendCall.open_ranged path)) ])
    ranged-Safe f path h (ok u) = record { given = (h, tt) }
    ranged-Safe f path h (err x) = no_call f x

    opening-Safe :
        (f : Facade) (access : Access P fuel) (path : Text) (effective : Pipeline S)
        → Checked f path
        → Safe f (opening P fuel S suffix default_gzip f access path effective)
    unfolding opening
    opening-Safe f access path effective h =
        let direct : Safe f (some (ok (BackendCall.read_to_stream path))) = record {
          given = (h, tt);
        } in
        either-Safe f (is_random P fuel access)
          (either-Safe f (not (is_empty effective)) (no_call f value_error) (
            either-Safe f (is_local P fuel S suffix default_gzip f.provider_type) direct
              (ranged-Safe f path h (require P fuel f ranged_reads))))
          direct

    open_stream-Safe :
        (f : Facade) (a : ReadArgs P fuel S) → Safe f (open_stream P fuel S suffix default_gzip f a)
    unfolding open_stream
    open_stream-Safe f a =
        after_any f (some (require P fuel f reads))
          (λ u.
            if not (is_access P fuel a.access)
            then some (err value_error)
            else if a.range_policy && not (is_random P fuel a.access)
            then some (err value_error)
            else check P fuel f a.path >>? λ path.
                resolve_pipeline P fuel S suffix default_gzip a >>? λ effective.
                opening P fuel S suffix default_gzip f a.access path effective)
          (λ u. either-Safe f (not (is_access P fuel a.access)) (no_call f value_error) (
            either-Safe f (a.range_policy && not (is_random P fuel a.access))
              (no_call f value_error)
              (after_check f a.path _ (λ path k.
                after_any f (resolve_pipeline P fuel S suffix default_gzip a) _
                  (λ effective. opening-Safe f a.access path effective k)))))

    calling-Safe :
        (f : Facade) (protocol : Protocol) (path : Text) (call : Text → BackendCall)
        → ((p : Text) → paths_of (call p) ≡ p ∷ [])
        → Safe f (calling P fuel S suffix default_gzip f protocol path call)
    calling-Safe f protocol path call h =
        after_any f (some (require P fuel f protocol)) _
          (λ u. after_check f path _ (λ p k. record { given = rw (h p) (k, tt) }))

    copy_into-Safe :
        (f : Facade) (src dst : Text)
        → Checked f src
        → Checked f dst
        → Safe f (copy_into P fuel S suffix default_gzip f src dst)
    unfolding copy_into
    copy_into-Safe f src dst s d =
        let direct : Safe f (some (ok (BackendCall.copy src dst))) = record {
          given = (s, (d, tt));
        } in
        either-Safe f
          (is_active f.policy
            && (is_local P fuel S suffix default_gzip f.provider_type && P.isdir dst))
          (after_check f (P.join dst (P.basename src)) _ (λ final k.
            let inside : Safe f (some (ok (BackendCall.copy src final))) = record {
              given = (s, (k, tt));
            } in
            either-Safe f (P.isdir final) (no_call f location_not_allowed) inside))
          direct

    -- Whatever the operation and its arguments, the backend is only ever given paths that `_check`
    -- returned.
    pub dispatch-Safe :
        (f : Facade) (op : Operation P fuel S) → Safe f (dispatch P fuel S suffix default_gzip f op)
    unfolding dispatch
    dispatch-Safe f (Operation.read_stream a) = open_stream-Safe f a
    dispatch-Safe f (Operation.read a) =
        after_any f (some (require P fuel f reads)) _
          (λ u. open_stream-Safe f (record a { access = sequential; range_policy = false }))
    dispatch-Safe f (Operation.write path pipeline parents) =
        calling-Safe f writes path _ (λ p. ground arith)
    dispatch-Safe f (Operation.write_stream path pipeline parents) =
        calling-Safe f writes path _ (λ p. refl)
    dispatch-Safe f (Operation.list_objects prefix delimiter max_results) =
        calling-Safe f enumerates prefix _ (λ p. refl)
    dispatch-Safe f (Operation.delete path) = calling-Safe f deletes path _ (λ p. refl)
    dispatch-Safe f (Operation.exists path) = calling-Safe f Protocol.metadata path _ (λ p. refl)
    dispatch-Safe f (Operation.metadata path) = calling-Safe f Protocol.metadata path _ (λ p. refl)
    dispatch-Safe f (Operation.get_size path) = calling-Safe f Protocol.metadata path _ (λ p. refl)
    dispatch-Safe f (Operation.copy source destination) =
        after_any f (some (require P fuel f copies)) _ (λ u.
          after_check f source _
            (λ src s. after_check f destination _ (λ dst d. copy_into-Safe f src dst s d)))
    dispatch-Safe f (Operation.list_dir path) = calling-Safe f directories path _ (λ p. refl)
    dispatch-Safe f (Operation.mkdir path parents) = calling-Safe f directories path _ (λ p. refl)
    dispatch-Safe f (Operation.rmdir path) = calling-Safe f directories path _ (λ p. refl)
