-- ===== src/Storage/Registry/Latest.antt =====
-- Registrations and lookups of storage/registry/registry.py, one after the other.
use mountainash_transport.Prelude.{Bool, Option, some, ◌≡◌, ◌is◌, if◌then◌else◌, Result, arith}
use mountainash_transport.Prelude.Dict
use mountainash_transport.Prelude.Dict.{Dict}
use mountainash_transport.Errors.{Error}
use mountainash_transport.Location.Schemes.{Provider}
use mountainash_transport.Storage.Registry.{
  provider_eq, BackendClass, Registry, ensure_backends_loaded, register_storage_backend,
  Construction, construct, get_storage_backend,
}

module _ (built_in : Dict Provider BackendClass) where
  -- The class that a provider has in a registry, its built-in backends loaded.
  abbrev pub class_of : Provider → Registry → Option BackendClass
  class_of p r = Dict.lookup p (ensure_backends_loaded built_in r).backends

  -- What `get_storage_backend` makes of the class found.
  abbrev pub made : Option BackendClass → Bool → Bool → Result Error (Construction built_in)
  made found auth check = construct built_in found auth check

  -- After a class is registered for a provider, in whatever registry and before or after the built-in
  -- backends are imported, a request for this provider constructs that class (and is refused where an
  -- auth strategy is given that the class does not take), and a request for another provider finds
  -- what it found before; the registry does not change again.
  pub get-register :
      (p q : Provider) (cls : BackendClass) (r : Registry) (auth check : Bool)
      → get_storage_backend built_in q auth check (register_storage_backend built_in p cls r) ≡ (
        made (if q is p then some cls else class_of q r) auth check,
        register_storage_backend built_in p cls r,
      )
  unfolding get_storage_backend register_storage_backend ensure_backends_loaded
  get-register p q cls r auth check =
      ground (arith, Dict.lookup-insert q p cls (ensure_backends_loaded built_in r).backends)
