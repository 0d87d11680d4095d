-- ===== src/Errors.antt =====
-- _core/exceptions.py: the storage errors and their hierarchy, with the built-in exceptions that
-- the storage code raises or catches. Messages and causes are not modelled.
use mountainash_transport.Prelude.{Bool, true, false}

-- The classes of exceptions.
pub data Error : Type 0 where
  storage_error range_not_supported object_changed unsupported_operation : Error
  storage_connection path_not_found authentication permission_denied transform_error : Error
  missing_extra backend_not_implemented profile_resolution profile_not_found : Error
  location_not_allowed : Error
  -- Built-in ones. `os_error` is any other `OSError`.
  value_error type_error os_error connection_error timeout_error eof_error : Error
  unsupported_io other_error : Error

-- isinstance(exc, StorageError)
pub is_storage_error : Error → Bool
is_storage_error value_error = false
is_storage_error type_error = false
is_storage_error os_error = false
is_storage_error connection_error = false
is_storage_error timeout_error = false
is_storage_error eof_error = false
is_storage_error unsupported_io = false
is_storage_error other_error = false
is_storage_error _ = true
