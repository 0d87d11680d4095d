-- ===== src/Backend/Sftp/Failures.antt =====
-- storage/backends/sftp/_helpers.py: the errors.
use mountainash_transport.Prelude.{Bool, true, false, Option, none, some}
use mountainash_transport.Errors.{
  Error, storage_error, storage_connection, path_not_found, permission_denied, authentication,
  unsupported_io, other_error,
}

-- What paramiko and the client raise. `os_enoent` and `os_denied` are an `OSError` with such an
-- errno, `other_os` is one without, a `NotADirectoryError` included.
pub data SftpError : Type 0 where
  file_not_found os_enoent permission os_denied other_os : SftpError
  auth_exception connection eof ssh_exception sftp_error unsupported other : SftpError

-- `_is_not_found`
unfoldable pub is_not_found : SftpError → Bool
is_not_found file_not_found = true
is_not_found os_enoent = true
is_not_found _ = false

-- isinstance(exc, OSError)
unfoldable pub is_os : SftpError → Bool
is_os file_not_found = true
is_os os_enoent = true
is_os permission = true
is_os os_denied = true
is_os other_os = true
is_os connection = true
is_os unsupported = true
is_os _ = false

-- `_wrap_sftp_error`; none, where the exception is raised as it is.
unfoldable pub wrap_sftp_error : SftpError → Option Error
wrap_sftp_error unsupported = none
wrap_sftp_error file_not_found = some path_not_found
wrap_sftp_error os_enoent = some path_not_found
wrap_sftp_error permission = some permission_denied
wrap_sftp_error os_denied = some permission_denied
wrap_sftp_error auth_exception = some authentication
wrap_sftp_error connection = some storage_connection
wrap_sftp_error eof = some storage_connection
wrap_sftp_error ssh_exception = some storage_connection
wrap_sftp_error other_os = some storage_error
wrap_sftp_error sftp_error = some storage_error
wrap_sftp_error other = none

abbrev plain : SftpError → Error
plain unsupported = unsupported_io
plain _ = other_error

-- What `_mapped` makes of it.
unfoldable pub mapped : SftpError → Error
mapped e = elim (wrap_sftp_error e) [ some x ↦ x | none ↦ plain e ]
