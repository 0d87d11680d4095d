-- ===== src/Backend/Sftp.antt =====
-- storage/backends/sftp: the errors, the remote paths and the listing. The server's answers, and
-- urllib, are parameters.
mod Failures
pub use Failures.{
  SftpError, file_not_found, os_enoent, permission, os_denied, other_os, auth_exception, connection,
  eof, ssh_exception, sftp_error, unsupported, other,
}
unfoldable pub use Failures.{is_not_found, is_os, wrap_sftp_error, mapped}
pub mod Listings
pub mod Directory
use mountainash_transport.Prelude.{
  ℕ, zero, suc, Bool, true, false, not, ◌&&◌, ◌||◌, Option, none, some, List, [], ◌∷◌, ◌++◌, map,
  Result, ok, err, ◌>>=◌, if◌then◌else◌, length, take, Text, codes, text_eq, ◌is◌, lower, ℤ, ◌==◌,
  get_or_else,
}
use mountainash_transport.Errors.{
  Error, storage_error, storage_connection, path_not_found, permission_denied, authentication,
  location_not_allowed, unsupported_io, other_error,
}
use mountainash_transport.Location.Schemes.{Platform, SplitResult}
use mountainash_transport.Location.Policy.{url_host, norm_host}
use mountainash_transport.Backend.Entry.{
  EntryType, file, prefix, StorageEntry, entry, EnumerateResult,
}
use mountainash_transport.Backend.Walk.{
  Found, found_file, found_dir, found_link, found_other, found_error, Target, nothing, one_file,
  from, enumerate,
}

-- `stat.S_IFMT` of a mode that has a type.
pub data FileType : Type 0 where
  reg dir lnk special : FileType

-- `SFTPAttributes`; no type, where the mode is missing or has none.
pub record Attributes : Type 0 where
  pub filename : Text
  pub file_type : Option FileType
  pub size : Option ℕ
  pub mtime : Option ℕ

pub record Client : Type 0 where
  pub stat : Text → Result SftpError Attributes
  pub lstat : Text → Result SftpError Attributes
  pub listdir_attr : Text → Result SftpError (List Attributes)
  -- posixpath
  pub join : Text → Text → Text
  pub basename : Text → Text
  -- The paths of `_check_not_directory`, from the stripped path up by `posixpath.dirname`.
  pub candidates : Text → List Text

-- The profile's host and port; `port_of` is `urlsplit(path).port`, none of it a `ValueError`.
pub record Endpoint : Type 0 where
  pub host : Option Text
  pub port : ℕ

module _ (P : Platform) (port_of : Text → Option (Option ℕ)) where
  abbrev is_sftp_url : Text → Bool
  is_sftp_url path = lower (take 7 path) is codes "sftp://"

  abbrev same_host : Endpoint → Text → Bool
  same_host profile host = elim profile.host [
    | none ↦ false
    | some name ↦
        not (name is codes "")
        && elim (norm_host P name) as (λ x. Bool) [ none ↦ false | some normal ↦ host is normal ]
  ]

  abbrev unquoted : Text → Text
  unquoted path =
      let plain_path = P.unquote path in if plain_path is [] then codes "/" else plain_path

  -- The part after the host.
  unfoldable pub path_at : Endpoint → Text → Text → Result Error Text
  path_at profile path host = elim (P.urlsplit path) [
    | none ↦ err location_not_allowed
    | some parts ↦ elim (port_of path) [
      | none ↦ err location_not_allowed
      | some port ↦
          if not (parts.query is []) || not (parts.fragment is [])
          then err location_not_allowed
          else if same_host profile host && (get_or_else port 22 == profile.port)
          then ok (unquoted parts.path)
          else err location_not_allowed
    ]
  ]

  -- `_remote_path`
  unfoldable pub remote_path : Endpoint → Text → Result Error Text
  remote_path profile path =
      if not (is_sftp_url path)
      then ok path
      else (url_host P path >>= λ host. path_at profile path host)

-- `_require_file_type`
unfoldable pub require_file_type : Attributes → Result Error FileType
require_file_type attrs = elim attrs.file_type [ none ↦ err storage_error | some kind ↦ ok kind ]

abbrev is_file : EntryType → Bool
is_file file = true
is_file _ = false

abbrev is_dir : FileType → Bool
is_dir dir = true
is_dir _ = false

abbrev is_lnk : FileType → Bool
is_lnk lnk = true
is_lnk _ = false

-- What a native call gives, inside `_mapped`.
abbrev native : {A : Type 0} → Result SftpError A → Result Error A
native (ok a) = ok a
native (err e) = err (mapped e)

module _ (C : Client) where
  -- `_entry`
  unfoldable pub entry_of : Text → Attributes → EntryType → StorageEntry
  entry_of path attrs kind = record (entry path (C.basename path)) {
    entry_type = kind;
    size = if is_file kind then attrs.size else none;
    last_modified = attrs.mtime;
    source = codes "sftp";
  }

  -- `_check_not_directory`, over its candidates. `NotADirectoryError` is an `OSError`, which is
  -- mapped as the others are.
  unfoldable pub check_not_directory : List Text → Result Error (Unit {0})
  check_not_directory [] = ok tt
  check_not_directory (candidate ∷ parents) =
      let above = check_not_directory parents in
      elim (C.stat candidate) [
        | err e ↦ if is_os e && is_not_found e then above else err (mapped e)
        | ok attrs ↦
            require_file_type attrs >>= λ kind. if is_dir kind then ok tt else err (mapped other_os)
      ]

  -- What the path is.
  unfoldable pub target : Text → Result Error Target
  target path = elim (C.stat path) [
    | err e ↦
        if is_os e && is_not_found e
        then (check_not_directory (C.candidates path) >>= λ done. ok nothing)
        else err (mapped e)
    | ok attrs ↦ require_file_type attrs >>= λ kind. elim kind [
      | reg ↦ ok (one_file (entry_of path attrs file))
      | dir ↦ ok (from (path ∷ []))
      | _ ↦ ok (from [])
    ]
  ]

  -- The attributes of an entry, with a type.
  unfoldable pub typed : Text → Attributes → Result Error Attributes
  typed path attrs = elim attrs.file_type [ some kind ↦ ok attrs | none ↦ native (C.lstat path) ]

  -- An entry whose type is known, and whether it was a link.
  unfoldable pub found_as : Text → Attributes → FileType → Bool → Found
  found_as path attrs reg linked = found_file (entry_of path attrs file)
  found_as path attrs dir linked =
      if linked
      then found_link (entry_of path attrs prefix)
      else found_dir (entry_of path attrs prefix)
  found_as path attrs _ linked = found_other

  abbrev or_error : Result Error Found → Found
  or_error (ok f) = f
  or_error (err x) = found_error x

  -- A link, by what it leads to.
  unfoldable pub follow : Text → Found
  follow path = elim (C.stat path) [
    | err e ↦ if is_os e && is_not_found e then found_other else found_error (mapped e)
    | ok attrs ↦ or_error (require_file_type attrs >>= λ kind. ok (found_as path attrs kind true))
  ]

  -- The body of `for attrs in client.listdir_attr(directory)`.
  unfoldable pub found_of : Text → Attributes → Found
  found_of directory attrs =
      let path = C.join directory attrs.filename in
      or_error (
        typed path attrs >>= λ full_attrs. require_file_type full_attrs >>= λ kind.
        ok (if is_lnk kind then follow path else found_as path full_attrs kind false))

  unfoldable pub scan : Text → Result Error (List Found)
  scan directory =
      native (C.listdir_attr directory) >>= λ entries. ok (map (found_of directory) entries)

  -- `list_objects`
  unfoldable pub list_objects :
      Platform
      → (Text → Option (Option ℕ))
      → Endpoint
      → ℕ
      → Text
      → Option Text
      → Option ℤ
      → Option (Result Error EnumerateResult)
  list_objects P port_of profile fuel path delimiter max_results =
      enumerate scan fuel (remote_path P port_of profile path) target delimiter max_results
