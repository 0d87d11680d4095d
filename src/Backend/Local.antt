-- ===== src/Backend/Local.antt =====
-- storage/backends/local: the errors, the listings and the writes. The file system and `os.path`
-- are a parameter.
pub mod Beneath
pub mod Listings
use mountainash_transport.Prelude.{
  ℕ, zero, suc, ◌+◌, Bool, true, false, not, ◌&&◌, ◌||◌, Option, none, some, List, [], ◌∷◌, ◌++◌,
  map, Result, ok, err, ◌>>=◌, if◌then◌else◌, Text, codes, text_eq, ◌is◌, ℤ, pos, negsuc, pos_part,
  ltb_ℤ,
}
use mountainash_transport.Errors.{
  Error, storage_error, storage_connection, path_not_found, permission_denied, value_error,
  os_error, unsupported_io,
}
use mountainash_transport.Backend.Entry.{
  EntryType, file, directory, prefix, StorageEntry, entry, EnumerateResult,
}
use mountainash_transport.Backend.Walk.{
  Found, found_file, found_dir, found_link, found_other, found_error, Target, nothing, one_file,
  from, enumerate,
}

-- The `OSError`s of the file system. The last two are also a `ValueError`, and of shutil.
pub data OsError : Type 0 where
  file_not_found not_a_directory permission connection timeout other_os unsupported same_file :
      OsError

-- `_map_local_error`; none, where the exception is raised as it is.
unfoldable pub map_local_error : OsError → Option Error
map_local_error file_not_found = some path_not_found
map_local_error permission = some permission_denied
map_local_error connection = some storage_connection
map_local_error timeout = some storage_connection
map_local_error not_a_directory = some storage_error
map_local_error other_os = some storage_error
map_local_error unsupported = none
map_local_error same_file = none

-- The class of an exception that is raised as it is.
abbrev plain : OsError → Error
plain unsupported = unsupported_io
plain _ = os_error

-- What `_mapped` makes of it.
unfoldable pub mapped : OsError → Error
mapped e = elim (map_local_error e) [ some x ↦ x | none ↦ plain e ]

pub data Kind : Type 0 where
  regular dir other_kind : Kind

-- `os.stat_result`
pub record Stat : Type 0 where
  pub kind : Kind
  pub size : ℕ
  pub mtime : ℕ

-- `os.DirEntry`
pub record DirEntry : Type 0 where
  pub path : Text
  pub name : Text
  pub is_symlink : Bool
  pub is_junction : Bool
  pub stat : Result OsError Stat

pub record FileSystem : Type 0 where
  pub stat : Text → Result OsError Stat
  pub islink : Text → Bool
  pub scandir : Text → Result OsError (List DirEntry)
  pub splitdrive : Text → Text × Text
  pub isabs : Text → Bool
  pub abspath : Text → Text
  pub join : Text → Text → Text
  pub basename : Text → Text
  pub is_nt : Bool

abbrev is_file : EntryType → Bool
is_file file = true
is_file _ = false

module _ (fs : FileSystem) where
  -- `_entry`
  unfoldable pub entry_of : Text → Stat → EntryType → StorageEntry
  entry_of path attrs kind = record (entry path (fs.basename path)) {
    entry_type = kind;
    size = if is_file kind then some attrs.size else none;
    last_modified = some attrs.mtime;
    source = codes "local";
  }

  abbrev is_missing : OsError → Bool
  is_missing file_not_found = true
  is_missing not_a_directory = true
  is_missing _ = false

  -- The body of `for child in entries`.
  unfoldable pub found_of : DirEntry → Found
  found_of child = elim child.stat [
    | err e ↦ if is_missing e && child.is_symlink then found_other else found_error (mapped e)
    | ok attrs ↦ elim attrs.kind [
      | regular ↦ found_file (entry_of child.path attrs file)
      | dir ↦
          if child.is_symlink || child.is_junction
          then found_link (entry_of child.path attrs prefix)
          else found_dir (entry_of child.path attrs prefix)
      | other_kind ↦ found_other
    ]
  ]

  -- `os.scandir`, with what is found in it
  unfoldable pub scan : Text → Result Error (List Found)
  scan path = elim (fs.scandir path) [
    | ok children ↦ ok (map found_of children)
    | err e ↦ err (mapped e)
  ]

  -- The anchored path.
  unfoldable pub root_of : Text → Text
  root_of path =
      let (drive, tail) = fs.splitdrive path in
      let has_drive = not (drive is codes "") in
      if fs.isabs path && (has_drive || not fs.is_nt)
      then path
      else fs.join (fs.abspath (if has_drive then drive else codes ".")) tail

  -- What the path is.
  unfoldable pub target : Text → Result Error Target
  target path = elim (fs.stat path) [
    | err file_not_found ↦ ok nothing
    | err not_a_directory ↦ if fs.islink path then ok nothing else err (mapped not_a_directory)
    | err e ↦ err (mapped e)
    | ok attrs ↦ elim attrs.kind [
      | regular ↦ ok (one_file (entry_of (root_of path) attrs file))
      | dir ↦ ok (from (root_of path ∷ []))
      | other_kind ↦ ok (from [])
    ]
  ]

  -- `list_objects`
  unfoldable pub list_objects :
      ℕ → Text → Option Text → Option ℤ → Option (Result Error EnumerateResult)
  list_objects fuel path delimiter max_results =
      enumerate scan fuel (ok path) target delimiter max_results
