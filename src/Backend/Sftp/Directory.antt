-- ===== src/Backend/Sftp/Directory.antt =====
-- storage/backends/sftp/sftp_directory.py, `mkdir`: a directory with its parents, on a server that
-- others may change between the calls.

pub mod Making
use mountainash_transport.Prelude.{
  ℕ, zero, suc, Bool, true, false, ◌&&◌, ◌||◌, Option, none, some, List, [], ◌∷◌, ◌++◌, Result, ok,
  err, if◌then◌else◌, Text, text_eq, ◌is◌,
}
use mountainash_transport.Errors.{Error}
use mountainash_transport.Backend.Sftp.Failures.{SftpError, other_os, is_os, is_not_found, mapped}

-- What `st_mode` says.
pub data Mode : Type 0 where
  missing_mode directory_mode other_mode : Mode

-- An exception of the native `mkdir`: whether it is an `OSError` of no subclass, or a
-- `FileExistsError`, and whether its errno is None or EEXIST.
pub record Refusal : Type 0 where
  pub error : SftpError
  pub is_plain : Bool
  pub may_exist : Bool

-- A call on the server.
pub record Answer (S E A : Type 0) : Type 0 where
  pub result : Result E A
  pub server : S

pub record Server (S : Type 0) : Type 0 where
  pub stat : Text → S → Answer S SftpError Mode
  pub make : Text → S → Answer S Refusal (Unit {0})
  -- posixpath.dirname
  pub dirname : Text → Text

abbrev pub is_empty : Text → Bool
is_empty [] = true
is_empty (c ∷ cs) = false

module _ {S : Type 0} (V : Server S) where
  -- `while parent and parent != paths[-1]`
  unfoldable pub parents_of : ℕ → Text → Text → Option (List Text)
  parents_of zero parent last = none
  parents_of (suc fuel) parent last = elim (is_empty parent || (parent is last)) [
    | true ↦ some []
    | false ↦ elim (parents_of fuel (V.dirname parent) parent) [
      | none ↦ none
      | some above ↦ some (parent ∷ above)
    ]
  ]

  -- After a refused `mkdir`, where another may have made the directory.
  unfoldable pub recheck : Text → Refusal → S → Answer S Error (Unit {0})
  recheck directory refusal s =
      let again = V.stat directory s in
      record {
        result = elim again.result [
          | err e ↦ if is_os e then err (mapped refusal.error) else err (mapped e)
          | ok directory_mode ↦ ok tt
          | ok _ ↦ err (mapped refusal.error)
        ];
        server = again.server;
      }

  -- `sftp.mkdir(directory)`
  unfoldable pub create : Text → S → Answer S Error (Unit {0})
  create directory s =
      let made = V.make directory s in
      elim made.result [
        | ok _ ↦ record { result = ok tt; server = made.server }
        | err refusal ↦
            if refusal.is_plain && refusal.may_exist
            then recheck directory refusal made.server
            else record { result = err (mapped refusal.error); server = made.server }
      ]

  -- One directory, and whether it is the path itself.
  unfoldable pub make_directory : Text → Bool → S → Answer S Error (Unit {0})
  make_directory directory is_path s =
      let seen = V.stat directory s in
      elim seen.result [
        | err e ↦
            if is_os e && is_not_found e
            then create directory seen.server
            else record { result = err (mapped e); server = seen.server }
        | ok missing_mode ↦
            if is_path
            then create directory seen.server
            else record { result = ok tt; server = seen.server }
        | ok directory_mode ↦ record { result = ok tt; server = seen.server }
        | ok other_mode ↦ record { result = err (mapped other_os); server = seen.server }
      ]

  -- `for directory in reversed(paths)`, given the path's parents with the nearest first.
  unfoldable pub make_all : Text → List Text → S → Answer S Error (Unit {0})
  make_all path [] s = record { result = ok tt; server = s }
  make_all path (directory ∷ parents) s =
      let above = make_all path parents s in
      elim above.result [
        | err e ↦ above
        | ok _ ↦ make_directory directory (directory is path) above.server
      ]

  -- `mkdir`, of a path that is checked, and stripped of the slashes at its end for the parents.
  unfoldable pub mkdir : ℕ → (Text → Text) → Text → Bool → S → Option (Answer S Error (Unit {0}))
  mkdir fuel strip path parents s = elim (parents && (if is_empty path then false else true)) [
    | false ↦
        let made = V.make path s in
        some (record {
          result = elim made.result [ ok _ ↦ ok tt | err refusal ↦ err (mapped refusal.error) ];
          server = made.server;
        })
    | true ↦ elim (parents_of fuel (V.dirname (strip path)) path) [
      | none ↦ none
      | some above ↦ some (make_all path (path ∷ above) s)
    ]
  ]
