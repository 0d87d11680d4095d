-- ===== src/Tests/Backends.antt =====
-- Examples of storage/backends.
use mathlib.Core.List.{Memᴰ}
use mountainash_transport.Prelude.{
  ℕ, ◌≡◌, refl, inl, inr, ◌↔◌, Bool, true, false, none, some, String, List, [], ◌∷◌, ◌++◌, Result,
  ok, err, if◌then◌else◌, arith, ◌<◌, ◌is◌, text_eq, Text, codes, pos, negsuc, Bool-cases,
}
use mountainash_transport.Errors.{Error, value_error}
use mountainash_transport.Backend.Entry.{StorageEntry, EnumerateResult, file}
use mountainash_transport.Backend.Walk.{Found, full, visit, note, walk, select, enumerate}
use mountainash_transport.Backend.Local.Beneath.{Beneath}
use mountainash_transport.Backend.Walk.Ending.{weight}
use mountainash_transport.Backend.Local.{
  FileSystem, Stat, DirEntry, regular, dir, file_not_found, list_objects, scan, target, root_of,
  found_of, entry_of,
}
use mountainash_transport.Backend.Local.Listings.{list_objects-Exact, list_objects-Ends}

abbrev file_stat : Stat
file_stat = record { kind = regular; size = 5; mtime = 7 }

abbrev dir_stat : Stat
dir_stat = record { kind = dir; size = 0; mtime = 7 }

abbrev child : String → Bool → Stat → DirEntry
child path is_symlink stat = record {
  path = codes path;
  name = codes path;
  is_symlink = is_symlink;
  is_junction = false;
  stat = ok stat;
}

-- The directory "/d" has a file, a directory with a file, and a link to that directory.
abbrev file_system : FileSystem
file_system = record {
  stat = λ path. if path is codes "/d" then ok dir_stat else err file_not_found;
  islink = λ path. false;
  scandir = λ path.
      if path is codes "/d"
      then ok (
          child "/d/f" false file_stat
          ∷ child "/d/s" false dir_stat
          ∷ child "/d/l" true dir_stat
          ∷ [])
      else if path is codes "/d/s"
      then ok (child "/d/s/g" false file_stat ∷ [])
      else err file_not_found;
  splitdrive = λ path. ([], path);
  isabs = λ path. true;
  abspath = λ path. path;
  join = λ a b. a ++ b;
  basename = λ path. path;
  is_nt = false;
}

abbrev listed : String → StorageEntry
listed path = entry_of file_system (codes path) file_stat file

abbrev both_files : EnumerateResult
both_files = record { objects = listed "/d/f" ∷ listed "/d/s/g" ∷ []; common_prefixes = [] }

list_objects_runs : list_objects file_system 9 (codes "/d") none none ≡ some (ok both_files)
unfolding list_objects enumerate select walk full visit note scan target root_of found_of entry_of
list_objects_runs = refl

list_objects-Exact_example :
    Memᴰ (listed "/d/s/g") both_files.objects
    ↔ Beneath file_system (listed "/d/s/g") (root_of file_system (codes "/d"))
list_objects-Exact_example =
    list_objects-Exact file_system 9 (codes "/d") dir_stat both_files (listed "/d/s/g") refl refl
      list_objects_runs

abbrev one_file : EnumerateResult
one_file = record { objects = listed "/d/f" ∷ []; common_prefixes = [] }

limited_runs :
    list_objects file_system 9 (codes "/d") (some (codes "/")) (some (pos 1)) ≡ some (ok one_file)
unfolding list_objects enumerate select walk full visit note scan target root_of found_of entry_of
limited_runs = refl

negative_refused :
    list_objects file_system 9 (codes "/d") none (some (negsuc 0)) ≡ some (err value_error)
unfolding list_objects enumerate
negative_refused = refl

abbrev measure : Text → ℕ
measure d = if d is codes "/d" then 2 else 1

measure-small :
    (d : Text) (found : List Found)
    → scan file_system d ≡ ok found
    → weight measure found < measure d
unfolding scan found_of entry_of
measure-small d found h = elim (Bool-cases (d is codes "/d")) [
  | inl a ↦ ground (arith, h, a)
  | inr a ↦ elim (Bool-cases (d is codes "/d/s")) [
    | inl b ↦ ground (arith, h, a, b)
    | inr b ↦ absurd (ground (arith, h, a, b))
  ]
]

list_objects-Ends_example :
    (r : Result Error EnumerateResult) × (list_objects file_system 9 (codes "/d") none none
      ≡ some r)
list_objects-Ends_example =
    list_objects-Ends file_system 9 measure (codes "/d") none none measure-small
      (unfold root_of in omega arith)
