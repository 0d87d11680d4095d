-- ===== src/Location/Tree.antt =====
-- `_check_tree` of location.py, and `confine_local` of a directory tree.
pub mod Walk
use mountainash_transport.Prelude.{
  ℕ, zero, suc, Bool, true, false, ◌&&◌, Option, none, some, List, [], ◌∷◌, ◌++◌, map, Text,
  text_eq, contains, Result, ok, err, if◌then◌else◌,
}
use mountainash_transport.Errors.{Error, location_not_allowed}
use mountainash_transport.Location.Schemes.{Platform}
use mountainash_transport.Location.Policy.{LocationPolicy, active, confine_local}

module _ (P : Platform) where
  -- Do the entries of these names in a directory lie within the root?
  unfoldable pub all_inside : Text → Text → List Text → Bool
  all_inside root dir [] = true
  all_inside root dir (name ∷ names) =
      P.is_relative_to (P.realpath (P.join dir name)) root && all_inside root dir names

  abbrev pub dirnames : Text → List Text
  dirnames dir = (P.scandir dir).0

  abbrev pub entries : Text → List Text
  entries dir = (P.scandir dir).0 ++ (P.scandir dir).1

  -- `os.walk` from the directories still to visit, with those scanned so far, whose real paths are
  -- `seen`; the result is those scanned in the end. `none` is fuel run out.
  unfoldable pub walk : ℕ → Text → List Text → List Text → Option (Result Error (List Text))
  unfolding all_inside
  walk zero root scanned pending = none
  walk (suc fuel) root scanned [] = some (ok scanned)
  walk (suc fuel) root scanned (dir ∷ pending) =
      let pruned = walk fuel root scanned pending in
      let deeper = walk fuel root (dir ∷ scanned) (map (P.join dir) (dirnames dir) ++ pending) in
      if contains (map P.realpath scanned) (P.realpath dir)
      then pruned
      else if all_inside root dir (entries dir)
      then deeper
      else some (err location_not_allowed)

  tree_checked : Text → Option (Result Error (List Text)) → Option (Result Error Text)
  tree_checked path none = none
  tree_checked path (some (err x)) = some (err x)
  tree_checked path (some (ok scanned)) = some (ok path)

  rooted : ℕ → LocationPolicy → Text → Option (Result Error Text)
  unfolding tree_checked walk
  rooted fuel policy path =
      if active policy && P.isdir path
      then elim policy.root [
        | none ↦ some (ok path)
        | some root ↦ tree_checked path (walk fuel (P.realpath root) [] (path ∷ []))
      ]
      else some (ok path)

  confined_tree :
      ℕ → Option LocationPolicy → Option (Result Error Text) → Option (Result Error Text)
  unfolding rooted
  confined_tree fuel policy none = none
  confined_tree fuel policy (some (err x)) = some (err x)
  confined_tree fuel none (some (ok path)) = some (ok path)
  confined_tree fuel (some policy) (some (ok path)) = rooted fuel policy path

  -- `confine_local(…, tree=True)`
  unfoldable pub confine_tree : ℕ → Text → Option LocationPolicy → Option (Result Error Text)
  unfolding confined_tree
  confine_tree fuel location policy =
      confined_tree fuel policy (confine_local P fuel location policy)
