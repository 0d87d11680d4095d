-- ===== src/Backend/Walk.antt =====
-- The loop of `list_objects` that storage/backends/local/local_enumerate.py and
-- storage/backends/sftp/sftp_enumerate.py have in common, given what it finds in each directory.
pub mod Enumerate
pub mod Turn
pub mod Limit
pub mod Exact
pub mod Ending
use mountainash_transport.Prelude.{
  ℕ, zero, suc, ◌+◌, Bool, true, false, not, Option, none, some, List, [], ◌∷◌, ◌++◌, Result, ok,
  err, ◌>>=◌, if◌then◌else◌, leb, length, Text, codes, text_eq, ◌is◌, ℤ, pos, pos_part, ltb_ℤ,
}
use mountainash_transport.Errors.{Error, value_error}
use mountainash_transport.Backend.Entry.{StorageEntry, EnumerateResult}

-- What an entry of a directory is: a file, a directory that is entered where directories are not
-- grouped, one that is only ever grouped (a link), anything else, or an exception.
pub data Found : Type 0 where
  found_file : StorageEntry → Found
  found_dir found_link : StorageEntry → Found
  found_other : Found
  found_error : Error → Found

-- `objects`, `prefixes` and `pending`, the last of which has its end first.
pub record Listing : Type 0 where
  pub objects : List StorageEntry
  pub prefixes : List StorageEntry
  pub pending : List Text

-- `max_results`, which is not negative here, and whether the delimiter is "/".
module _ (max_results : Option ℕ) (grouped : Bool) where
  unfoldable pub full : Listing → Bool
  full s = elim max_results [
    | none ↦ false
    | some limit ↦ leb limit (length s.objects + length s.prefixes)
  ]

  -- One entry of a directory.
  unfoldable pub note : Found → Listing → Result Error Listing
  note (found_file e) s = ok (record s { objects = s.objects ++ e ∷ [] })
  note (found_dir e) s = ok (
      if grouped
      then record s { prefixes = s.prefixes ++ e ∷ [] }
      else record s { pending = e.path ∷ s.pending })
  note (found_link e) s = ok (if grouped then record s { prefixes = s.prefixes ++ e ∷ [] } else s)
  note found_other s = ok s
  note (found_error x) s = err x

  -- `for child in entries`, with its break
  unfoldable pub visit : List Found → Listing → Result Error Listing
  visit [] s = ok s
  visit (f ∷ fs) s = elim (note f s) [
    | err x ↦ err x
    | ok s' ↦ let rest = visit fs s' in if full s' then ok s' else rest
  ]

  -- `while pending and not full()`, given what each directory has; none, where the fuel runs out.
  unfoldable pub walk :
      (Text → Result Error (List Found)) → ℕ → Listing → Option (Result Error Listing)
  walk scan zero s = none
  walk scan (suc fuel) s = elim s.pending [
    | [] ↦ some (ok s)
    | top ∷ rest ↦
        if full s
        then some (ok s)
        else elim (scan top >>= λ found. visit found (record s { pending = rest })) [
          | err x ↦ some (err x)
          | ok s' ↦ walk scan fuel s'
        ]
  ]

-- What the path itself is: nothing that is listed, one file, or directories to enter.
pub data Target : Type 0 where
  nothing : Target
  one_file : StorageEntry → Target
  from : List Text → Target

abbrev pub listing_from : List Text → Listing
listing_from pending = record { objects = []; prefixes = []; pending = pending }

abbrev pub empty : EnumerateResult
empty = record { objects = []; common_prefixes = [] }

abbrev pub finished : Option (Result Error Listing) → Option (Result Error EnumerateResult)
finished none = none
finished (some (err x)) = some (err x)
finished (some (ok s)) = some (ok (record { objects = s.objects; common_prefixes = s.prefixes }))

abbrev pub is_negative : Option ℤ → Bool
is_negative none = false
is_negative (some n) = ltb_ℤ n (pos 0)

abbrev pub bad_delimiter : Option Text → Bool
bad_delimiter none = false
bad_delimiter (some d) = not (d is codes "/")

abbrev pub is_given : Option Text → Bool
is_given none = false
is_given (some d) = true

abbrev pub limit_of : Option ℤ → Option ℕ
limit_of none = none
limit_of (some n) = some (pos_part n)

module _ (scan : Text → Result Error (List Found)) (fuel : ℕ) where
  -- What is listed of a path.
  unfoldable pub select :
      Option ℕ → Bool → Result Error Target → Option (Result Error EnumerateResult)
  select limit grouped (err x) = some (err x)
  select limit grouped (ok nothing) = some (ok empty)
  select limit grouped (ok (one_file e)) =
      some (ok (record { objects = e ∷ []; common_prefixes = [] }))
  select limit grouped (ok (from roots)) =
      finished (walk limit grouped scan fuel (listing_from roots))

  -- `list_objects(prefix, delimiter=, max_results=)`, given the path that the backend makes of the
  -- prefix, and what that path is.
  unfoldable pub enumerate :
      Result Error Text
      → (Text → Result Error Target)
      → Option Text
      → Option ℤ
      → Option (Result Error EnumerateResult)
  enumerate prepared target delimiter max_results =
      if bad_delimiter delimiter
      then some (err value_error)
      else if is_negative max_results
      then some (err value_error)
      else elim prepared [
        | err x ↦ some (err x)
        | ok path ↦
            if full (limit_of max_results) (is_given delimiter) (listing_from [])
            then some (ok empty)
            else select (limit_of max_results) (is_given delimiter) (target path)
      ]
