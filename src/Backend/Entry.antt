-- ===== src/Backend/Entry.antt =====
-- _core/dataclasses/storage_entry.py.
use mountainash_transport.Prelude.{ℕ, Option, none, List, [], Text}

pub data EntryType : Type 0 where
  file directory prefix : EntryType

-- Times are numbers.
pub record StorageEntry : Type 0 where
  pub path : Text
  pub name : Text
  pub size : Option ℕ
  pub last_modified : Option ℕ
  pub etag : Text
  pub content_type : Text
  pub entry_type : EntryType
  pub storage_class : Text
  pub source : Text
  pub version_id : Text
  pub checksum : Text
  pub checksum_algorithm : Text

-- `StorageEntry(path=path, name=name)`, with the defaults.
abbrev pub entry : Text → Text → StorageEntry
entry path name = record {
  path = path;
  name = name;
  size = none;
  last_modified = none;
  etag = [];
  content_type = [];
  entry_type = file;
  storage_class = [];
  source = [];
  version_id = [];
  checksum = [];
  checksum_algorithm = [];
}

pub record EnumerateResult : Type 0 where
  pub objects : List StorageEntry
  pub common_prefixes : List StorageEntry
