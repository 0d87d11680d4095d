-- ===== src/Stream/Ranged.antt =====
-- _core/ranged_io.py: seekable reads through an fsspec cache over a fetcher of byte ranges.
pub mod Slices
pub mod Reading
pub mod Seeking
use mountainash_transport.Prelude.{
  ℕ, ◌+◌, ◌-◌, min, Bool, true, false, not, ◌&&◌, Option, none, some, List, [], Result, ok, err, ℤ,
  pos, negsuc, ◌+ℤ◌, pos_part, ltb_ℤ, length, leb, ltb, ◌==◌, if◌then◌else◌, get_or_else, Text,
  ◌is◌, text_eq, codes, take, ◌||◌,
}
use mountainash_transport.Errors.{Error, value_error, storage_error}
use mountainash_transport.Stream.Sequential.{Bytes}

-- `CacheName`; `unknown_cache` is any other value of the field.
pub data CacheName : Type 0 where
  readahead blockcache bytes_cache no_cache unknown_cache : CacheName

pub record RangePolicy : Type 0 where
  pub cache : CacheName
  pub block_size : ℤ
  pub max_blocks : ℤ

abbrev pub default_policy : RangePolicy
default_policy = record { cache = readahead; block_size = pos 1048576; max_blocks = pos 32 }

is_known : CacheName → Bool
is_known unknown_cache = false
is_known _ = true

is_blockcache : CacheName → Bool
is_blockcache blockcache = true
is_blockcache _ = false

-- `RangePolicy.__post_init__`
unfoldable pub check_policy : RangePolicy → Result Error RangePolicy
unfolding is_known is_blockcache
check_policy p =
    if not (is_known p.cache)
    then err value_error
    else if not (ltb_ℤ (pos 0) p.block_size)
    then err value_error
    else if is_blockcache p.cache && not (ltb_ℤ (pos 0) p.max_blocks)
    then err value_error
    else ok p

-- The scalar settings of a profile; `none` is an attribute that is missing or `None`.
pub record RangeSettings : Type 0 where
  pub range_cache : Option CacheName
  pub range_block_size : Option ℤ
  pub range_max_blocks : Option ℤ

-- `RangePolicy.from_profile`
unfoldable pub from_profile : RangeSettings → Result Error RangePolicy
unfolding check_policy
from_profile s = check_policy (record {
  cache = get_or_else s.range_cache default_policy.cache;
  block_size = get_or_else s.range_block_size default_policy.block_size;
  max_blocks = get_or_else s.range_max_blocks default_policy.max_blocks;
})

-- `RangedSource`: the size of one object and a fetch of half-open ranges of it. What `on_close`
-- does is seen as its result.
pub record RangedSource : Type 0 where
  pub size : ℕ
  pub fetch : ℕ → ℕ → Result Error Bytes
  pub on_close : Option (Result Error (Unit {0}))

exactly : ℕ → Bytes → Result Error Bytes
exactly n bytes = if length bytes == n then ok bytes else err storage_error

exactly_result : ℕ → Result Error Bytes → Result Error Bytes
exactly_result n (ok bytes) = exactly n bytes
exactly_result n (err e) = err e

-- `RangedReader._fetch(start, end)`
unfoldable pub fetch_range : RangedSource → ℕ → ℕ → Result Error Bytes
unfolding exactly_result exactly
fetch_range source start end =
    let stop = min end source.size in
    if leb stop start then ok [] else exactly_result (stop - start) (source.fetch start stop)

-- A cache of `fsspec.caching`: `_fetch(start, end)` over the fetcher that it is built with.
pub record Cache : Type 1 where
  pub State : Type 0
  pub cached : (ℕ → ℕ → Result Error Bytes) → ℕ → ℕ → State → Result Error Bytes × State

-- `io.SEEK_SET`, `io.SEEK_CUR`, `io.SEEK_END` and any other value.
pub data Whence : Type 0 where
  seek_set seek_cur seek_end invalid_whence : Whence

module _ (C : Cache) where
  pub record RangedReader : Type 0 where
    pub source : RangedSource
    pub position : ℕ
    pub cache : C.State
    pub closed : Bool

  target : RangedReader → ℤ → Whence → Option ℤ
  target r offset seek_set = some offset
  target r offset seek_cur = some (pos r.position +ℤ offset)
  target r offset seek_end = some (pos r.source.size +ℤ offset)
  target r offset invalid_whence = none

  move_to : RangedReader → Option ℤ → Result Error ℕ × RangedReader
  move_to r (some (pos n)) = (ok n, record r { position = n })
  move_to r (some (negsuc n)) = (err value_error, r)
  move_to r none = (err value_error, r)

  -- `seek(offset, whence)`
  unfoldable pub seek : ℤ → Whence → RangedReader → Result Error ℕ × RangedReader
  unfolding target move_to ◌+ℤ◌
  seek offset whence r =
      if r.closed then (err value_error, r) else move_to r (target r offset whence)

  -- `tell()`
  unfoldable pub tell : RangedReader → Result Error ℕ
  tell r = if r.closed then err value_error else ok r.position

  -- `end` of `read`
  read_end : RangedReader → ℤ → ℕ
  read_end r size =
      if ltb_ℤ size (pos 0) then r.source.size else min (r.position + pos_part size) r.source.size

  advance : RangedReader → Result Error Bytes × C.State → Result Error Bytes × RangedReader
  advance r (ok bytes, cache') =
      (ok bytes, record r { position = r.position + length bytes; cache = cache' })
  advance r (err e, cache') = (err e, record r { cache = cache' })

  -- `read(size)`
  unfoldable pub read : ℤ → RangedReader → Result Error Bytes × RangedReader
  unfolding read_end advance
  read size r =
      if r.closed
      then (err value_error, r)
      else if leb (read_end r size) r.position
      then (ok [], r)
      else advance r (C.cached (fetch_range r.source) r.position (read_end r size) r.cache)

  -- `readinto(b)` of a buffer of `room` bytes: the bytes that it stores, at most `room` of them.
  unfoldable pub readinto : ℕ → RangedReader → Result Error Bytes × RangedReader
  unfolding read
  readinto room r = read (pos room) r

  close_result : Option (Result Error (Unit {0})) → Result Error (Unit {0})
  close_result none = ok tt
  close_result (some result) = result

  -- `close()`
  unfoldable pub close : RangedReader → Result Error (Unit {0}) × RangedReader
  unfolding close_result
  close r =
      if r.closed then (ok tt, r) else (close_result r.source.on_close, record r { closed = true })

  -- `RangedReader.__init__`, with the cache as it is built.
  unfoldable pub ranged_reader : RangedSource → C.State → RangedReader
  ranged_reader source cache = record {
    source = source;
    position = 0;
    cache = cache;
    closed = false;
  }

-- `strong_etag`: a weak or empty validator is none.
unfoldable pub strong_etag : Option Text → Option Text
strong_etag none = none
strong_etag (some value) =
    if (value is []) || (take 2 value is codes "W/") then none else some value
