-- ===== src/Tests/Streams.antt =====
-- Examples of _core/sequential_io.py and _core/ranged_io.py.
use mountainash_transport.Prelude.{
  ◌≡◌, refl, ◌∙◌, ◌++◌, false, none, some, [], ◌∷◌, Result, ok, err, pos, slice, arith, codes,
}
use mathlib.Core.List.{append-nil}
use mountainash_transport.Errors.{Error, value_error}
use mountainash_transport.Stream.Sequential.{Bytes, ForwardOnlyReader, readall}
use mountainash_transport.Stream.Chunks.{Chunks, iter_bytes}
use mountainash_transport.Stream.Chunks.Content.{content}
use mountainash_transport.Stream.Chunks.Delivery.{readall-whole}
use mountainash_transport.Stream.Ranged.{
  blockcache, default_policy, check_policy, RangedSource, Cache, RangedReader, fetch_range, read,
  strong_etag,
}
use mountainash_transport.Stream.Ranged.Slices.{IsTruthful}
use mountainash_transport.Stream.Ranged.Reading.{IsTransparent, read_many, read_many-rest}

abbrev quiet : Chunks → Result Error (Unit {0}) × Chunks
quiet s = (ok tt, s)

abbrev three_chunks : Chunks
three_chunks = record { pending = []; chunks = (1 ∷ 2 ∷ []) ∷ [] ∷ (3 ∷ []) ∷ []; failure = none }

abbrev chunk_reader : ForwardOnlyReader (iter_bytes quiet)
chunk_reader = record { source = three_chunks; map_error = none; closed = false }

readall-whole_example : readall (iter_bytes quiet) 5 2 chunk_reader ≡ some (ok (1 ∷ 2 ∷ 3 ∷ []))
unfolding content
readall-whole_example = readall-whole quiet none 5 1 three_chunks (omega arith)

abbrev letters : Bytes
letters = 97 ∷ 98 ∷ 99 ∷ 100 ∷ []

-- A server that answers every range in full.
abbrev letter_source : RangedSource
letter_source = record { size = 4; fetch = λ a b. ok (slice a b letters); on_close = none }

whole : (xs bytes : Bytes) → ◌≡◌ {A = Result Error Bytes} (ok xs) (ok bytes) → bytes ++ [] ≡ xs
whole xs bytes h = append-nil bytes ∙ ground (arith, h)

letter_source-IsTruthful : IsTruthful letter_source letters
letter_source-IsTruthful = record {
  sized = refl;
  cut = λ a b bytes h. ([], whole (slice a b letters) bytes h);
}

-- The cache "none" of fsspec: every read is a fetch.
abbrev no_cache : Cache
no_cache = record { State = Unit {0}; cached = λ f a b s. (f a b, s) }

abbrev no_cache-IsTransparent : IsTransparent no_cache letters
no_cache-IsTransparent = record {
  Holds = λ s. Unit;
  exact = λ f a b s bytes e h k. e a b bytes k;
  keeps = λ f a b s e h. tt;
}

abbrev letter_reader : RangedReader no_cache
letter_reader = record { source = letter_source; position = 0; cache = tt; closed = false }

read_many-rest_example : 97 ∷ 98 ∷ 99 ∷ 100 ∷ [] ≡ letters
unfolding fetch_range
read_many-rest_example =
    read_many-rest no_cache letters no_cache-IsTransparent (pos 1 ∷ pos 2 ∷ []) 0 letter_reader
      (97 ∷ 98 ∷ 99 ∷ []) (100 ∷ []) (record { truthful = letter_source-IsTruthful; holds = tt })
      (unfold read_many read in refl) (unfold read_many read in refl)

-- A block size of zero does not pass the check of a policy.
check_policy_no_size :
    check_policy (record default_policy { cache = blockcache; block_size = pos 0 })
    ≡ err value_error
unfolding check_policy
check_policy_no_size = refl

-- A weak entity tag is not used.
strong_etag_weak : strong_etag (some (codes "W/\"a\"")) ≡ none
unfolding strong_etag
strong_etag_weak = refl
