-- ===== src/Tests/Ranges.antt =====
-- Examples of storage/backends/s3, http and sftp.
use mountainash_transport.Prelude.{
  ℕ, ◌⊎◌, ◌≡◌, refl, sym, ap, subst, ◌∙◌, Option, none, some, List, [], ◌∷◌, ◌++◌, Result, ok, err,
  if◌then◌else◌, arith, ◌-◌, text_eq, Text, codes, ℤ, pos, negsuc, ◌-ℤ◌, leb, ◌&&◌, ◌+◌, take, drop,
  slice, take-append-drop, lower_char,
}
use mountainash_transport.Errors.{Error}
use mountainash_transport.Location.Schemes.{Platform, identify_scheme}
use mountainash_transport.Location.Policy.{url_host}
use mountainash_transport.Prelude.Dict
use mountainash_transport.Storage.Helpers.{parse_s3_path}
use mountainash_transport.Stream.Sequential.{Bytes}
use mountainash_transport.Stream.Ranged.{RangedSource, fetch_range, strong_etag}
use mountainash_transport.Backend.Entry.{EnumerateResult}
use mountainash_transport.Backend.S3.{
  S3Client, S3Error, Object, list_pages, list_objects, all_objects, all_prefixes, object_entry,
  truncated, cut, take_ℤ, fetch, open_object, open_ranged,
}
use mountainash_transport.Backend.S3.Ranges.{Serves, Whole, fetch-open_ranged}
use mountainash_transport.Backend.Sftp.{Endpoint, remote_path, path_at}
use mountainash_transport.Backend.Sftp.Listings.{Names, remote_path-Names}
use mountainash_transport.Stream.Chunks.Content.{concat}
use mountainash_transport.Backend.Http.{
  Response, ContentRange, range_headers, parse_range, number, digits, after, gather, receive,
  answered,
}
use mountainash_transport.Backend.Http as Http
use mountainash_transport.Backend.Http.Ranges.{Honest, fetch_range-answered}
use mountainash_transport.Tests.Locations.{platform}

abbrev object : Bytes
object = 1 ∷ 2 ∷ 3 ∷ []

abbrev item : Object
item = record {
  key = codes "a/k";
  size = some 3;
  last_modified = none;
  etag = none;
  storage_class = none;
}

-- The bytes of the object in a range, by its first and its last.
abbrev up_to : ℕ → ℤ → Bytes
up_to start (pos last) = slice start (last + 1) object
up_to start (negsuc n) = []

-- A store with one object, of which it answers any range, and with one prefix.
abbrev store : S3Client
store = record {
  get_paginator = ok tt;
  paginate = λ bucket wanted delimiter.
      ok (record { contents = item ∷ []; prefixes = codes "a/p/" ∷ [] } ∷ []);
  list_one = λ bucket. ok (some 200);
  head_object = λ bucket key. ok (record {
    content_length = some 3;
    last_modified = none;
    etag = none;
    content_type = none;
    storage_class = none;
    version_id = none;
    checksums = [];
  });
  get_range = λ bucket key start last if_match. ok (λ n. ok (take n (up_to start last)));
}

store-Serves : Serves store (codes "data") (codes "a/k") none object
unfolding strong_etag
store-Serves = record {
  head_has = λ head h. (ground (arith, h), ground (arith, h));
  range_has = λ start last body n bytes h g. answers start (last + 1) body n bytes h g;
}
  where
    answers :
        (start stop : ℕ) (body : ℕ → Result S3Error Bytes) (n : ℕ) (bytes : Bytes)
        → ◌≡◌ {A = Result S3Error (ℕ → Result S3Error Bytes)}
            (ok (λ k. ok (take k (slice start stop object))))
            (ok body)
        → body n ≡ ok bytes
        → (rest : Bytes) × (bytes ++ rest ≡ slice start stop object)
    answers start stop body n bytes h g =
        let all = slice start stop object in
        let same : ◌≡◌ {A = Result S3Error Bytes} (ok (take n all)) (ok bytes) =
          ap (λ r. elim r as (λ x. Result S3Error Bytes) [ ok b ↦ b n | err x ↦ err x ]) h ∙ g in
        let taken : take n all ≡ bytes = ground (arith, same) in
        (drop n all, ap (λ l. l ++ drop n all) (sym taken) ∙ take-append-drop n all)

abbrev ranged_object : RangedSource
ranged_object = record {
  size = 3;
  fetch = fetch platform store (codes "data") (codes "a/k") none;
  on_close = none;
}

parsed : parse_s3_path platform (codes "data/a/k") ≡ ok (codes "data", codes "a/k")
unfolding parse_s3_path identify_scheme Dict.lookup
parsed = refl

opened : open_ranged platform store (codes "data/a/k") ≡ ok ranged_object
unfolding open_ranged open_object strong_etag parse_s3_path identify_scheme Dict.lookup
opened = refl

fetch-open_ranged_example :
    (ranged_object.size ≡ 3)
    × ((ranged_object.fetch 1 3 ≡ ok (slice 1 3 object))
        ⊎ (((x : Error) × (ranged_object.fetch 1 3 ≡ err x))
            × ¬ Whole platform store (codes "data") (codes "a/k") none object 1 3))
fetch-open_ranged_example =
    fetch-open_ranged platform store (codes "data/a/k") (codes "data") (codes "a/k") none object
      ranged_object 1 3 parsed store-Serves opened (omega arith) (omega arith)

abbrev first_only : EnumerateResult
first_only = record { objects = object_entry (codes "data") item ∷ []; common_prefixes = [] }

listed : list_objects platform store (codes "data/a/") none (some (pos 1)) ≡ ok first_only
unfolding list_objects list_pages parse_s3_path identify_scheme Dict.lookup all_objects all_prefixes
    truncated cut take_ℤ ◌-ℤ◌
listed = refl

-- A server on the port of the profile, by a platform that reads "sftp://h/p".
abbrev sftp_platform : Platform
sftp_platform = record platform {
  urlsplit = λ location. some (record {
    scheme = codes "sftp";
    netloc = codes "h";
    path = codes "/p";
    query = [];
    fragment = [];
    hostname = codes "h";
  });
}

abbrev endpoint : Endpoint
endpoint = record { host = some (codes "h"); port = 22 }

remote_path_runs :
    remote_path sftp_platform (λ path. some none) endpoint (codes "sftp://h/p") ≡ ok (codes "/p")
unfolding remote_path path_at url_host lower_char
remote_path_runs = refl

remote_path-Names_example : Names sftp_platform (λ path. some none) endpoint (codes "sftp://h/p")
unfolding lower_char
remote_path-Names_example =
    remote_path-Names sftp_platform (λ path. some none) endpoint (codes "sftp://h/p") (codes "/p")
      refl remote_path_runs

abbrev digit : ℕ → Option ℕ
digit c = if leb 48 c && leb c 57 then some (c - 48) else none

-- A server that answers every request of a range with the same one.
abbrev answer : List ℕ → List Bytes → Response
answer range chunks = record {
  status = 206;
  content_encoding = none;
  content_range = some range;
  etag = none;
  chunks = chunks;
  failure = none;
}

abbrev probe : Response
probe = answer (codes "bytes 0-0/3") ((1 ∷ []) ∷ [])

abbrev last_two : Response
last_two = answer (codes "bytes 1-2/3") ((2 ∷ []) ∷ (3 ∷ []) ∷ [])

ranged_headers :
    (range_headers digit probe ≡ ok (record { start = 0; last = 0; size = 3 }))
    × (range_headers digit last_two ≡ ok (record { start = 1; last = 2; size = 3 }))
unfolding range_headers parse_range number digits after
ranged_headers = (refl, refl)

probe-Honest : Honest digit object probe
unfolding concat
probe-Honest = record {
  sized = λ range h. ground (arith, h, ranged_headers.0);
  cut = λ range h.
      let same : record { start = 0; last = 0; size = 3 } ≡ range =
        ground (arith, h, ranged_headers.0) in
      subst (λ r. (rest : Bytes) × (1 ∷ rest ≡ slice r.start (r.last + 1) object)) same ([], refl);
}

last_two-Honest : Honest digit object last_two
unfolding concat
last_two-Honest = record {
  sized = λ range h. ground (arith, h, ranged_headers.1);
  cut = λ range h.
      let same : record { start = 1; last = 2; size = 3 } ≡ range =
        ground (arith, h, ranged_headers.1) in
      subst (λ r. (rest : Bytes) × (2 ∷ 3 ∷ rest ≡ slice r.start (r.last + 1) object)) same
        ([], refl);
}

abbrev ask : ℕ → ℕ → Option Text → Result Error Response
ask start last etag = ok last_two

abbrev http_object : RangedSource
http_object = record { size = 3; fetch = Http.fetch digit ask 3 none; on_close = none }

http_opened : Http.open_ranged digit ask (answered probe) ≡ ok http_object
unfolding Http.open_ranged range_headers parse_range number digits after strong_etag
http_opened = refl

http_fetched : fetch_range http_object 1 9 ≡ ok (2 ∷ 3 ∷ [])
unfolding fetch_range Http.fetch receive gather range_headers parse_range number digits after
http_fetched = refl

fetch_range-answered_example : 2 ∷ 3 ∷ [] ≡ slice 1 9 object
fetch_range-answered_example =
    fetch_range-answered digit ask object probe http_object probe-Honest
      (λ start last etag r h.
        subst (λ x. Honest digit object x) (ground (arith, h)) last_two-Honest)
      http_opened 1 9 (2 ∷ 3 ∷ []) http_fetched
