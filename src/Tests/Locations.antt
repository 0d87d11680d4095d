-- ===== src/Tests/Locations.antt =====
-- Examples of _schemes.py, location.py and storage/path_helpers.
use mathlib.Core.List.{append-nil}
use mountainash_transport.Prelude.{
  ℕ, ◌≡◌, refl, sym, ◌∙◌, inl, inr, drop, Bool-cases, ◌≢◌, ◌⊎◌, Bool, true, false, Option, none,
  some, [], ◌∷◌, ◌++◌, Text, codes, text_eq, length, lower_char, ap, ◌<◌, Result, ok, ◌==◌, arith,
  ◌is◌, take, if◌then◌else◌, contains, nat_eq,
}
use mountainash_transport.Prelude.Dict
use mountainash_transport.Errors.{Error}
use mountainash_transport.Location.Schemes.{Platform, SplitResult, identify_scheme}
use mountainash_transport.Location.Policy.{LocationPolicy, local_path, confine_local, allow_remote}
use mountainash_transport.Location.Policy.Confined.{Shortens, Within, confine_local-Within}
use mountainash_transport.Location.Policy.Remote.{Allows, IsProfileHost, allow_remote-Allows}
use mountainash_transport.Location.Redaction.{redact}
use mountainash_transport.Location.Redaction.Authority.{authority, contains-redact}
use mountainash_transport.Storage.Helpers.{parse_s3_path}
use mountainash_transport.Storage.Helpers as Helpers
use mountainash_transport.Storage.Helpers.Buckets.{Writes, parse_s3_path-Writes}
use mountainash_transport.Storage.Suffixes.{gzip, gpg, chain}
use mountainash_transport.Storage.Suffixes.Chain.{Infers, IsPure, is_name, name_of, chain-Infers}

abbrev pub scheme_part : Text → Text
scheme_part [] = []
scheme_part (c ∷ rest) = let more = scheme_part rest in if c == b':' then [] else c ∷ more

abbrev pub has_colon : Text → Bool
has_colon [] = false
has_colon (c ∷ rest) = let more = has_colon rest in if c == b':' then true else more

abbrev pub split_url : Text → SplitResult
split_url location = record {
  scheme = if has_colon location then scheme_part location else [];
  netloc = [];
  path = location;
  query = [];
  fragment = [];
  hostname = codes "host";
}

abbrev pub drop_last : Text → Text
drop_last [] = []
drop_last (c ∷ []) = []
drop_last (c ∷ d ∷ rest) = c ∷ drop_last (d ∷ rest)

abbrev pub last : Text → Text
last [] = []
last (c ∷ []) = c ∷ []
last (c ∷ d ∷ rest) = last (d ∷ rest)

-- A platform on which only the directory "r" exists, and a path splits before its last character.
abbrev pub platform : Platform
platform = record {
  is_nt = false;
  urlsplit = λ location. some (split_url location);
  urlparse = λ location. none;
  urlunparse = λ parts. parts.path;
  upath = λ text. some text;
  expanded = λ text. text;
  idna = λ host. some host;
  unquote = λ text. text;
  isabs = λ path. true;
  lexists = λ path. path is codes "r";
  isdir = λ path. path is codes "r";
  realpath = λ path. path;
  scandir = λ path. if path is codes "r" then (codes "s" ∷ [], codes "f" ∷ []) else ([], []);
  split = λ path. (drop_last path, last path);
  join = λ a b. a ++ b;
  basename = λ path. path;
  is_relative_to = λ path root. take (length root) path is root;
}

length-drop_last : (c : ℕ) (path : Text) → length (drop_last (c ∷ path)) ≡ length path
length-drop_last c [] = refl
length-drop_last c (d ∷ path) = omega (arith, length-drop_last d path)

platform-Shortens : Shortens platform
platform-Shortens [] h = absurd (h refl)
platform-Shortens (c ∷ path) h = omega (arith, length-drop_last c path)

abbrev pub policy : LocationPolicy
policy = record {
  root = some (codes "r");
  allowed_remote = (codes "s3", codes "data" ∷ []) ∷ (codes "http", []) ∷ [];
  allow_unconfined = false;
}

confine_local-Within_example :
    Within platform (codes "r") (confine_local platform 5 (codes "/ab") (some policy))
confine_local-Within_example =
    confine_local-Within platform platform-Shortens 5 (codes "/ab") (codes "r") policy refl refl
      (λ path h. fits path (unfold local_path identify_scheme in h))
  where
    fits :
        (path : Text)
        → ◌≡◌ {A = Result Error Text} (ok (codes "/ab")) (ok path)
        → length (codes "r" ++ path) < 5
    fits path h =
        let e : codes "/ab" ≡ path = ground (arith, h) in omega (arith, ap (length {A = ℕ}) e)

allow_remote-Allows_example :
    (want : Text) × (◌≡◌ {A = Option Text} (some (codes "data")) (some want))
    × (IsProfileHost platform want none
        ⊎ Allows platform want (Dict.lookup (codes "s3") policy.allowed_remote))
allow_remote-Allows_example =
    allow_remote-Allows platform (codes "s3") (codes "data") policy none refl
      (unfold allow_remote Dict.lookup in refl)

parse_s3_path-Writes_example :
    (codes "data" ≢ []) × Writes (codes "data/a/b") (codes "data") (codes "a/b")
parse_s3_path-Writes_example =
    parse_s3_path-Writes platform (codes "data/a/b") (codes "data") (codes "a/b")
      (unfold Helpers.identify_scheme identify_scheme in refl)
      (unfold parse_s3_path identify_scheme Dict.lookup in refl)

-- The suffix of a path, where the path is one of these.
abbrev suffix : Text → Text
suffix path =
    if path is codes "a.csv.gz.GPG"
    then codes ".GPG"
    else if path is codes "a.csv.gz"
    then codes ".gz"
    else if path is codes "a.csv"
    then codes ".csv"
    else []

suffix-IsPure : IsPure suffix
suffix-IsPure = record { splits = λ path n. splits path }
  where
    -- A path that is one of these.
    at :
        (path stem : Text) (whole : Text)
        → is_name (name_of stem) ≡ true
        → suffix whole ≡ drop (length stem) whole
        → whole ≡ stem ++ drop (length stem) whole
        → path ≡ whole
        → (stem : Text) × (path ≡ stem ++ suffix path)
          × ((suffix path ≡ []) ⊎ (is_name (name_of stem) ≡ true))
    at path stem whole n e w p = (stem, p ∙ w ∙ ap (λ s. stem ++ s) (sym (ap suffix p ∙ e)), inr n)

    splits :
        (path : Text)
        → (stem : Text) × (path ≡ stem ++ suffix path)
          × ((suffix path ≡ []) ⊎ (is_name (name_of stem) ≡ true))
    splits path = elim (Bool-cases (path is codes "a.csv.gz.GPG")) [
      | inl a ↦
          at path (codes "a.csv.gz") (codes "a.csv.gz.GPG") (unfold name_of in refl) refl refl
            ((text_eq.beq_iff path (codes "a.csv.gz.GPG")).0 a)
      | inr a ↦ elim (Bool-cases (path is codes "a.csv.gz")) [
        | inl b ↦
            at path (codes "a.csv") (codes "a.csv.gz") (unfold name_of in refl) refl refl
              ((text_eq.beq_iff path (codes "a.csv.gz")).0 b)
        | inr b ↦ elim (Bool-cases (path is codes "a.csv")) [
          | inl c ↦
              at path (codes "a") (codes "a.csv") (unfold name_of in refl) refl refl
                ((text_eq.beq_iff path (codes "a.csv")).0 c)
          | inr c ↦
              let none_left : suffix path ≡ [] = ground (arith, a, b, c) in
              (path, sym (ap (λ s. path ++ s) none_left ∙ append-nil path), inl none_left)
        ]
      ]
    ]

chain-Infers_example :
    Infers suffix gzip none
      (some gpg)
      (codes "a.csv.gz.GPG")
      (chain suffix gzip none (some gpg) 20 (codes "a.csv.gz.GPG"))
chain-Infers_example =
    chain-Infers suffix gzip none (some gpg) suffix-IsPure 20 (codes "a.csv.gz.GPG")
      (inr (unfold name_of in refl)) (omega arith)

chain_run :
    chain suffix gzip none (some gpg) 20 (codes "a.csv.gz.GPG")
    ≡ some (ok (gpg ∷ gzip ∷ [], codes "a.csv"))
unfolding chain Dict.lookup lower_char
chain_run = refl

contains-redact_example :
    contains (authority (redact (codes " s3://user:p@ss@host/a@b"))) b'@' ≡ false
contains-redact_example = contains-redact (codes " s3://user:p@ss@host/a@b")

redact_run : redact (codes " s3://user:p@ss@host/a@b") ≡ codes "s3://host/a@b"
unfolding redact
redact_run = refl
