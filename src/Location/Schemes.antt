-- ===== src/Location/Schemes.antt =====
-- _schemes.py, with the providers of _core/constants.py, and `identify_scheme` of location.py.
use mountainash_transport.Prelude.{
  ◌≡◌, refl, subst, Bool, Bool-cases, true, false, ◌&&◌, ◌||◌, Option, Option-cases, none, some,
  List, [], ◌∷◌, ◌++◌, String, inl, inr, Text, codes, text_eq, lower, ◌==◌, if◌then◌else◌, ◌is◌,
  Result, ok, err, arith, get_or_else,
}
use mountainash_transport.Prelude.Dict
use mountainash_transport.Prelude.Dict.{Dict}
use mountainash_transport.Errors.{Error, value_error}

pub data Provider : Type 0 where
  local s3 s3express azure_blob azure_files gcs sftp ftp smb nfs minio ssh b2 github r2 http :
      Provider

pub record SchemeSpec : Type 0 where
  pub scheme : Text
  pub aliases : List Text
  pub strict : Bool
  pub provider : Option Provider

abbrev spec : String → List Text → Provider → Text × SchemeSpec
spec scheme aliases provider = (
  codes scheme,
  record { scheme = codes scheme; aliases = aliases; strict = true; provider = some provider },
)

-- `SCHEMES`
abbrev pub schemes : Dict Text SchemeSpec
schemes =
    (codes "", record { scheme = codes ""; aliases = []; strict = false; provider = some local })
    ∷ spec "file" [] local
    ∷ spec "s3" [] s3
    ∷ spec "s3express" [] s3express
    ∷ spec "gs" (codes "gcs" ∷ []) gcs
    ∷ spec "azure" (codes "az" ∷ []) azure_blob
    ∷ spec "r2" [] r2
    ∷ spec "minio" [] minio
    ∷ spec "b2" [] b2
    ∷ spec "sftp" [] sftp
    ∷ spec "ssh" [] ssh
    ∷ spec "ftp" [] ftp
    ∷ spec "smb" [] smb
    ∷ spec "github" [] github
    ∷ spec "http" [] http
    ∷ spec "https" [] http
    ∷ []

aliases_of : List Text → Text → Dict Text Text
aliases_of [] scheme = []
aliases_of (alias ∷ rest) scheme = (alias, scheme) ∷ aliases_of rest scheme

all_aliases : Dict Text SchemeSpec → Dict Text Text
unfolding aliases_of
all_aliases [] = []
all_aliases ((key, s) ∷ rest) = aliases_of s.aliases s.scheme ++ all_aliases rest

-- `_ALIAS_TO_CANONICAL`
unfoldable pub alias_to_canonical : Dict Text Text
unfolding all_aliases
alias_to_canonical = all_aliases schemes

-- What the program reads of `urlsplit`: a `hostname` of None is the empty text.
pub record SplitResult : Type 0 where
  pub scheme : Text
  pub netloc : Text
  pub path : Text
  pub query : Text
  pub fragment : Text
  pub hostname : Text

-- What the program reads of `urlparse`, and gives to `urlunparse`.
pub record ParseResult : Type 0 where
  pub scheme : Text
  pub netloc : Text
  pub path : Text
  pub params : Text
  pub query : Text
  pub fragment : Text

-- What the program uses of Python and the platform, on paths and names. `none` of `urlsplit` is a
-- `ValueError`, and of `idna` (`host.encode("idna").decode("ascii").lower()`) a `UnicodeError`.
-- `scandir` gives the names of the directories and of the other entries that `os.walk` finds in a
-- directory, none where it cannot be read. `upath` is `str(UPath(text))`, `none` for a scheme that UPath does not support, and `expanded` is
-- `str(UPath(text).expanduser())`.
pub record Platform : Type 0 where
  pub is_nt : Bool
  pub urlsplit : Text → Option SplitResult
  pub urlparse : Text → Option ParseResult
  pub urlunparse : ParseResult → Text
  pub upath : Text → Option Text
  pub expanded : Text → Text
  pub idna : Text → Option Text
  pub unquote : Text → Text
  pub isabs : Text → Bool
  pub lexists : Text → Bool
  pub isdir : Text → Bool
  pub realpath : Text → Text
  pub scandir : Text → List Text × List Text
  pub split : Text → Text × Text
  pub join : Text → Text → Text
  pub basename : Text → Text
  pub is_relative_to : Text → Text → Bool

is_drive : Text → Bool
is_drive (a ∷ b ∷ c ∷ rest) = (b == b':') && ((c == b'\\') || (c == b'/'))
is_drive _ = false

is_unc : Text → Bool
is_unc (a ∷ b ∷ rest) = (a == b'\\') && (b == b'\\')
is_unc _ = false

canonical : Text → Option Text
canonical scheme =
    let name = get_or_else (Dict.lookup scheme alias_to_canonical) scheme in
    elim (Dict.lookup name schemes) [ none ↦ none | some s ↦ some name ]

scheme_of : Option SplitResult → Result Error (Option Text)
unfolding canonical
scheme_of none = err value_error
scheme_of (some parts) =
    let scheme = lower parts.scheme in
    if scheme is codes ""
    then ok (some [])
    else if scheme is codes "file"
    then ok (some (codes "file"))
    else ok (canonical scheme)

-- `identify_scheme`: `none` for a scheme that is not known.
unfoldable pub identify_scheme : Platform → Text → Result Error (Option Text)
unfolding is_drive is_unc scheme_of
identify_scheme P location =
    if P.is_nt && (is_drive location || is_unc location)
    then ok (some [])
    else scheme_of (P.urlsplit location)

-- A scheme that a table has, under its own name.
abbrev pub IsKnown : Text → Type 0
IsKnown name = (s : SchemeSpec) × (Dict.lookup name schemes ≡ some s)

canonical-IsKnown : (scheme name : Text) → canonical scheme ≡ some name → IsKnown name
unfolding canonical
canonical-IsKnown scheme name h = go (get_or_else (Dict.lookup scheme alias_to_canonical) scheme) h
  where
    go :
        (n : Text)
        → (elim (Dict.lookup n schemes) [ none ↦ none | some s ↦ some n ]) ≡ some name
        → IsKnown name
    go n e = elim (Option-cases (Dict.lookup n schemes)) [
      | inl q ↦ absurd (ground (arith, q, e))
      | inr (s, q) ↦ (s, ground (arith, q, e))
    ]

subst-IsKnown :
    (n name : Text)
    → IsKnown n
    → ◌≡◌ {A = Result Error (Option Text)} (ok (some n)) (ok (some name))
    → IsKnown name
subst-IsKnown n name k e = let p : n ≡ name = ground (arith, e) in subst IsKnown p k

scheme_of-IsKnown :
    (parts : Option SplitResult) (name : Text) → scheme_of parts ≡ ok (some name) → IsKnown name
unfolding scheme_of Dict.lookup
scheme_of-IsKnown none name h = absurd (ground (arith, h))
scheme_of-IsKnown (some parts) name h = elim (Bool-cases (lower parts.scheme is codes "")) [
  | inl q ↦ subst-IsKnown [] name (_, refl) (ground (arith, q, h))
  | inr q ↦ elim (Bool-cases (lower parts.scheme is codes "file")) [
    | inl q' ↦ subst-IsKnown (codes "file") name (_, refl) (ground (arith, q, q', h))
    | inr q' ↦ canonical-IsKnown (lower parts.scheme) name (ground (arith, q, q', h))
  ]
]

-- On any platform, a scheme that `identify_scheme` gives, aliases replaced, is one of the table's.
pub identify_scheme-IsKnown :
    (P : Platform) (location name : Text)
    → identify_scheme P location ≡ ok (some name)
    → IsKnown name
unfolding identify_scheme Dict.lookup
identify_scheme-IsKnown P location name h =
    elim (Bool-cases (P.is_nt && (is_drive location || is_unc location))) [
      | inl q ↦ subst-IsKnown [] name (_, refl) (ground (arith, q, h))
      | inr q ↦ scheme_of-IsKnown (P.urlsplit location) name (ground (arith, q, h))
    ]
