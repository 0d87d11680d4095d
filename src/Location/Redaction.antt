-- ===== src/Location/Redaction.antt =====
-- `_redact` of location.py: a location without the user info of its authority, for messages.
pub mod Authority
use mountainash_transport.Prelude.{
  ℕ, Bool, true, false, ◌||◌, Option, none, some, List, [], ◌∷◌, ◌++◌, Text, leb, ◌==◌, contains,
  nat_eq, if◌then◌else◌,
}
use mathlib.Core.List.{reverse}

-- `_C0_OR_SPACE`
abbrev is_c0_or_space : ℕ → Bool
is_c0_or_space c = leb c 0x20

lstrip : Text → Text
lstrip [] = []
lstrip (c ∷ text) = let rest = lstrip text in if is_c0_or_space c then rest else c ∷ text

-- Without tabs, carriage returns and newlines, which urllib ignores.
unbroken : Text → Text
unbroken [] = []
unbroken (c ∷ text) =
    let rest = unbroken text in if (c == 0x9) || ((c == 0xd) || (c == 0xa)) then rest else c ∷ rest

unfoldable pub cleaned : Text → Text
unfolding lstrip unbroken
cleaned location = unbroken (reverse (lstrip (reverse (lstrip location))))

prefixed : ℕ → Option (Text × Text) → Option (Text × Text)
prefixed c none = none
prefixed c (some (front, rest)) = some (c ∷ front, rest)

-- A text cut after its first `//`.
unfoldable pub split_slashes : Text → Option (Text × Text)
unfolding prefixed
split_slashes [] = none
split_slashes (c ∷ []) = none
split_slashes (c ∷ d ∷ text) =
    let later = split_slashes (d ∷ text) in
    if c == b'/'
    then (if d == b'/' then some (c ∷ d ∷ [], text) else prefixed c later)
    else prefixed c later

abbrev pub is_end : ℕ → Bool
is_end c = (c == b'/') || ((c == b'?') || (c == b'#'))

-- A text cut where its authority ends: before the first of `/`, `?` and `#`.
unfoldable pub split_authority : Text → Text × Text
split_authority [] = ([], [])
split_authority (c ∷ text) =
    let rest = split_authority text in if is_end c then ([], c ∷ text) else (c ∷ rest.0, rest.1)

-- What follows the last `@`, or the whole where there is none.
unfoldable pub after_at : Text → Text
after_at [] = []
after_at (c ∷ text) =
    let rest = after_at text in
    if contains text b'@' then rest else if c == b'@' then text else c ∷ text

unfoldable pub redact_authority : Text → Text
unfolding split_authority after_at
redact_authority text = let parts = split_authority text in after_at parts.0 ++ parts.1

redact_from : Text → Option (Text × Text) → Text
unfolding redact_authority
redact_from text none = text
redact_from text (some (front, rest)) = front ++ redact_authority rest

-- `_redact`
unfoldable pub redact : Text → Text
unfolding redact_from cleaned split_slashes
redact location = redact_from (cleaned location) (split_slashes (cleaned location))
