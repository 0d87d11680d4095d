-- ===== src/Http/Engine/Headers.antt =====
-- Whose headers win in a request.
use mountainash_transport.Prelude.{◌≡◌, refl, ◌∙◌, ap, Option, none, some, [], String, string_eq}
use mountainash_transport.Prelude.Dict
use mountainash_transport.Http.Engine.{Headers, merge_headers}

-- The auth strategy's header of a name.
abbrev pub auth_header : Option Headers → String → Option String
auth_header none name = none
auth_header (some auth) name = Dict.lookup name auth

abbrev pub IsMapping : Option Headers → Type 0
IsMapping none = Unit
IsMapping (some auth) = Dict.IsDict auth

-- In the merged headers every name has the caller's value, where the caller gives one, and else the
-- auth strategy's, where there is one and it gives one; no other name occurs.
pub lookup-merge_headers :
    (auth : Option Headers) (caller : Headers) (name : String)
    → IsMapping auth
    → Dict.IsDict caller
    → Dict.lookup name (merge_headers auth caller)
      ≡ Dict.or_else (Dict.lookup name caller) (auth_header auth name)
unfolding merge_headers Dict.lookup
lookup-merge_headers none caller name h k = Dict.lookup-update name [] caller k
lookup-merge_headers (some auth) caller name h k =
    Dict.lookup-update name (Dict.update [] auth) caller k
    ∙ ap (λ o. Dict.or_else (Dict.lookup name caller) o)
        (Dict.lookup-update name [] auth h ∙ or_none (Dict.lookup name auth))
  where
    or_none : (o : Option String) → Dict.or_else o none ≡ o
    or_none none = refl
    or_none (some v) = refl
