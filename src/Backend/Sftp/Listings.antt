-- ===== src/Backend/Sftp/Listings.antt =====
-- storage/backends/sftp: which server a path names, and what `list_objects` gives.
use mathlib.Core.List.{Memᴰ}
use mountainash_transport.Prelude.{
  ℕ, ◌≤◌, ◌≡◌, sym, ap, ◌∙◌, ◌↔◌, inl, inr, true, false, not, ◌||◌, Option, none, some, [], ◌∷◌, ok,
  ◌>>=◌, Text, text_eq, text_beq_iff, ◌is◌, ℤ, pos, pos_part, ltb_ℤ, ◌==◌, ==_iff, get_or_else,
  arith, Bool-cases, Option-cases, >>=-eq-ok,
}
use mountainash_transport.Location.Schemes.{Platform}
use mountainash_transport.Location.Policy.{url_host, norm_host}
use mountainash_transport.Backend.Entry.{StorageEntry, EnumerateResult}
use mountainash_transport.Backend.Walk.{from}
use mountainash_transport.Backend.Walk.Exact.{Beneath}
use mountainash_transport.Backend.Walk.Enumerate.{count_result, enumerate-count, enumerate-Beneath}
use mountainash_transport.Backend.Sftp.{
  Endpoint, is_sftp_url, same_host, path_at, remote_path, Client, Attributes, dir,
  require_file_type, scan, target, list_objects,
}

-- The server that a URL names, at the endpoint of a profile.
pub record Names (P : Platform) (port_of : Text → Option (Option ℕ)) (profile : Endpoint)
    (path : Text) : Type 0 where
  pub host : Text
  pub name : Text
  pub port : Option ℕ
  pub url_has : url_host P path ≡ ok host
  pub profile_has : profile.host ≡ some name
  pub same_name : norm_host P name ≡ some host
  pub port_has : port_of path ≡ some port
  pub same_port : get_or_else port 22 ≡ profile.port

module _ (P : Platform) (port_of : Text → Option (Option ℕ)) (profile : Endpoint) where
  same_host-names :
      (host : Text)
      → same_host P port_of profile host ≡ true
      → (name : Text) × (profile.host ≡ some name) × (norm_host P name ≡ some host)
  same_host-names host h = elim (Option-cases profile.host) [
    | inl a ↦ absurd (ground (arith, h, a))
    | inr (name, a) ↦ elim (Option-cases (norm_host P name)) [
      | inl b ↦ absurd (ground (arith, h, a, b))
      | inr (normal, b) ↦
          let same : host ≡ normal = ground (arith, h, a, b, text_beq_iff host normal) in
          (name, a, b ∙ ap some (sym same))
    ]
  ]

  path_at-names :
      (path host result : Text)
      → path_at P port_of profile path host ≡ ok result
      → (port : Option ℕ) × (port_of path ≡ some port)
        × (get_or_else port 22 ≡ profile.port)
        × (same_host P port_of profile host ≡ true)
  unfolding path_at
  path_at-names path host result h = elim (Option-cases (P.urlsplit path)) [
    | inl a ↦ absurd (ground (arith, h, a))
    | inr (parts, a) ↦ elim (Option-cases (port_of path)) [
      | inl b ↦ absurd (ground (arith, h, a, b))
      | inr (port, b) ↦ elim (Bool-cases (not (parts.query is []) || not (parts.fragment is []))) [
        | inl c ↦ absurd (ground (arith, h, a, b, c))
        | inr c ↦ elim (Bool-cases (same_host P port_of profile host)) [
          | inr d ↦ absurd (ground (arith, h, a, b, c, d))
          | inl d ↦ elim (Bool-cases (get_or_else port 22 == profile.port)) [
            | inr e ↦ absurd (ground (arith, h, a, b, c, d, e))
            | inl e ↦ (port, b, (==_iff (get_or_else port 22) profile.port).0 e, d)
          ]
        ]
      ]
    ]
  ]

  -- A path that is an SFTP URL is taken only where its host, in its normal form, is the one of the
  -- profile, and its port, 22 where it has none, is the profile's.
  pub remote_path-Names :
      (path result : Text)
      → is_sftp_url P port_of path ≡ true
      → remote_path P port_of profile path ≡ ok result
      → Names P port_of profile path
  unfolding remote_path
  remote_path-Names path result u h =
      let (host, a, b) = >>=-eq-ok (url_host P path) _ (sym (taken u) ∙ h) in
      let (port, c, d, e) = path_at-names path host result b in
      let (name, f, g) = same_host-names host e in
      record {
        host = host;
        name = name;
        port = port;
        url_has = a;
        profile_has = f;
        same_name = g;
        port_has = c;
        same_port = d;
      }
    where
      taken :
          is_sftp_url P port_of path ≡ true
          → remote_path P port_of profile path
            ≡ (url_host P path >>= λ host. path_at P port_of profile path host)
      taken v = ground (arith, v)

module _ (C : Client) (P : Platform) (port_of : Text → Option (Option ℕ)) (profile : Endpoint)
    (fuel : ℕ) where
  -- A listing with a limit that succeeds has a limit that is not negative, and has at most so many
  -- files and prefixes.
  pub list_objects-Capped :
      (path : Text) (delimiter : Option Text) (n : ℤ) (r : EnumerateResult)
      → list_objects C P port_of profile fuel path delimiter (some n) ≡ some (ok r)
      → (ltb_ℤ n (pos 0) ≡ false) × (count_result r ≤ pos_part n)
  unfolding list_objects
  list_objects-Capped path delimiter n r h =
      enumerate-count (scan C) fuel (remote_path P port_of profile path) (target C) delimiter n r h

  target-dir :
      (path : Text) (attrs : Attributes)
      → C.stat path ≡ ok attrs
      → attrs.file_type ≡ some dir
      → target C path ≡ ok (from (path ∷ []))
  unfolding target require_file_type
  target-dir path attrs h k = ground (arith, h, k)

  -- A listing of a remote directory without a limit and a delimiter that succeeds has a file
  -- exactly where it lies beneath the directory, by directories that are no links.
  pub list_objects-Remote :
      (path remote : Text) (attrs : Attributes) (r : EnumerateResult) (e : StorageEntry)
      → remote_path P port_of profile path ≡ ok remote
      → C.stat remote ≡ ok attrs
      → attrs.file_type ≡ some dir
      → list_objects C P port_of profile fuel path none none ≡ some (ok r)
      → Memᴰ e r.objects ↔ Beneath (scan C) e remote
  unfolding list_objects
  list_objects-Remote path remote attrs r e p h k g =
      enumerate-Beneath (scan C) fuel (remote_path P port_of profile path) (target C) remote remote
        r e p (target-dir remote attrs h k) g
