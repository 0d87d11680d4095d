-- ===== src/Backend/Local/Beneath.antt =====
-- storage/backends/local/local_enumerate.py: the files beneath a directory, in terms of the file system.
use mathlib.Core.List.{Memᴰ}
use mathlib.Core.List.Memᴰ.{cases_cons, head, tail, not-nil}
use mountainash_transport.Prelude.{
  ◌≡◌, refl, sym, ap, subst, ◌↔◌, inl, inr, false, ◌||◌, some, List, [], ◌∷◌, map, ok, Text, codes,
  arith, Bool-cases, Result-cases,
}
use mountainash_transport.Backend.Entry.{StorageEntry, file, prefix}
use mountainash_transport.Backend.Walk.{Found, found_file, found_dir}
use mountainash_transport.Backend.Walk.Exact as Walk
use mountainash_transport.Backend.Local.{
  FileSystem, DirEntry, Stat, Kind, regular, dir, other_kind, found_of, scan, entry_of,
}

-- The entry of a file.
abbrev pub file_entry : FileSystem → DirEntry → Stat → StorageEntry
file_entry fs child attrs = record {
  path = child.path;
  name = fs.basename child.path;
  size = some attrs.size;
  last_modified = some attrs.mtime;
  etag = [];
  content_type = [];
  entry_type = file;
  storage_class = [];
  source = codes "local";
  version_id = [];
  checksum = [];
  checksum_algorithm = [];
}

-- A regular file in the directory, or beneath a directory in it that is no link and no junction.
pub data Beneath (fs : FileSystem) (e : StorageEntry) : Text → Type 0 where
  here :
      {d : Text} (children : List DirEntry) (child : DirEntry) (attrs : Stat)
      → fs.scandir d ≡ ok children
      → Memᴰ child children
      → child.stat ≡ ok attrs
      → attrs.kind ≡ regular
      → e ≡ file_entry fs child attrs
      → Beneath fs e d
  below :
      {d : Text} (children : List DirEntry) (child : DirEntry) (attrs : Stat)
      → fs.scandir d ≡ ok children
      → Memᴰ child children
      → child.stat ≡ ok attrs
      → attrs.kind ≡ dir
      → child.is_symlink ≡ false
      → child.is_junction ≡ false
      → Beneath fs e child.path
      → Beneath fs e d

module _ (fs : FileSystem) where
  found_of-file :
      (child : DirEntry) (e : StorageEntry)
      → found_of fs child ≡ found_file e
      → (attrs : Stat) × (child.stat ≡ ok attrs)
        × (attrs.kind ≡ regular)
        × (e ≡ file_entry fs child attrs)
  unfolding found_of entry_of
  found_of-file child e h = elim (Result-cases child.stat) [
    | inr (x, a) ↦ absurd (ground (arith, a, h))
    | inl (attrs, a) ↦ by attrs a attrs.kind refl
  ]
    where
      by :
          (attrs : Stat)
          → child.stat ≡ ok attrs
          → (k : Kind) → attrs.kind ≡ k
          → (attrs : Stat) × (child.stat ≡ ok attrs)
            × (attrs.kind ≡ regular)
            × (e ≡ file_entry fs child attrs)
      by attrs a regular b = (attrs, a, b, ground (arith, a, b, h))
      by attrs a dir b = absurd (ground (arith, a, b, h))
      by attrs a other_kind b = absurd (ground (arith, a, b, h))

  found_of-dir :
      (child : DirEntry) (x : StorageEntry)
      → found_of fs child ≡ found_dir x
      → (attrs : Stat) × (child.stat ≡ ok attrs)
        × (attrs.kind ≡ dir)
        × (child.is_symlink ≡ false)
        × (child.is_junction ≡ false)
        × (x.path ≡ child.path)
  unfolding found_of entry_of
  found_of-dir child x h = elim (Result-cases child.stat) [
    | inr (e, a) ↦ absurd (ground (arith, a, h))
    | inl (attrs, a) ↦ by attrs a attrs.kind refl
  ]
    where
      by :
          (attrs : Stat)
          → child.stat ≡ ok attrs
          → (k : Kind) → attrs.kind ≡ k
          → (attrs : Stat) × (child.stat ≡ ok attrs)
            × (attrs.kind ≡ dir)
            × (child.is_symlink ≡ false)
            × (child.is_junction ≡ false)
            × (x.path ≡ child.path)
      by attrs a regular b = absurd (ground (arith, a, b, h))
      by attrs a other_kind b = absurd (ground (arith, a, b, h))
      by attrs a dir b = elim (Bool-cases (child.is_symlink || child.is_junction)) [
        | inl c ↦ absurd (ground (arith, a, b, c, h))
        | inr c ↦
            let made : ◌≡◌ {A = Found} (found_dir (entry_of fs child.path attrs prefix))
                (found_dir x) =
              ground (arith, a, b, c, h) in
            (attrs, a, b, ground (arith, c), ground (arith, c), ground (arith, made))
      ]

  map-mem :
      (child : DirEntry) (children : List DirEntry)
      → Memᴰ child children
      → Memᴰ (found_of fs child) (map (found_of fs) children)
  map-mem child [] m = absurd (not-nil m)
  map-mem child (c ∷ cs) m = elim (cases_cons m) [
    | inl a ↦ head (ap (found_of fs) a)
    | inr n ↦ tail (map-mem child cs n)
  ]

  mem-map :
      (x : Found) (children : List DirEntry)
      → Memᴰ x (map (found_of fs) children)
      → (child : DirEntry) × Memᴰ child children × (found_of fs child ≡ x)
  mem-map x [] m = absurd (not-nil m)
  mem-map x (c ∷ cs) m = elim (cases_cons m) [
    | inl a ↦ (c, head refl, sym a)
    | inr n ↦ let (child, k, e) = mem-map x cs n in (child, tail k, e)
  ]

  scan-scandir :
      (d : Text) (found : List Found)
      → scan fs d ≡ ok found
      → (children : List DirEntry) × (fs.scandir d ≡ ok children)
        × (map (found_of fs) children ≡ found)
  unfolding scan
  scan-scandir d found h = elim (Result-cases (fs.scandir d)) [
    | inl (children, a) ↦ (children, a, ground (arith, a, h))
    | inr (e, a) ↦ absurd (ground (arith, a, h))
  ]

  -- The files that the loop comes to, by what it finds, are the files beneath.
  Beneath-found : {e : StorageEntry} {d : Text} → Walk.Beneath (scan fs) e d → Beneath fs e d
  Beneath-found {e} {d} (Walk.Beneath.here found s m) =
      let (children, a, b) = scan-scandir d found s in
      let (child, k, f) =
        mem-map (found_file e) children (subst (λ l. Memᴰ (found_file e) l) (sym b) m) in
      let (attrs, c, r, q) = found_of-file child e f in Beneath.here children child attrs a k c r q
  Beneath-found {e} {d} (Walk.Beneath.below found x s m more) =
      let (children, a, b) = scan-scandir d found s in
      let (child, k, f) =
        mem-map (found_dir x) children (subst (λ l. Memᴰ (found_dir x) l) (sym b) m) in
      let (attrs, c, r, y, z, p) = found_of-dir child x f in
      Beneath.below children child attrs a k c r y z
        (subst (λ t. Beneath fs e t) p (Beneath-found more))

  found-Beneath : {e : StorageEntry} {d : Text} → Beneath fs e d → Walk.Beneath (scan fs) e d
  unfolding scan found_of entry_of
  found-Beneath {e} {d} (Beneath.here children child attrs a m c r q) =
      let f : found_of fs child ≡ found_file e = ground (arith, c, r, q) in
      Walk.Beneath.here (map (found_of fs) children) (ground (arith, a))
        (subst (λ x. Memᴰ x (map (found_of fs) children)) f (map-mem child children m))
  found-Beneath {e} {d} (Beneath.below children child attrs a m c r y z more) =
      let x = entry_of fs child.path attrs prefix in
      let f : found_of fs child ≡ found_dir x = ground (arith, c, r, y, z) in
      Walk.Beneath.below (map (found_of fs) children) x (ground (arith, a))
        (subst (λ t. Memᴰ t (map (found_of fs) children)) f (map-mem child children m))
        (found-Beneath more)

  pub Beneath-iff : (e : StorageEntry) (d : Text) → Walk.Beneath (scan fs) e d ↔ Beneath fs e d
  Beneath-iff e d = (Beneath-found, found-Beneath)
