-- ===== src/Stream/Ranged/Seeking.antt =====
-- Seeking in a `RangedReader`.
use mountainash_transport.Prelude.{ℕ, ◌≡◌, false, Option, none, some, ok, ℤ, pos, ◌+ℤ◌, arith}
use mountainash_transport.Stream.Ranged.{
  RangedReader, Cache, Whence, seek_set, seek_cur, seek_end, invalid_whence, seek, tell,
}

module _ (C : Cache) where
  -- Where an offset is counted from.
  abbrev pub base : RangedReader C → Whence → Option ℕ
  base r seek_set = some 0
  base r seek_cur = some r.position
  base r seek_end = some r.source.size
  base r invalid_whence = none

  -- Where a seek of an open reader returns, it returns the base plus the offset, which is not
  -- negative, and `tell` then gives the same; the source and the cache are the same.
  pub tell-seek :
      (r : RangedReader C) (offset : ℤ) (whence : Whence) (b n : ℕ)
      → r.closed ≡ false
      → base r whence ≡ some b
      → (seek C offset whence r).0 ≡ ok n
      → let r' = (seek C offset whence r).1 in
        (pos b +ℤ offset ≡ pos n)
        × (tell C r' ≡ ok n)
        × (r'.source ≡ r.source)
        × (r'.cache ≡ r.cache)
  unfolding seek tell
  tell-seek r offset seek_set b n h k e = ground arith
  tell-seek r offset seek_cur b n h k e = ground arith
  tell-seek r offset seek_end b n h k e = ground arith
  tell-seek r offset invalid_whence b n h k e = ground arith
