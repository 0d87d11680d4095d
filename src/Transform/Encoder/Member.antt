-- ===== src/Transform/Encoder/Member.antt =====
-- The gzip member that the reads of an encoder deliver.
use mountainash_transport.Prelude.{
  ℕ, ◌+◌, ◌≡◌, refl, ◌∙◌, ap, true, false, List, [], ◌∷◌, ◌++◌, length, if◌then◌else◌, arith,
  Bool-cases, inl, inr,
}
use mathlib.Core.List.{append_assoc, append-nil}
use mountainash_transport.Stream.Sequential.{Bytes}
use mountainash_transport.Transform.Encoder.{
  Zlib, low_32, pack_32, gzip_header, Encoder, emit_header, emit_trailer, encode_chunk,
  after_header, fill,
}

module _ (Z : Zlib) where
  -- The compressed data and the trailer, from the running compressor, checksum and size, of the
  -- chunks up to the first that is empty.
  unfoldable pub rest_of_member : List Bytes → Z.State → ℕ → ℕ → Bytes
  rest_of_member [] c crc size = Z.flush c ++ (pack_32 crc ++ pack_32 size)
  rest_of_member ([] ∷ chunks) c crc size = Z.flush c ++ (pack_32 crc ++ pack_32 size)
  rest_of_member ((b ∷ bytes) ∷ chunks) c crc size =
      let (coded, c') = Z.compress (b ∷ bytes) c in
      coded
      ++ rest_of_member chunks c' (low_32 (Z.crc32 (b ∷ bytes) crc))
          (low_32 (size + length (b ∷ bytes)))

  -- RFC 1952: header, compressed data, trailer.
  unfoldable pub member : List Bytes → ℕ → Bytes
  member chunks mtime = gzip_header mtime ++ rest_of_member chunks Z.compressobj 0 0

  body : Encoder Z → Bytes
  body e = rest_of_member (if e.source_exhausted then [] else e.source) e.compressor e.crc e.size

  -- What an encoder has yet to put into its buffer.
  unfoldable pub unbuffered : Encoder Z → Bytes
  unfolding body
  unbuffered e =
      if e.trailer_emitted
      then []
      else (if e.header_emitted then body e else gzip_header e.mtime ++ body e)

  -- What an encoder has yet to deliver.
  unfoldable pub pending : Encoder Z → Bytes
  pending e = e.buffer ++ unbuffered e

  emit_trailer-pending :
      (e : Encoder Z)
      → e.header_emitted ≡ true
      → e.source_exhausted ≡ true
      → pending (emit_trailer Z e) ≡ pending e
  unfolding pending unbuffered emit_trailer rest_of_member
  emit_trailer-pending e h x = ground (
    arith,
    append-nil {0} (e.buffer ++ (Z.flush e.compressor ++ (pack_32 e.crc ++ pack_32 e.size))),
  )

  encode_chunk-pending :
      (source : List Bytes) (e : Encoder Z)
      → e.source ≡ source
      → e.header_emitted ≡ true
      → e.source_exhausted ≡ false
      → e.trailer_emitted ≡ false
      → pending (encode_chunk Z source e) ≡ pending e
  unfolding encode_chunk pending unbuffered rest_of_member
  encode_chunk-pending [] e q h x t =
      emit_trailer-pending (record e { source_exhausted = true }) h refl ∙ ground (arith, q)
  encode_chunk-pending ([] ∷ rest) e q h x t =
      emit_trailer-pending (record e { source = rest; source_exhausted = true }) h refl
      ∙ ground (arith, q)
  encode_chunk-pending ((b ∷ bytes) ∷ rest) e q h x t =
      let chunk : Bytes = b ∷ bytes in
      let (coded, c') = Z.compress chunk e.compressor in
      ground (
        arith,
        q,
        append_assoc e.buffer coded (
            rest_of_member rest c' (low_32 (Z.crc32 chunk e.crc)) (low_32 (e.size + length chunk))),
      )

  emit_header-pending :
      (e : Encoder Z) → e.trailer_emitted ≡ false → pending (emit_header Z e) ≡ pending e
  unfolding emit_header pending unbuffered
  emit_header-pending e t = ground (arith, append_assoc e.buffer (gzip_header e.mtime) (body e))

  pub header-emit_header : (e : Encoder Z) → (emit_header Z e).header_emitted ≡ true
  unfolding emit_header
  header-emit_header e = ground arith

  pub emit_header_flags :
      (e : Encoder Z)
      → ((emit_header Z e).source_exhausted ≡ e.source_exhausted)
        × ((emit_header Z e).trailer_emitted ≡ e.trailer_emitted)
  unfolding emit_header
  emit_header_flags e = ground arith

  after_header-pending :
      (e : Encoder Z)
      → e.header_emitted ≡ true
      → e.trailer_emitted ≡ false
      → pending (after_header Z e) ≡ pending e
  unfolding after_header
  after_header-pending e h t = elim (Bool-cases e.source_exhausted) [
    | inl x ↦ ground (arith, emit_trailer-pending e h x)
    | inr x ↦ ground (arith, encode_chunk-pending e.source e refl h x t)
  ]

  pub fill_lem : (e : Encoder Z) → fill Z e ≡ after_header Z (emit_header Z e)
  unfolding fill
  fill_lem e = refl

  -- Filling the buffer moves bytes of the member into it and loses none.
  pub fill-pending : (e : Encoder Z) → e.trailer_emitted ≡ false → pending (fill Z e) ≡ pending e
  fill-pending e t =
      ap pending (fill_lem e)
      ∙ after_header-pending (emit_header Z e) (header-emit_header e) ((emit_header_flags e).1 ∙ t)
      ∙ emit_header-pending e t
