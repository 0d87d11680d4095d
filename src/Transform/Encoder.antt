-- ===== src/Transform/Encoder.antt =====
-- _core/transforms/_stream_encoder.py: a gzip member made on demand.
pub mod Member
pub mod Delivery
pub mod Trailer
use mountainash_transport.Prelude.{
  ℕ, zero, suc, ◌+◌, ◌/◌, ◌%◌, ◌^◌, min, Bool, true, false, not, ◌&&◌, Option, none, some, List, [],
  ◌∷◌, ◌++◌, length, take, drop, ltb, if◌then◌else◌,
}
use mountainash_transport.Stream.Sequential.{Bytes}

-- What the code uses of `zlib`: a raw deflate compressor, and the checksum.
pub record Zlib : Type 1 where
  pub State : Type 0
  pub compressobj : State
  pub compress : Bytes → State → Bytes × State
  pub flush : State → Bytes
  pub crc32 : Bytes → ℕ → ℕ

-- `& 0xFFFFFFFF`
abbrev pub low_32 : ℕ → ℕ
low_32 n = n % 2 ^ 32

-- `struct.pack("<I", n)`
unfoldable pub pack_32 : ℕ → Bytes
pack_32 n = (n % 256) ∷ (n / 256 % 256) ∷ (n / 65536 % 256) ∷ (n / 16777216 % 256) ∷ []

-- `_gzip_header(mtime)`
unfoldable pub gzip_header : ℕ → Bytes
unfolding pack_32
gzip_header mtime = 0x1f ∷ 0x8b ∷ 0x08 ∷ 0x00 ∷ (pack_32 (low_32 mtime) ++ 0x00 ∷ 0xff ∷ [])

module _ (Z : Zlib) where
  -- `GzipCompressingReader`. The source is what its reads of a chunk will return, one after the
  -- other, and then nothing.
  pub record Encoder : Type 0 where
    pub source : List Bytes
    pub buffer : Bytes
    pub source_exhausted : Bool
    pub trailer_emitted : Bool
    pub header_emitted : Bool
    pub crc : ℕ
    pub size : ℕ
    pub mtime : ℕ
    pub compressor : Z.State

  -- `__init__`
  unfoldable pub encoder : List Bytes → ℕ → Encoder
  encoder source mtime = record {
    source = source;
    buffer = [];
    source_exhausted = false;
    trailer_emitted = false;
    header_emitted = false;
    crc = 0;
    size = 0;
    mtime = mtime;
    compressor = Z.compressobj;
  }

  pub emit_header : Encoder → Encoder
  emit_header e =
      if e.header_emitted
      then e
      else record e { buffer = e.buffer ++ gzip_header e.mtime; header_emitted = true }

  emit_trailer : Encoder → Encoder
  emit_trailer e = if e.trailer_emitted then e else record e {
    buffer = e.buffer ++ (Z.flush e.compressor ++ (pack_32 e.crc ++ pack_32 e.size));
    trailer_emitted = true;
  }

  -- The branch that reads a chunk, on what the read returns.
  encode_chunk : List Bytes → Encoder → Encoder
  encode_chunk [] e = emit_trailer (record e { source_exhausted = true })
  encode_chunk ([] ∷ rest) e = emit_trailer (record e { source = rest; source_exhausted = true })
  encode_chunk ((b ∷ bytes) ∷ rest) e =
      let chunk = b ∷ bytes in
      let (coded, compressor') = Z.compress chunk e.compressor in
      record e {
        source = rest;
        crc = low_32 (Z.crc32 chunk e.crc);
        size = low_32 (e.size + length chunk);
        buffer = e.buffer ++ coded;
        compressor = compressor';
      }

  pub after_header : Encoder → Encoder
  after_header e = if e.source_exhausted then emit_trailer e else encode_chunk e.source e

  -- `_fill()`
  unfoldable pub fill : Encoder → Encoder
  unfolding emit_header emit_trailer encode_chunk after_header
  fill e = after_header (emit_header e)

  -- The loop of `readinto`; `none` is fuel run out.
  fill_loop : ℕ → ℕ → Encoder → Option Encoder
  fill_loop zero n e = none
  fill_loop (suc fuel) n e = elim (ltb (length e.buffer) n && not e.trailer_emitted) [
    | true ↦ fill_loop fuel n (fill e)
    | false ↦ some e
  ]

  take_buffer : ℕ → Option Encoder → Option (Bytes × Encoder)
  take_buffer n none = none
  take_buffer n (some e) =
      let k = min n (length e.buffer) in
      some (take k e.buffer, record e { buffer = drop k e.buffer })

  -- `readinto(b)` of a buffer of `n` bytes: the bytes that it stores.
  unfoldable pub readinto : ℕ → ℕ → Encoder → Option (Bytes × Encoder)
  unfolding fill_loop take_buffer fill
  readinto fuel n e = take_buffer n (fill_loop fuel n e)
