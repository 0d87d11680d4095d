-- ===== src/Transform/Encoder/Trailer.antt =====
-- The size field that ends a member.
use mountainash_transport.Prelude.{
  ℕ, ◌+◌, ◌*◌, ◌%◌, ◌^◌, ◌≡◌, ◌∙◌, sym, ap, List, [], ◌∷◌, ◌++◌, length, arith,
}
use mathlib.Core.List.{append_assoc}
use mountainash_transport.Stream.Sequential.{Bytes}
use mountainash_transport.Transform.Encoder.{Zlib, low_32, pack_32, gzip_header}
use mountainash_transport.Transform.Encoder.Member.{member, rest_of_member}

-- `struct.unpack("<I", …)`
pub unpack_32 : Bytes → ℕ
unpack_32 (a ∷ b ∷ c ∷ d ∷ []) = a + 256 * b + 65536 * c + 16777216 * d
unpack_32 _ = 0

unpack_32-pack_32 : (n : ℕ) → unpack_32 (pack_32 (low_32 n)) ≡ low_32 n
unfolding unpack_32 pack_32
unpack_32-pack_32 n = omega arith

-- How many bytes the source gives before it is at its end.
unfoldable pub data_length : List Bytes → ℕ
data_length [] = 0
data_length ([] ∷ chunks) = 0
data_length ((b ∷ bytes) ∷ chunks) = length (b ∷ bytes) + data_length chunks

module _ (Z : Zlib) where
  rest_of_member-size :
      (chunks : List Bytes) (c : Z.State) (crc n : ℕ)
      → (front : Bytes) × (rest_of_member Z chunks c crc (low_32 n)
          ≡ front ++ pack_32 (low_32 (n + data_length chunks)))
  unfolding rest_of_member data_length
  rest_of_member-size [] c crc n = (
    Z.flush c ++ pack_32 crc,
    let e : n + 0 ≡ n = omega arith in rw e (sym (append_assoc (Z.flush c) (pack_32 crc) _)),
  )
  rest_of_member-size ([] ∷ chunks) c crc n = (
    Z.flush c ++ pack_32 crc,
    let e : n + 0 ≡ n = omega arith in rw e (sym (append_assoc (Z.flush c) (pack_32 crc) _)),
  )
  rest_of_member-size ((b ∷ bytes) ∷ chunks) c crc n =
      let (coded, c') = Z.compress (b ∷ bytes) c in
      let crc' = low_32 (Z.crc32 (b ∷ bytes) crc) in
      let (front, e) = rest_of_member-size chunks c' crc' (n + length (b ∷ bytes)) in
      let wraps : low_32 (low_32 n + length (b ∷ bytes)) ≡ low_32 (n + length (b ∷ bytes)) =
        omega arith in
      let total : n + length (b ∷ bytes) + data_length chunks
          ≡ n + (length (b ∷ bytes) + data_length chunks) =
        omega arith in
      (
        coded ++ front,
        ap (λ k. coded ++ rest_of_member Z chunks c' crc' k) wraps
            ∙ ap (λ t. coded ++ t) e
            ∙ sym (append_assoc coded front _)
            ∙ ap (λ k. (coded ++ front) ++ pack_32 (low_32 k)) total,
      )

  -- A member ends with the number of bytes of the source, modulo 2^32, in four bytes.
  pub member-size :
      (chunks : List Bytes) (mtime : ℕ)
      → (front tail : Bytes) × (member Z chunks mtime ≡ front ++ tail)
        × (unpack_32 tail ≡ data_length chunks % 2 ^ 32)
  unfolding member
  member-size chunks mtime =
      let (front, e) = rest_of_member-size chunks Z.compressobj 0 0 in
      (
        gzip_header mtime ++ front,
        pack_32 (low_32 (0 + data_length chunks)),
        ap (λ t. gzip_header mtime ++ t) e ∙ sym (append_assoc (gzip_header mtime) front _),
        unpack_32-pack_32 (0 + data_length chunks) ∙ omega arith,
      )
