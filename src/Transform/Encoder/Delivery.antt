-- ===== src/Transform/Encoder/Delivery.antt =====
-- The reads of an encoder, one after the other.
use mountainash_transport.Prelude.{
  ℕ, zero, suc, ◌+◌, ◌≤◌, ◌<◌, min, ◌≡◌, refl, ◌∙◌, sym, ap, ap₂, ◌⊎◌, inl, inr, true, false, not,
  ◌&&◌, Bool-cases, Option, none, some, List, [], ◌∷◌, ◌++◌, length, take, drop, ltb, if◌then◌else◌,
  arith, take-append-drop, length-take, length-append, cut_at, take_add,
}
use mathlib.Core.List.{append_assoc}
use mathlib.Core.Option
use mountainash_transport.Stream.Sequential.{Bytes}
use mountainash_transport.Transform.Encoder.{
  Zlib, Encoder, encoder, emit_header, emit_trailer, encode_chunk, after_header, fill, fill_loop,
  take_buffer, readinto,
}
use mountainash_transport.Transform.Encoder.Member.{
  member, pending, unbuffered, fill-pending, fill_lem, emit_header_flags,
}

module _ (Z : Zlib) where
  -- Rounds of `_fill` that are left.
  abbrev pub rounds : Encoder Z → ℕ
  rounds e = if e.trailer_emitted then 0 else length e.source + 1

  encode_chunk-rounds :
      (source : List Bytes) (e : Encoder Z)
      → e.trailer_emitted ≡ false
      → rounds (encode_chunk Z source e) < length source + 1
  unfolding encode_chunk emit_trailer
  encode_chunk-rounds [] e t = ground arith
  encode_chunk-rounds ([] ∷ rest) e t = ground arith
  encode_chunk-rounds ((b ∷ bytes) ∷ rest) e t = ground arith

  after_header-rounds :
      (e : Encoder Z) → e.trailer_emitted ≡ false → rounds (after_header Z e) < length e.source + 1
  unfolding after_header emit_trailer
  after_header-rounds e t = ground (arith, encode_chunk-rounds e.source e t)

  source-emit_header : (e : Encoder Z) → (emit_header Z e).source ≡ e.source
  unfolding emit_header
  source-emit_header e = ground arith

  fill-rounds : (e : Encoder Z) → e.trailer_emitted ≡ false → rounds (fill Z e) < rounds e
  fill-rounds e t = rw (fill_lem Z e) (
      ground (
        arith,
        after_header-rounds (emit_header Z e) ((emit_header_flags Z e).1 ∙ t),
        ap (length {A = Bytes}) (source-emit_header e),
      ))

  -- What the loop of `readinto` leaves: a buffer that is full enough, or the whole member in it.
  record Filled (n : ℕ) (e e' : Encoder Z) : Type 0 where
    same : pending Z e' ≡ pending Z e
    enough : (n ≤ length e'.buffer) ⊎ (e'.trailer_emitted ≡ true)
    fewer : rounds e' ≤ rounds e

  fill_loop-Filled :
      (fuel n : ℕ) (e : Encoder Z)
      → rounds e < fuel
      → (e' : Encoder Z) × (fill_loop Z fuel n e ≡ some e') × Filled n e e'
  unfolding fill_loop
  fill_loop-Filled zero n e h = absurd (omega arith)
  fill_loop-Filled (suc fuel) n e h =
      elim (Bool-cases (ltb (length e.buffer) n && not e.trailer_emitted)) [
        | inl q ↦
            let t : e.trailer_emitted ≡ false = ground arith in
            let (e', run, filled) =
              fill_loop-Filled fuel n (fill Z e) (omega (arith, fill-rounds e t)) in
            (
              e',
              ground (arith, q, run),
              record {
                same = filled.same ∙ fill-pending Z e t;
                enough = filled.enough;
                fewer = omega (arith, filled.fewer, fill-rounds e t);
              },
            )
        | inr q ↦ (
          e,
          ground (arith, q),
          record { same = refl; enough = ground arith; fewer = omega arith },
        )
      ]

take_front :
    (n : ℕ) (buffer tail : Bytes)
    → (n ≤ length buffer) ⊎ (tail ≡ [])
    → let k = min n (length buffer) in
      (take k buffer ++ (drop k buffer ++ tail) ≡ buffer ++ tail)
      × (length (take k buffer) ≡ min n (length (buffer ++ tail)))
take_front n buffer tail h =
    let k = min n (length buffer) in
    (
      sym (append_assoc (take k buffer) (drop k buffer) tail)
          ∙ ap (λ t. t ++ tail) (take-append-drop k buffer),
      omega (arith, length-take k buffer, length-append buffer tail, tail_length h),
    )
  where
    tail_length : (n ≤ length buffer) ⊎ (tail ≡ []) → (n ≤ length buffer) ⊎ (length tail ≡ 0)
    tail_length (inl fits) = inl fits
    tail_length (inr e) = inr (ap length e)

module _ (Z : Zlib) where
  taken : ℕ → Encoder Z → Encoder Z
  taken n e = record e { buffer = drop (min n (length e.buffer)) e.buffer }

  -- One read: the first n bytes of what is pending, all of them where there are no more.
  record Reads (n : ℕ) (e e' : Encoder Z) (out : Bytes) : Type 0 where
    first : out ≡ take n (pending Z e)
    left : pending Z e' ≡ drop n (pending Z e)
    fewer : rounds Z e' ≤ rounds Z e

  taken-Reads :
      (n : ℕ) (e e' : Encoder Z)
      → Filled Z n e e'
      → Reads n e (taken n e') (take (min n (length e'.buffer)) e'.buffer)
  unfolding taken pending unbuffered
  taken-Reads n e e' f =
      let tail = unbuffered Z e' in
      let k = min n (length e'.buffer) in
      let (joined, cut) = take_front n e'.buffer tail (no_tail f.enough) in
      let (t, d) =
        cut_at n (take k e'.buffer) (drop k e'.buffer ++ tail)
          (cut ∙ ap (λ xs. min n (length xs)) (sym joined)) in
      record {
        first = sym t ∙ ap (take n) (joined ∙ f.same);
        left = sym d ∙ ap (drop n) (joined ∙ f.same);
        fewer = f.fewer;
      }
    where
      no_tail :
          (n ≤ length e'.buffer) ⊎ (e'.trailer_emitted ≡ true)
          → (n ≤ length e'.buffer) ⊎ (unbuffered Z e' ≡ [])
      no_tail (inl fits) = inl fits
      no_tail (inr t) = inr (ground arith)

  readinto-Reads :
      (fuel n : ℕ) (e : Encoder Z)
      → rounds Z e < fuel
      → (out : Bytes) × (e' : Encoder Z) × (readinto Z fuel n e ≡ some (out, e')) × Reads n e e' out
  readinto-Reads fuel n e h =
      let (e', run, filled) = fill_loop-Filled Z fuel n e h in
      (
        take (min n (length e'.buffer)) e'.buffer,
        taken n e',
        opened ∙ ap (take_buffer Z n) run ∙ (unfold take_buffer taken in refl),
        taken-Reads n e e' filled,
      )
    where
      opened : readinto Z fuel n e ≡ take_buffer Z n (fill_loop Z fuel n e)
      opened = unfold readinto in refl

  -- Reads into buffers of the given sizes, one after the other: all that they store.
  unfoldable pub read_many : ℕ → List ℕ → Encoder Z → Option Bytes
  read_many fuel [] e = some []
  read_many fuel (n ∷ sizes) e = elim (readinto Z fuel n e) [
    | none ↦ none
    | some (out, e') ↦ Option.map (λ more. out ++ more) (read_many fuel sizes e')
  ]

  unfoldable pub sum : List ℕ → ℕ
  sum [] = 0
  sum (n ∷ sizes) = n + sum sizes

  read_many-pending :
      (fuel : ℕ) (sizes : List ℕ) (e : Encoder Z)
      → rounds Z e < fuel
      → read_many fuel sizes e ≡ some (take (sum sizes) (pending Z e))
  unfolding read_many sum
  read_many-pending fuel [] e h = refl
  read_many-pending fuel (n ∷ sizes) e h =
      let (out, e', run, r) = readinto-Reads fuel n e h in
      let more = read_many-pending fuel sizes e' (omega (arith, r.fewer)) in
      let joined : out ++ take (sum sizes) (pending Z e') ≡ take (n + sum sizes) (pending Z e) =
        ap₂ (λ a b. a ++ take (sum sizes) b) r.first r.left
        ∙ take_add n (sum sizes) (pending Z e) in
      ground (arith, run, more, joined)

  -- Reads of any sizes deliver the start of the gzip member, byte by byte up to the sum of the
  -- sizes: it does not depend on how the member is read. Two rounds more than the source has
  -- chunks suffice for each read.
  pub read_many-member :
      (fuel : ℕ) (sizes : List ℕ) (chunks : List Bytes) (mtime : ℕ)
      → length chunks + 1 < fuel
      → read_many fuel sizes (encoder Z chunks mtime)
        ≡ some (take (sum sizes) (member Z chunks mtime))
  read_many-member fuel sizes chunks mtime h =
      read_many-pending fuel sizes (encoder Z chunks mtime) (unfold encoder in omega arith)
      ∙ ap (λ m. some (take (sum sizes) m)) (unfold encoder pending unbuffered member in refl)
