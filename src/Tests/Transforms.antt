-- ===== src/Tests/Transforms.antt =====
-- Examples of _core/transforms.
use mountainash_transport.Prelude.{
  ℕ, zero, suc, ◌+◌, ◌≤◌, ◌≡◌, refl, sym, ap, ◌∙◌, Text, text_eq, true, false, Option, some, [],
  ◌∷◌, Result, ok, err, pos, length, take, nat_eq, arith,
}
use mountainash_transport.Errors.{Error, transform_error, os_error}
use mountainash_transport.Stream.Sequential.{Bytes}
use mountainash_transport.Stream.Ranged.{seek_set}
use mountainash_transport.Transform.Pipeline.{
  StreamTransform, Pipeline, World, Opened, apply_write, apply_read,
}
use mountainash_transport.Transform.Pipeline.Cleanup.{closed-apply_read, is_built}
use mountainash_transport.Transform.Pipeline.Codec.{reading, IsReversible, apply_read-apply_write}
use mountainash_transport.Transform.Bounded.{BoundedGzipFile, read, read_all, seek}
use mountainash_transport.Transform.Bounded.Limit.{read-within, read_all-finished}
use mountainash_transport.Transform.Bounded.Beyond.{seek_beyond, read_all_again}
use mountainash_transport.Transform.Encoder.{Zlib, encoder}
use mountainash_transport.Transform.Encoder.Member.{member}
use mountainash_transport.Transform.Encoder.Delivery.{read_many-member, read_many, sum}

-- Five bytes under a limit of three.
abbrev bomb : BoundedGzipFile
bomb = record { decoded = 1 ∷ 2 ∷ 3 ∷ 4 ∷ 5 ∷ []; position = 0; limit = 3 }

read-within_example : ((read 9 bomb).1.position ≤ 4) × ((read 9 bomb).0 ≡ err transform_error)
unfolding read
read-within_example = read-within 9 bomb (omega arith)

read_all-finished_example :
    read_all 6 bomb ≡ some (err transform_error, record bomb { position = 4 })
read_all-finished_example = read_all-finished 6 bomb (omega arith) (omega arith) (omega arith)

read_all_again_example :
    (read_all 6 bomb ≡ some (err transform_error, record bomb { position = 4 }))
    × ((r : BoundedGzipFile) × (read_all 6 (record bomb { position = 4 }) ≡ some (ok [], r))
        × (r.position ≡ 4))
read_all_again_example = read_all_again 5 bomb (omega arith) (omega arith) (omega arith)

-- Seven bytes under a limit of three.
abbrev long_bomb : BoundedGzipFile
long_bomb = record { decoded = 1 ∷ 2 ∷ 3 ∷ 4 ∷ 5 ∷ 6 ∷ 7 ∷ []; position = 0; limit = 3 }

seek_beyond_example :
    (seek (pos 5) seek_set long_bomb ≡ (err transform_error, record long_bomb { position = 5 }))
    × (read_all 2 (record long_bomb { position = 5 })
        ≡ some (err transform_error, record long_bomb { position = 7 }))
seek_beyond_example = seek_beyond 1 long_bomb (omega arith)

-- Streams by their identity, the first number, and their bytes. The transform puts a zero before the
-- bytes and takes it off, and makes a new stream at each call.
abbrev content : Text → Bytes
content [] = []
content (identity ∷ bytes) = bytes

abbrev unmark : ℕ → Bytes → Result Error Text
unmark call [] = err os_error
unmark call (zero ∷ bytes) = ok (call ∷ bytes)
unmark call (suc n ∷ bytes) = err os_error

abbrev marking : StreamTransform Text
marking = record {
  wrap = λ call s. ok (call ∷ 0 ∷ content s);
  unwrap = λ call s. unmark call (content s);
}

marking-IsReversible : IsReversible content marking
marking-IsReversible m n plain coded stored h same =
    let e : m ∷ 0 ∷ content plain ≡ coded = ground (arith, h) in
    let bytes : content stored ≡ 0 ∷ content plain = same ∙ ap content (sym e) in
    (n ∷ content plain, ap (unmark n) bytes, refl)

abbrev twice : Pipeline Text
twice = record { outer_to_inner = marking ∷ marking ∷ [] }

abbrev nothing_closed : World Text
nothing_closed = record { closed = λ s. false; closes = [] }

abbrev always_fails : Text → Option Error
always_fails s = some os_error

abbrev stored : Text
stored = 9 ∷ 0 ∷ 0 ∷ 5 ∷ []

apply_read-apply_write_example :
    (o : Opened Text) × (apply_read always_fails 4 twice stored nothing_closed
      ≡ (ok o, nothing_closed))
    × (content (reading o) ≡ content (7 ∷ 5 ∷ []))
apply_read-apply_write_example =
    apply_read-apply_write content always_fails 1 4 twice (7 ∷ 5 ∷ []) (2 ∷ 0 ∷ 0 ∷ 5 ∷ []) stored
      nothing_closed (marking-IsReversible, (marking-IsReversible, tt)) (unfold apply_write in refl)
      refl

-- Decoding a stream that is marked once twice fails at the second layer, and closes the first.
closed-apply_read_example :
    (apply_read always_fails 4 twice (9 ∷ 0 ∷ 5 ∷ []) nothing_closed).1.closed (4 ∷ 5 ∷ []) ≡ true
unfolding is_built
closed-apply_read_example =
    closed-apply_read always_fails 4 twice (9 ∷ 0 ∷ 5 ∷ []) nothing_closed os_error
      (unfold apply_read in refl) (4 ∷ 5 ∷ [])

-- A compressor that stores its input.
abbrev storing : Zlib
storing = record {
  State = Unit {0};
  compressobj = tt;
  compress = λ bytes s. (bytes, s);
  flush = λ s. 0 ∷ [];
  crc32 = λ bytes crc. crc + length bytes;
}

read_many-member_example :
    read_many storing 4 (4 ∷ 100 ∷ []) (encoder storing ((7 ∷ 8 ∷ []) ∷ (9 ∷ []) ∷ []) 0)
    ≡ some (take 104 (member storing ((7 ∷ 8 ∷ []) ∷ (9 ∷ []) ∷ []) 0))
unfolding sum
read_many-member_example =
    read_many-member storing 4 (4 ∷ 100 ∷ []) ((7 ∷ 8 ∷ []) ∷ (9 ∷ []) ∷ []) 0 (omega arith)
