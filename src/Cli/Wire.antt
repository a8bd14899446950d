-- ===== src/Cli/Wire.antt =====
-- Reading back what writeFrame of transport/cli/frame.go puts on the wire.
use aeus.Common.{
  ℕ, zero, suc, ◌*◌, ◌/◌, ◌%◌, ◌≤◌, ◌<◌, ◌^◌, Bytes, [], ◌∷◌, ◌++◌, ltb, if◌then◌else◌, =ᵇ_refl,
  length, take, drop, Result, ok, ◌>>=◌, ◌≡◌, refl, ap, sym, ◌∙◌, arith, length-append, take-append,
  drop-append, append_assoc, length-take, take-append-drop,
}
use aeus.Cli.Frame.{
  IoError, feature_bytes, Frame, read_full, le_value, le_bytes, read_le, read_block, read_body,
  read_frame,
}

-- 256 to the power `n`.
abbrev pub span : ℕ → ℕ
span zero = 1
span (suc n) = 256 * span n

-- The fields fit their Go types, and the payload fits its length field.
pub record IsFrame (f : Frame) : Type 0 where
  pub packet_type_byte : f.packet_type < 256
  pub flag_byte : f.flag < 256
  pub seq_word : f.seq < 65536
  pub timeout_word : f.timeout < 2 ^ 64
  pub timestamp_word : f.timestamp < 2 ^ 64
  pub payload_fits : length f.payload ≤ 65535

length-le_bytes : (n x : ℕ) → length (le_bytes n x) ≡ n
unfolding le_bytes
length-le_bytes zero x = refl
length-le_bytes (suc n) x = ap suc (length-le_bytes n (x / 256))

le_value-le_bytes : (n x : ℕ) → x < span n → le_value (le_bytes n x) ≡ x
unfolding le_value le_bytes
le_value-le_bytes zero x h = omega arith
le_value-le_bytes (suc n) x h = omega (arith, le_value-le_bytes n (x / 256) (omega arith))

read_full-append :
    (n : ℕ) (xs rest : Bytes) → length xs ≡ n → read_full n (xs ++ rest) ≡ ok (xs, rest)
unfolding read_full
read_full-append n xs rest h =
    rw (← h)
      (ground (arith, length-append {0} xs rest, take-append {0} xs rest, drop-append {0} xs rest))

read_le-append :
    (n x : ℕ) (rest : Bytes) → x < span n → read_le n (le_bytes n x ++ rest) ≡ ok (x, rest)
unfolding read_le
read_le-append n x rest h =
    rw (read_full-append n (le_bytes n x) rest (length-le_bytes n x), le_value-le_bytes n x h)

read_block-append : (xs rest : Bytes) → read_block (length xs) (xs ++ rest) ≡ ok (xs, rest)
unfolding read_block
read_block-append [] rest = refl
read_block-append (x ∷ xs) rest =
    ground (arith, read_full-append (suc (length xs)) (x ∷ xs) rest refl)

-- The fields between the feature bytes and the payload.
unfoldable pub header : Frame → Bytes
header f =
    le_bytes 1 f.packet_type
    ++ (le_bytes 1 f.flag
        ++ (le_bytes 2 f.seq
            ++ (le_bytes 8 f.timeout
                ++ (le_bytes 8 f.timestamp
                    ++ (le_bytes 2 (length f.payload) ++ le_bytes 2 (length f.error % 65536))))))

-- What the length field of the error text says: it counts modulo 2 ^ 16.
abbrev pub kept_error : Frame → ℕ
kept_error f = length f.error % 65536

-- The error text on the wire: all of it, unless the length field is 0.
abbrev pub sent_error : Frame → Bytes
sent_error f = if ltb 0 (kept_error f) then f.error else []

-- The wire form of a frame.
unfoldable pub encode : Frame → Bytes
encode f = feature_bytes ++ (header f ++ (f.payload ++ sent_error f))

abbrev pub received : Frame → Frame
received f = record f { feature = feature_bytes; error = take (kept_error f) (sent_error f) }

-- What is read after the header of `f`.
abbrev blocks_of : Frame → Bytes → Result IoError (Frame × Bytes)
blocks_of f rest = do
  (payload, r) ← read_block (length f.payload) rest
  (error, r) ← read_block (kept_error f) r
  ok (record f { feature = feature_bytes; payload = payload; error = error }, r)

read_body-header :
    (f : Frame) (rest : Bytes)
    → IsFrame f
    → read_body feature_bytes (header f ++ rest) ≡ blocks_of f rest
unfolding read_body header
read_body-header f rest v = simp append_assoc (
    rw (
      read_le-append 1 f.packet_type _ v.packet_type_byte,
      read_le-append 1 f.flag _ v.flag_byte,
      read_le-append 2 f.seq _ v.seq_word,
      read_le-append 8 f.timeout _ v.timeout_word,
      read_le-append 8 f.timestamp _ v.timestamp_word,
      read_le-append 2 (length f.payload) _ (omega (arith, v.payload_fits)),
      read_le-append 2 (kept_error f) rest (omega arith),
    ))

read_frame-feature :
    (rest : Bytes) → read_frame (feature_bytes ++ rest) ≡ read_body feature_bytes rest
unfolding read_frame
read_frame-feature rest = rw (read_full-append 3 feature_bytes rest refl, =ᵇ_refl feature_bytes)

-- The payload, the announced part of the error text, and then the rest of it.
read_blocks :
    (f : Frame) (rest : Bytes)
    → blocks_of f (f.payload ++ (sent_error f ++ rest))
      ≡ ok (received f, drop (kept_error f) (sent_error f) ++ rest)
read_blocks f rest = rw (read_block-append f.payload (sent_error f ++ rest), read_block-kept)
  where
    kept_le : kept_error f ≤ length (sent_error f)
    kept_le = ground arith

    announced :
        sent_error f ++ rest
        ≡ take (kept_error f) (sent_error f) ++ (drop (kept_error f) (sent_error f) ++ rest)
    announced = rw (
      ← append_assoc (take (kept_error f) (sent_error f)) (drop (kept_error f) (sent_error f)) rest,
      take-append-drop (kept_error f) (sent_error f),
    )

    read_block-kept :
        read_block (kept_error f) (sent_error f ++ rest)
        ≡ ok (take (kept_error f) (sent_error f), drop (kept_error f) (sent_error f) ++ rest)
    read_block-kept =
        ap (read_block (kept_error f)) announced
        ∙ ap
            (λ (n : ℕ).
              read_block n (
                take (kept_error f) (sent_error f) ++ (drop (kept_error f) (sent_error f) ++ rest)))
            (sym (length-take (kept_error f) (sent_error f) kept_le))
        ∙ read_block-append (take (kept_error f) (sent_error f))
            (drop (kept_error f) (sent_error f) ++ rest)

pub encode-append :
    (f : Frame) (rest : Bytes)
    → encode f ++ rest ≡ feature_bytes ++ (header f ++ (f.payload ++ (sent_error f ++ rest)))
unfolding encode
encode-append f rest = simp append_assoc

-- Whatever the error text, reading a frame that was written gives the frame back with the error
-- text that its 16-bit length field announces, and leaves the rest of the text on the stream.
pub read_frame-encode :
    (f : Frame) (rest : Bytes)
    → IsFrame f
    → read_frame (encode f ++ rest) ≡ ok (received f, drop (kept_error f) (sent_error f) ++ rest)
read_frame-encode f rest v =
    ap read_frame (encode-append f rest)
    ∙ read_frame-feature _
    ∙ read_body-header f (f.payload ++ (sent_error f ++ rest)) v
    ∙ read_blocks f rest
