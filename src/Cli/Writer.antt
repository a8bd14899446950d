-- ===== src/Cli/Writer.antt =====
-- What writeFrame of transport/cli/frame.go hands to its writer.
use aeus.Common.{
  ℕ, ◌%◌, ◌≤◌, ◌<◌, Bytes, false, List, [], ◌∷◌, ◌++◌, ltb, if◌then◌else◌, length, take, drop,
  take-length, drop-length, Option, none, some, ok, ◌≡◌, refl, ap, sym, ◌∙◌, subst, arith,
  append_assoc, append-nil, Bool-cases, inl, inr,
}
use aeus.Cli.Frame.{
  IoError, no_progress, feature_bytes, Frame, le_bytes, read_frame, Write, and_then, put, put_all,
  put_block, write_frame,
}
use aeus.Cli.Wire.{IsFrame, header, encode, kept_error, sent_error, read_frame-encode}

-- A writer that takes all it is given, as `io.Writer` says of a nil error: `sent` is what it has
-- taken so far.
pub record TakesAll {W : Type 0} (write : Write W) (sent : W → Bytes) : Type 0 where
  pub count : (w : W) (bs : Bytes) → (write w bs).0 ≡ length bs
  pub no_error : (w : W) (bs : Bytes) → (write w bs).1 ≡ none
  pub appends : (w : W) (bs : Bytes) → sent (write w bs).2 ≡ sent w ++ bs

-- The outcome of a part of the writing: no error, and these bytes more.
pub record Sends {W : Type 0} (sent : W → Bytes) (w : W) (bs : Bytes) (r : Option IoError × W)
    : Type 0 where
  pub no_error : r.0 ≡ none
  pub appended : sent r.1 ≡ sent w ++ bs

announced_text : (xs : Bytes) → take (length xs) (if ltb 0 (length xs) then xs else []) ≡ xs
announced_text [] = refl
announced_text (x ∷ xs) = ground (arith, take-length xs)

no_more_text : (xs : Bytes) → drop (length xs) (if ltb 0 (length xs) then xs else []) ≡ []
no_more_text [] = refl
no_more_text (x ∷ xs) = ground (arith, drop-length xs)

flat : List Bytes → Bytes
flat [] = []
flat (bs ∷ rest) = bs ++ flat rest

payload_block : (f : Frame) → (if ltb 0 (length f.payload) then f.payload else []) ≡ f.payload
payload_block f = nothing f.payload
  where
    nothing : (xs : Bytes) → (if ltb 0 (length xs) then xs else []) ≡ xs
    nothing [] = refl
    nothing (x ∷ xs) = ground arith

header_words : Frame → List Bytes
header_words f =
    le_bytes 1 f.packet_type
    ∷ le_bytes 1 f.flag
    ∷ le_bytes 2 f.seq
    ∷ le_bytes 8 f.timeout
    ∷ le_bytes 8 f.timestamp
    ∷ le_bytes 2 (length f.payload)
    ∷ le_bytes 2 (length f.error % 65536)
    ∷ []

flat-header_words : (f : Frame) → flat (header_words f) ≡ header f
unfolding flat header header_words
flat-header_words f = simp append-nil

module _ {W : Type 0} (write : Write W) (sent : W → Bytes) (t : TakesAll write sent) where
  put-Sends : (w : W) (bs : Bytes) → Sends sent w bs (put write bs w)
  put-Sends w bs = record { no_error = t.no_error w bs; appended = t.appends w bs }

  pub and_then-Sends :
      (w : W) (xs ys : Bytes) (r : Option IoError × W) (next : W → Option IoError × W)
      → Sends sent w xs r
      → ((w' : W) → Sends sent w' ys (next w'))
      → Sends sent w (xs ++ ys) (and_then r next)
  and_then-Sends w xs ys (none, w') next s n = record {
    no_error = (n w').no_error;
    appended =
        (n w').appended ∙ ap (λ (z : Bytes). z ++ ys) s.appended ∙ append_assoc (sent w) xs ys;
  }
  and_then-Sends w xs ys (some e, w') next s n = absurd (some_none s.no_error)
    where
      some_none : some e ≡ none → ⊥
      some_none h = ground (arith, h)

  put_all-Sends : (bss : List Bytes) (w : W) → Sends sent w (flat bss) (put_all write bss w)
  unfolding flat
  put_all-Sends [] w = record { no_error = refl; appended = sym (append-nil (sent w)) }
  put_all-Sends (bs ∷ bss) w =
      and_then-Sends w bs (flat bss) _ _ (put-Sends w bs) (put_all-Sends bss)

  -- A block after a write that succeeded: all of it is written, or nothing if its length counts 0.
  put_block-Sends :
      (n : ℕ) (bs : Bytes) (w w' : W) (front : Bytes) (before : Option IoError)
      → n ≤ length bs
      → Sends sent w front (before, w')
      → Sends sent w (front ++ (if ltb 0 n then bs else [])) (put_block write n bs (before, w'))
  put_block-Sends n bs w w' front before h s = elim (Bool-cases (ltb 0 n)) [
    | inl e ↦ rw e (record {
      no_error = ground (arith, t.count w' bs, t.no_error w' bs);
      appended =
          t.appends w' bs ∙ ap (λ (z : Bytes). z ++ bs) s.appended ∙ append_assoc (sent w) front bs;
    })
    | inr e ↦ rw e (record {
      no_error = s.no_error;
      appended = s.appended ∙ ap (λ (z : Bytes). sent w ++ z) (sym (append-nil front));
    })
  ]

  blocks-Sends :
      (f : Frame) (w : W)
      → Sends sent w (f.payload ++ sent_error f) (
          put_block write
            (length f.error % 65536)
            f.error
            (put_block write (length f.payload) f.payload (none, w)))
  blocks-Sends f w =
      let start : Sends sent w [] (none, w) = record {
        no_error = refl;
        appended = sym (append-nil (sent w));
      } in
      let first = put_block-Sends (length f.payload) f.payload w w [] none (omega arith) start in
      let payload =
        subst
          (λ (z : Bytes). Sends sent w z (put_block write (length f.payload) f.payload (none, w)))
          (payload_block f) first in
      let r = put_block write (length f.payload) f.payload (none, w) in
      put_block-Sends (length f.error % 65536) f.error w r.1 f.payload r.0 (omega arith) payload

  -- To a writer that takes all it is given, writeFrame hands exactly the wire form of a frame whose
  -- payload fits, and reports no error.
  pub write_frame-Sends :
      (f : Frame) (w : W)
      → length f.payload ≤ 65535
      → Sends sent w (encode f) (write_frame write f w)
  unfolding write_frame encode header_words
  write_frame-Sends f w fits =
      and_then-Sends w feature_bytes (header f ++ (f.payload ++ sent_error f)) _ _
        (put-Sends w feature_bytes)
        λ w'. rw small (
          and_then-Sends w' (header f) (f.payload ++ sent_error f) _ _
            (subst (λ (z : Bytes). Sends sent w' z (put_all write (header_words f) w'))
              (flat-header_words f) (put_all-Sends (header_words f) w'))
            (blocks-Sends f))
    where
      small : ltb 65535 (length f.payload) ≡ false
      small = ground arith

  -- A payload of more than 65535 bytes is refused, after the feature bytes have been written.
  pub write_frame-oversize :
      (f : Frame) (w : W)
      → 65535 < length f.payload
      → ((write_frame write f w).0 ≡ some no_progress)
        × (sent (write_frame write f w).1 ≡ sent w ++ feature_bytes)
  unfolding write_frame
  write_frame-oversize f w big =
      ground (arith, t.no_error w feature_bytes, t.appends w feature_bytes)

  -- Through a writer that takes all it is given, a frame whose fields and texts fit arrives as it
  -- was sent, with the protocol's feature bytes, and nothing is left over.
  pub read_frame-write_frame :
      (f : Frame) (w : W)
      → IsFrame f
      → length f.error ≤ 65535
      → sent w ≡ []
      → read_frame (sent (write_frame write f w).1) ≡ ok (record f { feature = feature_bytes }, [])
  read_frame-write_frame f w v fits fresh =
      ap read_frame (
        (write_frame-Sends f w v.payload_fits).appended
        ∙ ap (λ (z : Bytes). z ++ encode f) fresh
        ∙ sym (append-nil (encode f)))
      ∙ read_frame-encode f [] v
      ∙ (simp append-nil (rw (whole, take_all, drop_all)))
    where
      whole : kept_error f ≡ length f.error
      whole = omega arith

      take_all : take (length f.error) (if ltb 0 (length f.error) then f.error else []) ≡ f.error
      take_all = announced_text f.error

      drop_all : drop (length f.error) (if ltb 0 (length f.error) then f.error else []) ≡ []
      drop_all = no_more_text f.error
