-- ===== src/Cli/Client/Chunks.antt =====
-- The frames of a reply of transport/cli/context.go, as transport/cli/client.go puts them together.
use aeus.Common.{
  true, false, ℕ, zero, suc, ◌-◌, ◌≤◌, ◌<◌, ◌^◌, Bytes, codes, List, [], ◌∷◌, ◌++◌, leb, ◌=ᵇ◌,
  length, take, drop, take-length, drop-length, length-drop, length-take, append_assoc,
  take-append-drop, ◌≡◌, ◌≢◌, refl, sym, ap, ◌∙◌, arith, Bool-cases, inl, inr, All, append-nil,
}
use aeus.Cli.Frame.{Frame, new_frame}
use aeus.Cli.Context.Reply.{wire_chunk_size, flag_complete, flag_portion, chunk_end, chunk_flag}
use aeus.Cli.Client.Defs.{Waited, answered, waiting, print_first, wait_response}
use aeus.Cli.Client.Stream.{Plain}

-- What a reply of these bytes makes of a client that waits for it.
abbrev pub shown_reply : Bytes → Waited
shown_reply [] = waiting []
shown_reply (b ∷ buf) = answered ((b ∷ buf) ++ codes "\n") []

over : (n : ℕ) (xs : Bytes) → leb (length xs) n ≡ false → n < length xs
over n xs h = ground (arith, h)

some_left : (n : ℕ) (xs : Bytes) → n < length xs → drop n xs ≢ []
some_left n xs h nothing = omega (arith, h, length-drop n xs, ap length nothing)

rejoined : (n : ℕ) (xs ys : Bytes) → take n xs ++ (drop n xs ++ ys) ≡ xs ++ ys
rejoined n xs ys =
    sym (append_assoc (take n xs) (drop n xs) ys)
    ∙ ap (λ (z : Bytes). z ++ ys) (take-append-drop n xs)

chunk_end_le : (buf : Bytes) → chunk_end buf ≤ 65535
chunk_end_le buf = ground arith

pub payload_le : (buf : Bytes) → length (take (chunk_end buf) buf) ≤ 65535
payload_le buf = omega (arith, length-take (chunk_end buf) buf (ground arith), chunk_end_le buf)

module _ (now : ℕ → ℕ) where
  -- The first frame of a reply, and all of them.
  abbrev pub chunk : ℕ → ℕ → Bytes → Frame
  chunk t seq buf = new_frame t (chunk_flag buf) seq 0 (take (chunk_end buf) buf) (now (length buf))

  unfoldable pub chunk_frames : ℕ → ℕ → ℕ → Bytes → List Frame
  chunk_frames zero t seq buf = []
  chunk_frames (suc n) t seq [] = []
  chunk_frames (suc n) t seq buf = chunk t seq buf ∷ chunk_frames n t seq (drop (chunk_end buf) buf)

  chunk_frames-nil : (n t seq : ℕ) → chunk_frames n t seq [] ≡ []
  unfolding chunk_frames
  chunk_frames-nil zero t seq = refl
  chunk_frames-nil (suc n) t seq = refl

  -- The last frame, and one before it.
  last_chunk :
      (t seq : ℕ) (buf : Bytes)
      → leb (length buf) wire_chunk_size ≡ true
      → (chunk t seq buf ≡ new_frame t flag_complete seq 0 buf (now (length buf)))
        × (drop (chunk_end buf) buf ≡ [])
  last_chunk t seq buf h = (rw (h, take-length buf) refl, rw (h, drop-length buf) refl)

  full_chunk :
      (t seq : ℕ) (buf : Bytes)
      → leb (length buf) wire_chunk_size ≡ false
      → (chunk t seq buf
          ≡ new_frame t flag_portion seq 0 (take wire_chunk_size buf) (now (length buf)))
        × (drop (chunk_end buf) buf ≡ drop wire_chunk_size buf)
  full_chunk t seq buf h = (rw h refl, rw h refl)

  wait_response-last :
      (t seq k : ℕ) (buf : Bytes) (more : List Frame)
      → wait_response seq (new_frame t flag_complete seq 0 buf k ∷ more)
        ≡ answered (buf ++ codes "\n") more
  unfolding wait_response new_frame ◌=ᵇ◌
  wait_response-last t seq k buf more = ground arith

  wait_response-portion :
      (t seq k : ℕ) (buf : Bytes) (more : List Frame)
      → wait_response seq (new_frame t flag_portion seq 0 buf k ∷ more)
        ≡ print_first buf (wait_response seq more)
  unfolding wait_response new_frame ◌=ᵇ◌
  wait_response-portion t seq k buf more = ground arith

  -- The client that waits for `seq` prints the bytes of the reply and a newline, and takes no other
  -- frame.
  pub wait_response-chunk_frames :
      (n t seq : ℕ) (buf : Bytes) (rest : List Frame)
      → length buf ≤ n
      → buf ≢ []
      → wait_response seq (chunk_frames n t seq buf ++ rest) ≡ answered (buf ++ codes "\n") rest
  unfolding chunk_frames
  wait_response-chunk_frames n t seq [] rest h e = absurd (e refl)
  wait_response-chunk_frames zero t seq (b ∷ buf) rest h e = absurd (omega (arith, h))
  wait_response-chunk_frames (suc n) t seq (b ∷ buf) rest h e =
      elim (Bool-cases (leb (length (b ∷ buf)) wire_chunk_size)) [
        | inl small ↦
            let (first, left) = last_chunk t seq (b ∷ buf) small in
            rw (first, left, chunk_frames-nil n t seq)
              (wait_response-last t seq (now (length (b ∷ buf))) (b ∷ buf) rest)
        | inr big ↦
            let (first, left) = full_chunk t seq (b ∷ buf) big in
            rw
              (
                first,
                left,
                wait_response-portion,
                wait_response-chunk_frames n t seq (drop wire_chunk_size (b ∷ buf)) rest
                    (left_le big) (left_some big),
              )
              (ap (λ z. answered z rest) (rejoined wire_chunk_size (b ∷ buf) (codes "\n")))
      ]
    where
      left_length : length (drop wire_chunk_size (b ∷ buf)) ≡ length (b ∷ buf) - wire_chunk_size
      left_length = length-drop wire_chunk_size (b ∷ buf)

      left_le :
          leb (length (b ∷ buf)) wire_chunk_size ≡ false
          → length (drop wire_chunk_size (b ∷ buf)) ≤ n
      left_le big = omega (arith, left_length, h)

      left_some :
          leb (length (b ∷ buf)) wire_chunk_size ≡ false → drop wire_chunk_size (b ∷ buf) ≢ []
      left_some big = some_left wire_chunk_size (b ∷ buf) (over wire_chunk_size (b ∷ buf) big)

  pub wait_response-whole :
      (t seq : ℕ) (buf : Bytes)
      → wait_response seq (chunk_frames (length buf) t seq buf) ≡ shown_reply buf
  unfolding chunk_frames wait_response
  wait_response-whole t seq [] = refl
  wait_response-whole t seq (b ∷ buf) =
      ap (wait_response seq) (sym (append-nil (chunk_frames (suc (length buf)) t seq (b ∷ buf))))
      ∙ wait_response-chunk_frames (suc (length buf)) t seq (b ∷ buf) [] (omega arith) (λ h. cc)

  -- The fields of every frame fit their Go types.
  pub chunk_frames-IsFrame :
      (n t seq : ℕ) (buf : Bytes)
      → t < 256
      → seq < 65536
      → ((k : ℕ) → now k < 2 ^ 64)
      → All (Plain t) (chunk_frames n t seq buf)
  unfolding chunk_frames new_frame
  chunk_frames-IsFrame zero t seq buf ht hs hn = tt
  chunk_frames-IsFrame (suc n) t seq [] ht hs hn = tt
  chunk_frames-IsFrame (suc n) t seq (b ∷ buf) ht hs hn = (
    (
      record {
        packet_type_byte = ht;
        flag_byte = flag_lt (b ∷ buf);
        seq_word = hs;
        timeout_word = omega arith;
        timestamp_word = hn (length (b ∷ buf));
        payload_fits = payload_le (b ∷ buf);
      },
      refl,
      refl,
      refl,
    ),
    chunk_frames-IsFrame n t seq (drop (chunk_end (b ∷ buf)) (b ∷ buf)) ht hs hn,
  )
    where
      flag_lt : (buf : Bytes) → chunk_flag buf < 256
      flag_lt buf = ground arith
