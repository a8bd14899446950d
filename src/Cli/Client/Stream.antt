-- ===== src/Cli/Client/Stream.antt =====
-- Frames on the stream that ioLoop of transport/cli/client.go reads.
use aeus.Common.{
  ℕ, zero, suc, ◌≤◌, ◌%◌, ltb, Bytes, List, [], ◌∷◌, ◌++◌, if◌then◌else◌, length, take, drop,
  length-append, ok, ◌≡◌, refl, sym, ap, ◌∙◌, arith, All,
}
use aeus.Cli.Frame.{feature_bytes, Frame, read_full, read_frame, packet_type_command}
use aeus.Cli.Wire.{IsFrame, encode, header, sent_error, received, read_frame-encode}
use aeus.Cli.Client.Defs.{Channels, deliver, read_loop}

-- A frame with no error that reaches the client as it was sent.
abbrev pub Plain : ℕ → Frame → Type 0
Plain t f = IsFrame f × (f.error ≡ []) × (f.feature ≡ feature_bytes) × (f.packet_type ≡ t)

-- The wire form of frames in a row.
unfoldable pub stream_of : List Frame → Bytes
stream_of [] = []
stream_of (f ∷ fs) = encode f ++ stream_of fs

pub received-Plain : (t : ℕ) (f : Frame) → Plain t f → received f ≡ f
received-Plain t f (v, e, g, _) =
    ap (λ (z : Bytes). record f { feature = feature_bytes; error = z }) text
    ∙ ap (λ (z : Bytes). record f { feature = z }) (sym g)
  where
    text :
        take (length f.error % 65536) (if ltb 0 (length f.error % 65536) then f.error else [])
        ≡ f.error
    text = rw e refl

pub read_frame-Plain :
    (t : ℕ) (f : Frame) (rest : Bytes) → Plain t f → read_frame (encode f ++ rest) ≡ ok (f, rest)
read_frame-Plain t f rest p =
    read_frame-encode f rest (p.0)
    ∙ ap
        (λ z. ok (
          z,
          drop (length f.error % 65536) (if ltb 0 (length f.error % 65536) then f.error else [])
              ++ rest,
        ))
        (received-Plain t f p)
    ∙ rw (p.1) refl

pub length-encode : (f : Frame) → 3 ≤ length (encode f)
unfolding encode
length-encode f =
    omega (arith, length-append feature_bytes (header f ++ (f.payload ++ sent_error f)))

pub length-stream_of : (fs : List Frame) → length fs ≤ length (stream_of fs)
unfolding stream_of
length-stream_of [] = omega arith
length-stream_of (f ∷ fs) =
    omega (arith, length-append (encode f) (stream_of fs), length-encode f, length-stream_of fs)

pub read_loop-nil : (n : ℕ) → (read_loop n []).command_chan ≡ []
unfolding read_loop read_frame read_full
read_loop-nil zero = refl
read_loop-nil (suc n) = refl

pub deliver-command :
    (f : Frame) (c : Channels)
    → f.packet_type ≡ packet_type_command
    → (deliver f c).command_chan ≡ f ∷ c.command_chan
unfolding deliver
deliver-command f c h = rw h refl

pub read_loop-frame :
    (n : ℕ) (r r' : Bytes) (f : Frame)
    → read_frame r ≡ ok (f, r')
    → read_loop (suc n) r ≡ deliver f (read_loop n r')
unfolding read_loop
read_loop-frame n r r' f h = rw (read_loop, h) refl

pub read_loop-stream_of :
    (n : ℕ) (fs : List Frame)
    → length fs ≤ n
    → All (Plain packet_type_command) fs
    → (read_loop n (stream_of fs)).command_chan ≡ fs
unfolding stream_of
read_loop-stream_of n [] h a = read_loop-nil n
read_loop-stream_of zero (f ∷ fs) h a = absurd (omega (arith, h))
read_loop-stream_of (suc n) (f ∷ fs) h (p, a) =
    ap (λ (c : Channels). c.command_chan)
      (read_loop-frame n (encode f ++ stream_of fs) (stream_of fs) f
        (read_frame-Plain packet_type_command f (stream_of fs) p))
    ∙ deliver-command f (read_loop n (stream_of fs)) (p.3)
    ∙ ap (◌∷◌ f) (read_loop-stream_of n fs (omega (arith, h)) a)
