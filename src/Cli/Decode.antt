-- ===== src/Cli/Decode.antt =====
-- What readFrame of transport/cli/frame.go accepts: only the wire forms of frames, and no cut one.
use aeus.Common.{
  ℕ, zero, suc, ◌+◌, ◌*◌, ◌/◌, ◌%◌, ◌≤◌, ◌<◌, Bytes, false, [], ◌∷◌, ◌++◌, ltb, leb, ◌=ᵇ◌, length,
  take, drop, Result, ok, ◌≡◌, ◌≢◌, refl, ap, sym, ◌∙◌, subst, arith, length-append, append_assoc,
  append-nil, Bool-cases, inl, inr, length-take, length-drop, take-append-drop, >>=-eq-ok,
  guarded-eq-ok, =ᵇ_sound, All,
}
use aeus.Cli.Frame.{
  IoError, feature_bytes, Frame, read_full, le_value, le_bytes, read_le, read_block, read_body,
  read_frame,
}
use aeus.Cli.Wire.{
  span, IsFrame, header, encode, kept_error, sent_error, read_frame-encode, encode-append,
}

-- A byte is below 256.
abbrev pub AreBytes : Bytes → Type 0
AreBytes = All (λ b. b < 256)

-- `r` is `xs` and then `rest`.
AreBytes-split : (xs rest : Bytes) → AreBytes (xs ++ rest) → AreBytes xs × AreBytes rest
AreBytes-split [] rest h = (tt, h)
AreBytes-split (x ∷ xs) rest (b, h) = let r = AreBytes-split xs rest h in ((b, r.0), r.1)

pub read_full-eq-ok :
    (n : ℕ) (r : Bytes) {xs rest : Bytes}
    → read_full n r ≡ ok (xs, rest)
    → (r ≡ xs ++ rest) × (length xs ≡ n)
unfolding read_full
read_full-eq-ok n r {xs} {rest} h = elim (Bool-cases (leb n (length r))) [
  | inl e ↦
      let a : take n r ≡ xs = ground (arith, h) in
      let b : drop n r ≡ rest = ground (arith, h) in
      (rw (← a, ← b) (sym (take-append-drop n r)), rw (← a) (length-take n r (ground arith)))
  | inr e ↦ absurd (short e)
]
  where
    short : leb n (length r) ≡ false → ⊥
    short e = ground (arith, h)

le_value-lt : (bs : Bytes) → AreBytes bs → le_value bs < span (length bs)
unfolding le_value
le_value-lt [] h = omega arith
le_value-lt (b ∷ bs) (h, hs) = omega (arith, le_value-lt bs hs)

le_bytes-le_value : (bs : Bytes) → AreBytes bs → le_bytes (length bs) (le_value bs) ≡ bs
unfolding le_value le_bytes
le_bytes-le_value [] h = refl
le_bytes-le_value (b ∷ bs) (h, hs) =
    let lo : (b + 256 * le_value bs) % 256 ≡ b = omega arith in
    let hi : (b + 256 * le_value bs) / 256 ≡ le_value bs = omega arith in
    rw (lo, hi, le_bytes-le_value bs hs)

-- What a successful read of a number has taken off the stream.
pub record Took (r front rest : Bytes) : Type 0 where
  pub split : r ≡ front ++ rest
  pub rest_bytes : AreBytes rest

read_le-eq-ok :
    (n : ℕ) (r : Bytes) {x : ℕ} {rest : Bytes}
    → AreBytes r
    → read_le n r ≡ ok (x, rest)
    → Took r (le_bytes n x) rest × (x < span n)
unfolding read_le
read_le-eq-ok n r {x} {rest} b h =
    let ((buf, rest'), e, k) = >>=-eq-ok (read_full n r) _ h in
    let (s, l) = read_full-eq-ok n r e in
    let v : le_value buf ≡ x = ground (arith, k) in
    let t : rest' ≡ rest = ground (arith, k) in
    let (bb, br) = AreBytes-split buf rest' (subst AreBytes s b) in
    (
      record {
        split = s ∙ ap (λ (z : Bytes). z ++ rest') (sym (le_bytes-le_value buf bb)) ∙ rw (l, v, t);
        rest_bytes = subst AreBytes t br;
      },
      subst (λ y. y < span n) v (subst (λ m. le_value buf < span m) l (le_value-lt buf bb)),
    )

read_block-eq-ok :
    (n : ℕ) (r : Bytes) {xs rest : Bytes}
    → AreBytes r
    → read_block n r ≡ ok (xs, rest)
    → Took r xs rest × (length xs ≡ n)
unfolding read_block
read_block-eq-ok zero r {xs} {rest} b h =
    let x : [] ≡ xs = ground (arith, h) in
    let t : r ≡ rest = ground (arith, h) in
    (record { split = rw (← x) t; rest_bytes = subst AreBytes t b }, ap length (sym x))
read_block-eq-ok (suc n) r {xs} {rest} b h =
    let (s, l) = read_full-eq-ok (suc n) r (ground (arith, h)) in
    (record { split = s; rest_bytes = (AreBytes-split xs rest (subst AreBytes s b)).1 }, l)

-- A frame as it comes off the wire: its fields fit, and so does its error text.
pub record Decoded (f : Frame) (r rest : Bytes) : Type 0 where
  pub fields : IsFrame f
  pub feature_fixed : f.feature ≡ feature_bytes
  pub error_fits : length f.error ≤ 65535
  pub wire : r ≡ encode f ++ rest

sent_error_whole : (g : Frame) → length g.error ≤ 65535 → sent_error g ≡ g.error
sent_error_whole g h = elim (Bool-cases (ltb 0 (kept_error g))) [
  | inl e ↦ rw e
  | inr e ↦ rw e (sym (nil_of_length g.error (ground arith)))
]
  where
    nil_of_length : (xs : Bytes) → length xs ≡ 0 → xs ≡ []
    nil_of_length [] k = refl
    nil_of_length (x ∷ xs) k = absurd (omega arith)

record_eq_frame :
    (g : Frame) (payload_length error_length : ℕ)
    → payload_length ≡ length g.payload
    → error_length ≡ length g.error
    → length g.error ≤ 65535
    → (rest : Bytes)
    → le_bytes 1 g.packet_type
        ++ (le_bytes 1 g.flag
            ++ (le_bytes 2 g.seq
                ++ (le_bytes 8 g.timeout
                    ++ (le_bytes 8 g.timestamp
                        ++ (le_bytes 2 payload_length
                            ++ (le_bytes 2 error_length ++ (g.payload ++ (g.error ++ rest))))))))
      ≡ header g ++ (g.payload ++ (sent_error g ++ rest))
unfolding header
record_eq_frame g n m p q h rest =
    let e : kept_error g ≡ length g.error = omega arith in
    let whole = sent_error_whole g h in simp append_assoc (rw (whole, p, q, e))

ok_pair :
    {A B : Type 0} {a c : A} {b d : B}
    → ◌≡◌ {A = Result IoError (A × B)} (ok (a, b)) (ok (c, d))
    → (a ≡ c) × (b ≡ d)
ok_pair h = (cc, cc)

chain : {r r1 r2 front : Bytes} → Took r front r1 → r1 ≡ r2 → r ≡ front ++ r2
chain {front} t e = t.split ∙ ap (λ (z : Bytes). front ++ z) e

le_of_word : {n m : ℕ} → n ≡ m → m < 65536 → n ≤ 65535
le_of_word e h = omega arith

read_body-eq-ok :
    (r : Bytes) {f : Frame} {rest : Bytes}
    → AreBytes r
    → read_body feature_bytes r ≡ ok (f, rest)
    → Decoded f (feature_bytes ++ r) rest
unfolding read_body encode
read_body-eq-ok r {f} {rest} b h =
    let ((packet_type, r1), e1, h1) = >>=-eq-ok (read_le 1 r) _ h in
    let (t1, s1) = read_le-eq-ok 1 r b e1 in
    let ((flag, r2), e2, h2) = >>=-eq-ok (read_le 1 r1) _ h1 in
    let (t2, s2) = read_le-eq-ok 1 r1 t1.rest_bytes e2 in
    let ((seq, r3), e3, h3) = >>=-eq-ok (read_le 2 r2) _ h2 in
    let (t3, s3) = read_le-eq-ok 2 r2 t2.rest_bytes e3 in
    let ((timeout, r4), e4, h4) = >>=-eq-ok (read_le 8 r3) _ h3 in
    let (t4, s4) = read_le-eq-ok 8 r3 t3.rest_bytes e4 in
    let ((timestamp, r5), e5, h5) = >>=-eq-ok (read_le 8 r4) _ h4 in
    let (t5, s5) = read_le-eq-ok 8 r4 t4.rest_bytes e5 in
    let ((data_length, r6), e6, h6) = >>=-eq-ok (read_le 2 r5) _ h5 in
    let (t6, s6) = read_le-eq-ok 2 r5 t5.rest_bytes e6 in
    let ((error_length, r7), e7, h7) = >>=-eq-ok (read_le 2 r6) _ h6 in
    let (t7, s7) = read_le-eq-ok 2 r6 t6.rest_bytes e7 in
    let ((payload, r8), e8, h8) = >>=-eq-ok (read_block data_length r7) _ h7 in
    let (t8, l8) = read_block-eq-ok data_length r7 t7.rest_bytes e8 in
    let ((error, r9), e9, h9) = >>=-eq-ok (read_block error_length r8) _ h8 in
    let (t9, l9) = read_block-eq-ok error_length r8 t8.rest_bytes e9 in
    let g : Frame = record {
      feature = feature_bytes;
      packet_type = packet_type;
      flag = flag;
      seq = seq;
      payload = payload;
      error = error;
      timeout = timeout;
      timestamp = timestamp;
    } in
    let (same, tail) = ok_pair h9 in
    let wire = chain t1 (
      chain t2 (chain t3 (chain t4 (chain t5 (chain t6 (chain t7 (chain t8 (chain t9 tail)))))))) in
    subst (λ k. Decoded k (feature_bytes ++ r) rest) same
      (record {
        fields = record {
          packet_type_byte = s1;
          flag_byte = s2;
          seq_word = s3;
          timeout_word = s4;
          timestamp_word = s5;
          payload_fits = le_of_word l8 s6;
        };
        feature_fixed = refl;
        error_fits = le_of_word l9 s7;
        wire =
            ap (λ (z : Bytes). feature_bytes ++ z)
              (wire
                ∙ record_eq_frame g data_length error_length (sym l8) (sym l9) (le_of_word l9 s7)
                    rest)
            ∙ sym (encode-append g rest);
      })

-- A frame that is read was on the wire in the one form that writeFrame gives it, with its features
-- fixed and all of its fields within their types: reading is the exact inverse of writing.
pub read_frame-Decoded :
    (r : Bytes) {f : Frame} {rest : Bytes}
    → AreBytes r
    → read_frame r ≡ ok (f, rest)
    → Decoded f r rest
unfolding read_frame
read_frame-Decoded r {f} {rest} b h =
    let ((feature, r1), e, h1) = >>=-eq-ok (read_full 3 r) _ h in
    let (s, l) = read_full-eq-ok 3 r e in
    let (q, body) = guarded-eq-ok (feature =ᵇ feature_bytes) (read_body feature r1) _ h1 in
    let p = =ᵇ_sound feature feature_bytes q in
    let split : r ≡ feature_bytes ++ r1 = subst (λ (z : Bytes). r ≡ z ++ r1) p s in
    subst (λ (z : Bytes). Decoded f z rest) (sym split)
      (read_body-eq-ok r1 (AreBytes-split feature_bytes r1 (subst AreBytes split b)).1
        (subst (λ (z : Bytes). read_body z r1 ≡ ok (f, rest)) p body))

length-left :
    (f : Frame) (rest : Bytes)
    → length f.error ≤ 65535
    → length (drop (kept_error f) (sent_error f) ++ rest) ≡ length rest
length-left f rest fits = ground (
  arith,
  length-append {0} (drop (kept_error f) (sent_error f)) rest,
  length-drop {0} (kept_error f) (sent_error f),
)

-- Two readings of one stream leave equally much of it.
same_rest :
    (f g : Frame) (left right : Bytes)
    → IsFrame f
    → IsFrame g
    → length f.error ≤ 65535
    → length g.error ≤ 65535
    → encode f ++ left ≡ encode g ++ right
    → length left ≡ length right
same_rest f g left right vf vg hf hg e =
    let both = sym (read_frame-encode f left vf) ∙ ap read_frame e ∙ read_frame-encode g right vg in
    sym (length-left f left hf) ∙ ap length (ok_pair both).1 ∙ length-left g right hg

-- No frame is read from a stream that ends before the frame does.
pub read_frame-truncated :
    (f : Frame) (k : ℕ) (g : Frame) (rest : Bytes)
    → IsFrame f
    → length f.error ≤ 65535
    → AreBytes (encode f)
    → k < length (encode f)
    → read_frame (take k (encode f)) ≢ ok (g, rest)
read_frame-truncated f k g rest v fits b short h =
    let whole = take-append-drop k (encode f) in
    let front = AreBytes-split _ _ (subst AreBytes (sym whole) b) in
    let d = read_frame-Decoded (take k (encode f)) front.0 h in
    let both : encode f ++ [] ≡ encode g ++ (rest ++ drop k (encode f)) =
      append-nil (encode f)
      ∙ sym whole
      ∙ ap (λ (z : Bytes). z ++ drop k (encode f)) d.wire
      ∙ append_assoc (encode g) rest (drop k (encode f)) in
    let e = same_rest f g [] (rest ++ drop k (encode f)) v d.fields fits d.error_fits both in
    absurd
      (omega (arith, e, length-append {0} rest (drop k (encode f)), length-drop {0} k (encode f)))
