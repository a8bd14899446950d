-- ===== src/Cli/Frame.antt =====
-- transport/cli/frame.go. A reader is the list of the bytes that are still to come before the
-- connection ends; a writer is a parameter. The fields of 64 bits are kept as bit patterns (the
-- number that the eight bytes spell), and a nil slice is an empty one: readFrame and writeFrame
-- tell these apart in no result.
use aeus.Common.{
  ℕ, zero, suc, ◌+◌, ◌*◌, ◌/◌, ◌%◌, Bytes, codes, List, [], ◌∷◌, ltb, leb, ◌==◌, if◌then◌else◌,
  ◌=ᵇ◌, length, take, drop, Option, none, some, Result, ok, err, ◌>>=◌,
}

-- The errors of io that the code returns or passes on, and those of a writer.
pub data IoError : Type 0 where
  eof unexpected_eof no_progress short_write : IoError
  failed : ℕ → IoError

-- `Feature` of types.go, and the packet types.
abbrev pub feature_bytes : Bytes
feature_bytes = codes "CLI"

abbrev pub packet_type_completer : ℕ
packet_type_completer = 1

abbrev pub packet_type_command : ℕ
packet_type_command = 2

abbrev pub packet_type_handshake : ℕ
packet_type_handshake = 3

pub record Frame : Type 0 where
  pub feature : Bytes
  pub packet_type : ℕ
  pub flag : ℕ
  pub seq : ℕ
  pub payload : Bytes
  pub error : Bytes
  pub timeout : ℕ
  pub timestamp : ℕ

-- `io.ReadFull` into a buffer of `n` bytes: EOF if there was none, and an unexpected end after some.
unfoldable pub read_full : ℕ → Bytes → Result IoError (Bytes × Bytes)
read_full n r =
    if leb n (length r)
    then ok (take n r, drop n r)
    else (if length r == 0 then err eof else err unexpected_eof)

-- Little-endian numbers of `n` bytes.
unfoldable pub le_value : Bytes → ℕ
le_value [] = 0
le_value (b ∷ bs) = b + 256 * le_value bs

unfoldable pub le_bytes : ℕ → ℕ → Bytes
le_bytes zero x = []
le_bytes (suc n) x = x % 256 ∷ le_bytes n (x / 256)

-- `binary.Read` of an unsigned number of `n` bytes.
unfoldable pub read_le : ℕ → Bytes → Result IoError (ℕ × Bytes)
read_le n r = do (buf, rest) ← read_full n r; ok (le_value buf, rest)

-- `if dataLength > 0 { ... io.ReadFull ... }`, and the same for the error text.
unfoldable pub read_block : ℕ → Bytes → Result IoError (Bytes × Bytes)
read_block n r = if ltb 0 n then read_full n r else ok ([], r)

-- The body of a frame after its feature bytes.
unfoldable pub read_body : Bytes → Bytes → Result IoError (Frame × Bytes)
read_body feature r = do
  (packet_type, r) ← read_le 1 r
  (flag, r) ← read_le 1 r
  (seq, r) ← read_le 2 r
  (timeout, r) ← read_le 8 r
  (timestamp, r) ← read_le 8 r
  (data_length, r) ← read_le 2 r
  (error_length, r) ← read_le 2 r
  (payload, r) ← read_block data_length r
  (error, r) ← read_block error_length r
  ok (
    record {
      feature = feature;
      packet_type = packet_type;
      flag = flag;
      seq = seq;
      payload = payload;
      error = error;
      timeout = timeout;
      timestamp = timestamp;
    },
    r,
  )

-- `readFrame`: the frame, and what is left of the stream.
unfoldable pub read_frame : Bytes → Result IoError (Frame × Bytes)
read_frame r = do
  (feature, r) ← read_full 3 r
  if feature =ᵇ feature_bytes then read_body feature r else err unexpected_eof

-- `w.Write(p)` of a writer with state `W`: the count, the error and the state after it.
abbrev pub Write : Type 0 → Type 0
Write W = W → Bytes → ℕ × Option IoError × W

module _ {W : Type 0} where
  -- `if err = ...; err != nil { return }`.
  abbrev pub and_then : Option IoError × W → (W → Option IoError × W) → Option IoError × W
  and_then (none, w) next = next w
  and_then (some e, w) next = (some e, w)

  module _ (write : Write W) where
    -- A write of which only the error counts, as in `binary.Write`.
    abbrev pub put : Bytes → W → Option IoError × W
    put bs w = let r = write w bs in (r.1, r.2)

    -- The chain of `binary.Write` calls; each stops the function on an error.
    abbrev pub put_all : List Bytes → W → Option IoError × W
    put_all [] w = (none, w)
    put_all (bs ∷ rest) w = and_then (put bs w) (put_all rest)

    abbrev pub written_error : ℕ → ℕ → Option IoError → Option IoError
    written_error n wanted none = if ltb n wanted then some short_write else none
    written_error n wanted (some e) = some e

    -- `if dataLength > 0 { if n, err = w.Write(...); err == nil { if n < ... } }`: a block that is
    -- not written leaves the error of the one before, and one that is written replaces it.
    abbrev pub put_block : ℕ → Bytes → Option IoError × W → Option IoError × W
    put_block n bs (before, w) =
        if ltb 0 n then (let r = write w bs in (written_error r.0 n r.1, r.2)) else (before, w)

    -- `writeFrame`. The length of the error text is cut to 16 bits, and the text is not.
    unfoldable pub write_frame : Frame → W → Option IoError × W
    write_frame f w = and_then (put feature_bytes w) λ w'.
        if ltb 65535 (length f.payload)
        then (some no_progress, w')
        else and_then
            (put_all
              (le_bytes 1 f.packet_type
                ∷ le_bytes 1 f.flag
                ∷ le_bytes 2 f.seq
                ∷ le_bytes 8 f.timeout
                ∷ le_bytes 8 f.timestamp
                ∷ le_bytes 2 (length f.payload)
                ∷ le_bytes 2 (length f.error % 65536)
                ∷ [])
              w')
            (λ w''.
              put_block (length f.error % 65536) f.error
                (put_block (length f.payload) f.payload (none, w'')))

-- `newFrame`, with `time.Now().Unix()` as an argument.
unfoldable pub new_frame : ℕ → ℕ → ℕ → ℕ → Bytes → ℕ → Frame
new_frame t f seq timeout payload now = record {
  feature = feature_bytes;
  packet_type = t;
  flag = f;
  seq = seq;
  payload = payload;
  error = [];
  timeout = timeout;
  timestamp = now;
}
