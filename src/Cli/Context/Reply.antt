-- ===== src/Cli/Context/Reply.antt =====
-- send, encode and writeChunked of transport/cli/context.go. `now n` is what the clock says when `n`
-- bytes of a reply are still to be written; `custom` stands for the encoder that a value may bring.
use aeus.Common.{
  ℕ, zero, suc, Bytes, codes, [], ◌++◌, ltb, leb, if◌then◌else◌, length, take, drop, Option, none,
  some, Result, ok, err,
}
use aeus.Cli.Frame.{IoError, feature_bytes, Frame, Write, and_then, write_frame, new_frame}
use aeus.Cli.Serialize.Value.{Value, nil, digits}
use aeus.Cli.Serialize.Text.{Printer, serialize}

abbrev pub wire_chunk_size : ℕ
wire_chunk_size = 32766

abbrev pub flag_portion : ℕ
flag_portion = 0

abbrev pub flag_complete : ℕ
flag_complete = 1

-- `OK`.
abbrev pub ok_text : Bytes
ok_text = codes "OK"

-- `responsePayload`; a code of 0 or less is no error.
pub record Response (V : Type 0) : Type 0 where
  pub packet_type : ℕ
  pub code : ℕ
  pub message : Bytes
  pub value : V

-- The smaller of the chunk size and what is left.
abbrev pub chunk_end : Bytes → ℕ
chunk_end buf = if leb (length buf) wire_chunk_size then length buf else wire_chunk_size

abbrev pub chunk_flag : Bytes → ℕ
chunk_flag buf = if leb (length buf) wire_chunk_size then flag_complete else flag_portion

-- `fmt.Sprintf("ERROR(%d): %s", code, message)`.
unfoldable pub error_text : ℕ → Bytes → Bytes
error_text code message = codes "ERROR(" ++ (digits 20 code ++ (codes "): " ++ message))

-- The frame of an error.
abbrev pub error_frame : ℕ → ℕ → ℕ → Bytes → Frame
error_frame t seq code message = record {
  feature = feature_bytes;
  packet_type = t;
  flag = flag_complete;
  seq = seq;
  payload = [];
  error = error_text code message;
  timeout = 0;
  timestamp = 0;
}

-- What the code of a server relies on: its connection, the clock, the encoders that values bring, the
-- printers of the library, and the error that a failed write is to a handler.
pub record Host (W F J E : Type 0) : Type 0 where
  pub write : Write W
  pub now : ℕ → ℕ
  pub custom : Value F J → Option (Result E Bytes)
  pub printer : Printer F J E
  pub io_failed : IoError → E

module _ {W : Type 0} (write : Write W) (now : ℕ → ℕ) where
  -- The loop of `writeChunked`, of which `buf` is what is left, on fuel.
  unfoldable pub write_chunks : ℕ → ℕ → ℕ → Bytes → W → Option IoError × W
  write_chunks zero t seq buf w = (none, w)
  write_chunks (suc n) t seq [] w = (none, w)
  write_chunks (suc n) t seq buf w =
      and_then
        (write_frame write
          (new_frame t (chunk_flag buf) seq 0 (take (chunk_end buf) buf) (now (length buf))) w)
        (write_chunks n t seq (drop (chunk_end buf) buf))

  -- `writeChunked`. Each turn takes a byte at least.
  unfoldable pub write_chunked : ℕ → ℕ → Bytes → W → Option IoError × W
  write_chunked t seq buf w = write_chunks (length buf) t seq buf w

module _ {W F J E : Type 0} (H : Host W F J E) where
  -- `encode`.
  unfoldable pub encode_data : Value F J → Result E Bytes
  encode_data nil = ok ok_text
  encode_data v = elim (H.custom v) [ some r ↦ r | none ↦ serialize H.printer v ]

  abbrev pub host_error : Option IoError × W → Option E × W
  host_error (none, w) = (none, w)
  host_error (some e, w) = (some (H.io_failed e), w)

  abbrev pub send_encoded : ℕ → ℕ → Result E Bytes → W → Option E × W
  send_encoded t seq (err e) w = (some e, w)
  send_encoded t seq (ok buf) w = host_error (write_chunked H.write H.now t seq buf w)

  -- `send`.
  unfoldable pub send : ℕ → Response (Value F J) → W → Option E × W
  send seq r w =
      if ltb 0 r.code
      then host_error (write_frame H.write (error_frame r.packet_type seq r.code r.message) w)
      else send_encoded r.packet_type seq (encode_data r.value) w
