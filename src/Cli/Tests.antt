-- ===== src/Cli/Tests.antt =====
-- Frames at concrete inputs, through a writer that appends to a buffer.
use aeus.Common.{Bytes, codes, [], ◌++◌, length, none, ok, ◌≡◌, refl, arith}
use aeus.Cli.Frame.{
  le_bytes, feature_bytes, Frame, read_frame, Write, write_frame, packet_type_command,
}
use aeus.Cli.Wire.{IsFrame, encode, header, received, read_frame-encode}
use aeus.Cli.Decode.{Decoded, read_frame-Decoded}
use aeus.Cli.Writer.{TakesAll, read_frame-write_frame}

abbrev buffer : Write Bytes
buffer w bs = (length bs, none, w ++ bs)

abbrev contents : Bytes → Bytes
contents w = w

buffer-TakesAll : TakesAll buffer contents
buffer-TakesAll = record { count = λ w bs. refl; no_error = λ w bs. refl; appends = λ w bs. refl }

abbrev help_frame : Frame
help_frame = record {
  feature = [];
  packet_type = packet_type_command;
  flag = 1;
  seq = 258;
  payload = codes "help";
  error = codes "no";
  timeout = 1000;
  timestamp = 7;
}

help_frame-IsFrame : IsFrame help_frame
help_frame-IsFrame = omega arith

read_frame-Decoded_example : Decoded (received help_frame) (encode help_frame) []
unfolding encode header le_bytes
read_frame-Decoded_example =
    read_frame-Decoded (encode help_frame) (omega arith)
      (read_frame-encode help_frame [] help_frame-IsFrame)

read_frame-write_frame_example :
    read_frame (contents (write_frame buffer help_frame []).1)
    ≡ ok (record help_frame { feature = feature_bytes }, [])
read_frame-write_frame_example =
    read_frame-write_frame buffer contents buffer-TakesAll help_frame [] help_frame-IsFrame
      (omega arith) refl
