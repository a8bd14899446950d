-- ===== src/Cli/Client/Replies.antt =====
-- A reply from writeChunked of transport/cli/context.go to what transport/cli/client.go prints.
use aeus.Common.{
  ℕ, zero, suc, ◌≤◌, ◌<◌, ◌^◌, Bytes, List, [], ◌∷◌, length, drop, none, ◌≡◌, refl, sym, ap, ◌∙◌,
  arith, append-nil,
}
use aeus.Cli.Frame.{Frame, Write, new_frame, packet_type_command}
use aeus.Cli.Wire.{encode}
use aeus.Cli.Writer.{TakesAll, Sends, write_frame-Sends, and_then-Sends}
use aeus.Cli.Context.Reply.{chunk_end, write_chunks, write_chunked}
use aeus.Cli.Client.Defs.{io_loop, wait_response}
use aeus.Cli.Client.Stream.{stream_of, length-stream_of, read_loop-stream_of}
use aeus.Cli.Client.Chunks.{
  chunk, chunk_frames, chunk_frames-IsFrame, payload_le, shown_reply, wait_response-whole,
}

module _ {W : Type 0} (write : Write W) (sent : W → Bytes) (t : TakesAll write sent)
    (now : ℕ → ℕ) where
  chunk_fits : (packet seq : ℕ) (buf : Bytes) → length (chunk now packet seq buf).payload ≤ 65535
  unfolding new_frame
  chunk_fits packet seq buf = payload_le buf

  write_chunks-Sends :
      (n packet seq : ℕ) (buf : Bytes) (w : W)
      → Sends sent w
          (stream_of (chunk_frames now n packet seq buf))
          (write_chunks write now n packet seq buf w)
  unfolding write_chunks chunk_frames stream_of
  write_chunks-Sends zero packet seq buf w = record {
    no_error = refl;
    appended = sym (append-nil (sent w));
  }
  write_chunks-Sends (suc n) packet seq [] w = record {
    no_error = refl;
    appended = sym (append-nil (sent w));
  }
  write_chunks-Sends (suc n) packet seq (b ∷ buf) w =
      and_then-Sends write sent t w (encode (chunk now packet seq (b ∷ buf))) _ _ _
        (write_frame-Sends write sent t (chunk now packet seq (b ∷ buf)) w
          (chunk_fits packet seq (b ∷ buf)))
        (write_chunks-Sends n packet seq (drop (chunk_end (b ∷ buf)) (b ∷ buf)))

  -- The client that reads what writeChunked hands to a writer that takes all it is given, and waits
  -- for the sequence number of the command, prints the bytes of the reply and a newline, however
  -- many frames they take; an empty reply is no frame, and the client that waits for it goes on
  -- waiting. The sequence number is one of 16 bits, and the times that the server's clock says have
  -- 64 bits.
  pub wait_response-write_chunked :
      (seq : ℕ) (buf : Bytes) (w : W)
      → seq < 65536
      → ((k : ℕ) → now k < 2 ^ 64)
      → sent w ≡ []
      → let r = write_chunked write now packet_type_command seq buf w in
        (r.0 ≡ none) × (wait_response seq (io_loop (sent r.1)).command_chan ≡ shown_reply buf)
  unfolding write_chunked io_loop
  wait_response-write_chunked seq buf w hs hn fresh = (sends.no_error, shown)
    where
      frames : List Frame
      frames = chunk_frames now (length buf) packet_type_command seq buf

      sends :
          Sends sent w
            (stream_of frames)
            (write_chunks write now (length buf) packet_type_command seq buf w)
      sends = write_chunks-Sends (length buf) packet_type_command seq buf w

      all_sent :
          sent (write_chunks write now (length buf) packet_type_command seq buf w).1
          ≡ stream_of frames
      all_sent = sends.appended ∙ rw fresh refl

      arrives : (io_loop (stream_of frames)).command_chan ≡ frames
      arrives =
          read_loop-stream_of (length (stream_of frames)) frames (length-stream_of frames)
            (chunk_frames-IsFrame now (length buf) packet_type_command seq buf (omega arith) hs hn)

      shown :
          wait_response seq
            (io_loop (
              sent
                (write_chunks write now (length buf) packet_type_command seq buf w).1)).command_chan
          ≡ shown_reply buf
      shown =
          ap (λ (z : Bytes). wait_response seq (io_loop z).command_chan) all_sent
          ∙ ap (wait_response seq) arrives
          ∙ wait_response-whole now packet_type_command seq buf
