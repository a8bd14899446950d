-- ===== src/Cli/Server/Refusal.antt =====
-- What a client is told of a command line that transport/cli/server.go does not run.
use aeus.Common.{
  ℕ, ◌≤◌, ◌<◌, Bytes, codes, List, [], ◌∷◌, ◌++◌, ltb, length, length-append, none, some, ok, err,
  ◌≡◌, refl, ap, ◌∙◌, arith, true, ◌=ᵇ◌,
}
use aeus.Errs.{code_not_found, code_unavailable}
use aeus.Cli.Frame.{Frame, read_frame, write_frame, packet_type_command}
use aeus.Cli.Wire.{IsFrame, encode}
use aeus.Cli.Writer.{TakesAll, Sends, write_frame-Sends, read_frame-write_frame}
use aeus.Cli.Router.Tree.{Router, LookupError, lookup}
use aeus.Cli.Router.Complete.{usage}
use aeus.Cli.Context.Reply.{Host, send, error_text, error_frame}
use aeus.Cli.Client.Defs.{Channels, answered, wait_response, read_loop, io_loop}
use aeus.Cli.Client.Stream.{Plain, length-encode, read_loop-frame, deliver-command, read_loop-nil}
use aeus.Cli.Server.Context.{Scope, Context, reset, respond, error}
use aeus.Cli.Server.Fields.{fields}
use aeus.Cli.Server.Execute.{Command, Server, node_params, timed, unrecorded, execute}
use aeus.Cli.Server.Process.{next_sequence, handle_frame, process}
use aeus.Cli.Server.Turns.{host_error-none, handle_frame-command, process-frame}

module _ {W X F J E : Type 0} where
  -- The lines that are refused, with the code and the message.
  pub data Refused (svr : Server W X F J E) (line : Bytes) : ℕ → Bytes → Type 0 where
    unknown :
        (e : LookupError)
        → lookup svr.tree (fields line) ≡ err e
        → Refused svr line code_not_found (codes "Command " ++ (line ++ codes " not found"))
    incomplete :
        (node : Router (Command W X F J E)) (args : List Bytes)
        → lookup svr.tree (fields line) ≡ ok (node, args)
        → length args < length (node_params node)
        → Refused svr line code_unavailable (usage node)

  execute-Refused :
      (svr : Server W X F J E) (f : Frame) (ctx : Context W X F J) (code : ℕ) (message : Bytes)
      → Refused svr f.payload code message
      → execute svr f ctx ≡ unrecorded (error svr.host code message (timed svr f ctx))
  unfolding execute
  execute-Refused svr f ctx code message (unknown e h) = rw h refl
  execute-Refused svr f ctx code message (incomplete node args h few) = rw (h, short) refl
    where
      short : ltb (length args) (length (node_params node)) ≡ true
      short = ground (arith, few)

  Refused-positive :
      (svr : Server W X F J E) (line : Bytes) (code : ℕ) (message : Bytes)
      → Refused svr line code message
      → 0 < code
  Refused-positive svr line code message (unknown e h) = omega arith
  Refused-positive svr line code message (incomplete node args h few) = omega arith

  -- The context that an error reply leaves.
  abbrev refused : Host W F J E → ℕ → Bytes → Context W X F J → Context W X F J
  refused H code message ctx = record ctx {
    writer =
        (write_frame H.write (error_frame packet_type_command ctx.seq code message) ctx.writer).1;
  }

  error-written :
      (H : Host W F J E) (code : ℕ) (message : Bytes) (ctx : Context W X F J)
      → 0 < code
      → (write_frame H.write (error_frame packet_type_command ctx.seq code message) ctx.writer).0
        ≡ none
      → error H code message ctx ≡ (none, refused H code message ctx)
  unfolding error respond send
  error-written H code message ctx pos w = rw positive (
      host_error-none H ctx
        (write_frame H.write (error_frame packet_type_command ctx.seq code message) ctx.writer) w)
    where
      positive : ltb 0 code ≡ true
      positive = ground (arith, pos)

module _ {W X F J E : Type 0} (svr : Server W X F J E) (sent : W → Bytes)
    (t : TakesAll svr.host.write sent) where
  error_frame-IsFrame :
      (seq code : ℕ) (message : Bytes)
      → seq < 65536
      → IsFrame (error_frame packet_type_command seq code message)
  error_frame-IsFrame seq code message h = omega (arith, h)

  -- The client that waits for an error prints it.
  wait_response-error :
      (seq code : ℕ) (message : Bytes)
      → wait_response seq (error_frame packet_type_command seq code message ∷ [])
        ≡ answered (error_text code message ++ codes "\n") []
  unfolding wait_response error_text ◌=ᵇ◌
  wait_response-error seq code message = ground arith

  io_loop-frame :
      (r : Bytes) (f : Frame)
      → read_frame r ≡ ok (f, [])
      → f.packet_type ≡ packet_type_command
      → 0 < length r
      → (io_loop r).command_chan ≡ f ∷ []
  unfolding io_loop
  io_loop-frame [] f h p l = absurd (omega (arith, l))
  io_loop-frame (b ∷ r) f h p l =
      ap (λ (c : Channels). c.command_chan) (read_loop-frame (length r) (b ∷ r) [] f h)
      ∙ deliver-command f (read_loop (length r) []) p
      ∙ ap (◌∷◌ f) (read_loop-nil (length r))

  -- A connection on which a client has sent one command line and nothing more: if Lookup does not
  -- find it, or finds fewer arguments than the node has parameters, the server ends, nothing is
  -- recorded, and the client that waits for its sequence number prints the error with the code and
  -- the message, in which an unknown line stands and for an incomplete one the usage, and a newline.
  -- The frame's fields fit their types, the error text has 65535 bytes at most, and the writer takes
  -- all it is given.
  pub wait_response-process-Refused :
      (background : Scope X) (sequence : ℕ) (w : W) (f : Frame) (code : ℕ) (message : Bytes)
      → Plain packet_type_command f
      → Refused svr f.payload code message
      → length (error_text code message) ≤ 65535
      → sent w ≡ []
      → (ctx : Context W X F J) × (process svr background sequence (encode f) w ≡ some (ctx, []))
        × (wait_response f.seq (io_loop (sent ctx.writer)).command_chan
            ≡ answered (error_text code message ++ codes "\n") [])
  unfolding reset
  wait_response-process-Refused background sequence w f code message p why fits fresh =
      (done, process-frame svr background sequence w f done [] p turn, shown)
    where
      start : Context W X F J
      start = reset background (next_sequence sequence) w

      ready : Context W X F J
      ready = timed svr f (record start { seq = f.seq })

      done : Context W X F J
      done = refused svr.host code message ready

      reply : Frame
      reply = error_frame packet_type_command f.seq code message

      sends : Sends sent w (encode reply) (write_frame svr.host.write reply w)
      sends = write_frame-Sends svr.host.write sent t reply w (omega arith)

      turn : handle_frame svr f start ≡ (none, done, [])
      turn =
          handle_frame-command svr f start p.3
          ∙ execute-Refused svr f (record start { seq = f.seq }) code message why
          ∙ ap unrecorded (
              error-written svr.host code message ready
                (Refused-positive svr f.payload code message why) sends.no_error)

      arrives : read_frame (sent (write_frame svr.host.write reply w).1) ≡ ok (reply, [])
      arrives =
          read_frame-write_frame svr.host.write sent t reply w
            (error_frame-IsFrame f.seq code message p.0.seq_word) fits fresh

      some_bytes : 0 < length (sent (write_frame svr.host.write reply w).1)
      some_bytes = omega (
        arith,
        ap length sends.appended,
        length-append (sent w) (encode reply),
        length-encode reply,
      )

      shown :
          wait_response f.seq (io_loop (sent (write_frame svr.host.write reply w).1)).command_chan
          ≡ answered (error_text code message ++ codes "\n") []
      shown =
          ap (wait_response f.seq) (
            io_loop-frame (sent (write_frame svr.host.write reply w).1) reply arrives refl
              some_bytes)
          ∙ wait_response-error f.seq code message
