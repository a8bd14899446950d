-- ===== src/Cli/Server/Turns.antt =====
-- The turns of the loop of transport/cli/server.go for one command.
use aeus.Common.{
  ℕ, zero, suc, ◌≤◌, ◌<◌, Bytes, List, [], ◌++◌, ltb, length, Option, none, some, ok, ◌≡◌, refl,
  sym, ap, ◌∙◌, arith, append-nil, false,
}
use aeus.Cli.Frame.{Frame, IoError, read_full, read_frame, packet_type_command}
use aeus.Cli.Wire.{encode}
use aeus.Cli.Router.Tree.{Router, command_of, lookup}
use aeus.Cli.Serialize.Value.{Value}
use aeus.Cli.Context.Reply.{Host, encode_data, send, write_chunked, host_error}
use aeus.Cli.Client.Stream.{Plain, read_frame-Plain, length-encode}
use aeus.Cli.Server.Context.{Scope, Context, reset, respond, success}
use aeus.Cli.Server.Fields.{fields}
use aeus.Cli.Server.Execute.{Command, Server, node_params, timed, run_command, execute}
use aeus.Cli.Server.Process.{next_sequence, handle_frame, next_turn, serve, process}

module _ {W X F J E : Type 0} where
  -- The context that a reply of these bytes leaves.
  abbrev pub replied : Host W F J E → Bytes → Context W X F J → Context W X F J
  replied H buf ctx = record ctx {
    writer = (write_chunked H.write H.now packet_type_command ctx.seq buf ctx.writer).1;
  }

  -- A write that succeeded is no error to the handler.
  pub host_error-none :
      (H : Host W F J E) (ctx : Context W X F J) (r : Option IoError × W)
      → r.0 ≡ none
      → ◌≡◌ {A = Option E × Context W X F J}
          ((host_error H r).0, record ctx { writer = (host_error H r).1 })
          (none, record ctx { writer = r.1 })
  host_error-none H ctx (none, w) h = refl
  host_error-none H ctx (some e, w) h = cc

  pub success-encoded :
      (H : Host W F J E) (v : Value F J) (buf : Bytes) (ctx : Context W X F J)
      → encode_data H v ≡ ok buf
      → (write_chunked H.write H.now packet_type_command ctx.seq buf ctx.writer).0 ≡ none
      → success H v ctx ≡ (none, replied H buf ctx)
  unfolding success respond send
  success-encoded H v buf ctx e w = rw e (
      host_error-none H ctx (write_chunked H.write H.now packet_type_command ctx.seq buf ctx.writer)
        w)

  pub execute-run :
      (svr : Server W X F J E) (f : Frame) (ctx : Context W X F J) (words args : List Bytes)
      (node : Router (Command W X F J E)) (c : Command W X F J E)
      → fields f.payload ≡ words
      → lookup svr.tree words ≡ ok (node, args)
      → command_of node ≡ some c
      → length (node_params node) ≤ length args
      → execute svr f ctx ≡ run_command svr c (node_params node) args (timed svr f ctx)
  unfolding execute
  execute-run svr f ctx words args node c line found has enough = rw (line, found, few, has) refl
    where
      few : ltb (length args) (length (node_params node)) ≡ false
      few = ground (arith, enough)

  pub handle_frame-command :
      (svr : Server W X F J E) (f : Frame) (ctx : Context W X F J)
      → f.packet_type ≡ packet_type_command
      → handle_frame svr f ctx ≡ execute svr f (record ctx { seq = f.seq })
  unfolding handle_frame
  handle_frame-command svr f ctx h = rw h refl

  serve-nil :
      (svr : Server W X F J E) (n : ℕ) (ctx : Context W X F J) (log : List (Bytes × Bytes))
      → 0 < n
      → serve svr n [] ctx log ≡ some (ctx, log)
  unfolding serve read_frame read_full
  serve-nil svr zero ctx log h = absurd (omega (arith, h))
  serve-nil svr (suc n) ctx log h = refl

  serve-frame :
      (svr : Server W X F J E) (n : ℕ) (r r' : Bytes) (f : Frame) (ctx ctx' : Context W X F J)
      (log more : List (Bytes × Bytes))
      → read_frame r ≡ ok (f, r')
      → handle_frame svr f ctx ≡ (none, ctx', more)
      → serve svr (suc n) r ctx log ≡ serve svr n r' ctx' (log ++ more)
  unfolding serve
  serve-frame svr n r r' f ctx ctx' log more h k =
      rw (serve, h) (ap (λ d. next_turn svr d log (serve svr n r')) k)

  -- A connection that has one frame on it.
  pub process-frame :
      (svr : Server W X F J E) (background : Scope X) (sequence : ℕ) (w : W) (f : Frame)
      (ctx : Context W X F J) (log : List (Bytes × Bytes))
      → Plain packet_type_command f
      → handle_frame svr f (reset background (next_sequence sequence) w) ≡ (none, ctx, log)
      → process svr background sequence (encode f) w ≡ some (ctx, log)
  unfolding process
  process-frame svr background sequence w f ctx log p turn =
      serve-frame svr (length (encode f)) (encode f) [] f _ ctx [] log arrives turn
      ∙ serve-nil svr (length (encode f)) ctx log (omega (arith, length-encode f))
    where
      arrives : read_frame (encode f) ≡ ok (f, [])
      arrives =
          ap read_frame (sym (append-nil (encode f))) ∙ read_frame-Plain packet_type_command f [] p
