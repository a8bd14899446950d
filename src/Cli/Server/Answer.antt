-- ===== src/Cli/Server/Answer.antt =====
-- A command from the client's line to what the client prints, through transport/cli.
use aeus.Common.{
  ℕ, ◌≤◌, ◌<◌, ◌^◌, Bytes, codes, List, [], ◌∷◌, length, Option, none, some, ok, ◌≡◌, refl, ap, ◌∙◌,
  All,
}
use aeus.Middleware.{chain}
use aeus.Common.Dict.{Dict}
use aeus.Cli.Frame.{Frame, IoError, packet_type_command}
use aeus.Cli.Wire.{encode}
use aeus.Cli.Writer.{TakesAll}
use aeus.Cli.Router.Tree.{Router, command_of, lookup}
use aeus.Cli.Router.Complete.{join}
use aeus.Cli.Serialize.Value.{Value}
use aeus.Cli.Context.Reply.{Host, encode_data, write_chunked}
use aeus.Cli.Client.Defs.{wait_response, io_loop}
use aeus.Cli.Client.Stream.{Plain}
use aeus.Cli.Client.Chunks.{shown_reply}
use aeus.Cli.Client.Replies.{wait_response-write_chunked}
use aeus.Cli.Server.Context.{Scope, Context, reset, success}
use aeus.Cli.Server.Fields.{fields, IsWord, fields-join}
use aeus.Cli.Server.Execute.{
  Conn, Handler, Command, Outcome, Server, node_params, bind_params, timed, base_handler,
  command_metadata, recorded, run_command,
}
use aeus.Cli.Server.Process.{next_sequence, handle_frame, process}
use aeus.Cli.Server.Turns.{
  replied, success-encoded, execute-run, handle_frame-command, process-frame,
}

module _ {W X F J : Type 0} where
  -- The context that a command works on.
  abbrev pub bound : List Bytes → List Bytes → Context W X F J → Context W X F J
  bound names args ctx = record ctx { args = args; params = bind_params names args [] }

module _ {W X F J E : Type 0} where
  -- A middleware that goes on to the handler it wraps, with any context.
  abbrev pub Passes : (Handler W X F J E → Handler W X F J E) → Type 0
  Passes m =
      (next : Handler W X F J E) (scope : Scope X) (conn : Conn W X F J E)
      → (scope' : Scope X) × (m next scope conn ≡ next scope' conn)

  chain-Passes :
      (ms : List (Handler W X F J E → Handler W X F J E)) (c : Command W X F J E) (scope : Scope X)
      (conn : Conn W X F J E)
      → All Passes ms
      → chain ms (base_handler c) scope conn ≡ c.run conn
  unfolding chain
  chain-Passes [] c scope conn p = refl
  chain-Passes (m ∷ ms) c scope conn (p, ps) =
      let (scope', e) = p (chain ms (base_handler c)) scope conn in
      e ∙ chain-Passes ms c scope' conn ps

  -- A server whose middlewares all go on runs a command as one that has none: what they put into the
  -- context that they hand on does not reach the command.
  pub run_command-Passes :
      (svr : Server W X F J E) (c : Command W X F J E) (names args : List Bytes)
      (ctx : Context W X F J)
      → All Passes svr.middleware
      → run_command svr c names args ctx
        ≡ run_command (record svr { middleware = [] }) c names args ctx
  unfolding run_command chain
  run_command-Passes svr c names args ctx p = rw (chain-Passes svr.middleware c _ _ p) refl

  -- The command answers with a value that is made from its parameters and its arguments.
  abbrev pub Answers :
      Host W F J E → (Dict Bytes → List Bytes → Value F J) → Command W X F J E → Type 0
  Answers H v c =
      (conn : Conn W X F J E)
      → c.run conn ≡ (
        (success H (v conn.0.params conn.0.args) conn.0).0,
        ((success H (v conn.0.params conn.0.args) conn.0).1, conn.1),
      )

  run_command-Answers :
      (svr : Server W X F J E) (c : Command W X F J E) (names args : List Bytes)
      (ctx ctx' : Context W X F J) (v : Dict Bytes → List Bytes → Value F J)
      → All Passes svr.middleware
      → Answers svr.host v c
      → success svr.host (v (bind_params names args []) args) (bound names args ctx) ≡ (none, ctx')
      → run_command svr c names args ctx ≡ (none, ctx', recorded {E = E} svr.metrics c.path none)
  unfolding run_command
  run_command-Answers svr c names args ctx ctx' v p a s =
      ap (λ (r : Option E × Conn W X F J E). finished r)
        (chain-Passes svr.middleware c _ _ p
          ∙ a (bound names args ctx, command_metadata c.path (bound names args ctx)))
      ∙ ap
          (λ (r : Option E × Context W X F J).
            finished (r.0, (r.1, command_metadata c.path (bound names args ctx))))
          s
    where
      finished : Option E × Conn W X F J E → Outcome W X F J E
      finished r = (r.0, r.1.0, recorded svr.metrics c.path r.0)

module _ {W X F J E : Type 0} (svr : Server W X F J E) (sent : W → Bytes)
    (t : TakesAll svr.host.write sent) (now_word : (k : ℕ) → svr.host.now k < 2 ^ 64) where
  -- A connection on which a client has sent one command and nothing more: where its words lead
  -- Lookup to a node with a command and with arguments enough for its parameters, the middlewares
  -- go on, and the command answers with a value whose text is `buf`, the server ends with the
  -- command's metrics, and the client that waits for its sequence number prints `buf` and a newline
  -- (and goes on waiting if `buf` is empty). The words are printed ASCII, the frame's fields fit
  -- their types, and the writer takes all it is given.
  pub wait_response-process :
      (background : Scope X) (sequence : ℕ) (w : W) (f : Frame) (words args : List Bytes)
      (node : Router (Command W X F J E)) (c : Command W X F J E)
      (v : Dict Bytes → List Bytes → Value F J) (buf : Bytes)
      → Plain packet_type_command f
      → f.payload ≡ join (codes " ") words
      → All IsWord words
      → lookup svr.tree words ≡ ok (node, args)
      → command_of node ≡ some c
      → length (node_params node) ≤ length args
      → All Passes svr.middleware
      → Answers svr.host v c
      → encode_data svr.host (v (bind_params (node_params node) args []) args) ≡ ok buf
      → sent w ≡ []
      → (ctx : Context W X F J) × (process svr background sequence (encode f) w
          ≡ some (ctx, recorded {E = E} svr.metrics c.path none))
        × (wait_response f.seq (io_loop (sent ctx.writer)).command_chan ≡ shown_reply buf)
  unfolding process reset
  wait_response-process background sequence w f words args node c v buf p line ws found has enough
        ms a e fresh =
      (done, ends, reply.1)
    where
      start : Context W X F J
      start = reset background (next_sequence sequence) w

      ready : Context W X F J
      ready = bound (node_params node) args (timed svr f (record start { seq = f.seq }))

      done : Context W X F J
      done = replied svr.host buf ready

      writes : Option IoError × W
      writes = write_chunked svr.host.write svr.host.now packet_type_command f.seq buf w

      reply :
          (writes.0 ≡ none)
          × (wait_response f.seq (io_loop (sent writes.1)).command_chan ≡ shown_reply buf)
      reply =
          wait_response-write_chunked svr.host.write sent t svr.host.now f.seq buf w p.0.seq_word
            now_word fresh

      turn : handle_frame svr f start ≡ (none, done, recorded {E = E} svr.metrics c.path none)
      turn =
          handle_frame-command svr f start p.3
          ∙ execute-run svr f (record start { seq = f.seq }) words args node c
              (ap fields line ∙ fields-join words ws) found has enough
          ∙ run_command-Answers svr c (node_params node) args
              (timed svr f (record start { seq = f.seq })) done v ms a
              (success-encoded svr.host (v (bind_params (node_params node) args []) args) buf ready
                e reply.0)

      ends :
          process svr background sequence (encode f) w
          ≡ some (done, recorded {E = E} svr.metrics c.path none)
      ends = process-frame svr background sequence w f done _ p turn
