-- ===== src/Cli/Server/Execute.antt =====
-- `execute` of transport/cli/server.go. A server whose context carries no metadata and which has no
-- tracer; its metrics are a list of the path and the status of each command, without the times.
-- Lookup gives no error but ErrNotFound, and only nodes that have a command.
use aeus.Common.{
  ℕ, ◌^◌, Bytes, codes, Bool, true, false, ◌&&◌, List, [], ◌∷◌, ◌++◌, ltb, if◌then◌else◌, length,
  Option, none, some, Result, ok, err,
}
use aeus.Common.Dict.{Dict, insert}
use aeus.Errs.{code_not_found, code_unavailable}
use aeus.Metadata.Defs.{Metadata, new_metadata, set}
use aeus.Middleware.{chain}
use aeus.Cli.Frame.{Frame}
use aeus.Cli.Router.Tree.{Router, router, LookupError, command_of, lookup}
use aeus.Cli.Router.Complete.{usage}
use aeus.Cli.Serialize.Value.{Value}
use aeus.Cli.Context.Reply.{Host}
use aeus.Cli.Server.Context.{Scope, Context, param, write_value, error}
use aeus.Cli.Server.Fields.{fields}

abbrev pub request_path : Bytes
request_path = codes "X-AEUS-Request-Path"

abbrev pub request_protocol : Bytes
request_protocol = codes "X-AEUS-Request-Protocol"

abbrev pub protocol : Bytes
protocol = codes "cli"

module _ (W X F J E : Type 0) where
  -- What a request works on: the context of its connection, and its metadata.
  abbrev pub Conn : Type 0
  Conn = Context W X F J × Metadata (Context W X F J)

  -- `middleware.Handler`, and the handler of a command, which sees the context of the connection.
  abbrev pub Handler : Type 0
  Handler = Scope X → Conn → Option E × Conn

  pub record Command : Type 0 where
    pub path : Bytes
    pub run : Conn → Option E × Conn
    pub description : Bytes

  -- The error, the context, and what has been recorded.
  abbrev pub Outcome : Type 0
  Outcome = Option E × Context W X F J × List (Bytes × Bytes)

  pub record Server : Type 0 where
    pub host : Host W F J E
    pub tree : Router Command
    pub middleware : List (Handler → Handler)
    pub metrics : Bool
    pub scope : Scope X
    pub greeting : ℕ → Value F J

-- `frame.Timeout > 0`, of a bit pattern of 64 bits.
abbrev pub has_timeout : ℕ → Bool
has_timeout t = ltb 0 t && ltb t (2 ^ 63)

abbrev pub node_params : {C : Type 0} → Router C → List Bytes
node_params (router name path children command params) = params

-- The loop that gives the names their arguments.
unfoldable pub bind_params : List Bytes → List Bytes → Dict Bytes → Dict Bytes
bind_params [] args m = m
bind_params (name ∷ names) [] m = m
bind_params (name ∷ names) (a ∷ args) m = bind_params names args (insert name a m)

abbrev pub status_of : {E : Type 0} → Option E → Bytes
status_of none = codes "success"
status_of (some _) = codes "error"

abbrev pub recorded : {E : Type 0} → Bool → Bytes → Option E → List (Bytes × Bytes)
recorded true path e = (path, status_of e) ∷ []
recorded false path e = []

module _ {W X F J : Type 0} where
  -- The metadata of a command.
  abbrev pub command_metadata : Bytes → Context W X F J → Metadata (Context W X F J)
  command_metadata path ctx =
      let named = set request_protocol protocol (set request_path path (new_metadata, ctx)) in
      record named.0 { tee_reader = some param; tee_writer = some write_value }

module _ {W X F J E : Type 0} where
  -- The context of the frame's time-out.
  abbrev pub timed : Server W X F J E → Frame → Context W X F J → Context W X F J
  timed svr frame ctx = record ctx {
    scope =
        if has_timeout frame.timeout
        then record svr.scope { deadline = some frame.timeout }
        else svr.scope;
  }

  -- The handler that the middlewares wrap: it runs the command on the context of the connection,
  -- whatever context they hand on.
  abbrev pub base_handler : Command W X F J E → Handler W X F J E
  base_handler c scope conn = c.run conn

  -- The command of a node with its arguments.
  unfoldable pub run_command :
      Server W X F J E
      → Command W X F J E
      → List Bytes
      → List Bytes
      → Context W X F J
      → Outcome W X F J E
  run_command svr c names args ctx =
      let ctx' = record ctx { args = args; params = bind_params names args [] } in
      let r =
        chain svr.middleware (base_handler c) ctx'.scope (ctx', command_metadata c.path ctx') in
      (r.0, r.1.0, recorded svr.metrics c.path r.0)

  abbrev pub unrecorded : Option E × Context W X F J → Outcome W X F J E
  unrecorded (e, ctx) = (e, ctx, [])

  abbrev pub run_node :
      Server W X F J E
      → Option (Command W X F J E)
      → List Bytes
      → List Bytes
      → Context W X F J
      → Outcome W X F J E
  run_node svr none names args ctx = (none, ctx, [])
  run_node svr (some c) names args ctx = run_command svr c names args ctx

  abbrev pub execute_found :
      Server W X F J E
      → Result LookupError (Router (Command W X F J E) × List Bytes)
      → Bytes
      → Context W X F J
      → Outcome W X F J E
  execute_found svr (err _) cmd ctx =
      unrecorded
        (error svr.host code_not_found (codes "Command " ++ (cmd ++ codes " not found")) ctx)
  execute_found svr (ok (node, args)) cmd ctx =
      if ltb (length args) (length (node_params node))
      then unrecorded (error svr.host code_unavailable (usage node) ctx)
      else run_node svr (command_of node) (node_params node) args ctx

  -- `execute`.
  unfoldable pub execute : Server W X F J E → Frame → Context W X F J → Outcome W X F J E
  execute svr frame ctx =
      execute_found svr (lookup svr.tree (fields frame.payload)) frame.payload (timed svr frame ctx)
