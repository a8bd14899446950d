-- ===== src/Cli/Server/Process.antt =====
-- `nextSequence` and `process` of transport/cli/server.go. What a peer sends is the list of bytes up to
-- the end of its side of the connection; the pool of contexts only saves memory, since reset sets
-- every field, and the map of open contexts serves Stop, which is not modelled.
use aeus.Common.{
  ℕ, zero, suc, ◌+◌, ◌-◌, ◌^◌, Bytes, false, List, [], ◌∷◌, ◌++◌, ◌==◌, if◌then◌else◌, length,
  Option, none, some, ok, err,
}
use aeus.Cli.Frame.{
  Frame, read_frame, packet_type_completer, packet_type_command, packet_type_handshake,
}
use aeus.Cli.Router.Complete.{completer}
use aeus.Cli.Serialize.Value.{Value, string, slice, Items, no_item, item}
use aeus.Cli.Context.Reply.{Response}
use aeus.Cli.Server.Context.{Scope, Context, reset, respond}
use aeus.Cli.Server.Fields.{fields}
use aeus.Cli.Server.Execute.{Outcome, Server, unrecorded, execute}

-- `nextSequence`, of a counter that starts at 0.
unfoldable pub next_sequence : ℕ → ℕ
next_sequence sequence = (if sequence == 2 ^ 63 - 1 then 1 else sequence) + 1

-- A list of strings.
unfoldable pub strings : {F J : Type 0} → List Bytes → Items F J
strings [] = no_item
strings (s ∷ more) = item (string s) (strings more)

module _ {W X F J E : Type 0} (svr : Server W X F J E) where
  abbrev pub reply_of : ℕ → Value F J → Response (Value F J)
  reply_of t v = record { packet_type = t; code = 0; message = []; value = v }

  -- The turn of the loop for a frame; a frame of another type is only logged.
  unfoldable pub handle_frame : Frame → Context W X F J → Outcome W X F J E
  handle_frame f old =
      let ctx = record old { seq = f.seq } in
      if f.packet_type == packet_type_handshake
      then unrecorded (respond svr.host (reply_of packet_type_handshake (svr.greeting ctx.id)) ctx)
      else if f.packet_type == packet_type_completer
      then unrecorded (
          respond svr.host
            (reply_of packet_type_completer
              (slice false (strings (completer svr.tree (fields f.payload)))))
            ctx)
      else if f.packet_type == packet_type_command
      then execute svr f ctx
      else (none, ctx, [])

  -- `if err = ...; err != nil { break readLoop }`.
  abbrev pub next_turn :
      Outcome W X F J E
      → List (Bytes × Bytes)
      → (Context W X F J → List (Bytes × Bytes) → Option (Context W X F J × List (Bytes × Bytes)))
      → Option (Context W X F J × List (Bytes × Bytes))
  next_turn (some e, ctx, more) log loop = some (ctx, log ++ more)
  next_turn (none, ctx, more) log loop = loop ctx (log ++ more)

  -- The read loop on fuel, with what has been recorded so far; `none` is the lack of fuel. It ends
  -- when a frame cannot be read, and when an answer fails.
  unfoldable pub serve :
      ℕ
      → Bytes
      → Context W X F J
      → List (Bytes × Bytes)
      → Option (Context W X F J × List (Bytes × Bytes))
  serve zero r ctx log = none
  serve (suc n) r ctx log = elim (read_frame r) [
    | err _ ↦ some (ctx, log)
    | ok (f, r') ↦ next_turn (handle_frame f ctx) log (serve n r')
  ]

  -- `process`, of a connection that sends `r`, with the counter of sequences before it.
  unfoldable pub process : Scope X → ℕ → Bytes → W → Option (Context W X F J × List (Bytes × Bytes))
  process background sequence r w =
      serve (suc (length r)) r (reset background (next_sequence sequence) w) []
