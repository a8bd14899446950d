-- ===== src/Cli/Server/Context.antt =====
-- `Context` of transport/cli/context.go, the state that a connection keeps, and the adapters of types.go
-- that show it to the metadata of a request. `X` stands for the values that a `context.Context` carries.
use aeus.Common.{ℕ, zero, suc, Bytes, List, [], ◌∷◌, Option, none, some}
use aeus.Common.Dict.{Dict, lookup, insert}
use aeus.Cli.Frame.{packet_type_command}
use aeus.Cli.Serialize.Value.{Value, string, nil}
use aeus.Cli.Context.Reply.{Host, Response, send}

-- A `context.Context`: its deadline, as a time-out, and its values.
pub record Scope (X : Type 0) : Type 0 where
  pub deadline : Option ℕ
  pub carried : X

pub record Context (W X F J : Type 0) : Type 0 where
  pub id : ℕ
  pub seq : ℕ
  pub scope : Scope X
  pub writer : W
  pub params : Dict Bytes
  pub variables : Dict (Value F J)
  pub args : List Bytes

-- The word at an index, or the empty one.
abbrev pub nth : ℕ → List Bytes → Bytes
nth n [] = []
nth zero (a ∷ args) = a
nth (suc n) (a ∷ args) = nth n args

module _ {W X F J : Type 0} where
  -- `reset`, of a connection with the context that `context.Background()` is.
  unfoldable pub reset : Scope X → ℕ → W → Context W X F J
  reset background id w = record {
    id = id;
    seq = 0;
    scope = background;
    writer = w;
    params = [];
    variables = [];
    args = [];
  }

  -- `Argument`.
  unfoldable pub argument : ℕ → Context W X F J → Bytes
  argument index ctx = nth index ctx.args

  -- `Param`, which is also `Get` of cliMetadataReader.
  unfoldable pub param : Context W X F J → Bytes → Bytes
  param ctx s = elim (lookup s ctx.params) [ some v ↦ v | none ↦ [] ]

  -- `SetValue`, which is also `Set` of cliMetadataWriter.
  unfoldable pub set_value : Bytes → Value F J → Context W X F J → Context W X F J
  set_value name v ctx = record ctx { variables = insert name v ctx.variables }

  abbrev pub write_value : Bytes → Bytes → Context W X F J → Context W X F J
  write_value name v ctx = set_value name (string v) ctx

  module _ {E : Type 0} (H : Host W F J E) where
    -- `send` on the connection of a context.
    unfoldable pub respond : Response (Value F J) → Context W X F J → Option E × Context W X F J
    respond r ctx =
        let sent = send H ctx.seq r ctx.writer in (sent.0, record ctx { writer = sent.1 })

    -- `Success`.
    unfoldable pub success : Value F J → Context W X F J → Option E × Context W X F J
    success v =
        respond (record { packet_type = packet_type_command; code = 0; message = []; value = v })

    -- `Error`; a code of 0 or less is given as 0.
    unfoldable pub error : ℕ → Bytes → Context W X F J → Option E × Context W X F J
    error code message =
        respond (record {
          packet_type = packet_type_command;
          code = code;
          message = message;
          value = nil;
        })
