-- ===== src/Cli/Server/Tests.antt =====
-- A server with one command, through a connection that keeps what is written to it.
use aeus.Common.{
  ℕ, Bytes, codes, true, List, [], ◌∷◌, ◌++◌, length, ltb, all, All, ◌&&◌, ◌≤◌, none, some, ok, ◌≡◌,
  ◌≢◌, refl, arith, ◌=ᵇ◌,
}
use aeus.Common.Dict.{Dict, lookup, insert}
use aeus.Cli.Frame.{IoError, Frame, Write, new_frame, packet_type_command}
use aeus.Cli.Wire.{encode}
use aeus.Cli.Writer.{TakesAll}
use aeus.Cli.Router.Tree.{Router, router, no_child, child, not_found, get_children, lookup_self}
use aeus.Cli.Router.Tree
use aeus.Cli.Router.Complete.{usage, join}
use aeus.Cli.Serialize.Value.{Value, string, digits}
use aeus.Cli.Serialize.Text.{Printer, serialize}
use aeus.Cli.Context.Reply.{Host, encode_data, flag_complete, error_text}
use aeus.Cli.Client.Defs.{answered, wait_response, io_loop}
use aeus.Cli.Client.Stream.{Plain}
use aeus.Cli.Server.Context.{Scope, Context, reset, success}
use aeus.Cli.Server.Fields.{IsGraphic, IsWord, fields, scan, space_length}
use aeus.Cli.Server.Execute.{Handler, Command, Server, bind_params, run_command}
use aeus.Cli.Server.Process.{process}
use aeus.Cli.Server.Ends.{process-ends}
use aeus.Cli.Server.Answer.{run_command-Passes, wait_response-process}
use aeus.Cli.Server.Refusal.{Refused, unknown, incomplete, wait_response-process-Refused}

abbrev buffer : Write Bytes
buffer w bs = (length bs, none, w ++ bs)

abbrev contents : Bytes → Bytes
contents w = w

buffer-TakesAll : TakesAll buffer contents
buffer-TakesAll = record { count = λ w bs. refl; no_error = λ w bs. refl; appends = λ w bs. refl }

abbrev printer : Printer Unit Unit IoError
printer = record {
  json = λ v. ok (codes "{}");
  json_map = λ v. ok (codes "{}");
  float_text = λ x. codes "1.5";
  fixed = λ x. codes "1.50";
  sprint = λ v. codes "v";
  string_width = length;
  runes = length;
}

abbrev host : Host Bytes Unit Unit IoError
host = record {
  write = buffer;
  now = λ k. 7;
  custom = λ v. none;
  printer = printer;
  io_failed = λ e. e;
}

abbrev greet : Dict Bytes → List Bytes → Value Unit Unit
greet params args =
    string (codes "hello " ++ (elim (lookup (codes "id") params) [ none ↦ [] | some v ↦ v ]))

abbrev show_command : Command Bytes ℕ Unit Unit IoError
show_command = record {
  path = codes "/show/user/:id";
  run =
      λ conn. let r = success host (greet conn.0.params conn.0.args) conn.0 in (r.0, (r.1, conn.1));
  description = codes "show a user";
}

abbrev show_user : Router (Command Bytes ℕ Unit Unit IoError)
show_user =
    router (codes "user") (codes "show" ∷ codes "user" ∷ []) no_child (some show_command)
      (codes "id" ∷ [])

abbrev show : Router (Command Bytes ℕ Unit Unit IoError)
show = router (codes "show") (codes "show" ∷ []) (child show_user no_child) none []

abbrev elsewhere : Scope ℕ
elsewhere = record { deadline = none; carried = 3 }

-- A middleware that puts a value into the context that it hands on.
abbrev tag : Handler Bytes ℕ Unit Unit IoError → Handler Bytes ℕ Unit Unit IoError
tag next scope conn = next elsewhere conn

abbrev server : Server Bytes ℕ Unit Unit IoError
server = record {
  host = host;
  tree = router [] [] (child show no_child) none [];
  middleware = tag ∷ [];
  metrics = true;
  scope = record { deadline = none; carried = 0 };
  greeting = λ id. string (codes "welcome");
}

abbrev line_frame : Bytes → Frame
line_frame line = new_frame packet_type_command flag_complete 5 1000 line 9

line_frame-Plain :
    (line : Bytes) → length line ≤ 65535 → Plain packet_type_command (line_frame line)
unfolding new_frame
line_frame-Plain line h = (
  record {
    packet_type_byte = omega arith;
    flag_byte = omega arith;
    seq_word = omega arith;
    timeout_word = omega arith;
    timestamp_word = omega arith;
    payload_fits = h;
  },
  refl,
  refl,
  refl,
)

abbrev words : List Bytes
words = codes "show" ∷ codes "user" ∷ codes "7" ∷ []

graphic : (w : Bytes) → all (λ b. ltb 32 b && ltb b 127) w ≡ true → All IsGraphic w
graphic [] h = tt
graphic (b ∷ w) h = (ground (arith, h), graphic w (ground (arith, h)))

words-IsWord : All IsWord words
words-IsWord = (
  ((λ h. cc), graphic (codes "show") refl),
  (((λ h. cc), graphic (codes "user") refl), (((λ h. cc), graphic (codes "7") refl), tt)),
)

finds : Tree.lookup server.tree words ≡ ok (show_user, codes "7" ∷ [])
unfolding Tree.lookup get_children ◌=ᵇ◌ lookup_self
finds = refl

greets :
    encode_data host (greet (bind_params (codes "id" ∷ []) (codes "7" ∷ []) []) (codes "7" ∷ []))
    ≡ ok (codes "hello 7")
unfolding encode_data bind_params insert lookup serialize ◌=ᵇ◌
greets = refl

wait_response-process_example :
    (ctx : Context Bytes ℕ Unit Unit) × (process server elsewhere 0
        (encode (line_frame (join (codes " ") words)))
        []
      ≡ some (ctx, (show_command.path, codes "success") ∷ []))
    × (wait_response 5 (io_loop (contents ctx.writer)).command_chan
        ≡ answered (codes "hello 7\n") [])
unfolding new_frame
wait_response-process_example =
    wait_response-process server contents buffer-TakesAll (λ k. omega arith) elsewhere 0 []
      (line_frame (join (codes " ") words)) words (codes "7" ∷ []) show_user show_command greet
      (codes "hello 7") (line_frame-Plain (join (codes " ") words) (unfold join in omega arith))
      refl words-IsWord finds refl (omega arith) ((λ next scope conn. (elsewhere, refl)), tt)
      (λ conn. refl) greets refl

process-ends_example : process server elsewhere 0 (codes "CLI") [] ≢ none
process-ends_example = process-ends server elsewhere 0 (codes "CLI") []

run_command-Passes_example :
    run_command server show_command (codes "id" ∷ []) (codes "7" ∷ []) (reset elsewhere 1 [])
    ≡ run_command
        (record server { middleware = [] })
        show_command
        (codes "id" ∷ [])
        (codes "7" ∷ [])
        (reset elsewhere 1 [])
run_command-Passes_example =
    run_command-Passes server show_command (codes "id" ∷ []) (codes "7" ∷ []) (reset elsewhere 1 [])
      ((λ next scope conn. (elsewhere, refl)), tt)

unknown_line : Refused server (codes "quit now") 4004 (codes "Command quit now not found")
unfolding Tree.lookup get_children ◌=ᵇ◌ lookup_self fields scan space_length
unknown_line = unknown not_found refl

lacks_argument : Refused server (codes "show user") 1003 (codes "Usage: show user {id}")
unfolding Tree.lookup get_children ◌=ᵇ◌ lookup_self fields scan space_length usage join
lacks_argument = incomplete show_user [] refl (omega arith)

wait_response-process-Refused_example :
    (ctx : Context Bytes ℕ Unit Unit) × (process server elsewhere 0
        (encode (line_frame (codes "show user")))
        []
      ≡ some (ctx, []))
    × (wait_response 5 (io_loop (contents ctx.writer)).command_chan
        ≡ answered (codes "ERROR(1003): Usage: show user {id}\n") [])
unfolding new_frame error_text digits
wait_response-process-Refused_example =
    wait_response-process-Refused server contents buffer-TakesAll elsewhere 0 []
      (line_frame (codes "show user")) 1003 (codes "Usage: show user {id}")
      (line_frame-Plain (codes "show user") (omega arith)) lacks_argument (omega arith) refl
