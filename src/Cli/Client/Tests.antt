-- ===== src/Cli/Client/Tests.antt =====
-- Replies of several frames at concrete inputs.
use aeus.Common.{ℕ, zero, suc, Bytes, codes, [], ◌∷◌, ◌++◌, length, none, ◌≡◌, refl, arith}
use aeus.Cli.Frame.{Write, packet_type_command}
use aeus.Cli.Writer.{TakesAll}
use aeus.Cli.Context.Reply.{write_chunked}
use aeus.Cli.Client.Defs.{get_sequence, wait_response, io_loop, answered}
use aeus.Cli.Client.Replies.{wait_response-write_chunked}

abbrev buffer : Write Bytes
buffer w bs = (length bs, none, w ++ bs)

abbrev contents : Bytes → Bytes
contents w = w

buffer-TakesAll : TakesAll buffer contents
buffer-TakesAll = record { count = λ w bs. refl; no_error = λ w bs. refl; appends = λ w bs. refl }

wraps : get_sequence 65535 ≡ 1
unfolding get_sequence
wraps = refl

-- A reply that takes two frames.
ones : ℕ → Bytes
ones zero = []
ones (suc n) = 49 ∷ ones n

abbrev long_reply : Bytes
long_reply = 48 ∷ ones 40000

wait_response-write_chunked_example :
    ((write_chunked buffer (λ k. 7) packet_type_command 5 long_reply []).0 ≡ none)
    × (wait_response 5
          (io_loop (
            contents
              (write_chunked buffer (λ k. 7) packet_type_command 5 long_reply []).1)).command_chan
        ≡ answered (long_reply ++ codes "\n") [])
wait_response-write_chunked_example =
    wait_response-write_chunked buffer contents buffer-TakesAll (λ k. 7) 5 long_reply []
      (omega arith) (λ k. omega arith) refl
