-- ===== src/Cli/Client/Defs.antt =====
-- getSequence, ioLoop and waitResponse of transport/cli/client.go. The channels are the lists of the
-- frames that ioLoop puts on them, in order: a sender that finds a channel full waits. The text of a
-- greeting is not modelled.
use aeus.Common.{
  ℕ, zero, suc, ◌+◌, ◌%◌, Bytes, codes, List, [], ◌∷◌, ◌++◌, ◌==◌, if◌then◌else◌, ◌=ᵇ◌, length, ok,
  err,
}
use aeus.Cli.Frame.{
  Frame, read_frame, packet_type_completer, packet_type_command, packet_type_handshake,
}
use aeus.Cli.Context.Reply.{flag_complete}

-- `getSequence`, of a counter of 16 bits.
unfoldable pub get_sequence : ℕ → ℕ
get_sequence sequence = let next = (sequence + 1) % 65536 in if next == 0 then 1 else next

pub record Channels : Type 0 where
  pub ready : ℕ
  pub completer_chan : List Frame
  pub command_chan : List Frame

-- A frame that is read goes to the channel of its type, ahead of what the rest of the stream gives.
unfoldable pub deliver : Frame → Channels → Channels
deliver f c =
    if f.packet_type == packet_type_handshake
    then record c { ready = suc c.ready }
    else if f.packet_type == packet_type_completer
    then record c { completer_chan = f ∷ c.completer_chan }
    else if f.packet_type == packet_type_command
    then record c { command_chan = f ∷ c.command_chan }
    else c

abbrev no_frames : Channels
no_frames = record { ready = 0; completer_chan = []; command_chan = [] }

-- `ioLoop` on fuel: every turn but the last reads a frame.
unfoldable pub read_loop : ℕ → Bytes → Channels
read_loop zero r = no_frames
read_loop (suc n) r = elim (read_frame r) [
  | err _ ↦ no_frames
  | ok (f, r') ↦ deliver f (read_loop n r')
]

unfoldable pub io_loop : Bytes → Channels
io_loop r = read_loop (length r) r

-- How `waitResponse` ends: with an answer, or still waiting, till the time is over or the client is
-- closed. Both carry what has been printed, and the first the frames that stay on the channel.
pub data Waited : Type 0 where
  answered : Bytes → List Frame → Waited
  waiting : Bytes → Waited

abbrev pub print_first : Bytes → Waited → Waited
print_first s (answered printed left) = answered (s ++ printed) left
print_first s (waiting printed) = waiting (s ++ printed)

-- The text of a frame.
abbrev pub frame_text : Frame → Bytes
frame_text f = if f.error =ᵇ [] then f.payload else f.error

-- `waitResponse`.
unfoldable pub wait_response : ℕ → List Frame → Waited
wait_response seq [] = waiting []
wait_response seq (f ∷ more) =
    let later = wait_response seq more in
    if f.seq == seq
    then (if f.flag == flag_complete
        then answered (frame_text f ++ codes "\n") more
        else print_first (frame_text f) later)
    else later
