-- ===== src/L2cap.antt =====
-- bluetoe/l2cap.hpp: the L2CAP layer, which gives SDUs to the channels and collects theirs.
-- A channel is what it does with an input, and what it has to say. The buffer of the link layer is free or not; what is
-- committed to it is appended to what was sent.
pub mod Channels
pub mod Dispatch
pub mod Pending
mod Tests
use bluetoe.Shared.{
  ℕ, zero, suc, ◌+◌, ◌-◌, ◌*◌, ◌/◌, ◌%◌, ◌^◌, Bool, true, false, not, ◌&&◌, Option, none, some,
  List, [], ◌∷◌, ◌++◌, ◌==◌, if◌then◌else◌, ltb, length, get_or, drop,
}

abbrev pub l2cap_layer_header_size : ℕ
l2cap_layer_header_size = 4

-- A channel, over the state of the connection that all channels share. An answer is a list of bytes, the empty one for
-- an `out_size` of 0.
pub record Channel {ℓ} (Connection : Type ℓ) : Type ℓ where
  pub channel_id : ℕ
  pub channel_input : List ℕ → Connection → Connection × List ℕ
  pub channel_output : Connection → Connection × List ℕ

-- How the link layer takes the SDUs: for how many it has room, and those that were committed.
pub record LinkBuffer : Type 0 where
  pub room : ℕ
  pub committed : List (List ℕ)

-- `allocate_l2cap_output_buffer`: whether there is room.
abbrev pub has_room : LinkBuffer → Bool
has_room b = ltb 0 b.room

-- `commit_l2cap_output_buffer`
abbrev pub commit : List ℕ → LinkBuffer → LinkBuffer
commit sdu b = record { room = b.room - 1; committed = b.committed ++ (sdu ∷ []) }

-- `write_16bit`, twice, in front of the answer.
abbrev pub two_bytes : ℕ → List ℕ
two_bytes x = x % 2 ^ 8 ∷ x / 2 ^ 8 % 2 ^ 8 ∷ []

unfoldable pub with_l2cap_header : ℕ → List ℕ → List ℕ
with_l2cap_header channel_id output = two_bytes (length output) ++ (two_bytes channel_id ++ output)

abbrev pub read_two : List ℕ → ℕ → ℕ
read_two input i = get_or input i 0 + get_or input (i + 1) 0 * 2 ^ 8

-- The answer of the channel is committed, if there is one.
abbrev pub commit_answer : ℕ → Option (List ℕ) → LinkBuffer → LinkBuffer
commit_answer id none b = b
commit_answer id (some []) b = b
commit_answer id (some (x ∷ xs)) b = commit (with_l2cap_header id (x ∷ xs)) b

module _ {ℓ} {Connection : Type ℓ} where
  -- `l2cap_input_handler`, for each channel in turn; `none` if no channel has handled the input.
  unfoldable pub input_to_channels :
      List (Channel Connection)
      → ℕ
      → List ℕ
      → Connection
      → Option (List ℕ)
      → Connection × Option (List ℕ)
  input_to_channels [] id input c handled = (c, handled)
  input_to_channels (ch ∷ chs) id input c handled =
      let (c', output) = ch.channel_input input c in
      let (c1, handled1) = if id == ch.channel_id then (c', some output) else (c, handled) in
      input_to_channels chs id input c1 handled1

  -- Whether the input was consumed, and the connection and the buffer after that.
  unfoldable pub handle_l2cap_input :
      List (Channel Connection) → List ℕ → Connection → LinkBuffer → Bool × Connection × LinkBuffer
  handle_l2cap_input chs input c b =
      if ltb (length input) l2cap_layer_header_size
      then (true, c, b)
      else if not (length input == read_two input 0 + l2cap_layer_header_size)
      then (true, c, b)
      else if not (has_room b)
      then (false, c, b)
      else (let id : ℕ = read_two input 2 in
          let (c', handled) =
            input_to_channels chs id (drop l2cap_layer_header_size input) c none in
          (true, c', commit_answer id handled b))

  -- `l2cap_output_handler`: the first channel that has something to say.
  unfoldable pub output_of_channels :
      List (Channel Connection) → Connection → Connection × Option (ℕ × List ℕ)
  output_of_channels [] c = (c, none)
  output_of_channels (ch ∷ chs) c =
      let (c', output) = ch.channel_output c in
      let later = output_of_channels chs c' in
      if length output == 0 then later else (c', some (ch.channel_id, output))

  unfoldable pub transmit_single_pending_l2cap_output :
      List (Channel Connection) → Connection → LinkBuffer → Bool × Connection × LinkBuffer
  transmit_single_pending_l2cap_output chs c b =
      if not (has_room b)
      then (false, c, b)
      else (let (c', output) = output_of_channels chs c in
          elim output [
            | none ↦ (false, c', b)
            | some (id, bytes) ↦ (true, c', commit (with_l2cap_header id bytes) b)
          ])

  -- The loop, with fuel: `none` if it has not ended.
  unfoldable pub transmit_pending_l2cap_output :
      ℕ → List (Channel Connection) → Connection → LinkBuffer → Option (Connection × LinkBuffer)
  transmit_pending_l2cap_output zero chs c b = none
  transmit_pending_l2cap_output (suc fuel) chs c b =
      let (more, c', b') = transmit_single_pending_l2cap_output chs c b in
      let rest = transmit_pending_l2cap_output fuel chs c' b' in
      if more then rest else some (c', b')
