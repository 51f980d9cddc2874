-- ===== src/L2cap/Dispatch.antt =====
-- bluetoe/l2cap.hpp: an SDU reaches the channel it is addressed to, and only that.
use bluetoe.Shared.{
  ℕ, ◌+◌, ◌*◌, ◌/◌, ◌%◌, ◌^◌, ◌<◌, ◌-◌, ◌++◌, ◌≡◌, ◌≢◌, refl, sym, ap, ◌∙◌, subst, arith, Bool,
  true, false, not, Bool-cases, ◌⊎◌, inl, inr, ◌==◌, ==_iff, Option, none, some, List, [], ◌∷◌,
  length, drop, ltb, if◌then◌else◌, Every,
}
use bluetoe.L2cap.{
  Channel, LinkBuffer, has_room, handle_l2cap_input, input_to_channels, commit_answer,
  with_l2cap_header, read_two,
}

header_size :
    (id : ℕ) (payload : List ℕ) → length (with_l2cap_header id payload) ≡ length payload + 4
unfolding with_l2cap_header
header_size id payload = omega arith

read_bytes : (x : ℕ) → x < 2 ^ 16 → x % 2 ^ 8 + x / 2 ^ 8 % 2 ^ 8 * 2 ^ 8 ≡ x
read_bytes x h = omega arith

header_length :
    (id : ℕ) (payload : List ℕ)
    → length payload < 2 ^ 16
    → read_two (with_l2cap_header id payload) 0 ≡ length payload
unfolding with_l2cap_header
header_length id payload h = read_bytes (length payload) h

header_id :
    (id : ℕ) (payload : List ℕ) → id < 2 ^ 16 → read_two (with_l2cap_header id payload) 2 ≡ id
unfolding with_l2cap_header
header_id id payload h = read_bytes id h

header_payload : (id : ℕ) (payload : List ℕ) → drop 4 (with_l2cap_header id payload) ≡ payload
unfolding with_l2cap_header
header_payload id payload = refl

by_room {ℓ} :
    {A : Type ℓ} (room : Bool) (x y : A) → (if not room then y else x) ≡ (if room then x else y)
by_room true x y = refl
by_room false x y = refl

-- An SDU, byte by byte: the length of the payload, then the channel, the low bytes first.
abbrev pub sdu_bytes : ℕ → List ℕ → List ℕ
sdu_bytes id payload =
    length payload % 256 ∷ length payload / 256 % 256 ∷ id % 256 ∷ id / 256 % 256 ∷ payload

pub with_l2cap_header-sdu_bytes :
    (id : ℕ) (payload : List ℕ) → with_l2cap_header id payload ≡ sdu_bytes id payload
unfolding with_l2cap_header
with_l2cap_header-sdu_bytes id payload = refl

-- What is sent for an answer on a channel: nothing, if there is no answer or an empty one.
abbrev pub sent_for : ℕ → Option (List ℕ) → List (List ℕ)
sent_for id none = []
sent_for id (some []) = []
sent_for id (some (x ∷ xs)) = sdu_bytes id (x ∷ xs) ∷ []

-- The buffer with SDUs behind those that were committed, and less room by as many.
abbrev pub with_sent : List (List ℕ) → LinkBuffer → LinkBuffer
with_sent [] b = b
with_sent (sdu ∷ sdus) b = record {
  room = b.room - length (sdu ∷ sdus);
  committed = b.committed ++ (sdu ∷ sdus);
}

commit_answer_lem :
    (id : ℕ) (answer : Option (List ℕ)) (b : LinkBuffer)
    → commit_answer id answer b ≡ with_sent (sent_for id answer) b
unfolding with_l2cap_header
commit_answer_lem id none b = refl
commit_answer_lem id (some []) b = refl
commit_answer_lem id (some (x ∷ xs)) b = refl

module _ {ℓ} {Connection : Type ℓ} where
  -- The channel that an identifier stands for.
  unfoldable pub find_channel : List (Channel Connection) → ℕ → Option (Channel Connection)
  find_channel [] id = none
  find_channel (ch ∷ chs) id =
      let later = find_channel chs id in if id == ch.channel_id then some ch else later

  -- No two channels have the same identifier.
  abbrev pub IsDistinct : List (Channel Connection) → Type 0
  IsDistinct [] = Unit
  IsDistinct (ch ∷ chs) = Every (λ other. other.channel_id ≢ ch.channel_id) chs × IsDistinct chs

  input_to_others :
      (chs : List (Channel Connection)) (id : ℕ) (input : List ℕ) (c : Connection)
      (handled : Option (List ℕ))
      → Every (λ other. other.channel_id ≢ id) chs
      → input_to_channels chs id input c handled ≡ (c, handled)
  unfolding input_to_channels
  input_to_others [] id input c handled n = refl
  input_to_others (ch ∷ chs) id input c handled n =
      let other : (id == ch.channel_id) ≡ false = ground (arith, n.0) in
      rw (input_to_channels, other) (input_to_others chs id input c handled n.1)

  -- What the dispatch gives, by the channel that is meant.
  abbrev pub answer_of :
      Option (Channel Connection) → List ℕ → Connection → Connection × Option (List ℕ)
  answer_of none input c = (c, none)
  answer_of (some ch) input c = let (c', output) = ch.channel_input input c in (c', some output)

  input_to_channels_lem :
      (chs : List (Channel Connection)) (id : ℕ) (input : List ℕ) (c : Connection)
      → IsDistinct chs
      → input_to_channels chs id input c none ≡ answer_of (find_channel chs id) input c
  unfolding input_to_channels find_channel
  input_to_channels_lem [] id input c d = refl
  input_to_channels_lem (ch ∷ chs) id input c d = elim (Bool-cases (id == ch.channel_id)) [
    | inl e ↦
        let here : id ≡ ch.channel_id = (==_iff id ch.channel_id).0 e in
        rw (input_to_channels, find_channel, e)
          (input_to_others chs id input (ch.channel_input input c).0
            (some (ch.channel_input input c).1)
            (subst (λ n. Every (λ other. other.channel_id ≢ n) chs) (sym here) d.0))
    | inr e ↦ rw (input_to_channels, find_channel, e) (input_to_channels_lem chs id input c d.1)
  ]

  dispatched :
      (chs : List (Channel Connection)) (id : ℕ) (payload : List ℕ) (c : Connection)
      (b : LinkBuffer)
      → IsDistinct chs
      → id < 2 ^ 16
      → length payload < 2 ^ 16
      → let answer : Connection × Option (List ℕ) = answer_of (find_channel chs id) payload c in
        handle_l2cap_input chs (with_l2cap_header id payload) c b
        ≡ (if has_room b then (true, answer.0, commit_answer id answer.1 b) else (false, c, b))
  unfolding handle_l2cap_input
  dispatched chs id payload c b d h g =
      let size = header_size id payload in
      let framed = header_length id payload g in
      let long : ltb (length (with_l2cap_header id payload)) 4 ≡ false = ground arith in
      let fits : (length (with_l2cap_header id payload)
            == read_two (with_l2cap_header id payload) 0 + 4)
          ≡ true =
        ground arith in
      rw
        (
          handle_l2cap_input,
          long,
          fits,
          header_id id payload h,
          header_payload id payload,
          input_to_channels_lem chs id payload c d,
        )
        (by_room (has_room b) _ _)

  -- If no two channels have the same identifier, an SDU with the header of its length and of a
  -- channel is refused without room in the link layer, which changes nothing; else it is consumed,
  -- the channel with this identifier alone gets the payload, and its answer, if it is not empty,
  -- is sent with the four bytes in front that give its own length and the same identifier, each
  -- with the lower byte first; nothing is sent if it is empty.
  pub handle_l2cap_input-channel :
      (chs : List (Channel Connection)) (id : ℕ) (payload : List ℕ) (c : Connection)
      (b : LinkBuffer)
      → IsDistinct chs
      → id < 2 ^ 16
      → length payload < 2 ^ 16
      → let answer : Connection × Option (List ℕ) = answer_of (find_channel chs id) payload c in
        handle_l2cap_input chs (sdu_bytes id payload) c b ≡ (
          if ltb 0 b.room
          then (true, answer.0, with_sent (sent_for id answer.1) b)
          else (false, c, b))
  handle_l2cap_input-channel chs id payload c b d h g =
      let answer : Connection × Option (List ℕ) = answer_of (find_channel chs id) payload c in
      ap (λ input. handle_l2cap_input chs input c b) (sym (with_l2cap_header-sdu_bytes id payload))
      ∙ dispatched chs id payload c b d h g
      ∙ ap (λ b'. if ltb 0 b.room then (true, answer.0, b') else (false, c, b))
          (commit_answer_lem id answer.1 b)

  pub handle_l2cap_input-malformed :
      (chs : List (Channel Connection)) (input : List ℕ) (c : Connection) (b : LinkBuffer)
      → (length input < 4) ⊎ (length input ≢ read_two input 0 + 4)
      → handle_l2cap_input chs input c b ≡ (true, c, b)
  unfolding handle_l2cap_input
  handle_l2cap_input-malformed chs input c b h = ground arith
