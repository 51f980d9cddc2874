-- ===== src/SduBuffer.antt =====
-- bluetoe/link_layer/include/bluetoe/ll_l2cap_sdu_buffer.hpp: `ll_l2cap_sdu_buffer` for an MTU that needs
-- fragments. Its base class, the radio's PDU buffer, is the queue of the received PDUs, each a list of bytes,
-- and the number of further PDUs it has room for, along with those that were committed to it.
pub mod Copy
pub mod Reassembly
pub mod Fragments
mod Tests
use bluetoe.Shared.{
  ℕ, zero, suc, ◌+◌, ◌-◌, ◌*◌, ◌/◌, ◌%◌, ◌^◌, Bool, true, false, not, ◌&&◌, ◌||◌, Option, none,
  some, List, [], ◌∷◌, ◌++◌, ltb, leb, ◌==◌, if◌then◌else◌, min, length, get_or, take, drop,
  replicate,
}
use bluetoe.Shared.Memory.{copy_bytes, Memory, store, read_16bit, bytes_at}

abbrev pub pdu_type_link_layer : ℕ
pdu_type_link_layer = 3

abbrev pub pdu_type_start : ℕ
pdu_type_start = 2

abbrev pub pdu_type_continuation : ℕ
pdu_type_continuation = 1

abbrev pub header_size : ℕ
header_size = 2

abbrev pub l2cap_header_size : ℕ
l2cap_header_size = 4

-- The parameters of the class: the MTU, and what the layout of the radio adds to a PDU.
pub record SduConfig : Type 0 where
  pub mtu_size : ℕ
  pub layout_overhead : ℕ

abbrev pub ll_overhead : SduConfig → ℕ
ll_overhead c = header_size + c.layout_overhead

abbrev pub overall_overhead : SduConfig → ℕ
overall_overhead c = header_size + c.layout_overhead + l2cap_header_size

-- `receive_buffer_` and `transmit_buffer_` have `mtu_size + overall_overhead` bytes; a memory has no end, so
-- that a write behind them can be seen.
pub record SduBuffer : Type 0 where
  pub receive_buffer : Memory
  pub receive_size : ℕ
  pub receive_buffer_used : ℕ
  pub transmit_buffer : Memory
  pub transmit_size : ℕ
  pub transmit_buffer_used : ℕ

-- `layout::header( pdu ) & pdu_type_mask`
abbrev pub pdu_type : List ℕ → ℕ
pdu_type pdu = get_or pdu 0 0 % 4

-- `layout::body( pdu )`
abbrev pub body : SduConfig → List ℕ → List ℕ
body c pdu = drop (ll_overhead c) pdu

-- `read_16bit( body.first )`
abbrev pub l2cap_size : List ℕ → ℕ
l2cap_size bytes = get_or bytes 0 0 + get_or bytes 1 0 * 256

-- All of the bytes are copied; the sizes count what was still missing.
unfoldable pub add_to_receive_buffer : SduBuffer → List ℕ → SduBuffer
add_to_receive_buffer b bytes =
    let copy_size : ℕ = min b.receive_size (length bytes) in
    record b {
      receive_buffer = copy_bytes b.receive_buffer b.receive_buffer_used bytes;
      receive_buffer_used = b.receive_buffer_used + copy_size;
      receive_size = b.receive_size - copy_size;
    }

-- What `next_ll_l2cap_received` returns: a PDU that stays in the radio's queue, the first
-- `receive_buffer_used` bytes of the receive buffer, or an empty buffer.
pub data Received : Type 0 where
  in_queue : List ℕ → Received
  defragmented : ℕ → Received
  nothing : Received

abbrev pub is_defragmented : SduBuffer → Bool
is_defragmented b = not (b.receive_buffer_used == 0) && (b.receive_size == 0)

module _ (c : SduConfig) where
  -- A start fragment that is not a whole SDU.
  unfoldable pub take_start : SduBuffer → List ℕ → SduBuffer
  take_start b pdu =
      if leb l2cap_header_size (length (body c pdu)) && leb (l2cap_size (body c pdu)) c.mtu_size
      then add_to_receive_buffer
          (record b { receive_size = (l2cap_size (body c pdu) + overall_overhead c) % 2 ^ 16 }) pdu
      else b

  -- A link layer PDU, and an SDU that is not fragmented, are returned as they are.
  unfoldable pub is_returned : List ℕ → Bool
  is_returned pdu =
      (pdu_type pdu == pdu_type_link_layer)
      || ((pdu_type pdu == pdu_type_start)
          && leb l2cap_header_size (length (body c pdu))
          && (l2cap_size (body c pdu) + l2cap_header_size == length (body c pdu)))

  unfoldable pub consume : SduBuffer → List ℕ → SduBuffer
  consume b pdu =
      if pdu_type pdu == pdu_type_start
      then take_start b pdu
      else add_to_receive_buffer b (body c pdu)

  -- The loop over the radio's queue: the state, what is left of the queue, and the result.
  unfoldable pub receive_loop : SduBuffer → List (List ℕ) → SduBuffer × List (List ℕ) × Received
  receive_loop b [] = (b, [], nothing)
  receive_loop b (pdu ∷ queue) =
      let b' : SduBuffer = consume b pdu in
      let rest : SduBuffer × List (List ℕ) × Received = receive_loop b' queue in
      if is_returned pdu
      then (b, pdu ∷ queue, in_queue pdu)
      else if is_defragmented b'
      then (b', queue, defragmented b'.receive_buffer_used)
      else rest

  -- `next_ll_l2cap_received`, after `try_send_pdus`.
  unfoldable pub next_received_sdu :
      SduBuffer → List (List ℕ) → SduBuffer × List (List ℕ) × Received
  next_received_sdu b queue =
      if is_defragmented b
      then (b, queue, defragmented b.receive_buffer_used)
      else receive_loop b queue

  unfoldable pub free_ll_l2cap_received : SduBuffer → List (List ℕ) → SduBuffer × List (List ℕ)
  free_ll_l2cap_received b queue =
      if b.receive_buffer_used == 0
      then (b, drop 1 queue)
      else (record b { receive_buffer_used = 0; receive_size = 0 }, queue)

  -- `layout::header( buffer, header )` in front of the bytes that follow the header.
  abbrev pub with_header : ℕ → List ℕ → List ℕ
  with_header header bytes = header % 256 ∷ header / 256 % 256 ∷ bytes

  -- The first fragment holds the first header too, which is written over.
  unfoldable pub first_fragment : SduBuffer → ℕ → List ℕ
  first_fragment b copy_size =
      with_header (pdu_type_start + (copy_size - ll_overhead c) * 256)
        (bytes_at b.transmit_buffer header_size (copy_size - header_size))

  -- What the layout adds is not written here, and stands as zeros.
  unfoldable pub next_fragment : SduBuffer → ℕ → List ℕ
  next_fragment b copy_size =
      with_header (pdu_type_continuation + copy_size * 256) (
        replicate c.layout_overhead 0
        ++ bytes_at b.transmit_buffer b.transmit_buffer_used copy_size)

  abbrev pub sent : SduBuffer → ℕ → SduBuffer
  sent b copy_size = record b {
    transmit_size = b.transmit_size - copy_size;
    transmit_buffer_used = b.transmit_buffer_used + copy_size;
  }

  -- One turn of the loop in `try_send_pdus`, with a buffer from the radio: the new state and the PDU.
  unfoldable pub send_fragment : ℕ → SduBuffer → SduBuffer × List ℕ
  send_fragment max_tx_size b =
      if b.transmit_buffer_used == 0
      then (let copy_size : ℕ = min b.transmit_size max_tx_size in
          (sent b copy_size, first_fragment b copy_size))
      else (let copy_size : ℕ =
            min (min (b.transmit_size + ll_overhead c) max_tx_size - ll_overhead c)
              b.transmit_size in
          (sent b copy_size, next_fragment b copy_size))

  -- `try_send_pdus`, with room for `room` PDUs in the radio: the state, the PDUs that were committed, and
  -- the room that is left.
  unfoldable pub try_send_pdus : ℕ → SduBuffer → ℕ → SduBuffer × List (List ℕ) × ℕ
  try_send_pdus max_tx_size b zero =
      if b.transmit_size == 0 then (record b { transmit_buffer_used = 0 }, [], 0) else (b, [], 0)
  try_send_pdus max_tx_size b (suc room) =
      let (b', pdu) = send_fragment max_tx_size b in
      let (b'', pdus, left) = try_send_pdus max_tx_size b' room in
      if b.transmit_size == 0
      then (record b { transmit_buffer_used = 0 }, [], suc room)
      else (b'', pdu ∷ pdus, left)

  -- The state, the queue and the result, then the PDUs that were committed and the room that is left.
  unfoldable pub next_ll_l2cap_received :
      ℕ → SduBuffer → ℕ → List (List ℕ) → (SduBuffer × List (List ℕ) × Received) × List (List ℕ) × ℕ
  next_ll_l2cap_received max_tx_size b room queue =
      let (b', pdus, left) = try_send_pdus max_tx_size b room in
      (next_received_sdu b' queue, pdus, left)

  -- Whether an SDU can be put into the transmit buffer, and the size of that buffer.
  unfoldable pub allocate_l2cap_transmit_buffer : SduBuffer → ℕ → Option ℕ
  allocate_l2cap_transmit_buffer b payload_size =
      if not (b.transmit_buffer_used == 0) || not (b.transmit_size == 0)
      then none
      else some (payload_size + overall_overhead c)

  unfoldable pub commit_l2cap_transmit_buffer : ℕ → SduBuffer → ℕ → SduBuffer × List (List ℕ) × ℕ
  commit_l2cap_transmit_buffer max_tx_size b room =
      let size : ℕ = read_16bit b.transmit_buffer (ll_overhead c) + overall_overhead c in
      try_send_pdus max_tx_size
        (record b { transmit_buffer_used = 0; transmit_size = size % 2 ^ 16 }) room
