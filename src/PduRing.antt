-- ===== src/PduRing.antt =====
-- bluetoe/link_layer/include/bluetoe/ring_buffer.hpp: `pdu_ring_buffer`.
-- The pointers `end_` and `front_` are offsets from the start of the buffer; `size` is the template
-- parameter `Size` and `overhead` what the layout adds to the two header bytes of a PDU
-- (0 for `default_pdu_layout`, 1 for `encrypted_pdu_layout`). The bytes of the buffer are a
-- `Memory` that the operations are given. An empty `Buffer{ 0, 0 }` is `none`; the size of any other
-- returned buffer is the requested size, or the length of the PDU.
pub mod Chain
pub mod Fifo
pub mod Push
pub mod Pop
pub mod Room
pub mod Header
mod Tests
use bluetoe.Shared.{
  ℕ, ◌+◌, ◌/◌, ◌%◌, ◌^◌, Bool, ◌&&◌, ◌||◌, not, Option, none, some, ltb, leb, ◌==◌, if◌then◌else◌,
}
use bluetoe.Shared.Memory.{Memory, read_16bit, write_16bit}

pub record Ring : Type 0 where
  pub end : ℕ
  pub front : ℕ

abbrev pub wrap_mark : ℕ
wrap_mark = 0

-- `Layout::data_channel_pdu_memory_size`
abbrev pub data_channel_pdu_memory_size : ℕ → ℕ → ℕ
data_channel_pdu_memory_size overhead payload_size = 2 + overhead + payload_size

-- `pdu_length( P* )`
unfoldable pub pdu_length : ℕ → Memory → ℕ → ℕ
pdu_length overhead mem p = data_channel_pdu_memory_size overhead (read_16bit mem p / 256)

unfoldable pub reset : Memory → Ring × Memory
reset mem = (record { end = 0; front = 0 }, write_16bit mem 0 wrap_mark)

unfoldable pub alloc_front : ℕ → Ring → ℕ → Option ℕ
alloc_front size r n =
    if ltb r.front r.end && ltb (r.front + n) r.end
    then some r.front
    else if leb r.end r.front
    then (if leb (r.front + n) size then some r.front else if ltb n r.end then some 0 else none)
    else none

-- `pdu_length( const P& )`, which this function calls, returns the length as a `std::uint8_t`.
unfoldable pub push_front : ℕ → ℕ → Ring → Memory → ℕ → Ring × Memory
push_front overhead size r mem pdu =
    let marked : Memory =
      if not (r.front == pdu) && ltb (r.front + 1) size
      then write_16bit mem r.front wrap_mark
      else mem in
    (
      record {
        end = if r.front == r.end then pdu else r.end;
        front = pdu + pdu_length overhead marked pdu % 2 ^ 8;
      },
      marked,
    )

-- The position and the length of the oldest PDU.
unfoldable pub next_end : ℕ → Ring → Memory → Option (ℕ × ℕ)
next_end overhead r mem =
    if r.front == r.end then none else some (r.end, pdu_length overhead mem r.end)

unfoldable pub pop_end : ℕ → ℕ → Ring → Memory → Ring
pop_end overhead size r mem =
    let end : ℕ = r.end + pdu_length overhead mem r.end in
    record r {
      end =
          if not (end == r.front) && (leb size (end + 1) || (mem (end + 1) == wrap_mark))
          then 0
          else end;
    }

unfoldable pub more_than_one : ℕ → Ring → Memory → Bool
more_than_one overhead r mem =
    not (r.end == r.front) && not (r.end + pdu_length overhead mem r.end == r.front)
