-- ===== src/WriteQueue.antt =====
-- bluetoe/write_queue.hpp: `write_queue< shared_write_queue< S > >`, the prepared writes of one client.
-- A client is told by a number, its address; a pointer into the buffer is an offset.
pub mod Elements
pub mod Clients
mod Tests
use bluetoe.Shared.{
  ℕ, zero, suc, ◌+◌, ◌-◌, ◌*◌, ◌/◌, ◌%◌, ◌^◌, Bool, true, false, not, ◌&&◌, ◌||◌, Option, none,
  some, ltb, ◌==◌, if◌then◌else◌,
}
use bluetoe.Shared.Memory.{Memory, store}

pub record WriteQueue : Type 0 where
  pub current_client : Option ℕ
  pub buffer : Memory
  pub buffer_end : ℕ

-- The constructor; the buffer is not initialized.
abbrev pub empty_queue : Memory → WriteQueue
empty_queue mem = record { current_client = none; buffer = mem; buffer_end = 0 }

-- `current_client_ == &client`
unfoldable pub is_current : WriteQueue → ℕ → Bool
is_current q client = elim q.current_client [ none ↦ false | some other ↦ other == client ]

-- `current_client_ != nullptr && current_client_ != &client`
unfoldable pub is_taken : WriteQueue → ℕ → Bool
is_taken q client = elim q.current_client [ none ↦ false | some other ↦ not (other == client) ]

-- `buffer_end_` has 16 bits.
unfoldable pub allocate_from_write_queue : ℕ → WriteQueue → ℕ → ℕ → WriteQueue × Option ℕ
allocate_from_write_queue s q size client =
    if ltb (s - q.buffer_end) (size + 2) || is_taken q client
    then (q, none)
    else (let end : ℕ = (q.buffer_end + (size + 2)) % 2 ^ 16 in
        (
          record {
            current_client = some client;
            buffer =
                store (store q.buffer q.buffer_end (size % 256)) (q.buffer_end + 1)
                  (size / 256 % 256);
            buffer_end = end;
          },
          some (end - size),
        ))

unfoldable pub free_write_queue : WriteQueue → ℕ → WriteQueue
free_write_queue q client =
    if is_current q client then record q { buffer_end = 0; current_client = none } else q

unfoldable pub read_size : WriteQueue → ℕ → ℕ
read_size q last = q.buffer (last - 2) + q.buffer (last - 1) * 256

unfoldable pub first_write_queue_element : WriteQueue → ℕ → Option (ℕ × ℕ)
first_write_queue_element q client =
    if not (is_current q client) || (q.buffer_end == 0) then none else some (2, read_size q 2)

-- Its `assert`s hold for what the two functions returned.
unfoldable pub next_write_queue_element : WriteQueue → ℕ → Option (ℕ × ℕ)
next_write_queue_element q last =
    let last' : ℕ = last + read_size q last in
    if last' == q.buffer_end then none else some (last' + 2, read_size q (last' + 2))
