-- ===== src/PduBuffer.antt =====
-- bluetoe/link_layer/include/bluetoe/ll_data_pdu_buffer.hpp: `ll_data_pdu_buffer`, between the link
-- layer, which allocates and commits PDUs to transmit and takes received PDUs, and the radio.
-- `buffer_` is two memories, one for each ring. Of `empty_` only the header is ever written.
-- The two counters stand for the calls of the radio's `increment_receive_packet_counter` and
-- `increment_transmit_packet_counter`. An assertion of the code is a precondition.
pub mod Frames
pub mod Sends
pub mod Transmit
pub mod Header
pub mod Acknowledge
pub mod Commit
pub mod Receive
pub mod Exchange
mod Tests
use bluetoe.Shared.{
  ℕ, ◌+◌, ◌-◌, ◌/◌, ◌%◌, Bool, true, false, not, Option, none, some, ◌==◌, same, if◌then◌else◌,
  has_flag, set_flag, clear_flag,
}
use bluetoe.Shared.Memory.{Memory, read_16bit, write_16bit}
use bluetoe.PduRing
use bluetoe.PduRing.{Ring, data_channel_pdu_memory_size}

pub record Config : Type 0 where
  pub transmit_size : ℕ
  pub receive_size : ℕ
  pub layout_overhead : ℕ

pub record PduBuffer : Type 0 where
  pub receive_buffer : Ring
  pub receive_memory : Memory
  pub max_rx_size : ℕ
  pub transmit_buffer : Ring
  pub transmit_memory : Memory
  pub max_tx_size : ℕ
  pub sequence_number : Bool
  pub next_expected_sequence_number : Bool
  pub empty_header : ℕ
  pub next_empty : Bool
  pub empty_sequence_number : Bool
  pub stopped : Bool
  pub received_counter : ℕ
  pub transmitted_counter : ℕ

abbrev pub min_buffer_size : ℕ
min_buffer_size = 29

abbrev pub more_data_flag : ℕ
more_data_flag = 0x10

abbrev pub sn_flag : ℕ
sn_flag = 0x8

abbrev pub nesn_flag : ℕ
nesn_flag = 0x4

abbrev pub ll_empty_id : ℕ
ll_empty_id = 0x01

-- What the radio is to transmit: the empty PDU, or the PDU at an offset of the transmit memory.
pub data Outgoing : Type 0 where
  empty_pdu : Outgoing
  stored : ℕ → Outgoing

unfoldable pub reset_pdu_buffer : PduBuffer → PduBuffer
reset_pdu_buffer b =
    let (rx, rx_memory) = PduRing.reset b.receive_memory in
    let (tx, tx_memory) = PduRing.reset b.transmit_memory in
    record b {
      max_rx_size = min_buffer_size;
      receive_buffer = rx;
      receive_memory = rx_memory;
      max_tx_size = min_buffer_size;
      transmit_buffer = tx;
      transmit_memory = tx_memory;
      sequence_number = false;
      next_expected_sequence_number = false;
      next_empty = false;
      stopped = false;
    }

unfoldable pub set_max_rx_size : PduBuffer → ℕ → PduBuffer
set_max_rx_size b max_size = record b { max_rx_size = max_size }

unfoldable pub set_max_tx_size : PduBuffer → ℕ → PduBuffer
set_max_tx_size b max_size = record b { max_tx_size = max_size }

unfoldable pub stop_ll_pdu_buffer : PduBuffer → PduBuffer
stop_ll_pdu_buffer b = record b { stopped = true }

module _ (c : Config) where
  unfoldable pub allocate_transmit_buffer : PduBuffer → ℕ → Option ℕ
  allocate_transmit_buffer b n = PduRing.alloc_front c.transmit_size b.transmit_buffer n

  unfoldable pub allocate_max_transmit_buffer : PduBuffer → Option ℕ
  allocate_max_transmit_buffer b = allocate_transmit_buffer b (b.max_tx_size + c.layout_overhead)

  -- The PDU stands at `pdu`, in a buffer that was allocated.
  unfoldable pub commit_transmit_buffer : PduBuffer → ℕ → PduBuffer
  commit_transmit_buffer b pdu =
      if b.stopped
      then b
      else (let header : ℕ = read_16bit b.transmit_memory pdu in
          let mem : Memory =
            if b.sequence_number
            then write_16bit b.transmit_memory pdu (set_flag sn_flag header)
            else b.transmit_memory in
          let (ring, mem') =
            PduRing.push_front c.layout_overhead c.transmit_size b.transmit_buffer mem pdu in
          record b {
            sequence_number = not b.sequence_number;
            transmit_buffer = ring;
            transmit_memory = mem';
          })

  -- `transmit_buffer_.next_end()`
  abbrev pub oldest : PduBuffer → Option (ℕ × ℕ)
  oldest b = PduRing.next_end c.layout_overhead b.transmit_buffer b.transmit_memory

  unfoldable pub pending_outgoing_data_available : PduBuffer → Bool
  pending_outgoing_data_available b = elim (oldest b) [ none ↦ false | some next ↦ true ]

  -- The value that `set_next_expected_sequence_number` writes.
  abbrev pub with_next_expected : PduBuffer → ℕ → ℕ
  with_next_expected b header =
      if b.next_expected_sequence_number
      then set_flag nesn_flag header
      else clear_flag nesn_flag header

  -- `set_next_expected_sequence_number` for `empty_`, and for a PDU of the transmit memory.
  abbrev pub expect_in_empty : PduBuffer → PduBuffer × Outgoing
  expect_in_empty b = (record b { empty_header = with_next_expected b b.empty_header }, empty_pdu)

  abbrev pub expect_in_stored : PduBuffer → ℕ → PduBuffer × Outgoing
  expect_in_stored b p = (
    record b {
      transmit_memory =
          write_16bit b.transmit_memory p (with_next_expected b (read_16bit b.transmit_memory p));
    },
    stored p,
  )

  abbrev pub flag_more_data : PduBuffer → ℕ → PduBuffer
  flag_more_data b p = record b {
    transmit_memory =
        write_16bit b.transmit_memory p (set_flag more_data_flag (read_16bit b.transmit_memory p));
  }

  -- A new empty PDU takes the next sequence number.
  abbrev pub create_empty : PduBuffer → PduBuffer
  create_empty b = record b {
    empty_header = if b.sequence_number then sn_flag + ll_empty_id else ll_empty_id;
    next_empty = true;
    empty_sequence_number = b.sequence_number;
    sequence_number = not b.sequence_number;
  }

  unfoldable pub next_transmit : PduBuffer → PduBuffer × Outgoing
  next_transmit b =
      if b.next_empty
      then expect_in_empty (elim (oldest b) [ none ↦ b | some (p, n) ↦ flag_more_data b p ])
      else elim (oldest b) [
        | none ↦ expect_in_empty (create_empty b)
        | some (p, n) ↦
            expect_in_stored
              (if PduRing.more_than_one c.layout_overhead b.transmit_buffer b.transmit_memory
                then flag_more_data b p
                else b)
              p
      ]

  -- `acknowledge( bool )`
  unfoldable pub acknowledge_sequence_number : PduBuffer → Bool → PduBuffer
  acknowledge_sequence_number b nesn =
      if b.next_empty
      then (if same b.empty_sequence_number nesn then b else record b { next_empty = false })
      else elim (oldest b) [
        | none ↦ b
        | some (p, n) ↦
            if same (has_flag sn_flag (read_16bit b.transmit_memory p)) nesn then b else record b {
              transmit_buffer =
                  PduRing.pop_end c.layout_overhead c.transmit_size b.transmit_buffer
                    b.transmit_memory;
              transmitted_counter = b.transmitted_counter + 1;
            }
      ]

  unfoldable pub next_received : PduBuffer → Option (ℕ × ℕ)
  next_received b = PduRing.next_end c.layout_overhead b.receive_buffer b.receive_memory

  unfoldable pub free_received : PduBuffer → PduBuffer
  free_received b = record b {
    receive_buffer =
        PduRing.pop_end c.layout_overhead c.receive_size b.receive_buffer b.receive_memory;
  }

  unfoldable pub allocate_receive_buffer : PduBuffer → Option ℕ
  allocate_receive_buffer b =
      PduRing.alloc_front c.receive_size b.receive_buffer
        (data_channel_pdu_memory_size c.layout_overhead (b.max_rx_size - 2))

  abbrev pub store_received : PduBuffer → ℕ → PduBuffer
  store_received b pdu =
      let (ring, mem) =
        PduRing.push_front c.layout_overhead c.receive_size b.receive_buffer b.receive_memory pdu in
      record b { receive_buffer = ring; receive_memory = mem }

  -- What `received` does with a PDU that is not a repetition.
  abbrev pub take_received : PduBuffer → ℕ → ℕ → PduBuffer
  take_received b pdu header =
      if header / 256 == 0
      then b
      else (let b' : PduBuffer = if header % 4 == 0 then b else store_received b pdu in
          record b' { received_counter = b'.received_counter + 1 })

  abbrev pub toggle_expected : PduBuffer → PduBuffer
  toggle_expected b = record b {
    next_expected_sequence_number = not b.next_expected_sequence_number;
  }

  -- The radio has written the received PDU at `pdu`, in the buffer that it was given.
  unfoldable pub accept_received : PduBuffer → ℕ → PduBuffer
  accept_received b pdu =
      let header : ℕ = read_16bit b.receive_memory pdu in
      let b' : PduBuffer = acknowledge_sequence_number b (has_flag nesn_flag header) in
      if same (has_flag sn_flag header) b'.next_expected_sequence_number
      then take_received (toggle_expected b') pdu header
      else b'

  unfoldable pub received : PduBuffer → ℕ → PduBuffer × Outgoing
  received b pdu = next_transmit (accept_received b pdu)

  -- `acknowledge( read_buffer )`: the MIC of the PDU did not fit.
  unfoldable pub accept_acknowledge : PduBuffer → ℕ → PduBuffer
  accept_acknowledge b pdu =
      let header : ℕ = read_16bit b.receive_memory pdu in
      if header % 4 == 0
      then b
      else (let b' : PduBuffer = acknowledge_sequence_number b (has_flag nesn_flag header) in
          if same (has_flag sn_flag header) b'.next_expected_sequence_number
          then toggle_expected b'
          else b')

  unfoldable pub acknowledge : PduBuffer → ℕ → PduBuffer × Outgoing
  acknowledge b pdu = next_transmit (accept_acknowledge b pdu)
