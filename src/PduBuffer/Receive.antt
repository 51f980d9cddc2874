-- ===== src/PduBuffer/Receive.antt =====
-- What a received PDU does: it is stored once, and it acknowledges.
use bluetoe.Shared.{
  ℕ, ◌+◌, ◌/◌, ◌%◌, ◌≤◌, ◌<◌, ◌≡◌, Bool, not, ◌&&◌, some, List, [], ◌∷◌, ◌++◌, arith, has_flag,
  if◌then◌else◌, ◌==◌, same,
}
use bluetoe.Shared.Memory.{Memory, IsBytes, read_16bit}
use bluetoe.PduRing
use bluetoe.PduRing.{Ring, pdu_length}
use bluetoe.PduRing.Chain.{pdu_at}
use bluetoe.PduRing.Fifo.{Holds, Outside}
use bluetoe.PduBuffer.{Config, PduBuffer, acknowledge_sequence_number, allocate_receive_buffer}

-- A PDU is new if it carries the sequence number that is expected, and only a new PDU with a
-- payload and a valid LLID is stored.
abbrev pub is_new : PduBuffer → ℕ → Bool
is_new b header = same (has_flag 8 header) b.next_expected_sequence_number

abbrev pub is_stored : PduBuffer → ℕ → Bool
is_stored b header = is_new b header && (not (header / 256 == 0) && not (header % 4 == 0))

module _ (c : Config) where
  -- The receive ring holds the PDUs `q`.
  abbrev pub Receives : PduBuffer → List (List ℕ) → Type 0
  Receives b q = Holds c.layout_overhead c.receive_size b.receive_buffer b.receive_memory q

  -- Of the PDU buffer, the radio wrote only the buffer that it was given, and a whole PDU there.
  pub record Filled (b : PduBuffer) (mem : Memory) (p : ℕ) : Type 0 where
    pub given : allocate_receive_buffer c b ≡ some p
    pub small : b.max_rx_size + c.layout_overhead < 256
    pub large : 2 ≤ b.max_rx_size
    pub outside :
        Outside c.layout_overhead c.receive_size b.receive_memory mem p
          (b.max_rx_size + c.layout_overhead)
    pub whole : pdu_length c.layout_overhead mem p ≤ b.max_rx_size + c.layout_overhead
    pub bytes : IsBytes mem

  -- An acknowledgement does not touch the receiving side.
  pub record SameReceiver (b b' : PduBuffer) : Type 0 where
    pub ring : b'.receive_buffer ≡ b.receive_buffer
    pub memory : b'.receive_memory ≡ b.receive_memory
    pub expected : b'.next_expected_sequence_number ≡ b.next_expected_sequence_number
    pub counter : b'.received_counter ≡ b.received_counter

  pub acknowledge-SameReceiver :
      (b : PduBuffer) (nesn : Bool) → SameReceiver b (acknowledge_sequence_number c b nesn)
  unfolding acknowledge_sequence_number
  acknowledge-SameReceiver b nesn = record {
    ring = ground arith;
    memory = ground arith;
    expected = ground arith;
    counter = ground arith;
  }

  -- What the receiving side is after `accept_received` of the PDU at `p`.
  pub record Accepted (b : PduBuffer) (q : List (List ℕ)) (mem : Memory) (p : ℕ) (b' : PduBuffer)
      : Type 0 where
    pub stored :
        Receives b'
          (if is_stored b (read_16bit mem p) then q ++ (pdu_at c.layout_overhead mem p ∷ []) else q)
    pub expected : b'.next_expected_sequence_number ≡ (
        if is_new b (read_16bit mem p)
        then not b.next_expected_sequence_number
        else b.next_expected_sequence_number)
    pub counted :
        b'.received_counter
        ≡ b.received_counter
          + (if is_new b (read_16bit mem p) && not (read_16bit mem p / 256 == 0) then 1 else 0)

  module _ {b : PduBuffer} (q : List (List ℕ)) (mem : Memory) (p : ℕ) (v : Receives b q)
      (f : Filled b mem p) where
    n : ℕ
    n = b.max_rx_size + c.layout_overhead

    abbrev filled : PduBuffer
    filled = record b { receive_memory = mem }
