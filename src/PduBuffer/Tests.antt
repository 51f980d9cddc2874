-- ===== src/PduBuffer/Tests.antt =====
-- Exchanges with a central, and the theorems at concrete buffers.
use bluetoe.Shared.{◌≡◌, refl, true, false, [], ◌∷◌, arith, some}
use bluetoe.Shared.Memory.{Memory, IsBytes, store}
use bluetoe.PduRing
use bluetoe.PduRing.{Ring, pdu_length}
use bluetoe.PduRing.Fifo.{Holds, straight}
use bluetoe.PduBuffer.{
  Config, PduBuffer, next_transmit, acknowledge_sequence_number, commit_transmit_buffer,
  allocate_transmit_buffer, received, empty_pdu, next_received, accept_received,
}
use bluetoe.PduBuffer.Frames.{Frame}
use bluetoe.PduBuffer.Sends.{Sends}
use bluetoe.PduBuffer.Transmit.{next_transmit-Sends}
use bluetoe.PduBuffer.Header.{header_of}
use bluetoe.PduBuffer.Acknowledge.{Acked, acknowledge-Acked}
use bluetoe.PduBuffer.Commit.{committed, commit_transmit_buffer-Sends}

abbrev config : Config
config = record { transmit_size = 61; receive_size = 61; layout_overhead = 0 }

abbrev blank : Memory
blank p = 0

abbrev one_pdu : Memory
one_pdu = store (store (store (store blank 0 2) 1 2) 2 7) 3 8

one_pdu-IsBytes : IsBytes one_pdu
one_pdu-IsBytes p = ground arith

abbrev fresh : PduBuffer
fresh = record {
  receive_buffer = record { end = 0; front = 0 };
  receive_memory = blank;
  max_rx_size = 29;
  transmit_buffer = record { end = 0; front = 0 };
  transmit_memory = blank;
  max_tx_size = 29;
  sequence_number = false;
  next_expected_sequence_number = false;
  empty_header = 0;
  next_empty = false;
  empty_sequence_number = false;
  stopped = false;
  received_counter = 0;
  transmitted_counter = 0;
}

abbrev loaded : PduBuffer
loaded = record fresh {
  transmit_buffer = record { end = 0; front = 4 };
  transmit_memory = one_pdu;
  sequence_number = true;
}

-- An empty PDU went out before the PDU was queued.
abbrev waiting : PduBuffer
waiting = record loaded { next_empty = true; empty_sequence_number = true; empty_header = 9 }

abbrev frame : Frame
frame = (false, 2, 2 ∷ 7 ∷ 8 ∷ [])

fresh-Sends : Sends config fresh []
fresh-Sends = record {
  pdus = [];
  holds = straight (omega arith) refl;
  frames = refl;
  bytes = λ p. omega arith;
  first = false;
  order = refl;
  empty = λ e. cc;
}

loaded-Holds : Holds 0 61 (record { end = 0; front = 4 }) one_pdu ((2 ∷ 2 ∷ 7 ∷ 8 ∷ []) ∷ [])
unfolding pdu_length
loaded-Holds = straight (omega arith) ((λ e. cc), refl, omega arith, refl)

loaded-Sends : Sends config loaded (frame ∷ [])
loaded-Sends = record {
  pdus = (2 ∷ 2 ∷ 7 ∷ 8 ∷ []) ∷ [];
  holds = loaded-Holds;
  frames = refl;
  bytes = one_pdu-IsBytes;
  first = false;
  order = (refl, refl);
  empty = λ e. cc;
}

waiting-Sends : Sends config waiting (frame ∷ [])
waiting-Sends = record {
  pdus = (2 ∷ 2 ∷ 7 ∷ 8 ∷ []) ∷ [];
  holds = loaded-Holds;
  frames = refl;
  bytes = one_pdu-IsBytes;
  first = true;
  order = (refl, (refl, refl));
  empty = λ e. record { small = omega arith; llid = refl; number = refl };
}

-- A data PDU comes in and is answered by an empty PDU that expects the next one.
first_exchange :
    let (b, o) = received config (record fresh { receive_memory = one_pdu }) 0 in
    (o ≡ empty_pdu) × (header_of b o ≡ 5) × (next_received config b ≡ some (0, 4))
unfolding received accept_received acknowledge_sequence_number next_transmit next_received
    PduRing.next_end PduRing.push_front pdu_length
first_exchange = (refl, refl, refl)

next_transmit-Sends_example : Sends config (next_transmit config waiting).0 (frame ∷ [])
next_transmit-Sends_example = next_transmit-Sends config {b = waiting} (frame ∷ []) waiting-Sends

acknowledge-Acked_example :
    Acked config loaded (frame ∷ []) true (acknowledge_sequence_number config loaded true)
acknowledge-Acked_example = acknowledge-Acked config {b = loaded} (frame ∷ []) true loaded-Sends

commit_transmit_buffer-Sends_example :
    Sends config
      (commit_transmit_buffer config (record fresh { transmit_memory = one_pdu }) 0)
      (committed config fresh one_pdu 0 ∷ [])
unfolding allocate_transmit_buffer PduRing.alloc_front pdu_length
commit_transmit_buffer-Sends_example =
    commit_transmit_buffer-Sends config {b = fresh} [] one_pdu 29 0 fresh-Sends refl (omega arith)
      refl one_pdu-IsBytes ((λ i o. ground arith), (λ e. cc), omega arith, omega arith) refl
