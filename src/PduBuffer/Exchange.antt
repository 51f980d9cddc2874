-- ===== src/PduBuffer/Exchange.antt =====
-- One exchange with the central: a PDU is received, and the answer goes out.
use bluetoe.Shared.{ℕ, List, has_flag}
use bluetoe.Shared.Memory.{Memory, read_16bit}
use bluetoe.PduBuffer.{Config, PduBuffer}
use bluetoe.PduBuffer.Frames.{Frame}
use bluetoe.PduBuffer.Sends.{Sends}
use bluetoe.PduBuffer.Acknowledge.{remaining}
use bluetoe.PduBuffer.Header.{Announces}
use bluetoe.PduBuffer.Receive.{Accepted}

module _ (c : Config) where
  -- What the answer to a received PDU says and what the buffer holds then.
  pub record Exchanged (b : PduBuffer) (fs : List Frame) (q : List (List ℕ)) (mem : Memory) (p : ℕ)
      (b' : PduBuffer) (header : ℕ) : Type 0 where
    pub sends : Sends c b' (remaining b fs (has_flag 4 (read_16bit mem p)))
    pub accepted : Accepted c b q mem p b'
    pub announces :
        Announces c b'
          (remaining b fs (has_flag 4 (read_16bit mem p)))
          b'.next_expected_sequence_number
          header
