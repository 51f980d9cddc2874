-- ===== src/PduBuffer/Sends.antt =====
-- The transmitting side of the buffer: what it holds, in which order it numbers it.
use bluetoe.Shared.{
  ℕ, ◌%◌, ◌<◌, ◌≡◌, ap, ap₂, ◌∙◌, Bool, true, false, not, none, some, List, [], ◌∷◌, map, arith,
  has_flag, if◌then◌else◌,
}
use bluetoe.Shared.Memory.{IsBytes, read_16bit, write_16bit, write_16bit-IsBytes}
use bluetoe.PduRing.{pdu_length}
use bluetoe.PduRing.Chain.{pdu_at}
use bluetoe.PduRing.Fifo.{Holds}
use bluetoe.PduRing.Pop.{next_end-nil, next_end-cons}
use bluetoe.PduRing.Header.{flags-Holds}
use bluetoe.PduBuffer.{Config, PduBuffer, oldest}
use bluetoe.PduBuffer.Frames.{Frame, frame_of, KeepsFrame, write-OnlyFlags, write-frame_of}

-- Sequence numbers that alternate from `s` on; the one behind the last is `next`.
abbrev pub Alternates : Bool → List Bool → Bool → Type 0
Alternates s [] next = s ≡ next
Alternates s (x ∷ xs) next = (x ≡ s) × Alternates (not s) xs next

abbrev pub sns : List Frame → List Bool
sns = map (λ f. f.0)

-- The sequence numbers that are in use: that of an empty PDU that is still to be acknowledged,
-- then those of the queued PDUs.
abbrev pub outstanding : PduBuffer → List Frame → List Bool
outstanding b fs = if b.next_empty then b.empty_sequence_number ∷ sns fs else sns fs

pub outstanding_empty :
    (b : PduBuffer) (fs : List Frame)
    → b.next_empty ≡ true
    → outstanding b fs ≡ b.empty_sequence_number ∷ sns fs
outstanding_empty b fs e = ground arith

pub outstanding_plain :
    (b : PduBuffer) (fs : List Frame) → b.next_empty ≡ false → outstanding b fs ≡ sns fs
outstanding_plain b fs e = ground arith

-- The header of `empty_`, while it is to be acknowledged: LLID 1, its sequence number, and NESN.
pub record IsEmptyHeader (h : ℕ) (sn : Bool) : Type 0 where
  pub small : h < 16
  pub llid : h % 4 ≡ 1
  pub number : has_flag 8 h ≡ sn

module _ (c : Config) where
  -- The transmit ring holds the frames `fs`, and all outstanding sequence numbers alternate.
  pub record Sends (b : PduBuffer) (fs : List Frame) : Type 0 where
    pub pdus : List (List ℕ)
    pub holds : Holds c.layout_overhead c.transmit_size b.transmit_buffer b.transmit_memory pdus
    pub frames : map frame_of pdus ≡ fs
    pub bytes : IsBytes b.transmit_memory
    pub first : Bool
    pub order : Alternates first (outstanding b fs) b.sequence_number
    pub empty : b.next_empty ≡ true → IsEmptyHeader b.empty_header b.empty_sequence_number

  pub oldest-nil : {b : PduBuffer} → Sends b [] → oldest c b ≡ none
  oldest-nil {b} s = nothing s.pdus s.holds s.frames
    where
      nothing :
          (pdus : List (List ℕ))
          → Holds c.layout_overhead c.transmit_size b.transmit_buffer b.transmit_memory pdus
          → map frame_of pdus ≡ []
          → oldest c b ≡ none
      nothing [] h e = next_end-nil c.layout_overhead c.transmit_size _ _ h
      nothing (x ∷ pdus) h e = cc

  -- The oldest PDU, taken apart.
  pub record Head (b : PduBuffer) (f : Frame) (fs : List Frame) : Type 0 where
    pub pdu : List ℕ
    pub rest : List (List ℕ)
    pub holds :
        Holds c.layout_overhead c.transmit_size b.transmit_buffer b.transmit_memory (pdu ∷ rest)
    pub frame : frame_of (pdu_at c.layout_overhead b.transmit_memory b.transmit_buffer.end) ≡ f
    pub rest_frames : map frame_of rest ≡ fs
    pub found :
        oldest c b
        ≡ some (
          b.transmit_buffer.end,
          pdu_length c.layout_overhead b.transmit_memory b.transmit_buffer.end,
        )

  pub head : {b : PduBuffer} (f : Frame) (fs : List Frame) → Sends b (f ∷ fs) → Head b f fs
  head {b} f fs s = split s.pdus s.holds s.frames
    where
      split :
          (pdus : List (List ℕ))
          → Holds c.layout_overhead c.transmit_size b.transmit_buffer b.transmit_memory pdus
          → map frame_of pdus ≡ f ∷ fs
          → Head b f fs
      split [] h e = absurd (cc)
      split (x ∷ pdus) h e =
          let (at, bytes) = next_end-cons c.layout_overhead c.transmit_size _ _ x pdus h in
          record {
            pdu = x;
            rest = pdus;
            holds = h;
            frame = ap frame_of bytes ∙ cc;
            rest_frames = cc;
            found = at;
          }

  -- Rewriting NESN and MD of the oldest PDU.
  abbrev pub rewritten : PduBuffer → ℕ → PduBuffer
  rewritten b v = record b {
    transmit_memory = write_16bit b.transmit_memory b.transmit_buffer.end v;
  }

  pub rewritten-Sends :
      {b : PduBuffer} (f : Frame) (fs : List Frame) (v : ℕ)
      → KeepsFrame (read_16bit b.transmit_memory b.transmit_buffer.end) v
      → Sends b (f ∷ fs)
      → Sends (rewritten b v) (f ∷ fs)
  rewritten-Sends {b} f fs v k s =
      let h = head f fs s in
      record {
        pdus = _ ∷ h.rest;
        holds =
            flags-Holds c.layout_overhead c.transmit_size b.transmit_buffer b.transmit_memory _
              h.pdu h.rest
              (write-OnlyFlags c.layout_overhead b.transmit_memory b.transmit_buffer.end v s.bytes
                k.same_length)
              h.holds;
        frames =
            ap₂ ◌∷◌
              (write-frame_of c.layout_overhead b.transmit_memory b.transmit_buffer.end v s.bytes k
                ∙ h.frame)
              h.rest_frames;
        bytes = write_16bit-IsBytes b.transmit_memory b.transmit_buffer.end v s.bytes;
        first = s.first;
        order = s.order;
        empty = s.empty;
      }
