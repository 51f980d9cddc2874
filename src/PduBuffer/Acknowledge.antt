-- ===== src/PduBuffer/Acknowledge.antt =====
-- What an acknowledgement removes.
use bluetoe.Shared.{
  ℕ, ◌+◌, ◌≡◌, sym, ap, ◌∙◌, inl, inr, subst, Bool, true, false, not, none, some, List, [], ◌∷◌,
  arith, has_flag, if◌then◌else◌, same, Bool-cases, length,
}
use bluetoe.Shared.Memory.{read_16bit}
use bluetoe.PduRing
use bluetoe.PduRing.Pop.{pop_end-Holds}
use bluetoe.PduBuffer.{Config, PduBuffer, oldest, acknowledge_sequence_number}
use bluetoe.PduBuffer.Frames.{Frame, frame_of-sn}
use bluetoe.PduBuffer.Sends.{
  Sends, Alternates, outstanding, outstanding_empty, outstanding_plain, oldest-nil, head,
}

-- A received NESN acknowledges the oldest outstanding number exactly if it differs from it.
abbrev pub drop_acked : Bool → List Bool → List Bool
drop_acked nesn [] = []
drop_acked nesn (s ∷ ss) = if same s nesn then s ∷ ss else ss

abbrev pub drop_frame : Bool → List Frame → List Frame
drop_frame nesn [] = []
drop_frame nesn (f ∷ fs) = if same f.0 nesn then f ∷ fs else fs

-- The frames that are left: none of them goes while an empty PDU is to be acknowledged.
abbrev pub remaining : PduBuffer → List Frame → Bool → List Frame
remaining b fs nesn = if b.next_empty then fs else drop_frame nesn fs

module _ (c : Config) (b : PduBuffer) where
  popped : PduBuffer
  popped = record b {
    transmit_buffer =
        PduRing.pop_end c.layout_overhead c.transmit_size b.transmit_buffer b.transmit_memory;
    transmitted_counter = b.transmitted_counter + 1;
  }

  gone : PduBuffer
  gone = record b { next_empty = false }

  module _ (nesn : Bool) where
    acknowledge_empty_kept :
        b.next_empty ≡ true
        → same b.empty_sequence_number nesn ≡ true
        → acknowledge_sequence_number c b nesn ≡ b
    unfolding acknowledge_sequence_number
    acknowledge_empty_kept e k = ground arith

    acknowledge_empty_gone :
        b.next_empty ≡ true
        → same b.empty_sequence_number nesn ≡ false
        → acknowledge_sequence_number c b nesn ≡ gone
    unfolding acknowledge_sequence_number gone
    acknowledge_empty_gone e k = ground arith

    acknowledge_nothing :
        b.next_empty ≡ false → oldest c b ≡ none → acknowledge_sequence_number c b nesn ≡ b
    unfolding acknowledge_sequence_number
    acknowledge_nothing e o = ground arith

    acknowledge_stored :
        (p n : ℕ) (sn : Bool)
        → b.next_empty ≡ false
        → oldest c b ≡ some (p, n)
        → has_flag 8 (read_16bit b.transmit_memory p) ≡ sn
        → acknowledge_sequence_number c b nesn ≡ (if same sn nesn then b else popped)
    unfolding acknowledge_sequence_number popped
    acknowledge_stored p n sn e o h = ground arith

module _ (c : Config) where
  -- What `acknowledge_sequence_number` did to a buffer `b` that held `fs`.
  pub record Acked (b : PduBuffer) (fs : List Frame) (nesn : Bool) (b' : PduBuffer) : Type 0 where
    pub sends : Sends c b' (remaining b fs nesn)
    pub numbers : outstanding b' (remaining b fs nesn) ≡ drop_acked nesn (outstanding b fs)
    pub counted :
        b'.transmitted_counter + length (remaining b fs nesn) ≡ b.transmitted_counter + length fs

  drop_empty-Sends :
      {b : PduBuffer} (fs : List Frame)
      → b.next_empty ≡ true
      → Sends c b fs
      → Sends c (record b { next_empty = false }) fs
  drop_empty-Sends {b} fs e s = record {
    pdus = s.pdus;
    holds = s.holds;
    frames = s.frames;
    bytes = s.bytes;
    first = not s.first;
    order =
        (subst (λ l. Alternates s.first l b.sequence_number) (outstanding_empty b fs e) s.order).1;
    empty = λ x. cc;
  }

  popped-Sends :
      {b : PduBuffer} (f : Frame) (fs : List Frame)
      → b.next_empty ≡ false
      → Sends c b (f ∷ fs)
      → Sends c (popped c b) fs
  unfolding popped
  popped-Sends {b} f fs e s =
      let h = head c f fs s in
      record {
        pdus = h.rest;
        holds =
            pop_end-Holds c.layout_overhead c.transmit_size b.transmit_buffer b.transmit_memory
              h.pdu h.rest h.holds;
        frames = h.rest_frames;
        bytes = s.bytes;
        first = not s.first;
        order =
            subst (λ l. Alternates (not s.first) l b.sequence_number)
              (sym (outstanding_plain (popped c b) fs e))
              (subst (λ l. Alternates s.first l b.sequence_number) (outstanding_plain b (f ∷ fs) e)
                s.order).1;
        empty = s.empty;
      }

  kept-Acked :
      {b : PduBuffer} (fs : List Frame) (nesn : Bool)
      → Sends c b fs
      → remaining b fs nesn ≡ fs
      → drop_acked nesn (outstanding b fs) ≡ outstanding b fs
      → Acked b fs nesn b
  kept-Acked {b} fs nesn s r d = record { sends = rw r s; numbers = rw (r, d); counted = rw r }

  ack_empty-Acked :
      {b : PduBuffer} (fs : List Frame) (nesn : Bool)
      → b.next_empty ≡ true
      → Sends c b fs
      → Acked b fs nesn (acknowledge_sequence_number c b nesn)
  unfolding gone
  ack_empty-Acked {b} fs nesn e s = elim (Bool-cases (same b.empty_sequence_number nesn)) [
    | inl k ↦
        rw (acknowledge_empty_kept c b nesn e k)
          (kept-Acked fs nesn s (ground arith) (ground arith))
    | inr k ↦ rw (acknowledge_empty_gone c b nesn e k) (record {
      sends = subst (Sends c (gone c b)) (ground arith) (drop_empty-Sends fs e s);
      numbers = ground arith;
      counted = ground arith;
    })
  ]

  ack_stored-Acked :
      {b : PduBuffer} (fs : List Frame) (nesn : Bool)
      → b.next_empty ≡ false
      → Sends c b fs
      → Acked b fs nesn (acknowledge_sequence_number c b nesn)
  unfolding popped
  ack_stored-Acked {b} [] nesn e s =
      rw (acknowledge_nothing c b nesn e (oldest-nil c s))
        (kept-Acked [] nesn s (ground arith) (ground arith))
  ack_stored-Acked {b} (f ∷ fs) nesn e s =
      let h = head c f fs s in
      rw
        (acknowledge_stored c b nesn _ _ f.0 e h.found (
          sym (frame_of-sn c.layout_overhead b.transmit_memory b.transmit_buffer.end s.bytes)
          ∙ ap (λ (g : Frame). g.0) h.frame))
        (elim (Bool-cases (same f.0 nesn)) [
          | inl k ↦ rw k (kept-Acked (f ∷ fs) nesn s (ground arith) (ground arith))
          | inr k ↦ rw k (record {
            sends = subst (Sends c (popped c b)) (ground arith) (popped-Sends f fs e s);
            numbers = ground arith;
            counted = ground arith;
          })
        ])

  -- A received NESN removes at most the oldest outstanding sequence number, and that exactly if it
  -- differs from it; the frames that are left keep their alternating numbers, and the transmit
  -- counter counts the queued PDUs that were removed.
  pub acknowledge-Acked :
      {b : PduBuffer} (fs : List Frame) (nesn : Bool)
      → Sends c b fs
      → Acked b fs nesn (acknowledge_sequence_number c b nesn)
  acknowledge-Acked {b} fs nesn s = elim (Bool-cases b.next_empty) [
    | inl e ↦ ack_empty-Acked fs nesn e s
    | inr e ↦ ack_stored-Acked fs nesn e s
  ]
