-- ===== src/PduBuffer/Transmit.antt =====
-- `next_transmit`: which PDU the radio is given, and what the buffer holds then.
use bluetoe.Shared.{
  ℕ, ◌^◌, ◌<◌, ◌≡◌, refl, inl, inr, Bool, true, false, none, some, List, [], ◌∷◌, arith,
  if◌then◌else◌, Bool-cases,
}
use bluetoe.PduRing
use bluetoe.PduBuffer.{
  Config, PduBuffer, oldest, next_transmit, expect_in_empty, expect_in_stored, flag_more_data,
  create_empty, with_next_expected,
}
use bluetoe.PduBuffer.Frames.{
  Frame, KeepsFrame, set_flag-KeepsFrame_4, clear_flag-KeepsFrame_4, set_flag-KeepsFrame_16,
}
use bluetoe.PduBuffer.Sends.{Sends, IsEmptyHeader, oldest-nil, head, rewritten-Sends}

module _ (c : Config) (b : PduBuffer) where
  pub next_transmit_empty_alone :
      b.next_empty ≡ true → oldest c b ≡ none → next_transmit c b ≡ expect_in_empty c b
  unfolding next_transmit
  next_transmit_empty_alone e o = ground arith

  pub next_transmit_empty_again :
      (p n : ℕ)
      → b.next_empty ≡ true
      → oldest c b ≡ some (p, n)
      → next_transmit c b ≡ expect_in_empty c (flag_more_data c b p)
  unfolding next_transmit
  next_transmit_empty_again p n e o = ground arith

  pub next_transmit_new_empty :
      b.next_empty ≡ false
      → oldest c b ≡ none
      → next_transmit c b ≡ expect_in_empty c (create_empty c b)
  unfolding next_transmit
  next_transmit_new_empty e o = ground arith

  unfoldable pub more_data : Bool
  more_data = PduRing.more_than_one c.layout_overhead b.transmit_buffer b.transmit_memory

  pub next_transmit_stored :
      (p n : ℕ)
      → b.next_empty ≡ false
      → oldest c b ≡ some (p, n)
      → next_transmit c b ≡ expect_in_stored c (if more_data then flag_more_data c b p else b) p
  unfolding next_transmit more_data
  next_transmit_stored p n e o = ground arith

module _ (c : Config) where
  with_next_expected-IsEmptyHeader :
      (b : PduBuffer) (h : ℕ) (sn : Bool)
      → IsEmptyHeader h sn
      → IsEmptyHeader (with_next_expected c b h) sn
  with_next_expected-IsEmptyHeader b h sn i = ground arith

  empty-Sends :
      {b : PduBuffer} (fs : List Frame) → Sends c b fs → Sends c (expect_in_empty c b).0 fs
  empty-Sends {b} fs s = record {
    pdus = s.pdus;
    holds = s.holds;
    frames = s.frames;
    bytes = s.bytes;
    first = s.first;
    order = s.order;
    empty =
        λ e. with_next_expected-IsEmptyHeader b b.empty_header b.empty_sequence_number (s.empty e);
  }

  pub create_empty-Sends : {b : PduBuffer} → Sends c b [] → Sends c (create_empty c b) []
  create_empty-Sends {b} s = record {
    pdus = s.pdus;
    holds = s.holds;
    frames = s.frames;
    bytes = s.bytes;
    first = b.sequence_number;
    order = (refl, refl);
    empty = λ e. ground arith;
  }

  pub with_next_expected-KeepsFrame :
      (b : PduBuffer) (h : ℕ) → h < 2 ^ 16 → KeepsFrame h (with_next_expected c b h)
  with_next_expected-KeepsFrame b h l = elim (Bool-cases b.next_expected_sequence_number) [
    | inl e ↦ rw e (set_flag-KeepsFrame_4 h l)
    | inr e ↦ rw e (clear_flag-KeepsFrame_4 h l)
  ]

  stored-Sends :
      (b : PduBuffer) (f : Frame) (fs : List Frame)
      → Sends c b (f ∷ fs)
      → Sends c (expect_in_stored c b b.transmit_buffer.end).0 (f ∷ fs)
  stored-Sends b f fs s =
      rewritten-Sends c f fs _ (with_next_expected-KeepsFrame b _ (omega arith)) s

  pub more_data-Sends :
      (b : PduBuffer) (f : Frame) (fs : List Frame)
      → Sends c b (f ∷ fs)
      → Sends c (flag_more_data c b b.transmit_buffer.end) (f ∷ fs)
  more_data-Sends b f fs s = rewritten-Sends c f fs _ (set_flag-KeepsFrame_16 _ (omega arith)) s

  -- next_transmit changes neither the queued frames (sequence number, LLID, length and payload)
  -- nor the alternating order of the outstanding numbers.
  pub next_transmit-Sends :
      {b : PduBuffer} (fs : List Frame) → Sends c b fs → Sends c (next_transmit c b).0 fs
  next_transmit-Sends {b} [] s = elim (Bool-cases b.next_empty) [
    | inl e ↦ rw (next_transmit_empty_alone c b e (oldest-nil c s)) (empty-Sends [] s)
    | inr e ↦
        rw (next_transmit_new_empty c b e (oldest-nil c s)) (empty-Sends [] (create_empty-Sends s))
  ]
  next_transmit-Sends {b} (f ∷ fs) s =
      let found = (head c f fs s).found in
      elim (Bool-cases b.next_empty) [
        | inl e ↦
            rw (next_transmit_empty_again c b _ _ e found)
              (empty-Sends (f ∷ fs) (more_data-Sends b f fs s))
        | inr e ↦ rw (next_transmit_stored c b _ _ e found) (last e)
      ]
    where
      last :
          b.next_empty ≡ false
          → Sends c
              (expect_in_stored c
                (if more_data c b then flag_more_data c b b.transmit_buffer.end else b)
                b.transmit_buffer.end).0
              (f ∷ fs)
      last e = elim (Bool-cases (more_data c b)) [
        | inl m ↦ rw m (
            stored-Sends (flag_more_data c b b.transmit_buffer.end) f fs (more_data-Sends b f fs s))
        | inr m ↦ rw m (stored-Sends b f fs s)
      ]
