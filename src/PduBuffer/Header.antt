-- ===== src/PduBuffer/Header.antt =====
-- The header of the PDU that the radio is given to transmit.
use bluetoe.Shared.{
  ℕ, ◌≡◌, refl, sym, ap, ◌∙◌, inl, inr, Bool, true, false, List, [], ◌∷◌, arith, has_flag, set_flag,
  if◌then◌else◌, Bool-cases,
}
use bluetoe.Shared.Memory.{read_16bit, write_16bit, read_16bit-write_16bit}
use bluetoe.PduBuffer.{
  Config, PduBuffer, Outgoing, empty_pdu, stored, next_transmit, expect_in_empty, expect_in_stored,
  flag_more_data, create_empty, with_next_expected,
}
use bluetoe.PduBuffer.Frames.{Frame, KeepsFrame, frame_of-sn, set_flag-KeepsFrame_16}
use bluetoe.PduBuffer.Sends.{Sends, IsEmptyHeader, outstanding, sns, oldest-nil, head}
use bluetoe.PduBuffer.Transmit.{
  next_transmit_empty_alone, next_transmit_empty_again, next_transmit_new_empty,
  next_transmit_stored, more_data, next_transmit-Sends, with_next_expected-KeepsFrame,
  create_empty-Sends, more_data-Sends,
}

abbrev pub header_of : PduBuffer → Outgoing → ℕ
header_of b empty_pdu = b.empty_header
header_of b (stored p) = read_16bit b.transmit_memory p

module _ (c : Config) where
  -- Where the PDU to transmit stands.
  abbrev pub place : PduBuffer → List Frame → Outgoing
  place b [] = empty_pdu
  place b (f ∷ fs) = if b.next_empty then empty_pdu else stored b.transmit_buffer.end

  next_transmit-place :
      {b : PduBuffer} (fs : List Frame) → Sends c b fs → (next_transmit c b).1 ≡ place b fs
  next_transmit-place {b} [] s = elim (Bool-cases b.next_empty) [
    | inl e ↦ rw (next_transmit_empty_alone c b e (oldest-nil c s))
    | inr e ↦ rw (next_transmit_new_empty c b e (oldest-nil c s))
  ]
  next_transmit-place {b} (f ∷ fs) s =
      let found = (head c f fs s).found in
      elim (Bool-cases b.next_empty) [
        | inl e ↦ rw (next_transmit_empty_again c b _ _ e found) (ground arith)
        | inr e ↦ rw (next_transmit_stored c b _ _ e found) (ground arith)
      ]

  next_transmit-same_place :
      {b : PduBuffer} (fs : List Frame) → Sends c b fs → place (next_transmit c b).0 fs ≡ place b fs
  next_transmit-same_place {b} [] s = refl
  next_transmit-same_place {b} (f ∷ fs) s =
      let found = (head c f fs s).found in
      elim (Bool-cases b.next_empty) [
        | inl e ↦ rw (next_transmit_empty_again c b _ _ e found)
        | inr e ↦ rw (next_transmit_stored c b _ _ e found) (ground arith)
      ]

  -- Called twice in a row, next_transmit gives out the same PDU.
  pub next_transmit_again :
      {b : PduBuffer} (fs : List Frame)
      → Sends c b fs
      → (next_transmit c (next_transmit c b).0).1 ≡ (next_transmit c b).1
  next_transmit_again fs s =
      next_transmit-place fs (next_transmit-Sends c fs s)
      ∙ next_transmit-same_place fs s
      ∙ sym (next_transmit-place fs s)

  -- What the header of the transmitted PDU says, in a buffer that holds `fs` after the call.
  pub record Announces (b : PduBuffer) (fs : List Frame) (expected : Bool) (h : ℕ) : Type 0 where
    pub later : List Bool
    pub oldest_number : outstanding b fs ≡ has_flag 8 h ∷ later
    pub nesn : has_flag 4 h ≡ expected

  with_next_expected-nesn :
      (b : PduBuffer) (h : ℕ)
      → has_flag 4 (with_next_expected c b h) ≡ b.next_expected_sequence_number
  with_next_expected-nesn b h = ground arith

  empty-Announces :
      (b : PduBuffer) (fs : List Frame)
      → b.next_empty ≡ true
      → IsEmptyHeader b.empty_header b.empty_sequence_number
      → let (b', o) = expect_in_empty c b in
        Announces b' fs b.next_expected_sequence_number (header_of b' o)
  empty-Announces b fs e i = record {
    later = sns fs;
    oldest_number = ground arith;
    nesn = ground arith;
  }

  stored-Announces :
      (b : PduBuffer) (f : Frame) (fs : List Frame)
      → b.next_empty ≡ false
      → Sends c b (f ∷ fs)
      → let (b', o) = expect_in_stored c b b.transmit_buffer.end in
        Announces b' (f ∷ fs) b.next_expected_sequence_number (header_of b' o)
  stored-Announces b f fs e s = record {
    later = sns fs;
    oldest_number = ground (arith, number, v_read, keeps.same_sn);
    nesn = ground (arith, v_read, nesn_of_v);
  }
    where
      old : ℕ
      old = read_16bit b.transmit_memory b.transmit_buffer.end

      v : ℕ
      v = with_next_expected c b old

      keeps : KeepsFrame old v
      keeps = with_next_expected-KeepsFrame c b old (omega arith)

      v_read :
          read_16bit (write_16bit b.transmit_memory b.transmit_buffer.end v) b.transmit_buffer.end
          ≡ v
      v_read = read_16bit-write_16bit b.transmit_memory b.transmit_buffer.end v keeps.fits

      nesn_of_v : has_flag 4 v ≡ b.next_expected_sequence_number
      nesn_of_v = with_next_expected-nesn b old

      number : f.0 ≡ has_flag 8 old
      number =
          sym (ap (λ (g : Frame). g.0) (head c f fs s).frame)
          ∙ frame_of-sn c.layout_overhead b.transmit_memory b.transmit_buffer.end s.bytes

  -- The PDU that next_transmit gives out carries the oldest outstanding sequence number (that of a
  -- fresh empty PDU, if there was none) and the expected number as NESN.
  pub next_transmit-Announces :
      {b : PduBuffer} (fs : List Frame)
      → Sends c b fs
      → let (b', o) = next_transmit c b in
        Announces b' fs b.next_expected_sequence_number (header_of b' o)
  next_transmit-Announces {b} [] s = elim (Bool-cases b.next_empty) [
    | inl e ↦
        rw (next_transmit_empty_alone c b e (oldest-nil c s)) (empty-Announces b [] e (s.empty e))
    | inr e ↦
        rw (next_transmit_new_empty c b e (oldest-nil c s))
          (empty-Announces (create_empty c b) [] refl ((create_empty-Sends c s).empty refl))
  ]
  next_transmit-Announces {b} (f ∷ fs) s =
      let found = (head c f fs s).found in
      elim (Bool-cases b.next_empty) [
        | inl e ↦
            rw (next_transmit_empty_again c b _ _ e found)
              (empty-Announces (flag_more_data c b b.transmit_buffer.end) (f ∷ fs) e (s.empty e))
        | inr e ↦ rw (next_transmit_stored c b _ _ e found) (last e)
      ]
    where
      last :
          b.next_empty ≡ false
          → let (b', o) =
              expect_in_stored c
                (if more_data c b then flag_more_data c b b.transmit_buffer.end else b)
                b.transmit_buffer.end in
            Announces b' (f ∷ fs) b.next_expected_sequence_number (header_of b' o)
      last e = elim (Bool-cases (more_data c b)) [
        | inl m ↦ rw m (
            stored-Announces (flag_more_data c b b.transmit_buffer.end) f fs e
              (more_data-Sends c b f fs s))
        | inr m ↦ rw m (stored-Announces b f fs e s)
      ]

  -- While an empty PDU is to be acknowledged and PDUs are queued, next_transmit gives out the
  -- empty PDU without the more data flag and sets that flag in the oldest queued PDU.
  pub more_data_misplaced :
      {b : PduBuffer} (f : Frame) (fs : List Frame)
      → Sends c b (f ∷ fs)
      → b.next_empty ≡ true
      → let (b', o) = next_transmit c b in
        (o ≡ empty_pdu)
        × (has_flag 16 (header_of b' o) ≡ false)
        × (has_flag 16 (read_16bit b'.transmit_memory b'.transmit_buffer.end) ≡ true)
  more_data_misplaced {b} f fs s e =
      rw (next_transmit_empty_again c b _ _ e (head c f fs s).found) (refl, no_flag, flag_in_stored)
    where
      old : ℕ
      old = read_16bit b.transmit_memory b.transmit_buffer.end

      flag_in_stored :
          has_flag 16 (
            read_16bit
              (write_16bit b.transmit_memory b.transmit_buffer.end (set_flag 16 old))
              b.transmit_buffer.end)
          ≡ true
      flag_in_stored =
          rw
            (read_16bit-write_16bit b.transmit_memory b.transmit_buffer.end (set_flag 16 old)
              (set_flag-KeepsFrame_16 old (omega arith)).fits)
            (ground arith)

      no_flag : has_flag 16 (with_next_expected c b b.empty_header) ≡ false
      no_flag = ground (arith, (s.empty e).small)
