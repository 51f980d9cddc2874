-- ===== src/PduBuffer/Commit.antt =====
-- Committing a PDU to be transmitted.
use bluetoe.Shared.{
  ℕ, ◌+◌, ◌≤◌, ◌≡◌, sym, ap, ap₂, ◌∙◌, inl, inr, subst, Bool, false, not, some, List, [], ◌∷◌, ◌++◌,
  arith, has_flag, set_flag, if◌then◌else◌, Bool-cases,
}
use mathlib.Core.List.{map-append}
use bluetoe.Shared.Memory.{Memory, IsBytes, read_16bit, write_16bit}
use bluetoe.PduRing
use bluetoe.PduRing.{Ring, pdu_length}
use bluetoe.PduRing.Chain.{pdu_at}
use bluetoe.PduRing.Fifo.{Written}
use bluetoe.PduRing.Push.{push_front-Holds, push_front-IsBytes}
use bluetoe.PduBuffer.{Config, PduBuffer, allocate_transmit_buffer, commit_transmit_buffer}
use bluetoe.PduBuffer.Frames.{
  Frame, frame_of, frame_of-sn, write-OnlyFlags, set_sn-frame_of, set_flag_length,
}
use bluetoe.PduBuffer.Sends.{Sends, Alternates, outstanding}

Alternates-snoc :
    (s : Bool) (xs : List Bool) (next : Bool)
    → Alternates s xs next
    → Alternates s (xs ++ (next ∷ [])) (not next)
Alternates-snoc s [] next a = (sym a, ap not a)
Alternates-snoc s (x ∷ xs) next a = (a.0, Alternates-snoc (not s) xs next a.1)

module _ (c : Config) where
  abbrev numbered : PduBuffer → Memory → ℕ → Memory
  numbered b mem p =
      if b.sequence_number then write_16bit mem p (set_flag 8 (read_16bit mem p)) else mem

  -- The frame that a committed PDU becomes.
  abbrev pub committed : PduBuffer → Memory → ℕ → Frame
  committed b mem p =
      let f = frame_of (pdu_at c.layout_overhead mem p) in (b.sequence_number, f.1, f.2)

  numbered-frame_of :
      (b : PduBuffer) (mem : Memory) (p : ℕ)
      → IsBytes mem
      → has_flag 8 (read_16bit mem p) ≡ false
      → frame_of (pdu_at c.layout_overhead (numbered b mem p) p) ≡ committed b mem p
  numbered-frame_of b mem p bytes clear = elim (Bool-cases b.sequence_number) [
    | inl e ↦ rw e (set_sn-frame_of c.layout_overhead mem p bytes clear)
    | inr e ↦ rw e (
        ap
          (λ s. (
            s,
            (frame_of (pdu_at c.layout_overhead mem p)).1,
            (frame_of (pdu_at c.layout_overhead mem p)).2,
          ))
          (frame_of-sn c.layout_overhead mem p bytes ∙ clear))
  ]

  numbered-IsBytes :
      (b : PduBuffer) (mem : Memory) (p : ℕ) → IsBytes mem → IsBytes (numbered b mem p)
  numbered-IsBytes b mem p bytes i = ground (arith, bytes i)

  numbered-Written :
      (b : PduBuffer) (mem mem' : Memory) (p n : ℕ)
      → IsBytes mem'
      → has_flag 8 (read_16bit mem' p) ≡ false
      → 2 ≤ n
      → Written c.layout_overhead c.transmit_size mem mem' p n
      → Written c.layout_overhead c.transmit_size mem (numbered b mem' p) p n
  numbered-Written b mem mem' p n bytes clear two w = elim (Bool-cases b.sequence_number) [
    | inl e ↦
        let f =
          write-OnlyFlags c.layout_overhead mem' p _ bytes
            (set_flag_length c.layout_overhead mem' p bytes clear) in
        rw e (
          (λ i o. f.others i (omega arith) ∙ w.0 i o),
          (λ z. w.1 (sym (f.others (p + 1) (omega arith)) ∙ z)),
          omega (arith, f.same_length, w.2),
          w.3,
        )
    | inr e ↦ rw e w
  ]

  queued : PduBuffer → ℕ → PduBuffer
  queued b p =
      let r =
        PduRing.push_front c.layout_overhead c.transmit_size b.transmit_buffer
          (numbered b b.transmit_memory p) p in
      record b {
        sequence_number = not b.sequence_number;
        transmit_buffer = r.0;
        transmit_memory = r.1;
      }

  commit_running :
      (b : PduBuffer) (p : ℕ) → b.stopped ≡ false → commit_transmit_buffer c b p ≡ queued b p
  unfolding commit_transmit_buffer queued
  commit_running b p run = ground arith

  outstanding-snoc :
      (b : PduBuffer) (fs : List Frame) (f : Frame)
      → outstanding b (fs ++ (f ∷ [])) ≡ outstanding b fs ++ (f.0 ∷ [])
  outstanding-snoc b fs f = ground (arith, map-append (λ (g : Frame). g.0) fs (f ∷ []))

  -- While the buffer is not stopped, committing a PDU that was written into an allocated buffer
  -- with a clear SN flag queues it behind the others under the next sequence number, and all
  -- outstanding numbers still alternate.
  pub commit_transmit_buffer-Sends :
      {b : PduBuffer} (fs : List Frame) (mem : Memory) (n p : ℕ)
      → Sends c b fs
      → b.stopped ≡ false
      → 2 ≤ n
      → allocate_transmit_buffer c b n ≡ some p
      → IsBytes mem
      → Written c.layout_overhead c.transmit_size b.transmit_memory mem p n
      → has_flag 8 (read_16bit mem p) ≡ false
      → Sends c
          (commit_transmit_buffer c (record b { transmit_memory = mem }) p)
          (fs ++ (committed b mem p ∷ []))
  unfolding queued allocate_transmit_buffer
  commit_transmit_buffer-Sends {b} fs mem n p s run two a bytes w clear =
      rw (commit_running (record b { transmit_memory = mem }) p run) (record {
        pdus = s.pdus ++ (pdu_at c.layout_overhead (numbered b mem p) p ∷ []);
        holds =
            push_front-Holds c.layout_overhead c.transmit_size b.transmit_buffer b.transmit_memory
              (numbered b mem p) s.pdus n p s.holds two a
              (numbered-Written b b.transmit_memory mem p n bytes clear two w);
        frames =
            map-append frame_of s.pdus _
            ∙ ap₂ (λ l (f : Frame). l ++ (f ∷ [])) s.frames (numbered-frame_of b mem p bytes clear);
        bytes =
            push_front-IsBytes c.layout_overhead c.transmit_size b.transmit_buffer
              (numbered b mem p) p (numbered-IsBytes b mem p bytes);
        first = s.first;
        order =
            subst (λ l. Alternates s.first l (not b.sequence_number))
              (sym (outstanding-snoc b fs (committed b mem p)))
              (Alternates-snoc s.first (outstanding b fs) b.sequence_number s.order);
        empty = s.empty;
      })
