-- ===== src/PduBuffer/Frames.antt =====
-- What a PDU in a ring carries besides the flags that are rewritten for each transmission.
use bluetoe.Shared.{
  ℕ, zero, suc, ◌+◌, ◌-◌, ◌/◌, ◌%◌, ◌^◌, ◌<◌, ◌≤◌, ◌≡◌, ap, Bool, true, false, List, [], ◌∷◌, arith,
  has_flag, set_flag, clear_flag,
}
use bluetoe.Shared.Memory.{Memory, IsBytes, read_16bit, write_16bit, bytes_at, bytes_at-frame}
use bluetoe.PduRing.{pdu_length}
use bluetoe.PduRing.Chain.{pdu_at, pdu_length-ge}
use bluetoe.PduRing.Header.{OnlyFlags}

-- The sequence number, the LLID, and all bytes behind the first one.
abbrev pub Frame : Type 0
Frame = Bool × ℕ × List ℕ

abbrev pub frame_of : List ℕ → Frame
frame_of [] = (false, 0, [])
frame_of (h ∷ rest) = (has_flag 8 h, h % 4, rest)

-- The header `v` differs from `h` in the flags NESN and MD alone.
pub record KeepsFrame (h v : ℕ) : Type 0 where
  pub fits : v < 2 ^ 16
  pub same_length : v / 256 ≡ h / 256
  pub same_llid : v % 4 ≡ h % 4
  pub same_sn : has_flag 8 v ≡ has_flag 8 h

pub set_flag-KeepsFrame_4 : (h : ℕ) → h < 2 ^ 16 → KeepsFrame h (set_flag 4 h)
set_flag-KeepsFrame_4 h l = ground arith

pub clear_flag-KeepsFrame_4 : (h : ℕ) → h < 2 ^ 16 → KeepsFrame h (clear_flag 4 h)
clear_flag-KeepsFrame_4 h l = ground arith

pub set_flag-KeepsFrame_16 : (h : ℕ) → h < 2 ^ 16 → KeepsFrame h (set_flag 16 h)
set_flag-KeepsFrame_16 h l = ground arith

bytes_at_of_pos :
    (mem : Memory) (p n : ℕ) → 1 ≤ n → bytes_at mem p n ≡ mem p ∷ bytes_at mem (p + 1) (n - 1)
bytes_at_of_pos mem p zero h = absurd (omega arith)
bytes_at_of_pos mem p (suc n) h = ap (λ k. mem p ∷ bytes_at mem (p + 1) k) (omega arith)

module _ (overhead : ℕ) where
  pub write-OnlyFlags :
      (mem : Memory) (p v : ℕ)
      → IsBytes mem
      → v / 256 ≡ read_16bit mem p / 256
      → OnlyFlags overhead mem (write_16bit mem p v) p
  unfolding pdu_length
  write-OnlyFlags mem p v b k = record {
    others = λ i ne. ground (arith, b p, b (p + 1));
    same_length = ground (arith, b p, b (p + 1));
  }

  -- The bytes behind the first one are left alone.
  write-rest :
      (mem : Memory) (p v : ℕ)
      → IsBytes mem
      → v / 256 ≡ read_16bit mem p / 256
      → bytes_at (write_16bit mem p v) (p + 1) (pdu_length overhead mem p - 1)
        ≡ bytes_at mem (p + 1) (pdu_length overhead mem p - 1)
  write-rest mem p v b k =
      bytes_at-frame mem (write_16bit mem p v) (p + 1) _
        (λ i l h. (write-OnlyFlags mem p v b k).others i (omega arith))

  pdu_at_split :
      (mem : Memory) (p : ℕ)
      → pdu_at overhead mem p ≡ mem p ∷ bytes_at mem (p + 1) (pdu_length overhead mem p - 1)
  pdu_at_split mem p = bytes_at_of_pos mem p _ (omega (arith, pdu_length-ge overhead mem p))

  pdu_at-write :
      (mem : Memory) (p v : ℕ)
      → IsBytes mem
      → v / 256 ≡ read_16bit mem p / 256
      → pdu_at overhead (write_16bit mem p v) p
        ≡ v % 256 ∷ bytes_at mem (p + 1) (pdu_length overhead mem p - 1)
  pdu_at-write mem p v b k =
      rw
        (
          (write-OnlyFlags mem p v b k).same_length,
          bytes_at_of_pos (write_16bit mem p v) p (pdu_length overhead mem p)
              (omega (arith, pdu_length-ge overhead mem p)),
          write-rest mem p v b k,
        )
        (ap (λ h. h ∷ bytes_at mem (p + 1) (pdu_length overhead mem p - 1)) (ground arith))

  pub set_flag_length :
      (mem : Memory) (p : ℕ)
      → IsBytes mem
      → has_flag 8 (read_16bit mem p) ≡ false
      → set_flag 8 (read_16bit mem p) / 256 ≡ read_16bit mem p / 256
  set_flag_length mem p b clear = ground (arith, b p, b (p + 1))

  pub write-frame_of :
      (mem : Memory) (p v : ℕ)
      → IsBytes mem
      → KeepsFrame (read_16bit mem p) v
      → frame_of (pdu_at overhead (write_16bit mem p v) p) ≡ frame_of (pdu_at overhead mem p)
  write-frame_of mem p v b k =
      rw (pdu_at-write mem p v b k.same_length, pdu_at_split mem p)
        (ground (arith, b p, b (p + 1), k.same_llid, k.same_sn))

  -- The sequence number of a PDU is the flag of its header.
  pub frame_of-sn :
      (mem : Memory) (p : ℕ)
      → IsBytes mem
      → (frame_of (pdu_at overhead mem p)).0 ≡ has_flag 8 (read_16bit mem p)
  frame_of-sn mem p b = rw (pdu_at_split mem p) (ground (arith, b p, b (p + 1)))

  -- A PDU with a clear sequence number, and the same with the flag set.
  pub set_sn-frame_of :
      (mem : Memory) (p : ℕ)
      → IsBytes mem
      → has_flag 8 (read_16bit mem p) ≡ false
      → let f = frame_of (pdu_at overhead mem p) in
        frame_of (pdu_at overhead (write_16bit mem p (set_flag 8 (read_16bit mem p))) p)
        ≡ (true, f.1, f.2)
  set_sn-frame_of mem p b clear =
      rw
        (
          pdu_at-write mem p (set_flag 8 (read_16bit mem p)) b (set_flag_length mem p b clear),
          pdu_at_split mem p,
        )
        (ground (arith, b p, b (p + 1)))
