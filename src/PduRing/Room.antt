-- ===== src/PduRing/Room.antt =====
-- When `alloc_front` finds room, and where.
use bluetoe.Shared.{
  ℕ, ◌+◌, ◌*◌, ◌≤◌, ◌<◌, ◌≡◌, refl, none, some, List, [], ◌∷◌, arith, leb, if◌then◌else◌,
}
use bluetoe.Shared.Memory.{Memory}
use bluetoe.PduRing.{Ring, pdu_length, reset, alloc_front, push_front, next_end, pop_end}
use bluetoe.PduRing.Chain.{Chain-le}
use bluetoe.PduRing.Fifo.{Holds, straight, wrapped}

module _ (overhead size : ℕ) where
  -- `reset` leaves an empty ring, whatever the memory held.
  pub reset-Holds : (mem : Memory) → let (r, m) = reset mem in Holds overhead size r m []
  unfolding reset
  reset-Holds mem = straight (omega arith) refl

  -- A buffer that alloc_front gives out of a valid ring lies inside the memory of the ring.
  pub alloc_front_in_bounds :
      (r : Ring) (mem : Memory) (q : List (List ℕ)) (n b : ℕ)
      → Holds overhead size r mem q
      → alloc_front size r n ≡ some b
      → b + n ≤ size
  unfolding alloc_front
  alloc_front_in_bounds r mem q n b (straight fit c) a =
      ground (arith, Chain-le overhead mem r.end r.front q c)
  alloc_front_in_bounds r mem q n b (wrapped stop old new eq f0 fe es ss mark co cn) a =
      ground arith

  -- In an empty ring whose memory is at least twice the requested size, alloc_front finds room.
  pub alloc_front_empty :
      (r : Ring) (mem : Memory) (n : ℕ)
      → Holds overhead size r mem []
      → 2 * n ≤ size
      → (b : ℕ) × (alloc_front size r n ≡ some b)
  unfolding alloc_front
  alloc_front_empty r mem n (straight fit c) h =
      (if leb (r.front + n) size then r.front else 0, ground arith)
  alloc_front_empty r mem n (wrapped stop [] [] eq f0 fe es ss mark co cn) h = absurd (omega arith)
  alloc_front_empty r mem n (wrapped stop [] (x ∷ new) eq f0 fe es ss mark co cn) h =
      absurd (omega arith)
  alloc_front_empty r mem n (wrapped stop (x ∷ old) new eq f0 fe es ss mark co cn) h = cc

  -- The memory after a client wrote a PDU into the fresh ring, pushed it and popped it again.
  abbrev pub after_one : Memory → Ring
  after_one mem =
      let (r, m) = push_front overhead size (record { end = 0; front = 0 }) mem 0 in
      pop_end overhead size r m

  -- In a ring whose memory is smaller than twice the size n of a PDU (n at most 255), once one PDU
  -- of n bytes went through, the ring is empty and alloc_front refuses n bytes.
  pub alloc_front_wedged :
      (mem : Memory) (n : ℕ)
      → size < 2 * n
      → n ≤ size
      → n < 256
      → pdu_length overhead mem 0 ≡ n
      → (alloc_front size (record { end = 0; front = 0 }) n ≡ some 0)
        × (next_end overhead (after_one mem) mem ≡ none)
        × (alloc_front size (after_one mem) n ≡ none)
  unfolding alloc_front push_front next_end pop_end
  alloc_front_wedged mem n small fits byte len = rw len (ground arith, ground arith, ground arith)
