-- ===== src/PduRing/Fifo.antt =====
-- The ring as a queue of PDUs, oldest first.
use bluetoe.Shared.{ℕ, ◌+◌, ◌≤◌, ◌<◌, ◌≡◌, ◌≢◌, ◌⊎◌, List, ◌++◌}
use bluetoe.Shared.Memory.{Memory}
use bluetoe.PduRing.{Ring, wrap_mark, pdu_length}
use bluetoe.PduRing.Chain.{Chain}

module _ (overhead size : ℕ) where
  -- The ring holds the PDUs `q`: in one piece from `end` up to `front`, or split, where the first
  -- part ends at a wrap mark or at the end of the buffer and the rest starts at offset 0.
  pub data Holds (r : Ring) (mem : Memory) (q : List (List ℕ)) : Type 0 where
    straight : r.front ≤ size → Chain overhead mem r.end r.front q → Holds r mem q
    wrapped :
        (stop : ℕ) (old new : List (List ℕ))
        → q ≡ old ++ new
        → 0 < r.front
        → r.front < r.end
        → r.end < stop
        → stop ≤ size
        → (stop + 1 < size → mem (stop + 1) ≡ wrap_mark)
        → Chain overhead mem r.end stop old
        → Chain overhead mem 0 r.front new
        → Holds r mem q

  -- Only the bytes of the buffer at `b` with `n` bytes may have changed.
  abbrev pub Outside : Memory → Memory → ℕ → ℕ → Type 0
  Outside mem mem' b n = (i : ℕ) → (i < b) ⊎ (b + n ≤ i) → mem' i ≡ mem i

  -- The PDU that the client wrote into the allocated buffer, and the memory it left.
  abbrev pub Written : Memory → Memory → ℕ → ℕ → Type 0
  Written mem mem' b n =
      Outside mem mem' b n × (mem' (b + 1) ≢ 0) × (pdu_length overhead mem' b ≤ n) × (n < 256)
