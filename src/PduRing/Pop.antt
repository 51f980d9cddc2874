-- ===== src/PduRing/Pop.antt =====
-- Reading and removing the oldest PDU.
use bluetoe.Shared.{
  ℕ, ◌+◌, ◌<◌, ◌≡◌, ◌≢◌, refl, ◌⊎◌, inl, inr, subst, Option, none, some, List, [], ◌∷◌, arith, ltb,
  length, length-append,
}
use bluetoe.Shared.Memory.{Memory, bytes_at}
use bluetoe.PduRing.{Ring, wrap_mark, pdu_length, next_end, pop_end, more_than_one}
use bluetoe.PduRing.Chain.{pdu_at, Chain, pdu_length-ge}
use bluetoe.PduRing.Fifo.{Holds, straight, wrapped}

-- What `next_end` may return of a ring that holds the PDUs `q`.
abbrev pub Oldest : Memory → Option (ℕ × ℕ) → List (List ℕ) → Type 0
Oldest mem none q = q ≡ []
Oldest mem (some (p, n)) [] = ⊥
Oldest mem (some (p, n)) (x ∷ q) = bytes_at mem p n ≡ x

module _ (overhead size : ℕ) where
  -- `next_end` finds nothing in the empty ring.
  pub next_end-nil :
      (r : Ring) (mem : Memory) → Holds overhead size r mem [] → next_end overhead r mem ≡ none
  unfolding next_end
  next_end-nil r mem (straight fit c) = ground arith
  next_end-nil r mem (wrapped stop [] [] eq f0 fe es ss mark co cn) = absurd (omega arith)
  next_end-nil r mem (wrapped stop [] (x ∷ new) eq f0 fe es ss mark co cn) = absurd (omega arith)
  next_end-nil r mem (wrapped stop (x ∷ old) new eq f0 fe es ss mark co cn) = cc

  pub next_end-cons :
      (r : Ring) (mem : Memory) (x : List ℕ) (q : List (List ℕ))
      → Holds overhead size r mem (x ∷ q)
      → (next_end overhead r mem ≡ some (r.end, pdu_length overhead mem r.end))
        × (pdu_at overhead mem r.end ≡ x)
  unfolding next_end
  next_end-cons r mem x q (straight fit c) = (ground (arith, pdu_length-ge overhead mem r.end), c.1)
  next_end-cons r mem x q (wrapped stop [] new eq f0 fe es ss mark co cn) = absurd (omega arith)
  next_end-cons r mem x q (wrapped stop (y ∷ old) new eq f0 fe es ss mark co cn) =
      (ground arith, cc)

  pop_end_stay :
      (r : Ring) (mem : Memory) (e : ℕ)
      → r.end + pdu_length overhead mem r.end ≡ e
      → (e ≡ r.front) ⊎ ((e + 1 < size) × (mem (e + 1) ≢ wrap_mark))
      → pop_end overhead size r mem ≡ record { end = e; front = r.front }
  unfolding pop_end
  pop_end_stay r mem e le (inl same_place) = rw le (ground arith)
  pop_end_stay r mem e le (inr more) = rw le (ground arith)

  pop_end_wrap :
      (r : Ring) (mem : Memory) (e : ℕ)
      → r.end + pdu_length overhead mem r.end ≡ e
      → r.front < e
      → (e + 1 < size → mem (e + 1) ≡ wrap_mark)
      → pop_end overhead size r mem ≡ record { end = 0; front = r.front }
  unfolding pop_end
  pop_end_wrap r mem e le behind mark = rw le (ground arith)

  -- pop_end removes exactly the oldest PDU of a ring that holds at least one, through the wrap at
  -- the end of the buffer too.
  pub pop_end-Holds :
      (r : Ring) (mem : Memory) (x : List ℕ) (q : List (List ℕ))
      → Holds overhead size r mem (x ∷ q)
      → Holds overhead size (pop_end overhead size r mem) mem q
  pop_end-Holds r mem x [] (straight fit c) =
      rw (pop_end_stay r mem _ refl (inl c.3)) (straight fit c.3)
  pop_end-Holds r mem x (y ∷ q) (straight fit c) =
      rw (pop_end_stay r mem _ refl (inr (inside, c.3.0))) (straight fit c.3)
    where
      inside : r.end + pdu_length overhead mem r.end + 1 < size
      inside = omega (arith, pdu_length-ge overhead mem (r.end + pdu_length overhead mem r.end))
  pop_end-Holds r mem x q (wrapped stop [] new eq f0 fe es ss mark co cn) = absurd (omega arith)
  pop_end-Holds r mem x q (wrapped stop (y ∷ []) new eq f0 fe es ss mark co cn) =
      rw (pop_end_wrap r mem stop co.3 (omega arith) mark)
        (straight (omega arith) (subst (Chain overhead mem 0 r.front) (cc) cn))
  pop_end-Holds r mem x q (wrapped stop (y ∷ z ∷ old) new eq f0 fe es ss mark co cn) =
      rw (pop_end_stay r mem _ refl (inr (inside, co.3.0)))
        (wrapped stop (z ∷ old) new (cc) f0 (omega arith) before ss mark co.3 cn)
    where
      inside : r.end + pdu_length overhead mem r.end + 1 < size
      inside = omega (arith, pdu_length-ge overhead mem (r.end + pdu_length overhead mem r.end))

      before : r.end + pdu_length overhead mem r.end < stop
      before = omega (arith, pdu_length-ge overhead mem (r.end + pdu_length overhead mem r.end))

  -- next_end returns the position and length of the bytes of the oldest PDU, and nothing exactly
  -- if the ring is empty.
  pub next_end-Oldest :
      (r : Ring) (mem : Memory) (q : List (List ℕ))
      → Holds overhead size r mem q
      → Oldest mem (next_end overhead r mem) q
  next_end-Oldest r mem [] v = rw (next_end-nil r mem v) refl
  next_end-Oldest r mem (x ∷ q) v = rw (next_end-cons r mem x q v).0 (next_end-cons r mem x q v).1

  -- more_than_one is true exactly if a valid ring holds at least two PDUs.
  pub more_than_one_iff :
      (r : Ring) (mem : Memory) (q : List (List ℕ))
      → Holds overhead size r mem q
      → more_than_one overhead r mem ≡ ltb 1 (length q)
  unfolding more_than_one
  more_than_one_iff r mem [] (straight fit c) = ground arith
  more_than_one_iff r mem (x ∷ []) (straight fit c) = ground arith
  more_than_one_iff r mem (x ∷ y ∷ q) (straight fit c) = ground (
    arith,
    pdu_length-ge overhead mem r.end,
    pdu_length-ge overhead mem (r.end + pdu_length overhead mem r.end),
  )
  more_than_one_iff r mem q (wrapped stop [] new eq f0 fe es ss mark co cn) = absurd (omega arith)
  more_than_one_iff r mem q (wrapped stop (y ∷ old) [] eq f0 fe es ss mark co cn) =
      absurd (omega arith)
  more_than_one_iff r mem q (wrapped stop (y ∷ old) (z ∷ new) eq f0 fe es ss mark co cn) =
      rw eq (ground (arith, length-append old (z ∷ new)))
