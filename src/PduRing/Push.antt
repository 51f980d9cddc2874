-- ===== src/PduRing/Push.antt =====
-- Allocating a buffer, filling it and pushing it.
use bluetoe.Shared.{
  ℕ, ◌+◌, ◌≤◌, ◌<◌, ◌≡◌, ◌≢◌, refl, sym, ap, ◌∙◌, ◌⊎◌, inl, inr, subst, some, List, [], ◌∷◌, ◌++◌,
  append_assoc, arith, ltb, ◌==◌, ==_iff, Bool-cases, if◌then◌else◌,
}
use bluetoe.Shared.Memory.{Memory, IsBytes, write_16bit}
use bluetoe.PduRing.{Ring, wrap_mark, pdu_length, alloc_front, push_front}
use bluetoe.PduRing.Chain.{
  Agree, pdu_at, Chain, pdu_length-ge, pdu_length-frame, Chain-le, Chain-frame, Chain-snoc,
}
use bluetoe.PduRing.Fifo.{Outside, Holds, straight, wrapped, Written}

module _ (overhead size : ℕ) where
  abbrev Allocated : Ring → ℕ → ℕ → Type 0
  Allocated r n b =
      ((r.front < r.end) × (r.front + n < r.end) × (b ≡ r.front))
      ⊎ ((r.end ≤ r.front) × (r.front + n ≤ size) × (b ≡ r.front))
      ⊎ ((r.end ≤ r.front) × (n < r.end) × (b ≡ 0))

  alloc_front-Allocated : (r : Ring) (n b : ℕ) → alloc_front size r n ≡ some b → Allocated r n b
  unfolding alloc_front
  alloc_front-Allocated r n b e = ground arith

  -- A PDU written behind the newest one.
  push_behind-Holds :
      (r : Ring) (mem mem' : Memory) (q : List (List ℕ)) (n : ℕ)
      → Holds overhead size r mem q
      → Written overhead size mem mem' r.front n
      → ((r.front < r.end) × (r.front + n < r.end)) ⊎ ((r.end ≤ r.front) × (r.front + n ≤ size))
      → Holds overhead size
          (record { end = r.end; front = r.front + pdu_length overhead mem' r.front })
          mem'
          (q ++ (pdu_at overhead mem' r.front ∷ []))
  push_behind-Holds r mem mem' q n (straight fit c) w room =
      straight (omega (arith, w.2, Chain-le overhead mem r.end r.front q c)) (
        Chain-snoc overhead mem' r.end r.front q
          (Chain-frame overhead mem mem' r.end r.front q (λ i l h. w.0 i (inl h)) c) w.1)
  push_behind-Holds r mem mem' q n (wrapped stop old new eq f0 fe es ss mark co cn) w room =
      wrapped stop old (new ++ (pdu_at overhead mem' r.front ∷ []))
        (ap (λ l. l ++ (pdu_at overhead mem' r.front ∷ [])) eq ∙ append_assoc old new _)
        (omega arith) (omega (arith, w.2)) es ss (λ h. w.0 (stop + 1) (inr (omega arith)) ∙ mark h)
        (Chain-frame overhead mem mem' r.end stop old (λ i l h. w.0 i (inr (omega arith))) co)
        (Chain-snoc overhead mem' 0 r.front new
          (Chain-frame overhead mem mem' 0 r.front new (λ i l h. w.0 i (inl h)) cn) w.1)

  Chain-empty : (mem : Memory) (p : ℕ) (q : List (List ℕ)) → Chain overhead mem p p q → q ≡ []
  Chain-empty mem p [] c = refl
  Chain-empty mem p (x ∷ q) c = absurd (omega (arith, pdu_length-ge overhead mem p))

  -- The wrap mark that `push_front` leaves where the PDUs stopped so far.
  abbrev marked : Memory → ℕ → Memory
  marked mem p = if ltb (p + 1) size then write_16bit mem p wrap_mark else mem

  marked-below : (mem : Memory) (p : ℕ) → Agree mem (marked mem p) 0 p
  marked-below mem p i l h = ground arith

  marked-mark : (mem : Memory) (p : ℕ) → p + 1 < size → marked mem p (p + 1) ≡ wrap_mark
  marked-mark mem p h = ground arith

  -- A PDU written at the start of the buffer, where the wrap mark at `p` leaves it alone.
  first-Chain :
      (mem : Memory) (p : ℕ)
      → mem 1 ≢ 0
      → pdu_length overhead mem 0 ≤ p
      → Chain overhead (marked mem p) 0 (pdu_length overhead mem 0) (pdu_at overhead mem 0 ∷ [])
  first-Chain mem p nz h =
      Chain-frame overhead mem (marked mem p) 0 (pdu_length overhead mem 0)
        (pdu_at overhead mem 0 ∷ []) (λ i a b. marked-below mem p i a (omega arith))
        (nz, refl, omega arith, omega arith)

  push_start-Holds :
      (r : Ring) (mem mem' : Memory) (q : List (List ℕ)) (n : ℕ)
      → Holds overhead size r mem q
      → Written overhead size mem mem' 0 n
      → r.end ≤ r.front
      → n < r.end
      → Holds overhead size
          (record {
            end = if r.front == r.end then 0 else r.end;
            front = pdu_length overhead mem' 0;
          })
          (marked mem' r.front)
          (q ++ (pdu_at overhead mem' 0 ∷ []))
  push_start-Holds r mem mem' q n (wrapped stop old new eq f0 fe es ss mark co cn) w ef ne =
      absurd (omega arith)
  push_start-Holds r mem mem' q n (straight fit c) w ef ne = elim (Bool-cases (r.front == r.end)) [
    | inl e ↦
        let same_place : r.front ≡ r.end = (==_iff r.front r.end).0 e in
        let empty : q ≡ [] = Chain-empty mem r.end q (rw same_place at c) in
        rw (e, empty)
          (straight (omega (arith, w.2)) (first-Chain mem' r.front w.1 (omega (arith, w.2))))
    | inr e ↦ rw e (
        wrapped r.front q (pdu_at overhead mem' 0 ∷ []) refl
          (omega (arith, pdu_length-ge overhead mem' 0)) (omega (arith, w.2)) (ground arith) fit
          (marked-mark mem' r.front)
          (Chain-frame overhead mem (marked mem' r.front) r.end r.front q
            (λ i l h. marked-below mem' r.front i (omega arith) h ∙ w.0 i (inr (omega arith))) c)
          (first-Chain mem' r.front w.1 (omega (arith, w.2))))
  ]

  push_front_behind :
      (r : Ring) (mem : Memory)
      → pdu_length overhead mem r.front < 256
      → push_front overhead size r mem r.front
        ≡ (record { end = r.end; front = r.front + pdu_length overhead mem r.front }, mem)
  unfolding push_front
  push_front_behind r mem h = ground arith

  push_front_start :
      (r : Ring) (mem : Memory)
      → pdu_length overhead mem 0 < 256
      → 1 < r.front
      → push_front overhead size r mem 0 ≡ (
        record { end = if r.front == r.end then 0 else r.end; front = pdu_length overhead mem 0 },
        marked mem r.front,
      )
  unfolding push_front
  push_front_start r mem h f = ground (
    arith,
    pdu_length-frame overhead mem (marked mem r.front) 0,
    marked-below mem r.front 0,
    marked-below mem r.front 1,
  )

  abbrev Pushed : Ring → Memory → List (List ℕ) → ℕ → Type 0
  Pushed r mem q b =
      let (r', mem') = push_front overhead size r mem b in
      Holds overhead size r' mem' (q ++ (pdu_at overhead mem b ∷ []))

  push_behind :
      (r : Ring) (mem mem' : Memory) (q : List (List ℕ)) (n b : ℕ)
      → Holds overhead size r mem q
      → ((r.front < r.end) × (r.front + n < r.end)) ⊎ ((r.end ≤ r.front) × (r.front + n ≤ size))
      → b ≡ r.front
      → Written overhead size mem mem' b n
      → Pushed r mem' q b
  push_behind r mem mem' q n b v room e =
      subst (λ x. Written overhead size mem mem' x n → Pushed r mem' q x) (sym e)
        (λ w.
          rw (push_front_behind r mem' (omega (arith, w.2)))
            (push_behind-Holds r mem mem' q n v w room))

  push_start :
      (r : Ring) (mem mem' : Memory) (q : List (List ℕ)) (n b : ℕ)
      → Holds overhead size r mem q
      → 2 ≤ n
      → (r.end ≤ r.front) × (n < r.end)
      → b ≡ 0
      → Written overhead size mem mem' b n
      → Pushed r mem' q b
  push_start r mem mem' q n b v two room e =
      subst (λ x. Written overhead size mem mem' x n → Pushed r mem' q x) (sym e)
        (λ w.
          rw (push_front_start r mem' (omega (arith, w.2)) (omega arith))
            (push_start-Holds r mem mem' q n v w room.0 room.1))

  -- If alloc_front gave out a buffer of n bytes (at most 255) and the client wrote a PDU with a
  -- payload into it and nowhere else, push_front appends exactly that PDU to the queue that the
  -- ring holds, and the PDUs before it are unharmed.
  pub push_front-Holds :
      (r : Ring) (mem mem' : Memory) (q : List (List ℕ)) (n b : ℕ)
      → Holds overhead size r mem q
      → 2 ≤ n
      → alloc_front size r n ≡ some b
      → Written overhead size mem mem' b n
      → let (r', m) = push_front overhead size r mem' b in
        Holds overhead size r' m (q ++ (pdu_at overhead mem' b ∷ []))
  push_front-Holds r mem mem' q n b v two a w = elim (alloc_front-Allocated r n b a) [
    | inl (fe, room, e) ↦ push_behind r mem mem' q n b v (inl (fe, room)) e w
    | inr (inl (ef, room, e)) ↦ push_behind r mem mem' q n b v (inr (ef, room)) e w
    | inr (inr (ef, room, e)) ↦ push_start r mem mem' q n b v two (ef, room) e w
  ]

  pub push_front-IsBytes :
      (r : Ring) (mem : Memory) (b : ℕ) → IsBytes mem → IsBytes (push_front overhead size r mem b).1
  unfolding push_front
  push_front-IsBytes r mem b bytes i = ground (arith, bytes i)

  -- Writing in the allocated buffer leaves the PDUs of the ring alone.
  pub write_allocated-Holds :
      (r : Ring) (mem mem' : Memory) (q : List (List ℕ)) (n b : ℕ)
      → Holds overhead size r mem q
      → alloc_front size r n ≡ some b
      → Outside overhead size mem mem' b n
      → Holds overhead size r mem' q
  write_allocated-Holds r mem mem' q n b v a o = elim (alloc_front-Allocated r n b a) [
    | inl (fe, room, e) ↦
        below_end v (λ i h. o i (inl (omega arith))) (λ i h. o i (inr (omega arith)))
    | inr (inl (ef, room, e)) ↦ below_front v ef (λ i l h. o i (inl (omega arith)))
    | inr (inr (ef, room, e)) ↦ below_front v ef (λ i l h. o i (inr (omega arith)))
  ]
    where
      below_end :
          Holds overhead size r mem q
          → ((i : ℕ) → i < r.front → mem' i ≡ mem i)
          → ((i : ℕ) → r.end ≤ i → mem' i ≡ mem i)
          → Holds overhead size r mem' q
      below_end (straight fit c) lo hi =
          straight fit (Chain-frame overhead mem mem' r.end r.front q (λ i l h. hi i l) c)
      below_end (wrapped stop old new eq f0 fe es ss mark co cn) lo hi =
          wrapped stop old new eq f0 fe es ss (λ h. hi (stop + 1) (omega arith) ∙ mark h)
            (Chain-frame overhead mem mem' r.end stop old (λ i l h. hi i l) co)
            (Chain-frame overhead mem mem' 0 r.front new (λ i l h. lo i h) cn)

      below_front :
          Holds overhead size r mem q
          → r.end ≤ r.front
          → ((i : ℕ) → r.end ≤ i → i < r.front → mem' i ≡ mem i)
          → Holds overhead size r mem' q
      below_front (straight fit c) ef same_bytes =
          straight fit (Chain-frame overhead mem mem' r.end r.front q same_bytes c)
      below_front (wrapped stop old new eq f0 fe es ss mark co cn) ef same_bytes =
          absurd (omega arith)
