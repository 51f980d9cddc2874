-- ===== src/PduRing/Header.antt =====
-- Rewriting flags in the header of the oldest PDU, in place.
use bluetoe.Shared.{ℕ, ◌+◌, ◌≡◌, ◌≢◌, refl, sym, ◌∙◌, List, [], ◌∷◌, arith}
use bluetoe.Shared.Memory.{Memory}
use bluetoe.PduRing.{Ring, pdu_length}
use bluetoe.PduRing.Chain.{pdu_at, Chain, pdu_length-ge, Chain-frame}
use bluetoe.PduRing.Fifo.{Holds, straight, wrapped}

module _ (overhead : ℕ) where
  -- Only the first byte of the PDU at `p` may have changed, and its length has not.
  pub record OnlyFlags (mem mem' : Memory) (p : ℕ) : Type 0 where
    pub others : (i : ℕ) → i ≢ p → mem' i ≡ mem i
    pub same_length : pdu_length overhead mem' p ≡ pdu_length overhead mem p

module _ (overhead size : ℕ) where
  head-Chain :
      (mem mem' : Memory) (p q : ℕ) (x : List ℕ) (xs : List (List ℕ))
      → OnlyFlags overhead mem mem' p
      → Chain overhead mem p q (x ∷ xs)
      → Chain overhead mem' p q (pdu_at overhead mem' p ∷ xs)
  head-Chain mem mem' p q x xs f c = (
    (λ e. c.0 (sym (f.others (p + 1) (omega arith)) ∙ e)),
    refl,
    rw f.same_length c.2,
    rw f.same_length (
        Chain-frame overhead mem mem' (p + pdu_length overhead mem p) q xs
          (λ i l h. f.others i (omega (arith, pdu_length-ge overhead mem p))) c.3),
  )

  pub flags-Holds :
      (r : Ring) (mem mem' : Memory) (x : List ℕ) (q : List (List ℕ))
      → OnlyFlags overhead mem mem' r.end
      → Holds overhead size r mem (x ∷ q)
      → Holds overhead size r mem' (pdu_at overhead mem' r.end ∷ q)
  flags-Holds r mem mem' x q f (straight fit c) =
      straight fit (head-Chain mem mem' r.end r.front x q f c)
  flags-Holds r mem mem' x q f (wrapped stop [] new eq f0 fe es ss mark co cn) =
      absurd (omega arith)
  flags-Holds r mem mem' x q f (wrapped stop (y ∷ old) new eq f0 fe es ss mark co cn) =
      wrapped stop (pdu_at overhead mem' r.end ∷ old) new (cc) f0 fe es ss
        (λ h. f.others (stop + 1) (omega arith) ∙ mark h)
        (head-Chain mem mem' r.end stop y old f co)
        (Chain-frame overhead mem mem' 0 r.front new (λ i l h. f.others i (omega arith)) cn)
