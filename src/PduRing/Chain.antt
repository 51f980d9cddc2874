-- ===== src/PduRing/Chain.antt =====
-- PDUs that follow one another in memory.
use bluetoe.Shared.{ℕ, ◌+◌, ◌≤◌, ◌<◌, ◌≡◌, ◌≢◌, refl, sym, ◌∙◌, List, [], ◌∷◌, ◌++◌, arith}
use bluetoe.Shared.Memory.{Memory, bytes_at, bytes_at-frame}
use bluetoe.PduRing.{pdu_length}

-- Two memories that agree on the offsets from `p` up to `q`.
abbrev pub Agree : Memory → Memory → ℕ → ℕ → Type 0
Agree mem mem' p q = (i : ℕ) → p ≤ i → i < q → mem' i ≡ mem i

module _ (overhead : ℕ) where
  -- The bytes of the PDU at `p`.
  abbrev pub pdu_at : Memory → ℕ → List ℕ
  pdu_at mem p = bytes_at mem p (pdu_length overhead mem p)

  -- From `p` on stand exactly the PDUs `xs`, and the last ends at `q`; none has length byte 0.
  abbrev pub Chain : Memory → ℕ → ℕ → List (List ℕ) → Type 0
  Chain mem p q [] = p ≡ q
  Chain mem p q (x ∷ xs) =
      (mem (p + 1) ≢ 0)
      × (pdu_at mem p ≡ x)
      × (p + pdu_length overhead mem p ≤ q)
      × Chain mem (p + pdu_length overhead mem p) q xs

  pub pdu_length-ge : (mem : Memory) (p : ℕ) → 2 ≤ pdu_length overhead mem p
  unfolding pdu_length
  pdu_length-ge mem p = omega arith

  pub pdu_length-frame :
      (mem mem' : Memory) (p : ℕ)
      → mem' p ≡ mem p
      → mem' (p + 1) ≡ mem (p + 1)
      → pdu_length overhead mem' p ≡ pdu_length overhead mem p
  unfolding pdu_length
  pdu_length-frame mem mem' p a b = rw (a, b)

  pub Chain-le : (mem : Memory) (p q : ℕ) (xs : List (List ℕ)) → Chain mem p q xs → p ≤ q
  Chain-le mem p q [] c = omega arith
  Chain-le mem p q (x ∷ xs) c = omega arith

  pdu_at-frame :
      (mem mem' : Memory) (p q : ℕ)
      → p + pdu_length overhead mem p ≤ q
      → Agree mem mem' p q
      → pdu_length overhead mem' p ≡ pdu_length overhead mem p
  pdu_at-frame mem mem' p q h a =
      pdu_length-frame mem mem' p (a p (omega arith) (omega (arith, pdu_length-ge mem p)))
        (a (p + 1) (omega arith) (omega (arith, pdu_length-ge mem p)))

  -- What is written elsewhere leaves the PDUs as they are.
  pub Chain-frame :
      (mem mem' : Memory) (p q : ℕ) (xs : List (List ℕ))
      → Agree mem mem' p q
      → Chain mem p q xs
      → Chain mem' p q xs
  Chain-frame mem mem' p q [] a c = c
  Chain-frame mem mem' p q (x ∷ xs) a c = (
    (λ e. c.0 (sym (a (p + 1) (omega arith) (omega (arith, pdu_length-ge mem p))) ∙ e)),
    rw same_length (bytes_at-frame mem mem' p len (λ i l h. a i l (omega arith)) ∙ c.1),
    rw same_length c.2,
    rw same_length (Chain-frame mem mem' (p + len) q xs (λ i l h. a i (omega arith) h) c.3),
  )
    where
      len : ℕ
      len = pdu_length overhead mem p

      same_length : pdu_length overhead mem' p ≡ pdu_length overhead mem p
      same_length = pdu_at-frame mem mem' p q c.2 a

  -- A PDU written behind the last one extends the chain.
  pub Chain-snoc :
      (mem : Memory) (p q : ℕ) (xs : List (List ℕ))
      → Chain mem p q xs
      → mem (q + 1) ≢ 0
      → Chain mem p (q + pdu_length overhead mem q) (xs ++ (pdu_at mem q ∷ []))
  Chain-snoc mem p q [] c nz = rw c (nz, refl, omega arith, refl)
  Chain-snoc mem p q (x ∷ xs) c nz =
      (c.0, c.1, omega arith, Chain-snoc mem (p + pdu_length overhead mem p) q xs c.3 nz)
