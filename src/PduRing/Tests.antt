-- ===== src/PduRing/Tests.antt =====
-- Runs of the ring, and its theorems at concrete rings.
use bluetoe.Shared.{ℕ, ◌≡◌, refl, List, [], ◌∷◌, arith}
use bluetoe.Shared.Memory.{Memory, store}
use bluetoe.PduRing.{Ring, pdu_length, alloc_front, push_front, pop_end}
use bluetoe.PduRing.Fifo.{Holds, straight}
use bluetoe.PduRing.Push.{push_front-Holds}
use bluetoe.PduRing.Pop.{pop_end-Holds}

abbrev blank : Memory
blank p = 0

abbrev fresh : Ring
fresh = record { end = 0; front = 0 }

-- A PDU with two bytes of payload at offset 0.
abbrev one_pdu : Memory
one_pdu = store (store (store (store blank 0 2) 1 2) 2 7) 3 8

-- Another at offset 4.
abbrev two_pdus : Memory
two_pdus = store (store (store one_pdu 4 2) 5 1) 6 9

abbrev one_in : Ring
one_in = record { end = 0; front = 4 }

abbrev two_in : Ring
two_in = record { end = 0; front = 7 }

-- The first of the two is gone: the next PDU goes to the start, and the ring is split.
abbrev second_in : Ring
second_in = record { end = 4; front = 7 }

abbrev first : List ℕ
first = 2 ∷ 2 ∷ 7 ∷ 8 ∷ []

abbrev second : List ℕ
second = 2 ∷ 1 ∷ 9 ∷ []

fresh-Holds : Holds 0 8 fresh blank []
fresh-Holds = straight (omega arith) refl

one_in-Holds : Holds 0 8 one_in one_pdu (first ∷ [])
unfolding pdu_length
one_in-Holds = straight (omega arith) ((λ e. cc), refl, omega arith, refl)

two_in-Holds : Holds 0 8 two_in two_pdus (first ∷ second ∷ [])
unfolding pdu_length
two_in-Holds =
    straight (omega arith) ((λ e. cc), refl, omega arith, ((λ e. cc), refl, omega arith, refl))

push_wraps : (push_front 0 8 second_in two_pdus 0).0 ≡ record { end = 4; front = 4 }
unfolding push_front pdu_length
push_wraps = refl

push_front-Holds_example :
    let (r, m) = push_front 0 8 one_in two_pdus 4 in Holds 0 8 r m (first ∷ second ∷ [])
unfolding pdu_length alloc_front
push_front-Holds_example =
    push_front-Holds 0 8 one_in one_pdu two_pdus (first ∷ []) 3 4 one_in-Holds (omega arith) refl
      ((λ i h. ground arith), (λ e. cc), omega arith, omega arith)

pop_end-Holds_example : Holds 0 8 (pop_end 0 8 two_in two_pdus) two_pdus (second ∷ [])
pop_end-Holds_example = pop_end-Holds 0 8 two_in two_pdus first (second ∷ []) two_in-Holds
