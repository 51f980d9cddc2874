-- ===== src/WriteQueue/Elements.antt =====
-- bluetoe/write_queue.hpp: the queue as a list of elements.
use bluetoe.Shared.{
  ℕ, zero, suc, ◌+◌, ◌-◌, ◌*◌, ◌≤◌, ◌<◌, ◌≡◌, true, false, Option, none, some, List, [], ◌∷◌, ◌++◌,
  ◌==◌, if◌then◌else◌, arith, length, refl, ap, ◌∙◌,
}
use bluetoe.Shared.Memory.{Memory}
use bluetoe.WriteQueue.{
  WriteQueue, is_current, read_size, first_write_queue_element, next_write_queue_element,
}

-- From `p` to `end` stand elements of the given sizes, each behind its size.
abbrev pub IsChain : Memory → ℕ → ℕ → List ℕ → Type 0
IsChain mem p end [] = p ≡ end
IsChain mem p end (n ∷ ns) = (mem p + mem (p + 1) * 256 ≡ n) × IsChain mem (p + (n + 2)) end ns

-- The queue of `client` holds elements of these sizes.
abbrev pub Holds : ℕ → WriteQueue → ℕ → List ℕ → Type 0
Holds s q client ns =
    (q.current_client ≡ some client)
    × (0 < q.buffer_end)
    × (q.buffer_end ≤ s)
    × IsChain q.buffer 0 q.buffer_end ns

-- Where the payloads stand.
abbrev pub places : ℕ → List ℕ → List (ℕ × ℕ)
places p [] = []
places p (n ∷ ns) = (p + 2, n) ∷ places (p + (n + 2)) ns

-- The loop over the elements of the queue, from one of them on.
unfoldable pub elements_from : ℕ → WriteQueue → Option (ℕ × ℕ) → List (ℕ × ℕ)
elements_from fuel q none = []
elements_from zero q (some element) = []
elements_from (suc fuel) q (some element) =
    element ∷ elements_from fuel q (next_write_queue_element q element.0)

chain_bound :
    (mem : Memory) (p end : ℕ) (ns : List ℕ) → IsChain mem p end ns → p + 2 * length ns ≤ end
chain_bound mem p end [] h = omega arith
chain_bound mem p end (n ∷ ns) h = omega (arith, chain_bound mem (p + (n + 2)) end ns h.1)

pub read_size_lem :
    (q : WriteQueue) (p : ℕ) → read_size q (p + 2) ≡ q.buffer p + q.buffer (p + 1) * 256
unfolding read_size
read_size_lem q p =
    let low : p + 2 - 2 ≡ p = omega arith in
    let high : p + 2 - 1 ≡ p + 1 = omega arith in rw low (rw high refl)

pub next_lem :
    (q : WriteQueue) (p n : ℕ)
    → read_size q (p + 2) ≡ n
    → next_write_queue_element q (p + 2) ≡ (
        if p + (n + 2) == q.buffer_end
        then none
        else some (p + (n + 2) + 2, read_size q (p + (n + 2) + 2)))
unfolding next_write_queue_element
next_lem q p n h = let place : p + 2 + n ≡ p + (n + 2) = omega arith in rw h (rw place refl)

elements_from_lem :
    (q : WriteQueue) (fuel p n : ℕ) (ns : List ℕ)
    → IsChain q.buffer p q.buffer_end (n ∷ ns)
    → length ns < fuel
    → elements_from fuel q (some (p + 2, n)) ≡ places p (n ∷ ns)
unfolding elements_from
elements_from_lem q zero p n ns h f = absurd (omega arith)
elements_from_lem q (suc fuel) p n [] h f =
    let here : read_size q (p + 2) ≡ n = read_size_lem q p ∙ h.0 in
    let last : (p + (n + 2) == q.buffer_end) ≡ true = ground arith in
    ap (λ rest. (p + 2, n) ∷ rest) (rw (next_lem q p n here) (rw last refl))
elements_from_lem q (suc fuel) p n (m ∷ ns) h f =
    let here : read_size q (p + 2) ≡ n = read_size_lem q p ∙ h.0 in
    let there : read_size q (p + (n + 2) + 2) ≡ m = read_size_lem q (p + (n + 2)) ∙ h.1.0 in
    let bound = chain_bound q.buffer (p + (n + 2)) q.buffer_end (m ∷ ns) h.1 in
    let more : (p + (n + 2) == q.buffer_end) ≡ false = ground arith in
    ap (λ rest. (p + 2, n) ∷ rest)
      (rw (next_lem q p n here)
        (rw more (rw there (elements_from_lem q fuel (p + (n + 2)) m ns h.1 (omega arith)))))

pub first_lem :
    (q : WriteQueue) (client : ℕ)
    → q.current_client ≡ some client
    → 0 < q.buffer_end
    → first_write_queue_element q client ≡ some (2, read_size q 2)
unfolding first_write_queue_element is_current
first_lem q client h some_bytes =
    let same_client : (client == client) ≡ true = ground arith in
    let not_empty : (q.buffer_end == 0) ≡ false = ground arith in
    rw h (rw same_client (rw not_empty refl))

-- Iterating with first_write_queue_element and next_write_queue_element over the queue of a client
-- gives the position and size of each of its elements, in order.
pub elements-Holds :
    (s : ℕ) (q : WriteQueue) (client : ℕ) (ns : List ℕ)
    → Holds s q client ns
    → elements_from (length ns) q (first_write_queue_element q client) ≡ places 0 ns
elements-Holds s q client [] (owner, some_bytes, bound, chain) = absurd (omega arith)
elements-Holds s q client (n ∷ ns) (owner, some_bytes, bound, chain) =
    let here : read_size q 2 ≡ n = read_size_lem q 0 ∙ chain.0 in
    rw (first_lem q client owner some_bytes)
      (rw here (elements_from_lem q (length (n ∷ ns)) 0 n ns chain (omega arith)))

-- Elements stay where the memory before their end does.
pub IsChain-frame :
    (mem mem' : Memory) (p end : ℕ) (ns : List ℕ)
    → ((i : ℕ) → i < end → mem' i ≡ mem i)
    → IsChain mem p end ns
    → IsChain mem' p end ns
IsChain-frame mem mem' p end [] f h = h
IsChain-frame mem mem' p end (n ∷ ns) f h =
    let bound = chain_bound mem (p + (n + 2)) end ns h.1 in
    (
      rw (f p (omega arith)) (rw (f (p + 1) (omega arith)) h.0),
      IsChain-frame mem mem' (p + (n + 2)) end ns f h.1,
    )

pub IsChain-append :
    (mem : Memory) (p middle end n : ℕ) (ns : List ℕ)
    → IsChain mem p middle ns
    → IsChain mem middle end (n ∷ [])
    → IsChain mem p end (ns ++ n ∷ [])
IsChain-append mem p middle end n [] h g = rw h g
IsChain-append mem p middle end n (m ∷ ns) h g =
    (h.0, IsChain-append mem (p + (m + 2)) middle end n ns h.1 g)
