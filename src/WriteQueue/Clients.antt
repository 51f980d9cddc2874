-- ===== src/WriteQueue/Clients.antt =====
-- bluetoe/write_queue.hpp: allocation, and clients that do not get in each other's way.
use bluetoe.Shared.{
  ℕ, zero, suc, Option, ap, ◌+◌, ◌-◌, ◌*◌, ◌/◌, ◌%◌, ◌^◌, ◌≤◌, ◌<◌, ◌≡◌, ◌≢◌, true, false, none,
  some, List, [], ◌∷◌, ◌++◌, ltb, ◌==◌, arith, refl, ◌∙◌, Bool-cases, inl, inr,
}
use bluetoe.Shared.Memory.{Memory, store, bytes_at, bytes_at-frame}
use bluetoe.WriteQueue.{
  WriteQueue, is_current, is_taken, allocate_from_write_queue, free_write_queue,
  first_write_queue_element,
}
use bluetoe.WriteQueue.Elements.{IsChain, Holds, IsChain-frame, IsChain-append}

-- The memory with the size of a new element in it.
abbrev pub with_size : Memory → ℕ → ℕ → Memory
with_size mem p n = store (store mem p (n % 256)) (p + 1) (n / 256 % 256)

pub allocate_lem :
    (s : ℕ) (q : WriteQueue) (n client : ℕ)
    → s < 2 ^ 16
    → is_taken q client ≡ false
    → q.buffer_end + n + 2 ≤ s
    → allocate_from_write_queue s q n client ≡ (
      record {
        current_client = some client;
        buffer = with_size q.buffer q.buffer_end n;
        buffer_end = q.buffer_end + (n + 2);
      },
      some (q.buffer_end + 2),
    )
unfolding allocate_from_write_queue
allocate_lem s q n client small free room =
    let fits : ltb (s - q.buffer_end) (n + 2) ≡ false = ground arith in
    let end : (q.buffer_end + (n + 2)) % 2 ^ 16 ≡ q.buffer_end + (n + 2) = omega arith in
    let place : q.buffer_end + (n + 2) - n ≡ q.buffer_end + 2 = omega arith in
    rw fits (rw free (rw end (rw place refl)))

pub with_size_at :
    (mem : Memory) (p n : ℕ)
    → n < 2 ^ 16
    → with_size mem p n p + with_size mem p n (p + 1) * 256 ≡ n
with_size_at mem p n h = ground arith

pub with_size_before : (mem : Memory) (p n i : ℕ) → i < p → with_size mem p n i ≡ mem i
with_size_before mem p n i h = ground arith

-- In a queue of less than 2^16 bytes that no other client has and that holds a list of elements,
-- allocating n bytes that fit with their size field gives out the bytes behind that field, appends
-- an element of n bytes to the list for this client and leaves all bytes before it unchanged.
pub allocate_from_write_queue-Holds :
    (s : ℕ) (q : WriteQueue) (n client : ℕ) (ns : List ℕ)
    → s < 2 ^ 16
    → is_taken q client ≡ false
    → IsChain q.buffer 0 q.buffer_end ns
    → q.buffer_end + n + 2 ≤ s
    → (q' : WriteQueue) × (allocate_from_write_queue s q n client ≡ (q', some (q.buffer_end + 2)))
      × Holds s q' client (ns ++ n ∷ [])
      × (bytes_at q'.buffer 0 q.buffer_end ≡ bytes_at q.buffer 0 q.buffer_end)
allocate_from_write_queue-Holds s q n client ns small free chain room =
    let p = q.buffer_end in
    let mem = with_size q.buffer p n in
    let before : (i : ℕ) → i < p → mem i ≡ q.buffer i = with_size_before q.buffer p n in
    (
      record { current_client = some client; buffer = mem; buffer_end = p + (n + 2) },
      allocate_lem s q n client small free room,
      (
        refl,
        omega arith,
        omega arith,
        IsChain-append mem 0 p (p + (n + 2)) n ns (IsChain-frame q.buffer mem 0 p ns before chain)
            (with_size_at q.buffer p n (omega arith), refl),
      ),
      bytes_at-frame q.buffer mem 0 p (λ i a b. before i (omega arith)),
    )

taken_lem :
    (q : WriteQueue) (client other : ℕ)
    → q.current_client ≡ some client
    → (client == other) ≡ false
    → is_taken q other ≡ true
unfolding is_taken
taken_lem q client other h apart = rw h (rw apart refl)

current_lem :
    (q : WriteQueue) (client other : ℕ)
    → q.current_client ≡ some client
    → is_current q other ≡ (client == other)
unfolding is_current
current_lem q client other h = rw h refl

allocate_refused :
    (s : ℕ) (q : WriteQueue) (other n : ℕ)
    → is_taken q other ≡ true
    → allocate_from_write_queue s q n other ≡ (q, none)
unfolding allocate_from_write_queue
allocate_refused s q other n h = elim (Bool-cases (ltb (s - q.buffer_end) (n + 2))) [
  | inl e ↦ rw h (rw e refl)
  | inr e ↦ rw h (rw e refl)
]

first_refused :
    (q : WriteQueue) (other : ℕ)
    → is_current q other ≡ false
    → first_write_queue_element q other ≡ none
unfolding first_write_queue_element
first_refused q other h = rw h refl

free_refused :
    (q : WriteQueue) (other : ℕ) → is_current q other ≡ false → free_write_queue q other ≡ q
unfolding free_write_queue
free_refused q other h = rw h refl

-- What a client does that changes the queue.
pub data ClientCall : Type 0 where
  allocate : ℕ → ClientCall
  free : ClientCall

-- The calls of one client, and what their allocations give.
pub run_calls : ℕ → ℕ → WriteQueue → List ClientCall → WriteQueue × List (Option ℕ)
run_calls s client q [] = (q, [])
run_calls s client q (allocate n ∷ calls) =
    let (q', place) = allocate_from_write_queue s q n client in
    let (q1, places) = run_calls s client q' calls in (q1, place ∷ places)
run_calls s client q (free ∷ calls) = run_calls s client (free_write_queue q client) calls

abbrev pub allocations : List ClientCall → ℕ
allocations [] = 0
allocations (allocate n ∷ calls) = suc (allocations calls)
allocations (free ∷ calls) = allocations calls

abbrev pub all_refused : ℕ → List (Option ℕ)
all_refused zero = []
all_refused (suc n) = none ∷ all_refused n

calls_refused :
    (s other : ℕ) (q : WriteQueue) (calls : List ClientCall)
    → is_taken q other ≡ true
    → is_current q other ≡ false
    → run_calls s other q calls ≡ (q, all_refused (allocations calls))
unfolding run_calls
calls_refused s other q [] taken not_current = refl
calls_refused s other q (allocate n ∷ calls) taken not_current =
    rw (allocate_refused s q other n taken) (
      ap (λ (r : WriteQueue × List (Option ℕ)). (r.0, none ∷ r.1))
        (calls_refused s other q calls taken not_current))
calls_refused s other q (free ∷ calls) taken not_current =
    rw (free_refused q other not_current) (calls_refused s other q calls taken not_current)

freed :
    (q : WriteQueue) (client : ℕ)
    → is_current q client ≡ true
    → free_write_queue q client ≡ record q { buffer_end = 0; current_client = none }
unfolding free_write_queue
freed q client h = rw h refl

-- While one client has elements in the queue, whatever another client does, each of its
-- allocations is refused, the queue stays as it is and it sees no element; once the first client
-- frees its elements, the other one sees none of them, and in a queue of less than 2^16 bytes it
-- gets any n bytes that fit with their size field into the whole of it, as the only element.
pub client_isolation :
    (s : ℕ) (q : WriteQueue) (client other n : ℕ) (calls : List ClientCall)
    → q.current_client ≡ some client
    → client ≢ other
    → s < 2 ^ 16
    → n + 2 ≤ s
    → let freed_queue : WriteQueue = free_write_queue q client in
      (run_calls s other q calls ≡ (q, all_refused (allocations calls)))
      × (first_write_queue_element q other ≡ none)
      × (first_write_queue_element freed_queue other ≡ none)
      × (q' : WriteQueue) × (allocate_from_write_queue s freed_queue n other ≡ (q', some 2))
      × Holds s q' other (n ∷ [])
unfolding is_taken first_write_queue_element is_current
client_isolation s q client other n calls h ne small room =
    let apart : (client == other) ≡ false = ground arith in
    let this : (client == client) ≡ true = ground arith in
    let taken : is_taken q other ≡ true = taken_lem q client other h apart in
    let not_current : is_current q other ≡ false = current_lem q client other h ∙ apart in
    let current : is_current q client ≡ true = current_lem q client client h ∙ this in
    let blank : WriteQueue = record q { buffer_end = 0; current_client = none } in
    let (q', e, holds, kept) =
      allocate_from_write_queue-Holds s blank n other [] small refl refl (omega arith) in
    (
      calls_refused s other q calls taken not_current,
      first_refused q other not_current,
      ap (λ q. first_write_queue_element q other) (freed q client current),
      q',
      ap (λ q. allocate_from_write_queue s q n other) (freed q client current) ∙ e,
      holds,
    )
