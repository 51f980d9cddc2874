-- ===== src/Gatt/Execution.antt =====
-- bluetoe/server.hpp: preparing and executing writes, in the view of what is prepared.
use bluetoe.Shared.{
  ℕ, ◌/◌, ◌%◌, ◌≤◌, ltb, ◌≡◌, refl, sym, subst, ap, ◌∙◌, arith, Bool, true, false, Option, none,
  some, List, [], ◌∷◌, ◌==◌, if◌then◌else◌, length,
}
use bluetoe.NotificationQueue.{is_none}
use bluetoe.WriteQueue.{
  WriteQueue, is_current, free_write_queue, read_size, first_write_queue_element,
}
use bluetoe.WriteQueue.Elements.{read_size_lem, first_lem}
use bluetoe.Gatt.{Values, Server, AttState, Link, Caller, of_client}
use bluetoe.Gatt.Checks.{error_response}
use bluetoe.Gatt.Writes.{execute_writes, end_execution, handle_execute_write_request}
use bluetoe.Gatt.Prepared.{HasPrepared, prepared_bound, write_all, execute_writes_lem, execute_none}

first_none :
    (q : WriteQueue) (client : ℕ)
    → q.current_client ≡ none
    → first_write_queue_element q client ≡ none
unfolding first_write_queue_element is_current
first_none q client h = rw h refl

current_none : (q : WriteQueue) (client : ℕ) → q.current_client ≡ none → is_current q client ≡ false
unfolding is_current
current_none q client h = rw h refl

current_some :
    (q : WriteQueue) (client : ℕ) → q.current_client ≡ some client → is_current q client ≡ true
unfolding is_current
current_some q client h =
    let same_client : (client == client) ≡ true = ground arith in rw (h, same_client) refl

module _ (size : ℕ) (q : WriteQueue) (client : ℕ) where
  free_lem :
      (b : Bool)
      → is_current q client ≡ b
      → free_write_queue q client
        ≡ (if b then record q { buffer_end = 0; current_client = none } else q)
  unfolding free_write_queue
  free_lem b h =
      ap (λ (b : Bool). if b then record q { buffer_end = 0; current_client = none } else q) h

  free-HasPrepared :
      (es : List (List ℕ))
      → HasPrepared size q client es
      → HasPrepared size (free_write_queue q client) client []
  free-HasPrepared [] h =
      subst (λ r. HasPrepared size r client []) (sym (free_lem false (current_none q client h.0))) h
  free-HasPrepared (e ∷ es) h =
      subst (λ r. HasPrepared size r client []) (sym (free_lem true (current_some q client h.0)))
        (refl, omega arith, refl)

-- How an execution is answered: by its response, or by an error response with the handle of the write that failed and the
-- error 13, invalid attribute value length, or 7, invalid offset.
abbrev pub execution_answer : Option (ℕ × ℕ) → List ℕ
execution_answer none = 25 ∷ []
execution_answer (some (handle, result)) =
    1 ∷ 24 ∷ handle % 256 ∷ handle / 256 ∷ (if result == 13 then 13 else 7) ∷ []

end_execution_lem {ℓ} :
    {S : Type ℓ} (n : ℕ) (q : WriteQueue) (s : AttState S) (r : Values S × Option (ℕ × ℕ))
    → 5 ≤ n
    → let x : AttState S × List ℕ = end_execution n 24 q s r in
      (x.0.values ≡ r.0) × (x.1 ≡ execution_answer r.1) × (x.0.write_queue ≡ q)
unfolding error_response
end_execution_lem n q s (values, none) h = (refl, refl, refl)
end_execution_lem n q s (values, some (handle, result)) h =
    let fits : ltb n 5 ≡ false = ground arith in (refl, rw fits refl, refl)

module _ {ℓ} {S : Type ℓ} (v : Server S) (size : ℕ) (c : Link) (s : AttState S) where
  execute_writes-HasPrepared :
      (es : List (List ℕ)) (who : Caller)
      → HasPrepared size s.write_queue c.client_id es
      → execute_writes v s.write_queue.buffer_end s.write_queue
          (first_write_queue_element s.write_queue c.client_id)
          who
          s.values
        ≡ write_all v es who s.values
  execute_writes-HasPrepared [] who h =
      rw (first_none s.write_queue c.client_id h.0)
        (execute_none v s.write_queue.buffer_end s.write_queue who s.values)
  execute_writes-HasPrepared (e ∷ es) who h =
      let q = s.write_queue in
      let bound = prepared_bound q.buffer 0 q.buffer_end (e ∷ es) h.2 in
      let here : read_size q 2 ≡ length e = read_size_lem q 0 ∙ h.2.0 in
      let first : first_write_queue_element q c.client_id ≡ some (2, length e) =
        first_lem q c.client_id h.0 (omega arith) ∙ rw here refl in
      rw first (execute_writes_lem v q.buffer_end q 0 e es who s.values h.2 (omega arith))

  pub handle_execute_write_request-HasPrepared :
      (n : ℕ) (es : List (List ℕ))
      → 5 ≤ n
      → v.write_queue_size ≡ some size
      → HasPrepared size s.write_queue c.client_id es
      → let done : Values S × Option (ℕ × ℕ) = write_all v es (of_client c.security) s.values in
        let executed : AttState S × List ℕ = handle_execute_write_request v n (24 ∷ 1 ∷ []) c s in
        let canceled : AttState S × List ℕ = handle_execute_write_request v n (24 ∷ 0 ∷ []) c s in
        (executed.0.values ≡ done.0)
        × (executed.1 ≡ execution_answer done.1)
        × HasPrepared size executed.0.write_queue c.client_id []
        × (canceled.0.values ≡ s.values)
        × (canceled.1 ≡ 25 ∷ [])
        × HasPrepared size canceled.0.write_queue c.client_id []
  unfolding handle_execute_write_request
  handle_execute_write_request-HasPrepared n es room queue h =
      let there : is_none v.write_queue_size ≡ false = ap is_none queue in
      let all = execute_writes-HasPrepared es (of_client c.security) h in
      let empty_queue = free-HasPrepared size s.write_queue c.client_id es h in
      let (values, answer, rest) =
        end_execution_lem n (free_write_queue s.write_queue c.client_id) s
          (execute_writes v s.write_queue.buffer_end s.write_queue
            (first_write_queue_element s.write_queue c.client_id) (of_client c.security) s.values)
          room in
      rw there (
        values ∙ ap (λ (r : Values S × Option (ℕ × ℕ)). r.0) all,
        answer ∙ ap (λ (r : Values S × Option (ℕ × ℕ)). execution_answer r.1) all,
        subst (λ q. HasPrepared size q c.client_id []) (sym rest) empty_queue,
        refl,
        refl,
        empty_queue,
      )
