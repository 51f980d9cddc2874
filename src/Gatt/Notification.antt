-- ===== src/Gatt/Notification.antt =====
-- bluetoe/server.hpp: what is sent for an entry of the notification queue.
use bluetoe.Shared.{
  ℕ, ◌-◌, ◌≤◌, ◌≡◌, refl, sym, subst, ap, ◌∙◌, ◌⊎◌, arith, Bool, true, false, not, ◌&&◌,
  Option-cases, inl, inr, Option, none, some, List, [], ◌∷◌, ◌++◌, ◌==◌, if-elim, ltb, length,
  has_flag, map_option,
}
use bluetoe.L2cap.{two_bytes}
use bluetoe.ClientConfiguration.{flags}
use bluetoe.NotificationQueue.{
  NotificationQueue, EntryType, empty, notification, indication, dequeue_indication_or_confirmation,
}
use bluetoe.Gatt.{read_access, of_client, success, Server, AttState, Link, access_at}
use bluetoe.Gatt.Requests.{send_value, send_dequeued, server_output}
use bluetoe.Gatt.Answers.{IsBounded}

-- The client has enabled this kind of notification for the characteristic, by the given bit.
abbrev pub IsEnabled {ℓ} : {S : Type ℓ} → Server S → AttState S → ℕ → ℕ → Type 0
IsEnabled v s mask index =
    has_flag mask
      (flags s.values.configurations (v.client_characteristic_configuration_index index))
    ≡ true

-- An SDU with the opcode, the handle of the characteristic's value and the value, which fits into `n` bytes.
abbrev pub IsValueSent {ℓ} :
    {S : Type ℓ} → Server S → ℕ → Link → AttState S → ℕ → ℕ → List ℕ → Type 0
IsValueSent v n c s opcode index answer =
    let attribute : ℕ = v.attribute_table_index index in
    let r = access_at v attribute (read_access (n - 3) 0) (of_client c.security) s.values in
    (r.result ≡ success)
    × (answer ≡ opcode ∷ (two_bytes (v.handle_by_index attribute) ++ r.bytes))
    × (length answer ≤ n)

abbrev pub kind_bit : EntryType → ℕ
kind_bit empty = 0
kind_bit notification = 1
kind_bit indication = 2

abbrev pub kind_opcode : EntryType → ℕ
kind_opcode empty = 0
kind_opcode notification = 27
kind_opcode indication = 29

-- Nothing is sent, or the value of a characteristic, as it was dequeued and enabled.
abbrev pub IsOutput {ℓ} :
    {S : Type ℓ} → Server S → ℕ → Link → AttState S → AttState S → List ℕ → Type 0
IsOutput v n c s s' answer =
    (answer ≡ [])
    ⊎ ((kind : EntryType) × ((index : ℕ) × ((dequeue_indication_or_confirmation s.notifications
              ≡ some ((kind, index), s'.notifications))
            × IsEnabled v s (kind_bit kind) index
            × IsValueSent v n c s (kind_opcode kind) index answer)))

module _ {ℓ} {S : Type ℓ} (v : Server S) (bounded : (i : ℕ) → IsBounded (v.attribute_at i)) (n : ℕ)
    (c : Link) where
  send_value-IsValueSent :
      (mask opcode index : ℕ) (s : AttState S)
      → let sent : AttState S × List ℕ = send_value v mask opcode index n c s in
        (sent.0.notifications ≡ s.notifications)
        × ((sent.1 ≡ []) ⊎ (IsEnabled v s mask index × IsValueSent v n c s opcode index sent.1))
  unfolding send_value
  send_value-IsValueSent mask opcode index s =
      let attribute : ℕ = v.attribute_table_index index in
      let r = access_at v attribute (read_access (n - 3) 0) (of_client c.security) s.values in
      let enabled : Bool =
        has_flag mask
          (flags s.values.configurations (v.client_characteristic_configuration_index index)) in
      if-elim
        (λ (x : AttState S × List ℕ).
          (x.0.notifications ≡ s.notifications)
          × ((x.1 ≡ []) ⊎ (IsEnabled v s mask index × IsValueSent v n c s opcode index x.1)))
        (enabled && not (ltb n 3))
        (λ t. (
          refl,
          if-elim
              (λ (x : List ℕ).
                (x ≡ []) ⊎ (IsEnabled v s mask index × IsValueSent v n c s opcode index x))
              (r.result == success)
              (λ u.
                let fits =
                  bounded attribute (n - 3) 0 attribute (of_client c.security) s.values
                    (ground arith) in
                let room : 3 ≤ n = ground arith in
                inr (both enabled (not (ltb n 3)) t, (ground arith, refl, omega arith)))
              (λ f. inl refl),
        ))
        (λ f. (refl, inl refl))
    where
      both : (a b : Bool) → (a && b) ≡ true → a ≡ true
      both true b h = refl
      both false b h = h

  output_lem :
      (kind : EntryType) (index : ℕ) (s : AttState S) (q : NotificationQueue)
      (r : AttState S × List ℕ)
      → dequeue_indication_or_confirmation s.notifications ≡ some ((kind, index), q)
      → (r.0.notifications ≡ q)
        × ((r.1 ≡ [])
            ⊎ (IsEnabled v s (kind_bit kind) index
                × IsValueSent v n c s (kind_opcode kind) index r.1))
      → IsOutput v n c s r.0 r.1
  output_lem kind index s q r h (kept, inl e) = inl e
  output_lem kind index s q r h (kept, inr (enabled, sent)) = inr (
    kind,
    (
      index,
      (h ∙ ap (λ (q : NotificationQueue). some ((kind, index), q)) (sym kept), enabled, sent),
    ),
  )

  dequeued_lem :
      (s : AttState S) (d : (EntryType × ℕ) × NotificationQueue)
      → dequeue_indication_or_confirmation s.notifications ≡ some d
      → IsOutput v n c s (send_dequeued v n c s d).0 (send_dequeued v n c s d).1
  unfolding send_dequeued
  dequeued_lem s ((empty, index), q) h = inl refl
  dequeued_lem s ((notification, index), q) h =
      output_lem notification index s q
        (send_value v 1 27 index n c (record s { notifications = q })) h
        (send_value-IsValueSent 1 27 index (record s { notifications = q }))
  dequeued_lem s ((indication, index), q) h =
      output_lem indication index s q (send_value v 2 29 index n c (record s { notifications = q }))
        h (send_value-IsValueSent 2 29 index (record s { notifications = q }))

  -- If the accesses of the attributes keep to the size of a read, l2cap_output sends nothing or
  -- the value of the characteristic that was dequeued, of which the client has enabled this kind
  -- of notification, with its handle, in no more bytes than there are.
  pub server_output-IsOutput :
      (s s' : AttState S) (answer : List ℕ)
      → server_output v n c s ≡ some (s', answer)
      → IsOutput v n c s s' answer
  unfolding server_output
  server_output-IsOutput s s' answer h =
      elim (Option-cases (dequeue_indication_or_confirmation s.notifications)) [
        | inl e ↦
            let never : none ≡ some (s', answer) =
              sym (ap (map_option (send_dequeued v n c s)) e) ∙ h in
            absurd (none_some never)
        | inr (d, e) ↦
            let same : some (send_dequeued v n c s d) ≡ some (s', answer) =
              sym (ap (map_option (send_dequeued v n c s)) e) ∙ h in
            subst (λ (r : AttState S × List ℕ). IsOutput v n c s r.0 r.1) (ap (from (s, [])) same)
              (dequeued_lem s d e)
      ]
    where
      from : AttState S × List ℕ → Option (AttState S × List ℕ) → AttState S × List ℕ
      from d none = d
      from d (some r) = r

      none_some : {r : AttState S × List ℕ} → none ≡ some r → ⊥
      none_some h = ground arith
