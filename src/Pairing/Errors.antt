-- ===== src/Pairing/Errors.antt =====
-- bluetoe/sm/include/bluetoe/security_manager.hpp: failures, and keys that are held for more than they are.
use bluetoe.Shared.{
  ℕ, ◌<◌, ◌≡◌, ◌≢◌, ◌↔◌, refl, ap, sym, ◌∙◌, arith, Bool, true, false, Bool-cases, inl, inr, Option,
  none, some, List, [], ◌∷◌, ◌++◌, length, get_or, drop, replicate,
}
use bluetoe.Address.{DeviceAddress, equal_bytes}
use bluetoe.Address.Same.{equal_bytes_refl, equal_bytes_sound}
use bluetoe.IoCapabilities.{PairingAlgorithm, just_works, numeric_comparison}
use bluetoe.Pairing.Data.{
  idle, pairing_completed, user_response_success, user_response_wait, error_reset, yes_no_response,
  lesc_pairing_confirm_send, lesc_pairing_random_exchanged, PairingData, SecurityFunctions, Device,
  same_state, find_key, bonded_find_key, status_of, pairing_random_exchanged,
  local_device_pairing_status, authenticated_key, no_key,
}
use bluetoe.Pairing.Requests.{
  error_response, guard_request, handle_pairing_request, start_legacy, start_lesc, pairing_failed,
  create_pairing_response,
}
use bluetoe.Pairing.Legacy.{
  legacy_handle_pairing_confirm, legacy_handle_pairing_random, answer_confirm, complete_legacy,
  arm_key_distribution, legacy_create_temporary_key,
}
use bluetoe.Pairing.Lesc.{
  lesc_handle_pairing_public_key, lesc_handle_pairing_random, lesc_handle_pairing_dhkey_check,
  answer_random, exchange_public_keys, complete_lesc, verify_dhkey_check, store_lesc_key,
  request_yes_no, lesc_security_manager_output_available, lesc_l2cap_output, lesc_keys,
  expected_check,
}
use bluetoe.Pairing.Manager.{
  l2cap_input, l2cap_input-elim, l2cap_output, distribute_keys, bytes_of, PairingEvent,
  input_received, output_wanted, user_answered, pairing_step,
}

-- An answer that reports a failure comes with a state without a key, and no other answer to an input gives up.
abbrev pub IsFailure : PairingData × List ℕ → Type 0
IsFailure r = (get_or r.1 0 0 ≡ pairing_failed) ↔ (r.0.state ≡ idle)

module _ (f : SecurityFunctions) (v : Device) (input : List ℕ) (d : PairingData) where
  request-IsFailure : IsFailure (handle_pairing_request f v input d)
  unfolding handle_pairing_request guard_request start_legacy start_lesc error_response
      create_pairing_response
  request-IsFailure = grind (arith)

  confirm-IsFailure : IsFailure (legacy_handle_pairing_confirm f v input d)
  unfolding legacy_handle_pairing_confirm answer_confirm legacy_create_temporary_key error_response
  confirm-IsFailure = grind (arith)

  legacy_random-IsFailure : IsFailure (legacy_handle_pairing_random f v input d)
  unfolding legacy_handle_pairing_random complete_legacy arm_key_distribution error_response
  legacy_random-IsFailure = grind (arith)

  public_key-IsFailure : IsFailure (lesc_handle_pairing_public_key f v input d)
  unfolding lesc_handle_pairing_public_key exchange_public_keys error_response
  public_key-IsFailure = grind (arith)

  lesc_random-IsFailure : IsFailure (lesc_handle_pairing_random f v input d)
  unfolding lesc_handle_pairing_random answer_random request_yes_no error_response same_state
  lesc_random-IsFailure = grind (arith)

  dhkey_check-IsFailure : IsFailure (lesc_handle_pairing_dhkey_check f v input d)
  unfolding lesc_handle_pairing_dhkey_check verify_dhkey_check complete_lesc store_lesc_key
      error_response same_state
  dhkey_check-IsFailure = grind (arith)

  error-IsFailure : (code : ℕ) → IsFailure (error_response code d)
  unfolding error_response
  error-IsFailure code = (λ h. refl, λ h. refl)

  l2cap_input-IsFailure : IsFailure (l2cap_input f v input d)
  l2cap_input-IsFailure =
      l2cap_input-elim f v IsFailure input d error-IsFailure request-IsFailure confirm-IsFailure
        legacy_random-IsFailure lesc_random-IsFailure public_key-IsFailure dhkey_check-IsFailure

no_key_when_idle :
    (d : PairingData) (ediv rand : ℕ)
    → d.state ≡ idle
    → (find_key d ediv rand ≡ none) × (local_device_pairing_status d ≡ no_key)
unfolding find_key local_device_pairing_status same_state
no_key_when_idle d ediv rand h = ground arith

-- The key that a data base has for a peer.
abbrev pub bond_of :
    Option (ℕ → ℕ → DeviceAddress → Option (List ℕ)) → ℕ → ℕ → DeviceAddress → Option (List ℕ)
bond_of none ediv rand peer = none
bond_of (some find) ediv rand peer = find ediv rand peer

only_bond :
    (bonds : Option (ℕ → ℕ → DeviceAddress → Option (List ℕ))) (d : PairingData) (ediv rand : ℕ)
    → find_key d ediv rand ≡ none
    → bonded_find_key bonds d ediv rand ≡ bond_of bonds ediv rand d.remote_address
unfolding bonded_find_key
only_bond none d ediv rand h = rw (bonded_find_key, h) refl
only_bond (some find) d ediv rand h = rw (bonded_find_key, h) refl

-- After an input that is answered with a pairing failure, whatever the input, the pairing is idle,
-- the key found for an encryption request is the one that a data base of bonds has for the peer,
-- or none without such a data base, and the connection has the status of no key.
pub l2cap_input_failure :
    (f : SecurityFunctions) (v : Device) (input : List ℕ) (d : PairingData) (ediv rand : ℕ)
    (bonds : Option (ℕ → ℕ → DeviceAddress → Option (List ℕ)))
    → get_or (l2cap_input f v input d).1 0 0 ≡ pairing_failed
    → let failed : PairingData = (l2cap_input f v input d).0 in
      (failed.state ≡ idle)
      × (bonded_find_key bonds failed ediv rand ≡ bond_of bonds ediv rand failed.remote_address)
      × (local_device_pairing_status failed ≡ no_key)
l2cap_input_failure f v input d ediv rand bonds h =
    let given_up = (l2cap_input-IsFailure f v input d).0 h in
    let gone = no_key_when_idle (l2cap_input f v input d).0 ediv rand given_up in
    (given_up, only_bond bonds (l2cap_input f v input d).0 ediv rand gone.0, gone.1)

-- Several events, one after the other, if no `assert` fails.
abbrev pub run_events : PairingData → List PairingEvent → Option PairingData
run_events d [] = some d
run_events d (e ∷ es) = elim (pairing_step d e) [
  | none ↦ none
  | some (d', answer) ↦ run_events d' es
]

-- The peer sends check values, then the user agrees, then the output is asked for.
abbrev pub checks_then_yes : SecurityFunctions → Device → Bool → List (List ℕ) → List PairingEvent
checks_then_yes f v is_encrypted [] = user_answered true ∷ output_wanted f v is_encrypted ∷ []
checks_then_yes f v is_encrypted (check ∷ checks) =
    input_received f v (13 ∷ check) ∷ checks_then_yes f v is_encrypted checks

abbrev pub AreChecks : List (List ℕ) → Type 0
AreChecks [] = 0 < 1
AreChecks (check ∷ checks) = (length check ≡ 16) × AreChecks checks

one_event :
    (d : PairingData) (e : PairingEvent) (es : List PairingEvent) (r : PairingData × List ℕ)
    → pairing_step d e ≡ some r
    → run_events d (e ∷ es) ≡ run_events r.0 es
one_event d e es r h =
    ap
      (λ (o : Option (PairingData × List ℕ)). elim o as (λ o. Option PairingData) [
        | none ↦ none
        | some (d', answer) ↦ run_events d' es
      ])
      h

check_refused :
    (f : SecurityFunctions) (v : Device) (d : PairingData) (check : List ℕ)
    → length check ≡ 16
    → check ≢ expected_check f v d
    → d.state ≡ lesc_pairing_random_exchanged
    → pairing_step d (input_received f v (13 ∷ check)) ≡ some (error_reset d, 5 ∷ 11 ∷ [])
unfolding pairing_step l2cap_input lesc_handle_pairing_dhkey_check verify_dhkey_check error_response
    same_state
check_refused f v d check l wrong s =
    let differs : equal_bytes (expected_check f v d) check ≡ false =
      elim (Bool-cases (equal_bytes (expected_check f v d) check)) [
        | inl t ↦ absurd (wrong (sym (equal_bytes_sound _ _ t)))
        | inr e ↦ e
      ] in
    ground arith

module _ (f : SecurityFunctions) (v : Device) (d : PairingData) where
  check_ignored :
      (check : List ℕ)
      → length check ≡ 16
      → d.state ≡ user_response_wait
      → pairing_step d (input_received f v (13 ∷ check)) ≡ some (d, [])
  unfolding pairing_step l2cap_input lesc_handle_pairing_dhkey_check same_state
  check_ignored check l s = ground arith

  agreed :
      d.state ≡ user_response_wait
      → pairing_step d (user_answered true) ≡ some (record d { state = user_response_success }, [])
  unfolding pairing_step yes_no_response same_state
  agreed s = ground arith

  completed_by_output :
      (is_encrypted : Bool)
      → pairing_step (record d { state = user_response_success }) (output_wanted f v is_encrypted)
        ≡ some (complete_lesc f v (record d { state = user_response_success }))
  unfolding pairing_step l2cap_output lesc_security_manager_output_available lesc_l2cap_output
      same_state
  completed_by_output is_encrypted = refl

  unchecked_run :
      (is_encrypted : Bool) (checks : List (List ℕ))
      → d.state ≡ user_response_wait
      → AreChecks checks
      → run_events d (checks_then_yes f v is_encrypted checks)
        ≡ some (complete_lesc f v (record d { state = user_response_success })).0
  unchecked_run is_encrypted [] s c =
      let agrees : PairingData = record d { state = user_response_success } in
      one_event d (user_answered true) (output_wanted f v is_encrypted ∷ []) (agrees, []) (agreed s)
      ∙ one_event agrees (output_wanted f v is_encrypted) [] (complete_lesc f v agrees)
          (completed_by_output is_encrypted)
  unchecked_run is_encrypted (check ∷ checks) s (l, c) =
      one_event d (input_received f v (13 ∷ check)) (checks_then_yes f v is_encrypted checks)
        (d, []) (check_ignored check l s)
      ∙ unchecked_run is_encrypted checks s c

  -- Of a check value that is not the expected one, an exchange that waits for it is given up.
  -- While the user is waited for, though, after any check values of 16 bytes, such a one among
  -- them, the agreement of the user and the next output complete the pairing, and the derived key
  -- is found.
  pub agreed_without_check :
      (is_encrypted : Bool) (check : List ℕ) (checks : List (List ℕ))
      → d.state ≡ user_response_wait
      → length check ≡ 16
      → AreChecks checks
      → check ≢ expected_check f v d
      → (run_events
            (record d { state = lesc_pairing_random_exchanged })
            (input_received f v (13 ∷ check) ∷ [])
          ≡ some (record d { state = idle }))
        × (done : PairingData) × (run_events d (checks_then_yes f v is_encrypted (check ∷ checks))
            ≡ some done)
        × (done.state ≡ pairing_completed)
        × (find_key done 0 0 ≡ some (lesc_keys f v d).1)
  unfolding complete_lesc store_lesc_key find_key same_state
  agreed_without_check is_encrypted check checks s l c wrong =
      let waited_for_check : PairingData = record d { state = lesc_pairing_random_exchanged } in
      (
        one_event waited_for_check (input_received f v (13 ∷ check)) []
            (error_reset waited_for_check, 5 ∷ 11 ∷ [])
            (check_refused f v waited_for_check check l wrong refl),
        (complete_lesc f v (record d { state = user_response_success })).0,
        unchecked_run is_encrypted (check ∷ checks) s (l, c),
        grind (arith),
        grind (arith),
      )

-- A peer's random value when there are no numbers to compare.
random_exchanged :
    (f : SecurityFunctions) (v : Device) (random : List ℕ) (d : PairingData)
    → d.state ≡ lesc_pairing_confirm_send
    → d.lesc_algorithm ≢ numeric_comparison
    → length random ≡ 17
    → (lesc_handle_pairing_random f v random d).0 ≡ pairing_random_exchanged d (drop 1 random)
unfolding lesc_handle_pairing_random answer_random error_response same_state
random_exchanged f v random d h n l = grind (arith)

accepted_check :
    (f : SecurityFunctions) (v : Device) (check : List ℕ) (d : PairingData)
    → d.state ≡ lesc_pairing_random_exchanged
    → length check ≡ 17
    → expected_check f v d ≡ drop 1 check
    → (lesc_handle_pairing_dhkey_check f v check d).0 ≡ (complete_lesc f v d).0
unfolding lesc_handle_pairing_dhkey_check verify_dhkey_check error_response same_state
accepted_check f v check d h l e =
    let same : equal_bytes (expected_check f v d) (drop 1 check) ≡ true =
      rw e (equal_bytes_refl (drop 1 check)) in
    ground arith

status_after_lesc :
    (f : SecurityFunctions) (v : Device) (d : PairingData)
    → local_device_pairing_status (complete_lesc f v d).0 ≡ status_of d.lesc_algorithm
unfolding local_device_pairing_status complete_lesc store_lesc_key same_state
status_after_lesc f v d = grind (arith)

status_of-authenticated_key :
    (a : PairingAlgorithm) → a ≢ just_works → status_of a ≡ authenticated_key
status_of-authenticated_key a n = grind (arith)

-- The two inputs that end the pairing: the random value, then the check value.
abbrev pub after_random : SecurityFunctions → Device → List ℕ → PairingData → PairingData
after_random f v random d = (lesc_handle_pairing_random f v random d).0

-- If the algorithm of LE secure connections is neither just works nor numeric comparison, a random
-- value of the right length, then a check value of the right length that fits, give the status of
-- an authenticated key, whatever out of band data or passkey the device has.
pub authenticated_by_claim :
    (f : SecurityFunctions) (v w : Device) (random check : List ℕ) (d : PairingData)
    → d.state ≡ lesc_pairing_confirm_send
    → d.lesc_algorithm ≢ just_works
    → d.lesc_algorithm ≢ numeric_comparison
    → length random ≡ 17
    → length check ≡ 17
    → expected_check f w (after_random f v random d) ≡ drop 1 check
    → local_device_pairing_status
        (lesc_handle_pairing_dhkey_check f w check (after_random f v random d)).0
      ≡ authenticated_key
authenticated_by_claim f v w random check d h nj nn lr lc e =
    let exchanged = random_exchanged f v random d h nn lr in
    ap local_device_pairing_status
      (accepted_check f w check (after_random f v random d) (ap (λ r. r.state) exchanged) lc e)
    ∙ status_after_lesc f w (after_random f v random d)
    ∙ ap (λ r. status_of r.lesc_algorithm) exchanged
    ∙ status_of-authenticated_key d.lesc_algorithm nj

-- If both parts of a bond are pending, an unencrypted connection sends nothing and keeps them, and
-- an encrypted one sends the key, then its identification, then nothing, and the key is wiped.
pub distribute_keys_once :
    (d : PairingData)
    → d.pending_encryption_information ≡ true
    → d.pending_central_identification ≡ true
    → let first : PairingData × List ℕ = distribute_keys true d in
      let second : PairingData × List ℕ = distribute_keys true first.0 in
      let third : PairingData × List ℕ = distribute_keys true second.0 in
      (distribute_keys false d ≡ (d, []))
      × (first.1 ≡ 6 ∷ d.pending_key.longterm_key)
      × (second.1 ≡ 7 ∷ (bytes_of 2 d.pending_key.ediv ++ bytes_of 8 d.pending_key.rand))
      × (third.1 ≡ [])
      × (third.0.pending_key.longterm_key ≡ replicate 16 0)
unfolding distribute_keys
distribute_keys_once d h g = ground arith
