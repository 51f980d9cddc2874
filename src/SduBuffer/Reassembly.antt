-- ===== src/SduBuffer/Reassembly.antt =====
-- bluetoe/link_layer/include/bluetoe/ll_l2cap_sdu_buffer.hpp: an SDU is put together from its fragments.
use bluetoe.Shared.{
  ℕ, zero, suc, ◌+◌, ◌-◌, ◌%◌, ◌^◌, ◌≤◌, ◌<◌, true, false, List, [], ◌∷◌, ◌++◌, ◌≡◌, refl, sym, ap,
  subst, ◌∙◌, arith, length, ◌==◌, leb, Bool-cases, inl, inr, if-elim, length-append, append-nil,
  append_assoc, Every,
}
use bluetoe.Shared.Memory.{bytes_at}
use bluetoe.SduBuffer.{
  SduBuffer, SduConfig, defragmented, add_to_receive_buffer, overall_overhead, ll_overhead, consume,
  take_start, is_returned, receive_loop, try_send_pdus, send_fragment, next_ll_l2cap_received,
  next_received_sdu, is_defragmented, body, pdu_type, l2cap_size,
}
use bluetoe.SduBuffer.Copy.{bytes_at_appended}

-- `got` stands in the receive buffer, and `missing` bytes are still to come.
abbrev pub IsCollecting : SduBuffer → List ℕ → ℕ → Type 0
IsCollecting b got missing =
    (b.receive_buffer_used ≡ length got)
    × (bytes_at b.receive_buffer 0 (length got) ≡ got)
    × (b.receive_size ≡ missing)

add_to_receive_buffer-IsCollecting :
    (b : SduBuffer) (got bytes : List ℕ) (missing : ℕ)
    → IsCollecting b got missing
    → length bytes ≤ missing
    → IsCollecting (add_to_receive_buffer b bytes) (got ++ bytes) (missing - length bytes)
unfolding add_to_receive_buffer
add_to_receive_buffer-IsCollecting b got bytes missing (used, there, size) fits = (
  omega (arith, used, size, length-append got bytes),
  rw (length-append got bytes) (
      rw used (bytes_at_appended b.receive_buffer (length got) bytes ∙ ap (λ g. g ++ bytes) there)),
  omega (arith, used, size),
)

module _ (c : SduConfig) where
  -- A continuation that carries bytes.
  abbrev pub IsContinuation : List ℕ → Type 0
  IsContinuation pdu = (pdu_type pdu ≡ 1) × (0 < length (body c pdu))

  abbrev pub bodies : List (List ℕ) → List ℕ
  bodies [] = []
  bodies (pdu ∷ pdus) = body c pdu ++ bodies pdus

  consume_continuation :
      (b : SduBuffer) (pdu : List ℕ)
      → pdu_type pdu ≡ 1
      → (consume c b pdu ≡ add_to_receive_buffer b (body c pdu)) × (is_returned c pdu ≡ false)
  unfolding consume is_returned
  consume_continuation b pdu h = rw h (refl, refl)

  receive_loop_consumes :
      (b : SduBuffer) (pdu : List ℕ) (queue : List (List ℕ))
      → is_returned c pdu ≡ false
      → is_defragmented (consume c b pdu) ≡ false
      → receive_loop c b (pdu ∷ queue) ≡ receive_loop c (consume c b pdu) queue
  unfolding receive_loop
  receive_loop_consumes b pdu queue r d = rw r (rw d refl)

  receive_loop_finishes :
      (b : SduBuffer) (pdu : List ℕ) (queue : List (List ℕ))
      → is_returned c pdu ≡ false
      → is_defragmented (consume c b pdu) ≡ true
      → receive_loop c b (pdu ∷ queue)
        ≡ (consume c b pdu, queue, defragmented ((consume c b pdu).receive_buffer_used))
  unfolding receive_loop
  receive_loop_finishes b pdu queue r d = rw r (rw d refl)

  defragmented_now :
      (b : SduBuffer) (got : List ℕ) (missing : ℕ)
      → IsCollecting b got missing
      → 0 < length got
      → is_defragmented b ≡ (missing == 0)
  defragmented_now b got missing (used, there, size) h = rw used (rw size (ground arith))

  consume-IsCollecting :
      (b : SduBuffer) (got pdu : List ℕ) (more : ℕ)
      → IsContinuation pdu
      → IsCollecting b got (length (body c pdu) + more)
      → IsCollecting (consume c b pdu) (got ++ body c pdu) more
  consume-IsCollecting b got pdu more k h =
      let left : length (body c pdu) + more - length (body c pdu) ≡ more = omega arith in
      subst (λ m. IsCollecting (consume c b pdu) (got ++ body c pdu) m) left
        (subst
          (λ b'.
            IsCollecting b' (got ++ body c pdu) (length (body c pdu) + more - length (body c pdu)))
          (sym ((consume_continuation b pdu k.0).0))
          (add_to_receive_buffer-IsCollecting b got (body c pdu) (length (body c pdu) + more) h
            (omega arith)))

  -- With the missing bytes in the continuations that come next, the loop ends with the last of them.
  receive_loop_collects :
      (b : SduBuffer) (got : List ℕ) (pdu : List ℕ) (pdus rest : List (List ℕ))
      → Every IsContinuation (pdu ∷ pdus)
      → IsCollecting b got (length (bodies (pdu ∷ pdus)))
      → (b' : SduBuffer) × (receive_loop c b ((pdu ∷ pdus) ++ rest)
          ≡ (b', rest, defragmented (length (got ++ bodies (pdu ∷ pdus)))))
        × IsCollecting b' (got ++ bodies (pdu ∷ pdus)) 0
  receive_loop_collects b got pdu [] rest (k, _) h =
      let b' = consume c b pdu in
      let all : length (body c pdu ++ []) ≡ length (body c pdu) + 0 =
        omega (arith, length-append (body c pdu) []) in
      let h' : IsCollecting b' (got ++ body c pdu) 0 =
        consume-IsCollecting b got pdu 0 k (subst (IsCollecting b got) all h) in
      let some_bytes : 0 < length (got ++ body c pdu) =
        omega (arith, k.1, length-append got (body c pdu)) in
      let whole : is_defragmented b' ≡ true =
        defragmented_now b' (got ++ body c pdu) 0 h' some_bytes in
      rw (append-nil (body c pdu)) (
        b',
        receive_loop_finishes b pdu rest (consume_continuation b pdu k.0).1 whole
            ∙ ap (λ n. (b', rest, defragmented n)) h'.0,
        h',
      )
  receive_loop_collects b got pdu (next ∷ pdus) rest (k, ks) h =
      let b' = consume c b pdu in
      let h' : IsCollecting b' (got ++ body c pdu) (length (bodies (next ∷ pdus))) =
        consume-IsCollecting b got pdu (length (bodies (next ∷ pdus))) k
          (subst (IsCollecting b got) (length-append (body c pdu) (bodies (next ∷ pdus))) h) in
      let some_bytes : 0 < length (got ++ body c pdu) =
        omega (arith, k.1, length-append got (body c pdu)) in
      let to_come : (length (bodies (next ∷ pdus)) == 0) ≡ false =
        ground (arith, length-append (body c next) (bodies pdus), ks.0.1) in
      let (b'', run, h'') = receive_loop_collects b' (got ++ body c pdu) next pdus rest ks h' in
      let whole : (got ++ body c pdu) ++ bodies (next ∷ pdus) ≡ got ++ bodies (pdu ∷ next ∷ pdus) =
        append_assoc got (body c pdu) (bodies (next ∷ pdus)) in
      (
        b'',
        receive_loop_consumes b pdu ((next ∷ pdus) ++ rest) (consume_continuation b pdu k.0).1 (
              defragmented_now b' (got ++ body c pdu) (length (bodies (next ∷ pdus))) h' some_bytes
              ∙ to_come)
            ∙ run
            ∙ ap (λ g. (b'', rest, defragmented (length g))) whole,
        subst (λ g. IsCollecting b'' g 0) whole h'',
      )

  -- A start fragment of an SDU that goes on in further fragments: its body begins with the L2CAP header.
  abbrev pub IsStart : List ℕ → ℕ → Type 0
  IsStart pdu more =
      (pdu_type pdu ≡ 2)
      × (4 ≤ length (body c pdu))
      × (length pdu ≡ ll_overhead c + length (body c pdu))
      × (l2cap_size (body c pdu) + 4 ≡ length (body c pdu) + more)
      × (l2cap_size (body c pdu) ≤ c.mtu_size)

  consume_start :
      (b : SduBuffer) (pdu : List ℕ) (more : ℕ)
      → IsStart pdu more
      → 0 < more
      → (consume c b pdu
          ≡ add_to_receive_buffer
              (record b { receive_size = (l2cap_size (body c pdu) + overall_overhead c) % 2 ^ 16 })
              pdu)
        × (is_returned c pdu ≡ false)
  unfolding consume is_returned take_start
  consume_start b pdu more (kind, long, layout, total, fits) h =
      let enough : leb 4 (length (body c pdu)) ≡ true = ground arith in
      let allowed : leb (l2cap_size (body c pdu)) c.mtu_size ≡ true = ground arith in
      let not_whole : (l2cap_size (body c pdu) + 4 == length (body c pdu)) ≡ false = ground arith in
      rw kind (rw enough (rw allowed (rw not_whole (refl, refl))))

  start-IsCollecting :
      (b : SduBuffer) (pdu : List ℕ) (more : ℕ)
      → IsStart pdu more
      → 0 < more
      → c.mtu_size + overall_overhead c < 2 ^ 16
      → b.receive_buffer_used ≡ 0
      → IsCollecting (consume c b pdu) pdu more
  start-IsCollecting b pdu more s h small empty =
      let size : ℕ = (l2cap_size (body c pdu) + overall_overhead c) % 2 ^ 16 in
      let sized : size ≡ length pdu + more = omega (arith, s.2, s.3, s.4) in
      let left : size - length pdu ≡ more = omega (arith, sized) in
      subst (λ b'. IsCollecting b' pdu more) (sym ((consume_start b pdu more s h).0))
        (subst (IsCollecting (add_to_receive_buffer (record b { receive_size = size }) pdu) pdu)
          left
          (add_to_receive_buffer-IsCollecting (record b { receive_size = size }) [] pdu size
            (empty, refl, refl) (omega (arith, sized))))

  next_received_sdu_lem :
      (b : SduBuffer) (queue : List (List ℕ))
      → b.receive_buffer_used ≡ 0
      → next_received_sdu c b queue ≡ receive_loop c b queue
  unfolding next_received_sdu
  next_received_sdu_lem b queue empty = rw empty refl

  next_received_sdu-defragmented :
      (b : SduBuffer) (start pdu : List ℕ) (pdus rest : List (List ℕ))
      → c.mtu_size + overall_overhead c < 2 ^ 16
      → b.receive_buffer_used ≡ 0
      → IsStart start (length (bodies (pdu ∷ pdus)))
      → Every IsContinuation (pdu ∷ pdus)
      → (b' : SduBuffer) × (next_received_sdu c b (start ∷ (pdu ∷ pdus) ++ rest)
          ≡ (b', rest, defragmented (length (start ++ bodies (pdu ∷ pdus)))))
        × (bytes_at b'.receive_buffer 0 (length (start ++ bodies (pdu ∷ pdus)))
            ≡ start ++ bodies (pdu ∷ pdus))
  next_received_sdu-defragmented b start pdu pdus rest small empty s ks =
      let more = length (bodies (pdu ∷ pdus)) in
      let waiting : 0 < more = omega (arith, length-append (body c pdu) (bodies pdus), ks.0.1) in
      let h = start-IsCollecting b start more s waiting small empty in
      let to_come : (more == 0) ≡ false = ground (arith, waiting) in
      let some_bytes : 0 < length start = omega (arith, s.1, s.2) in
      let (b', run, h') = receive_loop_collects (consume c b start) start pdu pdus rest ks h in
      (
        b',
        next_received_sdu_lem b (start ∷ (pdu ∷ pdus) ++ rest) empty
            ∙ receive_loop_consumes b start ((pdu ∷ pdus) ++ rest)
                (consume_start b start more s waiting).1
                (defragmented_now (consume c b start) start more h some_bytes ∙ to_come)
            ∙ run,
        h'.1,
      )

  send_fragment_keeps :
      (max_tx_size : ℕ) (b : SduBuffer)
      → (send_fragment c max_tx_size b).0.receive_buffer_used ≡ b.receive_buffer_used
  unfolding send_fragment
  send_fragment_keeps max_tx_size b =
      if-elim (λ (r : SduBuffer × List ℕ). r.0.receive_buffer_used ≡ b.receive_buffer_used)
        (b.transmit_buffer_used == 0) (λ e. refl) (λ e. refl)

  -- Sending leaves the receive buffer as it is.
  try_send_pdus_keeps :
      (max_tx_size : ℕ) (b : SduBuffer) (room : ℕ)
      → (try_send_pdus c max_tx_size b room).0.receive_buffer_used ≡ b.receive_buffer_used
  unfolding try_send_pdus
  try_send_pdus_keeps max_tx_size b zero = elim (Bool-cases (b.transmit_size == 0)) [
    | inl e ↦ rw e refl
    | inr e ↦ rw e refl
  ]
  try_send_pdus_keeps max_tx_size b (suc room) =
      if-elim
        (λ (r : SduBuffer × List (List ℕ) × ℕ). r.0.receive_buffer_used ≡ b.receive_buffer_used)
        (b.transmit_size == 0) (λ e. refl)
        (λ e.
          try_send_pdus_keeps max_tx_size (send_fragment c max_tx_size b).0 room
          ∙ send_fragment_keeps max_tx_size b)

  -- If no SDU is being received, an MTU with its overhead fits 16 bits and a start fragment with
  -- the L2CAP header is followed by non-empty continuations that carry exactly the bytes that are
  -- missing, one call of next_ll_l2cap_received takes these PDUs from the queue, leaves the PDUs
  -- behind them there and returns the start fragment followed by the bodies of the continuations.
  pub next_ll_l2cap_received-defragmented :
      (max_tx_size : ℕ) (b : SduBuffer) (room : ℕ) (start pdu : List ℕ) (pdus rest : List (List ℕ))
      → c.mtu_size + overall_overhead c < 2 ^ 16
      → b.receive_buffer_used ≡ 0
      → IsStart start (length (bodies (pdu ∷ pdus)))
      → Every IsContinuation (pdu ∷ pdus)
      → (b' : SduBuffer) × ((next_ll_l2cap_received c max_tx_size b room
            (start ∷ (pdu ∷ pdus) ++ rest)).0
          ≡ (b', rest, defragmented (length (start ++ bodies (pdu ∷ pdus)))))
        × (bytes_at b'.receive_buffer 0 (length (start ++ bodies (pdu ∷ pdus)))
            ≡ start ++ bodies (pdu ∷ pdus))
  unfolding next_ll_l2cap_received
  next_ll_l2cap_received-defragmented max_tx_size b room start pdu pdus rest small empty s ks =
      next_received_sdu-defragmented (try_send_pdus c max_tx_size b room).0 start pdu pdus rest
        small (try_send_pdus_keeps max_tx_size b room ∙ empty) s ks
