-- ===== src/SduBuffer/Fragments.antt =====
-- bluetoe/link_layer/include/bluetoe/ll_l2cap_sdu_buffer.hpp: an SDU is sent in fragments.
use bluetoe.Shared.{
  ℕ, zero, suc, ◌+◌, ◌-◌, ◌*◌, ◌/◌, ◌%◌, ◌^◌, ◌≤◌, ◌<◌, false, List, [], ◌∷◌, ◌++◌, ◌≡◌, refl, sym,
  ap, ap₂, ◌∙◌, arith, length, get_or, drop, replicate, min, ◌==◌, Bool-cases, inl, inr,
  length-append, length-replicate, Every,
}
use bluetoe.Shared.Memory.{Memory, bytes_at, read_16bit}
use bluetoe.SduBuffer.{
  SduBuffer, SduConfig, overall_overhead, ll_overhead, body, pdu_type, sent, first_fragment,
  next_fragment, send_fragment, try_send_pdus, commit_l2cap_transmit_buffer,
}
use bluetoe.SduBuffer.Copy.{bytes_at-append}
use bluetoe.SduBuffer.Reassembly.{bodies}

length-bytes_at : (mem : Memory) (p n : ℕ) → length (bytes_at mem p n) ≡ n
length-bytes_at mem p zero = refl
length-bytes_at mem p (suc n) = ap suc (length-bytes_at mem (p + 1) n)

drop-bytes_at :
    (mem : Memory) (p q k n : ℕ)
    → k ≤ n
    → q ≡ p + k
    → drop k (bytes_at mem p n) ≡ bytes_at mem q (n - k)
drop-bytes_at mem p q zero n h e = ap₂ (bytes_at mem) (omega arith) (omega arith)
drop-bytes_at mem p q (suc k) zero h e = absurd (omega arith)
drop-bytes_at mem p q (suc k) (suc n) h e =
    let less : suc n - suc k ≡ n - k = omega arith in
    rw less (drop-bytes_at mem (p + 1) q k n (omega arith) (omega arith))

drop-replicate : (k : ℕ) (xs : List ℕ) → drop k (replicate k 0 ++ xs) ≡ xs
drop-replicate zero xs = refl
drop-replicate (suc k) xs = drop-replicate k xs

module _ (c : SduConfig) where
  drop_header : (x y : ℕ) (xs : List ℕ) → body c (x ∷ y ∷ xs) ≡ drop c.layout_overhead xs
  drop_header x y xs =
      let two : 2 + c.layout_overhead ≡ suc (suc c.layout_overhead) = omega arith in rw two refl

  -- A PDU of at most `max_tx_size` bytes, with the right length in its header.
  abbrev pub IsFragment : ℕ → ℕ → List ℕ → Type 0
  IsFragment max_tx_size kind pdu =
      (pdu_type pdu ≡ kind)
      × (0 < length (body c pdu))
      × (length pdu ≤ max_tx_size)
      × (get_or pdu 1 0 ≡ length (body c pdu))

  next_fragment-IsFragment :
      (max_tx_size : ℕ) (b : SduBuffer) (copy_size : ℕ)
      → 0 < copy_size
      → copy_size < 256
      → copy_size + ll_overhead c ≤ max_tx_size
      → (body c (next_fragment c b copy_size)
          ≡ bytes_at b.transmit_buffer b.transmit_buffer_used copy_size)
        × IsFragment max_tx_size 1 (next_fragment c b copy_size)
  unfolding next_fragment
  next_fragment-IsFragment max_tx_size b copy_size h small fits =
      let bytes = bytes_at b.transmit_buffer b.transmit_buffer_used copy_size in
      let zeros : List ℕ = replicate c.layout_overhead 0 in
      let header : ℕ = 1 + copy_size * 256 in
      let carried : body c (header % 256 ∷ header / 256 % 256 ∷ zeros ++ bytes) ≡ bytes =
        drop_header (header % 256) (header / 256 % 256) (zeros ++ bytes)
        ∙ drop-replicate c.layout_overhead bytes in
      let n = length-bytes_at b.transmit_buffer b.transmit_buffer_used copy_size in
      let zeros_length : length zeros ≡ c.layout_overhead = length-replicate c.layout_overhead 0 in
      let tail_length = length-append zeros bytes in
      (
        carried,
        (
          omega arith,
          rw carried (omega (arith, n, h)),
          omega (arith, n, zeros_length, tail_length, fits),
          rw carried (omega (arith, n, small)),
        ),
      )

  first_fragment-IsFragment :
      (max_tx_size : ℕ) (b : SduBuffer) (copy_size : ℕ)
      → ll_overhead c < copy_size
      → copy_size < ll_overhead c + 256
      → copy_size ≤ max_tx_size
      → (body c (first_fragment c b copy_size)
          ≡ bytes_at b.transmit_buffer (ll_overhead c) (copy_size - ll_overhead c))
        × IsFragment max_tx_size 2 (first_fragment c b copy_size)
  unfolding first_fragment
  first_fragment-IsFragment max_tx_size b copy_size h small fits =
      let bytes = bytes_at b.transmit_buffer 2 (copy_size - 2) in
      let header : ℕ = 2 + (copy_size - ll_overhead c) * 256 in
      let left : copy_size - 2 - c.layout_overhead ≡ copy_size - ll_overhead c = omega arith in
      let carried : body c (header % 256 ∷ header / 256 % 256 ∷ bytes)
          ≡ bytes_at b.transmit_buffer (ll_overhead c) (copy_size - ll_overhead c) =
        drop_header (header % 256) (header / 256 % 256) bytes
        ∙ drop-bytes_at b.transmit_buffer 2 (ll_overhead c) c.layout_overhead (copy_size - 2)
            (omega arith) refl
        ∙ ap (bytes_at b.transmit_buffer (ll_overhead c)) left in
      let n = length-bytes_at b.transmit_buffer (ll_overhead c) (copy_size - ll_overhead c) in
      let all = length-bytes_at b.transmit_buffer 2 (copy_size - 2) in
      (
        carried,
        (
          omega arith,
          rw carried (omega (arith, n, h)),
          omega (arith, all, fits),
          rw carried (omega (arith, n, small)),
        ),
      )

  send_first :
      (max_tx_size : ℕ) (b : SduBuffer)
      → b.transmit_buffer_used ≡ 0
      → send_fragment c max_tx_size b ≡ (
        sent c b (min b.transmit_size max_tx_size),
        first_fragment c b (min b.transmit_size max_tx_size),
      )
  unfolding send_fragment
  send_first max_tx_size b h = rw h refl

  send_next :
      (max_tx_size : ℕ) (b : SduBuffer)
      → 0 < b.transmit_buffer_used
      → ll_overhead c < max_tx_size
      → send_fragment c max_tx_size b ≡ (
        sent c b (min b.transmit_size (max_tx_size - ll_overhead c)),
        next_fragment c b (min b.transmit_size (max_tx_size - ll_overhead c)),
      )
  unfolding send_fragment
  send_next max_tx_size b h larger =
      let used : (b.transmit_buffer_used == 0) ≡ false = ground arith in
      let size : min (min (b.transmit_size + ll_overhead c) max_tx_size - ll_overhead c)
            b.transmit_size
          ≡ min b.transmit_size (max_tx_size - ll_overhead c) =
        omega arith in
      rw used (rw size refl)

  try_done :
      (max_tx_size : ℕ) (b : SduBuffer) (room : ℕ)
      → b.transmit_size ≡ 0
      → try_send_pdus c max_tx_size b room ≡ (record b { transmit_buffer_used = 0 }, [], room)
  unfolding try_send_pdus
  try_done max_tx_size b zero h = rw h refl
  try_done max_tx_size b (suc room) h = rw h refl

  try_more :
      (max_tx_size : ℕ) (b b' b'' : SduBuffer) (room left : ℕ) (pdu : List ℕ) (pdus : List (List ℕ))
      → 0 < b.transmit_size
      → send_fragment c max_tx_size b ≡ (b', pdu)
      → try_send_pdus c max_tx_size b' room ≡ (b'', pdus, left)
      → try_send_pdus c max_tx_size b (suc room) ≡ (b'', pdu ∷ pdus, left)
  unfolding try_send_pdus
  try_more max_tx_size b b' b'' room left pdu pdus h one rest =
      let some_left : (b.transmit_size == 0) ≡ false = ground arith in
      rw some_left (rw one (rw rest refl))

  -- All has been sent, in fragments that carry `bytes`.
  pub record SentAll (max_tx_size : ℕ) (b : SduBuffer) (room : ℕ) (bytes : List ℕ) : Type 0 where
    pub after : SduBuffer
    pub pdus : List (List ℕ)
    pub left : ℕ
    pub run : try_send_pdus c max_tx_size b room ≡ (after, pdus, left)
    pub emptied : (after.transmit_size ≡ 0) × (after.transmit_buffer_used ≡ 0)
    pub carried : bodies c pdus ≡ bytes
    pub fragments : Every (IsFragment max_tx_size 1) pdus

  nothing_to_send :
      (max_tx_size : ℕ) (b : SduBuffer) (room : ℕ)
      → b.transmit_size ≡ 0
      → SentAll max_tx_size b room
          (bytes_at b.transmit_buffer b.transmit_buffer_used b.transmit_size)
  nothing_to_send max_tx_size b room h = record {
    after = record b { transmit_buffer_used = 0 };
    pdus = [];
    left = room;
    run = try_done max_tx_size b room h;
    emptied = (h, refl);
    carried = sym (ap (bytes_at b.transmit_buffer b.transmit_buffer_used) h);
    fragments = tt;
  }

  -- One more fragment in front of what is sent after it.
  fragment_before :
      (mem : Memory) (p k size : ℕ) (pdu : List ℕ) (pdus : List (List ℕ))
      → k ≤ size
      → body c pdu ≡ bytes_at mem p k
      → bodies c pdus ≡ bytes_at mem (p + k) (size - k)
      → bodies c (pdu ∷ pdus) ≡ bytes_at mem p size
  fragment_before mem p k size pdu pdus h one rest =
      let whole : k + (size - k) ≡ size = omega arith in
      ap₂ ◌++◌ one rest
      ∙ sym (bytes_at-append mem p (p + k) k (size - k) refl)
      ∙ ap (bytes_at mem p) whole

  try_send_pdus-SentAll :
      (max_tx_size : ℕ) (b : SduBuffer) (room : ℕ)
      → ll_overhead c < max_tx_size
      → max_tx_size < ll_overhead c + 256
      → 0 < b.transmit_buffer_used
      → b.transmit_size ≤ room
      → SentAll max_tx_size b room
          (bytes_at b.transmit_buffer b.transmit_buffer_used b.transmit_size)
  try_send_pdus-SentAll max_tx_size b zero larger small used enough =
      nothing_to_send max_tx_size b 0 (omega arith)
  try_send_pdus-SentAll max_tx_size b (suc room) larger small used enough =
      let k : ℕ = min b.transmit_size (max_tx_size - ll_overhead c) in
      elim (Bool-cases (b.transmit_size == 0)) [
        | inl e ↦ nothing_to_send max_tx_size b (suc room) (ground arith)
        | inr e ↦
            let some_left : 0 < b.transmit_size = ground arith in
            let rest =
              try_send_pdus-SentAll max_tx_size (sent c b k) room larger small (omega arith)
                (omega arith) in
            let one =
              next_fragment-IsFragment max_tx_size b k (omega arith) (omega arith) (omega arith) in
            record {
              after = rest.after;
              pdus = next_fragment c b k ∷ rest.pdus;
              left = rest.left;
              run =
                  try_more max_tx_size b (sent c b k) rest.after room rest.left
                    (next_fragment c b k) rest.pdus some_left (send_next max_tx_size b used larger)
                    rest.run;
              emptied = rest.emptied;
              carried =
                  fragment_before b.transmit_buffer b.transmit_buffer_used k b.transmit_size
                    (next_fragment c b k) rest.pdus (omega arith) one.0 rest.carried;
              fragments = (one.1, rest.fragments);
            }
      ]

  -- The SDU of `size` bytes in the transmit buffer, with its L2CAP header, was sent: a start fragment and
  -- continuations.
  pub record SentSdu (max_tx_size : ℕ) (b : SduBuffer) (room size : ℕ) : Type 0 where
    pub after : SduBuffer
    pub first : List ℕ
    pub pdus : List (List ℕ)
    pub left : ℕ
    pub run : commit_l2cap_transmit_buffer c max_tx_size b room ≡ (after, first ∷ pdus, left)
    pub emptied : (after.transmit_size ≡ 0) × (after.transmit_buffer_used ≡ 0)
    pub carried : bodies c (first ∷ pdus) ≡ bytes_at b.transmit_buffer (ll_overhead c) size
    pub start : IsFragment max_tx_size 2 first
    pub continuations : Every (IsFragment max_tx_size 1) pdus

  commit_lem :
      (max_tx_size : ℕ) (b : SduBuffer) (room : ℕ)
      → read_16bit b.transmit_buffer (ll_overhead c) + overall_overhead c < 2 ^ 16
      → commit_l2cap_transmit_buffer c max_tx_size b room
        ≡ try_send_pdus c max_tx_size
            (record b {
              transmit_buffer_used = 0;
              transmit_size = read_16bit b.transmit_buffer (ll_overhead c) + overall_overhead c;
            })
            room
  unfolding commit_l2cap_transmit_buffer
  commit_lem max_tx_size b room fits =
      let whole : (read_16bit b.transmit_buffer (ll_overhead c) + overall_overhead c) % 2 ^ 16
          ≡ read_16bit b.transmit_buffer (ll_overhead c) + overall_overhead c =
        omega arith in
      rw whole refl

  -- With room for enough PDUs in the radio, a maximum PDU size from one byte to 255 bytes above
  -- the overhead and an SDU whose size fits 16 bits, commit_l2cap_transmit_buffer empties the
  -- transmit buffer into a start fragment and continuations, each within the maximum size, with a
  -- payload and with its length in the header, whose bodies are together exactly the SDU with its
  -- L2CAP header.
  pub commit_l2cap_transmit_buffer-SentSdu :
      (max_tx_size : ℕ) (b : SduBuffer) (room payload : ℕ)
      → ll_overhead c < max_tx_size
      → max_tx_size < ll_overhead c + 256
      → read_16bit b.transmit_buffer (ll_overhead c) ≡ payload
      → payload + overall_overhead c < 2 ^ 16
      → payload + overall_overhead c ≤ room
      → SentSdu max_tx_size b room (payload + 4)
  commit_l2cap_transmit_buffer-SentSdu max_tx_size b (suc room) payload larger small stated fits
        enough =
      let size : ℕ = read_16bit b.transmit_buffer (ll_overhead c) + overall_overhead c in
      let b0 : SduBuffer = record b { transmit_buffer_used = 0; transmit_size = size } in
      let k : ℕ = min size max_tx_size in
      let rest =
        try_send_pdus-SentAll max_tx_size (sent c b0 k) room larger small (omega arith)
          (omega arith) in
      let one =
        first_fragment-IsFragment max_tx_size b0 k (omega arith) (omega arith) (omega arith) in
      let place : 0 + k ≡ ll_overhead c + (k - ll_overhead c) = omega arith in
      let count : size - k ≡ payload + 4 - (k - ll_overhead c) = omega arith in
      record {
        after = rest.after;
        first = first_fragment c b0 k;
        pdus = rest.pdus;
        left = rest.left;
        run =
            commit_lem max_tx_size b (suc room) (omega arith)
            ∙ try_more max_tx_size b0 (sent c b0 k) rest.after room rest.left
                (first_fragment c b0 k) rest.pdus (omega arith) (send_first max_tx_size b0 refl)
                rest.run;
        emptied = rest.emptied;
        carried =
            fragment_before b.transmit_buffer (ll_overhead c) (k - ll_overhead c) (payload + 4)
              (first_fragment c b0 k) rest.pdus (omega arith) one.0
              (rest.carried ∙ ap₂ (bytes_at b.transmit_buffer) place count);
        start = one.1;
        continuations = rest.fragments;
      }
  commit_l2cap_transmit_buffer-SentSdu max_tx_size b zero payload larger small stated fits enough =
      absurd (omega arith)
