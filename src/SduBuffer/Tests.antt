-- ===== src/SduBuffer/Tests.antt =====
-- Fragmentation and reassembly of bluetoe/link_layer/include/bluetoe/ll_l2cap_sdu_buffer.hpp at concrete SDUs.
use bluetoe.Shared.{
  ℕ, ◌+◌, ◌≡◌, refl, arith, List, [], ◌∷◌, ◌++◌, length, get_or, ◌==◌, if◌then◌else◌,
}
use bluetoe.Shared.Memory.{Memory, bytes_at}
use bluetoe.SduBuffer.{
  SduConfig, SduBuffer, defragmented, in_queue, add_to_receive_buffer, next_received_sdu,
  next_ll_l2cap_received, overall_overhead, is_returned, receive_loop,
}
use bluetoe.SduBuffer.Copy.{add_to_receive_buffer_overruns}
use bluetoe.SduBuffer.Reassembly.{bodies, next_ll_l2cap_received-defragmented}
use bluetoe.SduBuffer.Fragments.{SentSdu, commit_l2cap_transmit_buffer-SentSdu}

abbrev config : SduConfig
config = record { mtu_size = 40; layout_overhead = 0 }

abbrev numbered : Memory
numbered p = if p == 2 then 30 else if p == 3 then 0 else p

-- An SDU of 30 bytes in the transmit buffer.
abbrev idle : SduBuffer
idle = record {
  receive_buffer = λ p. 0;
  receive_size = 0;
  receive_buffer_used = 0;
  transmit_buffer = numbered;
  transmit_size = 0;
  transmit_buffer_used = 0;
}

-- One byte is missing in the receive buffer of 46 bytes.
abbrev almost : SduBuffer
almost = record idle { receive_size = 1; receive_buffer_used = 45 }

abbrev start : List ℕ
start = 2 ∷ 6 ∷ 5 ∷ 0 ∷ 4 ∷ 0 ∷ 10 ∷ 11 ∷ []

abbrev continuation : List ℕ
continuation = 1 ∷ 3 ∷ 12 ∷ 13 ∷ 14 ∷ []

whole_in_queue :
    next_received_sdu config idle ((2 ∷ 5 ∷ 1 ∷ 0 ∷ 4 ∷ 0 ∷ 9 ∷ []) ∷ [])
    ≡ (idle, (2 ∷ 5 ∷ 1 ∷ 0 ∷ 4 ∷ 0 ∷ 9 ∷ []) ∷ [], in_queue (2 ∷ 5 ∷ 1 ∷ 0 ∷ 4 ∷ 0 ∷ 9 ∷ []))
unfolding next_received_sdu receive_loop is_returned
whole_in_queue = refl

next_ll_l2cap_received-defragmented_example :
    (b' : SduBuffer) × ((next_ll_l2cap_received config 29 idle 3 (start ∷ continuation ∷ [])).0
      ≡ (b', [], defragmented (length (start ++ bodies config (continuation ∷ [])))))
    × (bytes_at b'.receive_buffer 0 (length (start ++ bodies config (continuation ∷ [])))
        ≡ start ++ bodies config (continuation ∷ []))
next_ll_l2cap_received-defragmented_example =
    next_ll_l2cap_received-defragmented config 29 idle 3 start continuation [] [] (omega arith) refl
      (refl, omega arith, refl, refl, omega arith) ((refl, omega arith), tt)

commit_l2cap_transmit_buffer-SentSdu_example : SentSdu config 29 idle 40 34
commit_l2cap_transmit_buffer-SentSdu_example =
    commit_l2cap_transmit_buffer-SentSdu config 29 idle 40 30 (omega arith) (omega arith) refl
      (omega arith) (omega arith)

add_to_receive_buffer_overruns_example :
    (add_to_receive_buffer almost (7 ∷ 8 ∷ [])).receive_buffer (40 + overall_overhead config)
    ≡ get_or (7 ∷ 8 ∷ []) 1 0
add_to_receive_buffer_overruns_example =
    add_to_receive_buffer_overruns config almost (7 ∷ 8 ∷ []) refl (omega arith)
