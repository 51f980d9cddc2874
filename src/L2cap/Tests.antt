-- ===== src/L2cap/Tests.antt =====
-- Witnesses for the L2CAP layer.
use bluetoe.Shared.{
  ℕ, zero, suc, ◌≡◌, ◌+◌, refl, arith, true, false, Option, none, some, List, [], ◌∷◌, replicate,
  if◌then◌else◌, ltb,
}
use bluetoe.Pairing.Data.{PairingData, SecurityFunctions, Device, idle, no_key}
use bluetoe.Pairing.Manager.{l2cap_input}
use bluetoe.IoCapabilities.{just_works, pairing_no_input, pairing_no_output}
use bluetoe.SignalingChannel.{SignalingChannel, new_channel, signaling_input}
use bluetoe.L2cap.{Channel, LinkBuffer, handle_l2cap_input, transmit_pending_l2cap_output}
use bluetoe.L2cap.Dispatch.{
  find_channel, sdu_bytes, sent_for, with_sent, answer_of, IsDistinct, handle_l2cap_input-channel,
}
use bluetoe.L2cap.Channels.{signaling, sm, Connection, gatt_server, l2cap_layer, l2cap_layer_input}
use bluetoe.L2cap.Pending.{Collects, transmit_pending_l2cap_output-Collects}

-- A channel that says what it heard, and one that says how often it will speak.
abbrev echo : Channel ℕ
echo = record {
  channel_id = 4;
  channel_input = λ input c. (c + 1, input);
  channel_output = λ c. (c, []);
}

abbrev talk : ℕ → ℕ × List ℕ
talk zero = (0, [])
talk (suc n) = (n, n ∷ [])

abbrev talker : Channel ℕ
talker = record { channel_id = 6; channel_input = λ input c. (c, []); channel_output = talk }

abbrev buffer : LinkBuffer
buffer = record { room = 2; committed = [] }

both-IsDistinct : IsDistinct (echo ∷ talker ∷ [])
both-IsDistinct = (((λ e. omega arith), tt), (tt, tt))

handle_l2cap_input-channel_example :
    let answer : ℕ × Option (List ℕ) =
      answer_of (find_channel (echo ∷ talker ∷ []) 4) (1 ∷ 2 ∷ []) 0 in
    handle_l2cap_input (echo ∷ talker ∷ []) (sdu_bytes 4 (1 ∷ 2 ∷ [])) 0 buffer ≡ (
      if ltb 0 buffer.room
      then (true, answer.0, with_sent (sent_for 4 answer.1) buffer)
      else (false, 0, buffer))
handle_l2cap_input-channel_example =
    handle_l2cap_input-channel (echo ∷ talker ∷ []) 4 (1 ∷ 2 ∷ []) 0 buffer both-IsDistinct
      (omega arith) (omega arith)

transmit_pending_l2cap_output-Collects_example :
    (r : ℕ × LinkBuffer) × (transmit_pending_l2cap_output 3 (echo ∷ talker ∷ []) 5 buffer ≡ some r)
    × Collects (echo ∷ talker ∷ []) 5 buffer r.0 r.1
transmit_pending_l2cap_output-Collects_example =
    transmit_pending_l2cap_output-Collects 3 (echo ∷ talker ∷ []) 5 buffer (omega arith)

abbrev no_functions : SecurityFunctions
no_functions = record {
  local_address = record { value = replicate 6 1; is_random = false };
  create_srand = [];
  create_passkey = [];
  c1 = λ key random p1 p2. [];
  s1 = λ key local remote. [];
  is_valid_public_key = λ key. false;
  generate_keys = ([], []);
  select_random_nonce = [];
  p256 = λ private public. [];
  f4 = λ u w x z. [];
  f5 = λ secret remote local a b. ([], []);
  f6 = λ key n1 n2 r caps a b. [];
}

abbrev plain_device : Device
plain_device = record {
  input = pairing_no_input;
  output = pairing_no_output;
  authentication_requirements_flags = 0;
  request_key_flags = 0;
  entered_passkey = 0;
  yes_no_answer = none;
  oob_data = none;
  new_bond = none;
}

abbrev unpaired : PairingData
unpaired = record {
  state = idle;
  remote_address = record { value = replicate 6 2; is_random = true };
  long_term_key = [];
  pairing_status = no_key;
  legacy_algorithm = just_works;
  c1_p1 = [];
  c1_p2 = [];
  srand = [];
  mconfirm = [];
  passkey = [];
  lesc_algorithm = just_works;
  local_private_key = [];
  local_public_key = [];
  remote_public_key = [];
  local_nonce = [];
  remote_nonce = [];
  remote_io_caps = [];
  pending_encryption_information = false;
  pending_central_identification = false;
  pending_key = record { longterm_key = []; rand = 0; ediv = 0 };
  stored_bonds = [];
}

abbrev connection : Connection ℕ
connection = record {
  server = 0;
  signaling_state =
      new_channel (record { interval_min = 6; interval_max = 6; latency = 0; timeout = 10 });
  pairing = unpaired;
  is_encrypted = false;
}

abbrev server : Channel (Connection ℕ)
server = gatt_server (λ input n. (n + 1, input)) (λ n. (n, []))

abbrev request : List ℕ
request = 1 ∷ 3 ∷ 0 ∷ 0 ∷ 16 ∷ 0 ∷ 0 ∷ []

l2cap_layer_input_example :
    let paired : PairingData × List ℕ = l2cap_input no_functions plain_device request unpaired in
    let signaled : SignalingChannel × List ℕ = signaling_input request connection.signaling_state in
    (handle_l2cap_input
        (l2cap_layer server no_functions plain_device)
        (sdu_bytes sm request)
        connection
        buffer
      ≡ (
        true,
        record connection { pairing = paired.0 },
        with_sent (sent_for sm (some paired.1)) buffer,
      ))
    × (handle_l2cap_input
          (l2cap_layer server no_functions plain_device)
          (sdu_bytes signaling request)
          connection
          buffer
        ≡ (
          true,
          record connection { signaling_state = signaled.0 },
          with_sent (sent_for signaling (some signaled.1)) buffer,
        ))
    × (handle_l2cap_input
          (l2cap_layer server no_functions plain_device)
          (sdu_bytes 7 request)
          connection
          buffer
        ≡ (true, connection, buffer))
l2cap_layer_input_example =
    l2cap_layer_input server no_functions plain_device request connection buffer refl (omega arith)
      (omega arith)
