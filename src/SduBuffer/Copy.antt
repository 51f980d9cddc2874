-- ===== src/SduBuffer/Copy.antt =====
-- bluetoe/link_layer/include/bluetoe/ll_l2cap_sdu_buffer.hpp: what a copy writes.
use bluetoe.Shared.{
  ℕ, zero, suc, ◌+◌, ◌<◌, List, [], ◌∷◌, ◌++◌, ◌≡◌, refl, sym, ap, ap₂, ◌∙◌, arith, length, get_or,
}
use bluetoe.Shared.Memory.{copy_bytes, Memory, store, bytes_at, bytes_at-frame}
use bluetoe.SduBuffer.{SduBuffer, SduConfig, add_to_receive_buffer, overall_overhead}

pub copy_bytes_before :
    (mem : Memory) (p : ℕ) (xs : List ℕ) (i : ℕ) → i < p → copy_bytes mem p xs i ≡ mem i
unfolding copy_bytes
copy_bytes_before mem p [] i h = refl
copy_bytes_before mem p (x ∷ xs) i h =
    copy_bytes_before (store mem p x) (p + 1) xs i (omega arith) ∙ ground arith

pub copy_bytes_at :
    (mem : Memory) (p : ℕ) (xs : List ℕ) (i : ℕ)
    → i < length xs
    → copy_bytes mem p xs (p + i) ≡ get_or xs i 0
unfolding copy_bytes
copy_bytes_at mem p [] i h = absurd (omega arith)
copy_bytes_at mem p (x ∷ xs) zero h =
    copy_bytes_before (store mem p x) (p + 1) xs (p + 0) (omega arith) ∙ ground arith
copy_bytes_at mem p (x ∷ xs) (suc i) h =
    ap (copy_bytes (store mem p x) (p + 1) xs) (omega arith)
    ∙ copy_bytes_at (store mem p x) (p + 1) xs i (omega arith)

pub bytes_at-copy_bytes :
    (mem : Memory) (p : ℕ) (xs : List ℕ) → bytes_at (copy_bytes mem p xs) p (length xs) ≡ xs
unfolding copy_bytes
bytes_at-copy_bytes mem p [] = refl
bytes_at-copy_bytes mem p (x ∷ xs) =
    ap₂ ◌∷◌ (copy_bytes_before (store mem p x) (p + 1) xs p (omega arith) ∙ ground arith)
      (bytes_at-copy_bytes (store mem p x) (p + 1) xs)

pub bytes_at-append :
    (mem : Memory) (p q m n : ℕ)
    → q ≡ p + m
    → bytes_at mem p (m + n) ≡ bytes_at mem p m ++ bytes_at mem q n
bytes_at-append mem p q zero n e =
    let there : q ≡ p = omega arith in
    let count : 0 + n ≡ n = omega arith in rw there (ap (bytes_at mem p) count)
bytes_at-append mem p q (suc m) n e =
    let count : suc m + n ≡ suc (m + n) = omega arith in
    ap (bytes_at mem p) count
    ∙ ap (λ bytes. mem p ∷ bytes) (bytes_at-append mem (p + 1) q m n (omega arith))

-- Copying behind bytes that are there appends to them.
pub bytes_at_appended :
    (mem : Memory) (n : ℕ) (xs : List ℕ)
    → bytes_at (copy_bytes mem n xs) 0 (n + length xs) ≡ bytes_at mem 0 n ++ xs
bytes_at_appended mem n xs =
    bytes_at-append (copy_bytes mem n xs) 0 n n (length xs) (omega arith)
    ∙ ap₂ ◌++◌
        (bytes_at-frame mem (copy_bytes mem n xs) 0 n
          (λ i a b. copy_bytes_before mem n xs i (omega arith)))
        (bytes_at-copy_bytes mem n xs)

-- If the missing bytes of an SDU just fill the receive buffer and a fragment is longer than that,
-- add_to_receive_buffer writes the byte of the fragment that is too many right behind the buffer.
pub add_to_receive_buffer_overruns :
    (c : SduConfig) (b : SduBuffer) (bytes : List ℕ)
    → b.receive_buffer_used + b.receive_size ≡ c.mtu_size + overall_overhead c
    → b.receive_size < length bytes
    → (add_to_receive_buffer b bytes).receive_buffer (c.mtu_size + overall_overhead c)
      ≡ get_or bytes b.receive_size 0
unfolding add_to_receive_buffer
add_to_receive_buffer_overruns c b bytes full long =
    rw (sym full) (copy_bytes_at b.receive_buffer b.receive_buffer_used bytes b.receive_size long)
