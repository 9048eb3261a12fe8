-- ===== src/Tftp/Loop/Acks.antt =====
-- The map from a 16-bit ACK back to a block in flight.
use booty_call.Prelude.{ℕ, zero, suc, ◌+◌, ◌≤◌, ◌<◌, ◌≡◌, some, arith}
use booty_call.Tftp.Session.{wire_of}
use booty_call.Tftp.Loop.{find_ack}

-- What is found is in flight and has the number of the ACK.
pub find_ack_sound :
    (n abs w : ℕ) {k : ℕ} → find_ack n abs w ≡ some k → (abs ≤ k) × (k < abs + n) × (wire_of k ≡ w)
unfolding find_ack
find_ack_sound zero abs w h = cc
find_ack_sound (suc n) abs w {k} h = ground (arith, find_ack_sound n (abs + 1) w {k = k})

-- While at most 65536 blocks are in flight, the ACK of each of them is mapped to exactly that block,
-- across every wrap of the block numbers.
pub find_ack_complete :
    (n abs k : ℕ) → abs ≤ k → k < abs + n → n ≤ 65_536 → find_ack n abs (wire_of k) ≡ some k
unfolding find_ack
find_ack_complete zero abs k low high fits = absurd (omega arith)
find_ack_complete (suc n) abs k low high fits = ground (arith, find_ack_complete n (abs + 1) k)
