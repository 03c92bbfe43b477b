-- ===== src/Tests/Recording.antt =====
-- The round trip of cmd/go-ring/rtp_recording.go at concrete packets.
use go_ring.Common.{
  ℕ, ◌+◌, ◌≡◌, ◌<◌, refl, Bool, true, Option, none, some, [], ◌∷◌, ◌++◌, Bytes, length, subst,
  arith,
}
use go_ring.Recording.{rtp_recording_magic, be32, new_rtp_recording, write_packets, replay_rtp}
use go_ring.Recording.Replay.{feed, replay_rtp-write_packets}

-- A packet is a number, and stands for one byte.
abbrev one_byte : ℕ → Option Bytes
one_byte n = some (n ∷ [])

abbrev first_byte : Bytes → Option ℕ
first_byte [] = none
first_byte (b ∷ rest) = some b

-- The callback adds the packets up.
abbrev sum : ℕ → ℕ → ℕ × Bool
sum total n = (total + n, true)

abbrev takes_all : Bytes → Bytes → Bool
takes_all file b = true

abbrev recorded : Bytes
recorded = rtp_recording_magic ++ (be32 1 ++ (7 ∷ be32 1) ++ 8 ∷ [])

codec : (p : ℕ) (b : Bytes) → one_byte p ≡ some b → (first_byte b ≡ some p) × (0 < length b)
codec p b e =
    let same : p ∷ [] ≡ b = ground arith in
    subst (λ x. (first_byte x ≡ some p) × (0 < length x)) same (refl, omega arith)

replay_rtp-write_packets_example : replay_rtp first_byte sum 0 recorded ≡ feed sum 0 (7 ∷ 8 ∷ [])
unfolding new_rtp_recording write_packets
replay_rtp-write_packets_example =
    replay_rtp-write_packets one_byte first_byte sum takes_all rtp_recording_magic recorded 0
      (7 ∷ 8 ∷ []) codec refl refl
