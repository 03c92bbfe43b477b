-- ===== src/Recording.antt =====
-- cmd/go-ring/rtp_recording.go: how RTP packets are recorded and replayed. `Marshal` and `Unmarshal` of
-- pion/rtp, the file and the callback are parameters. The file is the bytes written so far; `write_ok`
-- says of it and the next bytes whether writing or, for no bytes, flushing them succeeds.
pub mod Replay
use go_ring.Common.{
  ℕ, zero, suc, ◌+◌, ◌*◌, ◌/◌, ◌%◌, ◌^◌, Bool, true, false, not, ◌||◌, Option, none, some, List, [],
  ◌∷◌, ◌++◌, Bytes, length, take, drop, codes, ltb, leb, ◌==◌, if◌then◌else◌,
}
use go_ring.Common.Decimal.{bytes_eq}
use go_ring.Common.Fallible.{Result, ok, err, ◌>>=◌, ◌>>◌, guard, or_fail}

-- The source's messages, in its order; `out_of_fuel` is none of them.
pub data RecordingError : Type 0 where
  write_header marshal_packet packet_exceeds_limit write_length write_data flush : RecordingError
  read_header invalid_header read_length invalid_length read_data decode_packet process_packet :
      RecordingError
  out_of_fuel : RecordingError

abbrev pub rtp_recording_magic : Bytes
rtp_recording_magic = codes "go-ring-rtp-v1\n"

abbrev pub max_recorded_packet : ℕ
max_recorded_packet = 64 * 1024

-- `binary.Write` of a uint32 in big-endian order.
abbrev pub be32 : ℕ → Bytes
be32 n = n / 2 ^ 24 % 256 ∷ n / 2 ^ 16 % 256 ∷ n / 2 ^ 8 % 256 ∷ n % 256 ∷ []

unfoldable pub append :
    (Bytes → Bytes → Bool) → Bytes → Bytes → RecordingError → Result RecordingError Bytes
append write_ok file b e = if write_ok file b then ok (file ++ b) else err e

-- The header that `newRTPRecording` writes into the fresh file.
unfoldable pub new_rtp_recording : (Bytes → Bytes → Bool) → Result RecordingError Bytes
unfolding append
new_rtp_recording write_ok = append write_ok [] rtp_recording_magic write_header

module _ {P : Type 0} (marshal : P → Option Bytes) (write_ok : Bytes → Bytes → Bool) where
  unfoldable pub write_packet : Bytes → P → Result RecordingError Bytes
  unfolding append
  write_packet file p = or_fail (marshal p) marshal_packet >>= λ data'.
      guard (leb (length data') max_recorded_packet) packet_exceeds_limit
      >> (append write_ok file (be32 (length data')) write_length >>= λ f.
          append write_ok f data' write_data >>= λ f'. append write_ok f' [] flush)

  -- The packets one after the other, up to the first error.
  unfoldable pub write_packets : Bytes → List P → Result RecordingError Bytes
  unfolding write_packet
  write_packets file [] = ok file
  write_packets file (p ∷ ps) = write_packet file p >>= λ f. write_packets f ps

abbrev pub and_then :
    {S : Type 0}
    → S × Option RecordingError
    → (S → S × Option RecordingError)
    → S × Option RecordingError
and_then (s, none) k = k s
and_then (s, some e) k = (s, some e)

-- `consume` with the error that `replayRTP` makes of its own.
unfoldable pub process : {P S : Type 0} → (S → P → S × Bool) → S → P → S × Option RecordingError
process consume s p =
    let (s', fine) = consume s p in (s', if fine then none else some process_packet)

module _ {P S : Type 0} (unmarshal : Bytes → Option P) (consume : S → P → S × Bool) where
  -- A packet of `size` bytes at the head of what is left.
  unfoldable pub read_packet : S → ℕ → Bytes → S × Option RecordingError
  unfolding process
  read_packet s size left =
      let decoded : S × Option RecordingError = elim (unmarshal (take size left)) [
        | none ↦ (s, some decode_packet)
        | some p ↦ process consume s p
      ] in
      if ltb (length left) size then (s, some RecordingError.read_data) else decoded

  -- The loop of `replayRTP`; each round takes at least five bytes.
  unfoldable pub read_packets : ℕ → S → Bytes → S × Option RecordingError
  unfolding read_packet
  read_packets fuel s [] = (s, none)
  read_packets zero s (a ∷ left) = (s, some out_of_fuel)
  read_packets (suc fuel) s (a ∷ b ∷ c ∷ d ∷ left) =
      let size = ((a * 256 + b) * 256 + c) * 256 + d in
      let later = λ (s' : S). read_packets fuel s' (drop size left) in
      if size == 0 || ltb max_recorded_packet size
      then (s, some invalid_length)
      else and_then (read_packet s size left) later
  read_packets (suc fuel) s left = (s, some read_length)

  unfoldable pub replay_rtp : S → Bytes → S × Option RecordingError
  unfolding read_packets
  replay_rtp s file =
      let n = length rtp_recording_magic in
      let packets = read_packets (length file) s (drop n file) in
      if ltb (length file) n
      then (s, some read_header)
      else if bytes_eq (take n file) rtp_recording_magic
      then packets
      else (s, some invalid_header)
