-- ===== src/H264/Payload.antt =====
-- `validH264Payload` of cmd/go-ring/h264_writer.go: the RTP payload formats that the writer takes.
pub mod Aggregate
use go_ring.Common.{
  ℕ, zero, suc, ◌+◌, ◌*◌, ◌%◌, Bool, true, false, ◌&&◌, ◌||◌, [], ◌∷◌, Bytes, length, drop, ltb,
  leb, ◌==◌, if◌then◌else◌,
}

abbrev pub nal_type_mask : ℕ
nal_type_mask = 0x1f

abbrev pub nal_sps : ℕ
nal_sps = 7

abbrev pub nal_pps : ℕ
nal_pps = 8

abbrev pub nal_idr : ℕ
nal_idr = 5

abbrev pub nal_stap_a : ℕ
nal_stap_a = 24

abbrev pub nal_fu_a : ℕ
nal_fu_a = 28

abbrev pub min_fu_a_payload_size : ℕ
min_fu_a_payload_size = 3

-- `header & h264NALTypeMask`: the mask is the low five bits.
abbrev pub nal_type : ℕ → ℕ
nal_type header = header % (nal_type_mask + 1)

-- The `case h264STAPA` loop; the list is `payload[offset:]`. Each round drops at least two bytes,
-- so as much fuel as there are bytes is enough.
unfoldable pub valid_stap_a : ℕ → Bytes → Bool
valid_stap_a fuel [] = true
valid_stap_a zero (hi ∷ rest) = false
valid_stap_a (suc fuel) (hi ∷ []) = false
valid_stap_a (suc fuel) (hi ∷ lo ∷ rest) =
    let size = hi * 256 + lo in
    let later = valid_stap_a fuel (drop size rest) in
    if size == 0 || ltb (length rest) size then false else later

unfoldable pub valid_h264_payload : Bytes → Bool
unfolding valid_stap_a
valid_h264_payload [] = false
valid_h264_payload (header ∷ payload) =
    let kind = nal_type header in
    if ltb 0 kind && ltb kind nal_stap_a
    then true
    else if kind == nal_fu_a
    then leb min_fu_a_payload_size (length (header ∷ payload))
    else if kind == nal_stap_a
    then valid_stap_a (length payload) payload
    else false
