-- ===== src/Tests/H264.antt =====
-- The theorems on cmd/go-ring/h264_bits.go and h264_writer.go at concrete inputs.
use go_ring.Common.{
  if◌then◌else◌, ℕ, ◌≡◌, ◌↔◌, refl, Bool, true, false, some, List, [], ◌∷◌, ◌++◌, Bytes, All, arith,
  length, ◌≤◌,
}
use go_ring.H264.Bits.{
  H264Bits, ue, h264_rbsp, bit_value, sps_id, skip, rbsp_loop, ends_in_zeros, pps_ids, slice_pps_id,
}
use go_ring.Common.Maps.{lookup, insert}
use go_ring.H264.Stream.{stream}
use go_ring.H264.Golomb.{golomb, golomb_value, ue-golomb, ue_sound}
use go_ring.H264.Rbsp.{escape, no_003, h264_rbsp-escape_iff}
use go_ring.H264.Payload.{valid_h264_payload}
use go_ring.H264.Payload.Aggregate.{IsUnit, aggregate, valid_h264_payload-stap_a}
use go_ring.H264.Writer.{
  collected, Depacketizer, Packet, H264FrameWriter, new_h264_frame_writer, write_frame, write_rtp,
  h264_start_code, split_start_code,
}
use go_ring.H264.Writer.Output.{parameter_writes, write_frame-output}
use go_ring.H264.Writer.Sets.{IsSent}
use go_ring.H264.Writer.Loss.{run, completes_idr, any_completes_idr, gap-run, lossy_unit-run}
use go_ring.H264.Writer.Bounds.{IsBounded, new-run-IsBounded}

-- 0 0 1 1 0, the code word of 5, and three more bits.
abbrev word : H264Bits
word = record { bytes = 55 ∷ []; bit = 0 }

abbrev word_end : H264Bits
word_end = record { bytes = 55 ∷ []; bit = 5 }

ue-golomb_example : (b' : H264Bits) × (ue word ≡ some (5, b')) × (stream b' ≡ 1 ∷ 1 ∷ 1 ∷ [])
unfolding stream
ue-golomb_example = ue-golomb (1 ∷ 0 ∷ []) (1 ∷ 1 ∷ 1 ∷ []) word refl (omega arith)

ue_sound_example :
    (w : List ℕ) × (length w ≤ 31)
    × (stream word ≡ golomb w ++ stream word_end)
    × (5 ≡ golomb_value w)
unfolding ue bit_value
ue_sound_example = ue_sound 5 word word_end refl

h264_rbsp-escape_iff_example :
    ((h264_rbsp (103 ∷ escape 0 (0 ∷ 0 ∷ 1 ∷ 0 ∷ 0 ∷ []))).bytes ≡ 0 ∷ 0 ∷ 1 ∷ 0 ∷ 0 ∷ [])
    ↔ (no_003 (0 ∷ 0 ∷ 1 ∷ 0 ∷ 0 ∷ []) ≡ true)
h264_rbsp-escape_iff_example = h264_rbsp-escape_iff 103 (0 ∷ 0 ∷ 1 ∷ 0 ∷ 0 ∷ [])

-- Two units of one and of two bytes.
abbrev two_units : Bytes
two_units = 0 ∷ 1 ∷ 9 ∷ 0 ∷ 2 ∷ 7 ∷ 8 ∷ []

valid_h264_payload-stap_a_example :
    (valid_h264_payload (24 ∷ two_units) ≡ true)
    ↔ ((units : List Bytes) × All IsUnit units × (two_units ≡ aggregate units))
valid_h264_payload-stap_a_example = valid_h264_payload-stap_a 24 two_units refl (
  omega arith,
  (omega arith, (omega arith, (omega arith, (omega arith, (omega arith, (omega arith, tt)))))),
)

-- A depacketizer that gives back the payload, and an output that takes everything.
abbrev plain : Depacketizer (Unit {0})
plain = record {
  fresh = tt;
  is_partition_head = λ payload. true;
  unmarshal = λ d payload. (some payload, tt);
}

abbrev all_ok : List Bytes → Bytes → Bool
all_ok earlier b = true

abbrev sps_unit : Bytes
sps_unit = 103 ∷ 66 ∷ 0 ∷ 30 ∷ 128 ∷ []

abbrev pps_unit : Bytes
pps_unit = 104 ∷ 192 ∷ []

abbrev idr_unit : Bytes
idr_unit = 101 ∷ 224 ∷ []

abbrev idr_frame : Bytes
idr_frame =
    h264_start_code ++ sps_unit ++ h264_start_code ++ pps_unit ++ h264_start_code ++ idr_unit

abbrev with_idr : H264FrameWriter (Unit {0})
with_idr = record (new_h264_frame_writer plain) { frame = idr_frame }

write_frame-output_example :
    let (w, r) = collected with_idr in
    (sends : Bool) × ((sends ≡ true) ↔ IsSent w r false)
    × ((write_frame all_ok with_idr).0.output ≡ (
        if sends
        then h264_start_code ∷ sps_unit ∷ h264_start_code ∷ pps_unit ∷ idr_frame ∷ []
        else []))
    × ((write_frame all_ok with_idr).0.ready ≡ sends)
unfolding write_frame split_start_code sps_id skip h264_rbsp rbsp_loop ends_in_zeros ue bit_value
    pps_ids slice_pps_id lookup insert parameter_writes
write_frame-output_example = write_frame-output all_ok with_idr refl

abbrev slice : ℕ → Bool → Packet
slice n marker = record {
  payload = 65 ∷ 224 ∷ [];
  timestamp = 90;
  sequence_number = n;
  marker = marker;
}

-- In the middle of a unit, behind the packet of number 5.
abbrev running : H264FrameWriter (Unit {0})
running = record (new_h264_frame_writer plain) {
  timestamp = 90;
  sequence = 5;
  have_time = true;
  have_sequence = true;
  ready = true;
}

gap-run_example : (run all_ok plain running (slice 7 true ∷ slice 8 true ∷ [])).output ≡ []
unfolding any_completes_idr completes_idr write_rtp split_start_code sps_id skip h264_rbsp rbsp_loop
    ends_in_zeros ue bit_value pps_ids slice_pps_id lookup insert parameter_writes
    valid_h264_payload
gap-run_example =
    gap-run all_ok plain running (slice 7 true) (slice 8 true ∷ [])
      (refl, λ e. absurd (omega arith), refl) refl

lossy_unit-run_example :
    (run all_ok plain running (slice 7 false ∷ slice 8 false ∷ [] ++ slice 9 true ∷ [])).output ≡ []
lossy_unit-run_example =
    lossy_unit-run all_ok plain running (slice 7 false ∷ slice 8 false ∷ []) (slice 9 true) refl
      (refl, λ e. absurd (omega arith), refl) ((refl, refl), ((refl, refl), tt)) refl

new-run-IsBounded_example :
    IsBounded (run all_ok plain (new_h264_frame_writer plain) (slice 1 false ∷ slice 2 true ∷ []))
new-run-IsBounded_example = new-run-IsBounded all_ok plain (slice 1 false ∷ slice 2 true ∷ [])
