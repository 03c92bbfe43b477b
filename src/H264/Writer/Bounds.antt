-- ===== src/H264/Writer/Bounds.antt =====
-- The size of the unit that the writer of cmd/go-ring/h264_writer.go holds.
use go_ring.Common.{
  ◌≤◌, Bool, List, [], ◌∷◌, Bytes, length, length-append, arith, Bool-cases, Option-cases, inl, inr,
}
use go_ring.H264.Payload.{valid_h264_payload}
use go_ring.H264.Writer.{
  H264FrameWriter, Packet, Depacketizer, max_h264_frame_bytes, append_packet_payload, enter_packet,
  assembled, write_rtp, new_h264_frame_writer,
}
use go_ring.H264.Writer.Loss.{run}

abbrev pub IsBounded : {D : Type 0} → H264FrameWriter D → Type 0
IsBounded w = length w.frame ≤ max_h264_frame_bytes

module _ {D : Type 0} (write_ok : List Bytes → Bytes → Bool) (d : Depacketizer D) where
  append-IsBounded :
      (payload : Bytes) (w : H264FrameWriter D)
      → IsBounded w
      → IsBounded (append_packet_payload d payload w)
  unfolding append_packet_payload
  append-IsBounded payload w b = elim (Bool-cases (valid_h264_payload payload)) [
    | inr bad ↦ rw (bad, append_packet_payload) b
    | inl good ↦ elim (Option-cases (d.unmarshal w.depacketizer payload).0) [
      | inl failed ↦ rw (good, failed, append_packet_payload) b
      | inr (bytes, e) ↦
          rw (good, e, append_packet_payload) (ground (arith, length-append w.frame bytes))
    ]
  ]

  enter-IsBounded :
      (w : H264FrameWriter D) (p : Packet) → IsBounded w → IsBounded (enter_packet d w p)
  unfolding enter_packet
  enter-IsBounded w p b = ground arith

  assembled-IsBounded :
      (w : H264FrameWriter D) (p : Packet) → IsBounded w → IsBounded (assembled d w p)
  unfolding assembled
  assembled-IsBounded w p b =
      ground (arith, enter-IsBounded w p b, append-IsBounded p.payload (enter_packet d w p))

  write_rtp-IsBounded :
      (w : H264FrameWriter D) (p : Packet) → IsBounded w → IsBounded (write_rtp write_ok d w p).0
  unfolding write_rtp
  write_rtp-IsBounded w p b = ground (arith, assembled-IsBounded w p b)

  run-IsBounded :
      (w : H264FrameWriter D) (ps : List Packet) → IsBounded w → IsBounded (run write_ok d w ps)
  unfolding run
  run-IsBounded w [] b = b
  run-IsBounded w (p ∷ ps) b =
      run-IsBounded (write_rtp write_ok d w p).0 ps (write_rtp-IsBounded w p b)

  -- Whatever packets arrive, a new writer never holds more than 8 MiB of a unit.
  pub new-run-IsBounded :
      (ps : List Packet) → IsBounded (run write_ok d (new_h264_frame_writer d) ps)
  new-run-IsBounded ps = run-IsBounded (new_h264_frame_writer d) ps (omega arith)
