-- ===== src/H264/Writer/Loss.antt =====
-- What `WriteRTP` of cmd/go-ring/h264_writer.go does about missing packets, over runs of packets.
use go_ring.Common.{
  ℕ, ◌+◌, ◌%◌, ◌≡◌, ◌≢◌, refl, ◌∙◌, ◌⊎◌, inl, inr, Bool, true, false, not, ◌&&◌, ◌||◌, List, [],
  ◌∷◌, ◌++◌, Bytes, All, is_empty, arith, Bool-cases,
}
use go_ring.H264.Writer.{
  H264FrameWriter, Packet, References, Depacketizer, append_packet_payload, refresh_parameter_sets,
  forward_frame, write_checked, write_frame, enter_packet, finish_packet, write_rtp,
  split_start_code, collected, assembled,
}
use go_ring.H264.Writer.Output.{collect-Keeps}

module _ {D : Type 0} (write_ok : List Bytes → Bytes → Bool) (d : Depacketizer D) where
  -- The packets in the order of their arrival; errors of the output do not stop the caller here.
  unfoldable pub run : H264FrameWriter D → List Packet → H264FrameWriter D
  run w [] = w
  run w (p ∷ ps) = run (write_rtp write_ok d w p).0 ps

  -- The packet ends an undamaged unit that has an IDR slice.
  unfoldable pub completes_idr : H264FrameWriter D → Packet → Bool
  completes_idr w p =
      let w' = assembled d w p in
      (not (is_empty p.payload) && p.marker) && (not w'.damaged && (collected w').1.has_idr)

  unfoldable pub any_completes_idr : H264FrameWriter D → List Packet → Bool
  any_completes_idr w [] = false
  any_completes_idr w (p ∷ ps) =
      completes_idr w p || any_completes_idr (write_rtp write_ok d w p).0 ps

  abbrev pub IsGap : H264FrameWriter D → Packet → Type 0
  IsGap w p =
      (w.have_sequence ≡ true)
      × (p.sequence_number ≢ (w.sequence + 1) % 65536)
      × (is_empty p.payload ≡ false)

  write_checked-not_ready :
      (w : H264FrameWriter D) (r : References)
      → w.ready ≡ false
      → r.has_idr ≡ false
      → ((write_checked write_ok w r).0.output ≡ w.output)
        × ((write_checked write_ok w r).0.ready ≡ false)
  unfolding write_checked refresh_parameter_sets forward_frame
  write_checked-not_ready w r n i = ground arith

  write_frame-not_ready :
      (w : H264FrameWriter D)
      → w.ready ≡ false
      → (collected w).1.has_idr ≡ false
      → ((write_frame write_ok w).0.output ≡ w.output) × ((write_frame write_ok w).0.ready ≡ false)
  unfolding write_frame
  write_frame-not_ready w n i =
      let kept = collect-Keeps w [] false (split_start_code [] w.frame) in
      let (output, ready) =
        write_checked-not_ready (collected w).0 (collected w).1 (kept.same_ready ∙ n) i in
      (output ∙ kept.same_output, ready)

  finish_packet-not_ready :
      (marker : Bool) (w : H264FrameWriter D)
      → w.ready ≡ false
      → marker && (not w.damaged && (collected w).1.has_idr) ≡ false
      → ((finish_packet write_ok d marker w).0.output ≡ w.output)
        × ((finish_packet write_ok d marker w).0.ready ≡ false)
  unfolding finish_packet
  finish_packet-not_ready false w n c = (refl, n)
  finish_packet-not_ready true w n c = elim (Bool-cases w.damaged) [
    | inl lost ↦ rw (lost, finish_packet) (refl, n)
    | inr whole ↦ ground (arith, write_frame-not_ready w n)
  ]

  append_packet_payload_lem :
      (payload : Bytes) (w : H264FrameWriter D)
      → ((append_packet_payload d payload w).output ≡ w.output)
        × ((append_packet_payload d payload w).ready ≡ w.ready)
        × ((append_packet_payload d payload w).have_time ≡ w.have_time)
        × ((append_packet_payload d payload w).timestamp ≡ w.timestamp)
  unfolding append_packet_payload
  append_packet_payload_lem payload w = ground arith

  assembled-output : (w : H264FrameWriter D) (p : Packet) → (assembled d w p).output ≡ w.output
  unfolding assembled enter_packet
  assembled-output w p = ground (arith, append_packet_payload_lem p.payload (enter_packet d w p))

  assembled-not_ready :
      (w : H264FrameWriter D) (p : Packet)
      → (w.ready ≡ false) ⊎ IsGap w p
      → (assembled d w p).ready ≡ false
  unfolding assembled enter_packet
  assembled-not_ready w p h =
      ground (arith, append_packet_payload_lem p.payload (enter_packet d w p))

  write_rtp-not_ready :
      (w : H264FrameWriter D) (p : Packet)
      → (w.ready ≡ false) ⊎ IsGap w p
      → completes_idr w p ≡ false
      → ((write_rtp write_ok d w p).0.output ≡ w.output)
        × ((write_rtp write_ok d w p).0.ready ≡ false)
  unfolding write_rtp completes_idr
  write_rtp-not_ready w p h c = elim (Bool-cases (is_empty p.payload)) [
    | inl empty ↦ ground arith
    | inr full ↦ ground (
      arith,
      assembled-output w p,
      assembled-not_ready w p h,
      finish_packet-not_ready p.marker (assembled d w p),
    )
  ]

  run-not_ready :
      (w : H264FrameWriter D) (ps : List Packet)
      → w.ready ≡ false
      → any_completes_idr w ps ≡ false
      → (run w ps).output ≡ w.output
  unfolding run any_completes_idr
  run-not_ready w [] n c = refl
  run-not_ready w (p ∷ ps) n c =
      let (output, ready) = write_rtp-not_ready w p (inl n) (ground arith) in
      run-not_ready (write_rtp write_ok d w p).0 ps ready (ground arith) ∙ output

  -- A packet whose sequence number does not follow the last one stops the output: nothing is written
  -- for it or for any later packet, until a packet ends an undamaged unit that has an IDR slice.
  pub gap-run :
      (w : H264FrameWriter D) (p : Packet) (ps : List Packet)
      → IsGap w p
      → any_completes_idr w (p ∷ ps) ≡ false
      → (run w (p ∷ ps)).output ≡ w.output
  unfolding run any_completes_idr
  gap-run w p ps g c =
      let (output, ready) = write_rtp-not_ready w p (inr g) (ground arith) in
      run-not_ready (write_rtp write_ok d w p).0 ps ready (ground arith) ∙ output

  -- The packet belongs to the unit that the writer is in, and does not end it.
  abbrev pub IsInside : ℕ → Packet → Type 0
  IsInside timestamp p = (p.timestamp ≡ timestamp) × (p.marker ≡ false)

  abbrev IsLost : ℕ → H264FrameWriter D → Type 0
  IsLost timestamp w = (w.damaged ≡ true) × (w.have_time ≡ true) × (w.timestamp ≡ timestamp)

  enter-IsLost :
      (timestamp : ℕ) (w : H264FrameWriter D) (p : Packet)
      → IsLost timestamp w ⊎ (IsGap w p × (w.have_time ≡ true) × (w.timestamp ≡ timestamp))
      → p.timestamp ≡ timestamp
      → IsLost timestamp (enter_packet d w p)
  unfolding enter_packet
  enter-IsLost timestamp w p (inl l) t = ground arith
  enter-IsLost timestamp w p (inr l) t = ground arith

  assembled-IsLost :
      (timestamp : ℕ) (w : H264FrameWriter D) (p : Packet)
      → IsLost timestamp w ⊎ (IsGap w p × (w.have_time ≡ true) × (w.timestamp ≡ timestamp))
      → p.timestamp ≡ timestamp
      → IsLost timestamp (assembled d w p)
  unfolding assembled
  assembled-IsLost timestamp w p l t =
      let e = enter-IsLost timestamp w p l t in rw (e.0, assembled) e

  write_rtp-IsLost :
      (timestamp : ℕ) (w : H264FrameWriter D) (p : Packet)
      → IsLost timestamp w ⊎ (IsGap w p × (w.have_time ≡ true) × (w.timestamp ≡ timestamp))
      → p.timestamp ≡ timestamp
      → ((write_rtp write_ok d w p).0.output ≡ w.output)
        × (p.marker ≡ false → IsLost timestamp (write_rtp write_ok d w p).0)
  unfolding write_rtp
  write_rtp-IsLost timestamp w p l t =
      ground (arith, assembled-output w p, assembled-IsLost timestamp w p l t)

  run-IsLost :
      (timestamp : ℕ) (w : H264FrameWriter D) (ps : List Packet) (last : Packet)
      → IsLost timestamp w
      → All (IsInside timestamp) ps
      → last.timestamp ≡ timestamp
      → (run w (ps ++ last ∷ [])).output ≡ w.output
  unfolding run
  run-IsLost timestamp w [] last l inside t = (write_rtp-IsLost timestamp w last (inl l) t).0
  run-IsLost timestamp w (p ∷ ps) last l (here, inside) t =
      let (output, lost) = write_rtp-IsLost timestamp w p (inl l) here.0 in
      run-IsLost timestamp (write_rtp write_ok d w p).0 ps last (lost here.1) inside t ∙ output

  -- The first packet of those up to the last one.
  abbrev pub first : List Packet → Packet → Packet
  first [] last = last
  first (p ∷ ps) last = p

  -- A unit in which a packet is missing is dropped whole: when the writer is in the unit and the next
  -- packet, which may be the last one, stands behind a gap, nothing is written for it, for the rest of
  -- the unit or for its last packet, even if the unit has an IDR slice.
  pub lossy_unit-run :
      (w : H264FrameWriter D) (ps : List Packet) (last : Packet)
      → w.have_time ≡ true
      → IsGap w (first ps last)
      → All (IsInside w.timestamp) ps
      → last.timestamp ≡ w.timestamp
      → (run w (ps ++ last ∷ [])).output ≡ w.output
  unfolding run
  lossy_unit-run w [] last h g inside t =
      (write_rtp-IsLost w.timestamp w last (inr (g, h, refl)) t).0
  lossy_unit-run w (p ∷ ps) last h g (here, inside) t =
      let (output, lost) = write_rtp-IsLost w.timestamp w p (inr (g, h, refl)) here.0 in
      run-IsLost w.timestamp (write_rtp write_ok d w p).0 ps last (lost here.1) inside t ∙ output
