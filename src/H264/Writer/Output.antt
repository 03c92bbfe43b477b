-- ===== src/H264/Writer/Output.antt =====
-- What `writeFrame` of cmd/go-ring/h264_writer.go hands to the output.
use go_ring.Common.{
  ◌↔◌, true, ℕ, ◌≡◌, refl, sym, ap, subst, ◌∙◌, inl, inr, Bool, false, ◌&&◌, ◌||◌, Option, none,
  some, List, [], ◌∷◌, ◌++◌, append_assoc, append-nil, Bytes, arith, Bool-cases, Option-cases,
  if◌then◌else◌,
}
use go_ring.Common.Maps.{Map, nat_eq_instance}
use go_ring.H264.Writer.Sets.{IsSent, has_referenced_parameter_sets_iff}
use go_ring.H264.Writer.{
  and_then, H264FrameWriter, H264PpsInfo, References, WriteError, h264_start_code, bytes_at, pps_at,
  split_start_code, collected, collect_nalu, collect_parameter_references,
  has_referenced_parameter_sets, write_parameter_set, write_parameter_sets, write_collected,
  write_checked, write_frame, refresh_parameter_sets, forward_frame,
}

-- What collecting the parameter sets leaves alone.
pub record Keeps {D : Type 0} (w w' : H264FrameWriter D) : Type 0 where
  pub same_output : w'.output ≡ w.output
  pub same_frame : w'.frame ≡ w.frame
  pub same_ready : w'.ready ≡ w.ready
  pub same_damaged : w'.damaged ≡ w.damaged

Keeps-refl : {D : Type 0} (w : H264FrameWriter D) → Keeps w w
Keeps-refl w = record {
  same_output = refl;
  same_frame = refl;
  same_ready = refl;
  same_damaged = refl;
}

Keeps-trans : {D : Type 0} {u v w : H264FrameWriter D} → Keeps u v → Keeps v w → Keeps u w
Keeps-trans k l = ground arith

module _ {D : Type 0} where
  collect_nalu-Keeps :
      (w : H264FrameWriter D) (references : List ℕ) (has_idr : Bool) (nalu : Bytes)
      {v : H264FrameWriter D × List ℕ × Bool}
      → collect_nalu w references has_idr nalu ≡ some v
      → Keeps w v.0
  unfolding collect_nalu
  collect_nalu-Keeps w references has_idr [] e = ground arith
  collect_nalu-Keeps w references has_idr (header ∷ body) e = ground arith

  pub collect-Keeps :
      (w : H264FrameWriter D) (references : List ℕ) (has_idr : Bool) (nalus : List Bytes)
      → Keeps w (collect_parameter_references w references has_idr nalus).0
  unfolding collect_parameter_references
  collect-Keeps w references has_idr [] = Keeps-refl w
  collect-Keeps w references has_idr (nalu ∷ nalus) =
      elim (Option-cases (collect_nalu w references has_idr nalu)) [
        | inl e ↦ rw (e, collect_parameter_references) (Keeps-refl w)
        | inr ((v, r, i), e) ↦
            rw (e, collect_parameter_references)
              (Keeps-trans (collect_nalu-Keeps w references has_idr nalu e)
                (collect-Keeps v r i nalus))
      ]

-- A chain that did not fail ran all its parts.
and_then-ok :
    {D : Type 0} (r : H264FrameWriter D × Option WriteError)
    (k : H264FrameWriter D → H264FrameWriter D × Option WriteError)
    → (and_then r k).1 ≡ none
    → (r.1 ≡ none) × ((k r.0).1 ≡ none) × (and_then r k ≡ k r.0)
and_then-ok (w, none) k e = (refl, e, refl)
and_then-ok (w, some x) k e = cc

and_then-some :
    {D : Type 0} {r : H264FrameWriter D × Option WriteError} {w : H264FrameWriter D}
    (k : H264FrameWriter D → H264FrameWriter D × Option WriteError)
    → r ≡ (w, none)
    → and_then r k ≡ k w
and_then-some k e = ap (λ r. and_then r k) e

-- The parameter sets that the references need, as calls of `Write`: for each reference its SPS and
-- its PPS, each behind a start code.
unfoldable pub parameter_writes : Map ℕ Bytes → Map ℕ H264PpsInfo → List ℕ → List Bytes
parameter_writes sps pps [] = []
parameter_writes sps pps (id ∷ references) =
    let info = pps_at id pps in
    h264_start_code
    ∷ bytes_at info.sps_id sps
    ∷ h264_start_code
    ∷ info.pps_bytes
    ∷ parameter_writes sps pps references

abbrev with_output : {D : Type 0} → H264FrameWriter D → List Bytes → H264FrameWriter D
with_output w writes = record w { output = w.output ++ writes }

module _ {D : Type 0} (write_ok : List Bytes → Bytes → Bool) where
  write_parameter_set-ok :
      (w : H264FrameWriter D) (nalu : Bytes)
      → (write_parameter_set write_ok w nalu).1 ≡ none
      → write_parameter_set write_ok w nalu ≡ (with_output w (h264_start_code ∷ nalu ∷ []), none)
  unfolding write_parameter_set
  write_parameter_set-ok w nalu e =
      ground (arith, append_assoc w.output (h264_start_code ∷ []) (nalu ∷ []))

  write_parameter_sets-ok :
      (w : H264FrameWriter D) (references : List ℕ)
      → (write_parameter_sets write_ok w references).1 ≡ none
      → write_parameter_sets write_ok w references
        ≡ (with_output w (parameter_writes w.sps w.pps references), none)
  unfolding write_parameter_sets parameter_writes
  write_parameter_sets-ok w [] e =
      ap (λ o. (record w { output = o }, none)) (sym (append-nil w.output))
  write_parameter_sets-ok w (id ∷ references) e =
      let info = pps_at id w.pps in
      let sps_bytes = bytes_at info.sps_id w.sps in
      let w1 = with_output w (h264_start_code ∷ sps_bytes ∷ []) in
      let w2 = with_output w1 (h264_start_code ∷ info.pps_bytes ∷ []) in
      let last = λ (v : H264FrameWriter D). write_parameter_sets write_ok v references in
      let tail =
        λ (v : H264FrameWriter D). and_then (write_parameter_set write_ok v info.pps_bytes) last in
      let (ok1, e1, s1) = and_then-ok (write_parameter_set write_ok w sps_bytes) tail e in
      let p1 = write_parameter_set-ok w sps_bytes ok1 in
      let step1 = and_then-some tail p1 in
      let (ok2, e2, s2) =
        and_then-ok (write_parameter_set write_ok w1 info.pps_bytes) last
          (subst (λ r. r.1 ≡ none) step1 e) in
      let p2 = write_parameter_set-ok w1 info.pps_bytes ok2 in
      let step2 = and_then-some last p2 in
      let rest =
        write_parameter_sets-ok w2 references (subst (λ r. r.1 ≡ none) (step1 ∙ step2) e) in
      step1 ∙ step2 ∙ rest ∙ ap (λ o. (record w { output = o }, none)) (simp append_assoc)

  -- The calls of `Write` for a frame whose references are there.
  abbrev collected_writes : H264FrameWriter D → References → List Bytes
  collected_writes w r =
      if r.has_idr || w.ready
      then (if r.has_idr then parameter_writes w.sps w.pps r.references else []) ++ w.frame ∷ []
      else []

  -- The writer behind the parameter sets.
  abbrev refreshed : H264FrameWriter D → References → H264FrameWriter D
  refreshed w r = record w {
    output = w.output ++ (if r.has_idr then parameter_writes w.sps w.pps r.references else []);
    ready = r.has_idr || w.ready;
  }

  refresh_parameter_sets-ok :
      (w : H264FrameWriter D) (r : References)
      → (refresh_parameter_sets write_ok w r).1 ≡ none
      → refresh_parameter_sets write_ok w r ≡ (refreshed w r, none)
  unfolding refresh_parameter_sets
  refresh_parameter_sets-ok w r e = elim (Bool-cases r.has_idr) [
    | inr predicted ↦ ground (arith, append-nil w.output)
    | inl idr ↦ ground (arith, write_parameter_sets-ok w r.references)
  ]

  forward_frame_lem :
      (w : H264FrameWriter D)
      → ((forward_frame write_ok w).0.output
          ≡ (if w.ready then w.output ++ w.frame ∷ [] else w.output))
        × ((forward_frame write_ok w).0.ready ≡ w.ready)
  unfolding forward_frame
  forward_frame_lem w = ground arith

  write_collected-ok :
      (w : H264FrameWriter D) (r : References)
      → (write_collected write_ok w r).1 ≡ none
      → ((write_collected write_ok w r).0.output ≡ w.output ++ collected_writes w r)
        × ((write_collected write_ok w r).0.ready ≡ (r.has_idr || w.ready))
  unfolding write_collected
  write_collected-ok w r e =
      let (ok, e', step) =
        and_then-ok (refresh_parameter_sets write_ok w r) (forward_frame write_ok) e in
      let done = refresh_parameter_sets-ok w r ok in
      let sets : List Bytes = if r.has_idr then parameter_writes w.sps w.pps r.references else [] in
      let final = forward_frame_lem (refreshed w r) in
      rw (step, done)
        (ground (arith, final, append_assoc w.output sets (w.frame ∷ []), append-nil w.output))

  -- The frame is well formed, and every parameter set that it refers to is there.
  abbrev pub complete : H264FrameWriter D → References → Bool
  complete w r = r.valid && has_referenced_parameter_sets w r.references

  write_checked-ok :
      (w : H264FrameWriter D) (r : References)
      → (write_checked write_ok w r).1 ≡ none
      → ((write_checked write_ok w r).0.output
          ≡ w.output ++ (if complete w r then collected_writes w r else []))
        × ((write_checked write_ok w r).0.ready ≡ (complete w r && (r.has_idr || w.ready)))
  unfolding write_checked
  write_checked-ok w r e = elim (Bool-cases r.valid) [
    | inr malformed ↦ ground (arith, append-nil w.output)
    | inl well ↦ elim (Bool-cases (has_referenced_parameter_sets w r.references)) [
      | inr missing ↦ ground (arith, append-nil w.output)
      | inl there ↦
          rw (well, there, write_checked)
            (write_collected-ok w r (rw (well, there, write_checked) at e))
    ]
  ]

  checked_output :
      (w : H264FrameWriter D) (r : References) (before : List Bytes) (frame : Bytes) (ready : Bool)
      → w.output ≡ before
      → w.frame ≡ frame
      → w.ready ≡ ready
      → (write_checked write_ok w r).1 ≡ none
      → let sends = complete w r && (r.has_idr || ready) in
        let sets = if r.has_idr then parameter_writes w.sps w.pps r.references else [] in
        ((write_checked write_ok w r).0.output
          ≡ before ++ (if sends then sets ++ frame ∷ [] else []))
        × ((write_checked write_ok w r).0.ready ≡ sends)
  checked_output w r before frame ready o f g e =
      let both = write_checked-ok w r e in
      elim (Bool-cases (complete w r)) [
        | inl good ↦ rw (good, ← o, ← f, ← g) (rw good at both)
        | inr bad ↦ rw (bad, ← o) (rw bad at both)
      ]

  sends_iff :
      (w : H264FrameWriter D) (r : References) (ready : Bool)
      → ((complete w r && (r.has_idr || ready)) ≡ true) ↔ IsSent w r ready
  sends_iff w r ready =
      let there = has_referenced_parameter_sets_iff w r.references in
      (
        λ h. (ground arith, there.0 (ground arith), ground (arith, Bool-cases r.has_idr)),
        λ (valid, all, going). ground (arith, there.1 all),
      )

  -- Where no call of `Write` fails, `writeFrame` hands on exactly this: nothing, if the frame is
  -- malformed, refers to a parameter set that has not come, or has no IDR slice while the writer is
  -- not ready; otherwise the frame, with the parameter sets that it refers to in front if it has an
  -- IDR slice. The writer is ready afterwards in exactly the cases in which the frame went out.
  pub write_frame-output :
      (w : H264FrameWriter D)
      → (write_frame write_ok w).1 ≡ none
      → let (w', r) = collected w in
        let sets = if r.has_idr then parameter_writes w'.sps w'.pps r.references else [] in
        (sends : Bool) × ((sends ≡ true) ↔ IsSent w' r w.ready)
        × ((write_frame write_ok w).0.output
            ≡ w.output ++ (if sends then sets ++ w.frame ∷ [] else []))
        × ((write_frame write_ok w).0.ready ≡ sends)
  unfolding write_frame
  write_frame-output w e =
      let kept = collect-Keeps w [] false (split_start_code [] w.frame) in
      let written =
        checked_output (collected w).0 (collected w).1 w.output w.frame w.ready kept.same_output
          kept.same_frame kept.same_ready e in
      (
        complete (collected w).0 (collected w).1 && ((collected w).1.has_idr || w.ready),
        sends_iff (collected w).0 (collected w).1 w.ready,
        written.0,
        written.1,
      )
