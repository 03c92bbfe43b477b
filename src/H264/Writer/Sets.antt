-- ===== src/H264/Writer/Sets.antt =====
-- The test of cmd/go-ring/h264_writer.go that the parameter sets of a frame have come.
use go_ring.Common.{
  ℕ, ◌≡◌, ◌≢◌, ◌↔◌, ◌⊎◌, refl, subst, ◌∙◌, inl, inr, Bool, true, false, some, List, [], ◌∷◌, Bytes,
  All, is_empty, arith, Option-cases,
}
use go_ring.Common.Maps.{Map, lookup, nat_eq_instance}
use go_ring.H264.Writer.{
  H264FrameWriter, H264PpsInfo, References, bytes_at, has_referenced_parameter_sets,
}

is_empty_iff : (b : Bytes) → (is_empty b ≡ false) ↔ (b ≢ [])
is_empty_iff [] = (λ h. absurd (cc), λ h. absurd (h refl))
is_empty_iff (x ∷ b) = (λ h e. cc, λ h. refl)

bytes_at_iff :
    (id : ℕ) (m : Map ℕ Bytes)
    → (is_empty (bytes_at id m) ≡ false) ↔ ((set : Bytes) × (lookup id m ≡ some set) × (set ≢ []))
bytes_at_iff id m = elim (Option-cases (lookup id m)) [
  | inl missing ↦ (λ h. absurd (ground arith), λ (set, there, full). absurd (ground arith))
  | inr (set, there) ↦ (
    λ h. (set, there, (is_empty_iff set).0 (ground arith)),
    λ (other, there', full).
        let same : other ≡ set = ground arith in
        let bytes : is_empty (bytes_at id m) ≡ is_empty set = ground arith in
        bytes ∙ (is_empty_iff set).1 (subst (λ b. b ≢ []) same full),
  )
]

module _ {D : Type 0} where
  -- The parameter sets that the slices refer to have come: each identifier has a PPS, and the SPS that
  -- this one names is there and not empty.
  abbrev pub AllThere : H264FrameWriter D → List ℕ → Type 0
  AllThere w references =
      All
        (λ id.
          (info : H264PpsInfo) × (lookup id w.pps ≡ some info)
          × (set : Bytes) × (lookup info.sps_id w.sps ≡ some set)
          × (set ≢ []))
        references

  pub has_referenced_parameter_sets_iff :
      (w : H264FrameWriter D) (references : List ℕ)
      → (has_referenced_parameter_sets w references ≡ true) ↔ AllThere w references
  unfolding has_referenced_parameter_sets
  has_referenced_parameter_sets_iff w [] = (λ h. tt, λ h. refl)
  has_referenced_parameter_sets_iff w (id ∷ references) =
      let rest = has_referenced_parameter_sets_iff w references in
      elim (Option-cases (lookup id w.pps)) [
        | inl missing ↦
            (λ h. absurd (ground arith), λ ((info, there, _, _, _), _). absurd (ground arith))
        | inr (info, there) ↦
            let sets = bytes_at_iff info.sps_id w.sps in
            (
              λ h.
                  let (set, come, filled) = sets.0 (ground arith) in
                  ((info, there, set, come, filled), rest.0 (ground arith)),
              λ ((other, there', bytes, set, filled), all).
                  let same : other ≡ info = ground arith in
                  let full : is_empty (bytes_at info.sps_id w.sps) ≡ false = sets.1 (
                    subst
                      (λ (x : H264PpsInfo).
                        (b : Bytes) × (lookup x.sps_id w.sps ≡ some b) × (b ≢ []))
                      same (bytes, set, filled)) in
                  ground (arith, rest.1 all),
            )
      ]

  -- A frame that goes out.
  abbrev pub IsSent : H264FrameWriter D → References → Bool → Type 0
  IsSent w r ready =
      (r.valid ≡ true) × AllThere w r.references × ((r.has_idr ≡ true) ⊎ (ready ≡ true))
