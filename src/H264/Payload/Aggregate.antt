-- ===== src/H264/Payload/Aggregate.antt =====
-- `validH264Payload` against the aggregation packet of RFC 6184: units behind their sizes.
use go_ring.Common.{
  ℕ, zero, suc, ◌+◌, ◌*◌, ◌/◌, ◌%◌, ◌≤◌, ◌<◌, ◌≡◌, refl, sym, ap, subst, ◌∙◌, ◌↔◌, inl, inr, true,
  ◌||◌, List, [], ◌∷◌, ◌++◌, Bytes, length, length-append, take, drop, take-drop, length-take,
  All-drop, drop-append, All, ltb, ◌==◌, arith, Bool-cases,
}
use go_ring.H264.Payload.{valid_stap_a, valid_h264_payload, nal_type}

-- The units of an aggregation packet, each behind its size in two bytes, first byte high.
pub aggregate : List Bytes → Bytes
aggregate [] = []
aggregate (unit ∷ units) = length unit / 256 ∷ length unit % 256 ∷ (unit ++ aggregate units)

abbrev pub IsUnit : Bytes → Type 0
IsUnit unit = (0 < length unit) × (length unit < 65536)

valid_stap_a-aggregate :
    (units : List Bytes) (fuel : ℕ)
    → All IsUnit units
    → length (aggregate units) ≤ fuel
    → valid_stap_a fuel (aggregate units) ≡ true
unfolding valid_stap_a aggregate
valid_stap_a-aggregate [] fuel u h = refl
valid_stap_a-aggregate (unit ∷ units) zero u h = absurd (omega arith)
valid_stap_a-aggregate (unit ∷ units) (suc fuel) ((some_bytes, few_bytes), u) h =
    let size : length unit / 256 * 256 + length unit % 256 ≡ length unit = omega arith in
    let total : length (unit ++ aggregate units) ≡ length unit + length (aggregate units) =
      length-append unit (aggregate units) in
    rw (size, drop-append unit (aggregate units))
      (ground (arith, valid_stap_a-aggregate units fuel u (omega arith)))

aggregate_cons :
    (hi lo : ℕ) (unit rest : Bytes) (units : List Bytes)
    → length unit ≡ hi * 256 + lo
    → hi < 256
    → lo < 256
    → unit ++ aggregate units ≡ rest
    → hi ∷ lo ∷ rest ≡ aggregate (unit ∷ units)
unfolding aggregate
aggregate_cons hi lo unit rest units size high low e =
    let quotient : length unit / 256 ≡ hi = omega arith in
    let remainder : length unit % 256 ≡ lo = omega arith in rw (quotient, remainder, e) refl

valid_stap_a-split :
    (fuel : ℕ) (bytes : Bytes)
    → All (λ b. b < 256) bytes
    → valid_stap_a fuel bytes ≡ true
    → (units : List Bytes) × All IsUnit units × (bytes ≡ aggregate units)
unfolding valid_stap_a aggregate
valid_stap_a-split fuel [] b v = ([], tt, refl)
valid_stap_a-split zero (hi ∷ rest) b v = absurd (ground arith)
valid_stap_a-split (suc fuel) (hi ∷ []) b v = absurd (ground arith)
valid_stap_a-split (suc fuel) (hi ∷ lo ∷ rest) (hi_byte, (lo_byte, b)) v =
    elim (Bool-cases (hi * 256 + lo == 0 || ltb (length rest) (hi * 256 + lo))) [
      | inl bad ↦ absurd (ground arith)
      | inr good ↦
          let size = hi * 256 + lo in
          let (units, u, e) =
            valid_stap_a-split fuel (drop size rest) (All-drop (λ x. x < 256) size rest b)
              (ground arith) in
          let inside : size ≤ length rest = ground arith in
          let positive : 0 < size = ground arith in
          let exact = length-take size rest inside in
          (
            take size rest ∷ units,
            ((omega arith, omega arith), u),
            aggregate_cons hi lo _ rest units exact hi_byte lo_byte
                (ap (◌++◌ (take size rest)) (sym e) ∙ take-drop size rest),
          )
    ]

-- A payload of bytes of type STAP-A is taken exactly when what follows its header is a row of
-- non-empty units of fewer than 65536 bytes, each behind its size, with nothing left over.
pub valid_h264_payload-stap_a :
    (header : ℕ) (payload : Bytes)
    → nal_type header ≡ 24
    → All (λ b. b < 256) payload
    → (valid_h264_payload (header ∷ payload) ≡ true)
      ↔ ((units : List Bytes) × All IsUnit units × (payload ≡ aggregate units))
valid_h264_payload-stap_a header payload kind bytes = (
  λ v. valid_stap_a-split (length payload) payload bytes (sym branch ∙ v),
  λ (units, u, e).
      branch
      ∙ subst (λ p. valid_stap_a (length p) p ≡ true) (sym e)
          (valid_stap_a-aggregate units _ u (omega arith)),
)
  where
    branch : valid_h264_payload (header ∷ payload) ≡ valid_stap_a (length payload) payload
    branch = unfold valid_h264_payload in ground arith
