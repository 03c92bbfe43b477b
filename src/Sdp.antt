-- ===== src/Sdp.antt =====
-- pkg/dependencies/webrtc/sdp.go: the validation of session descriptions, the normalization of an
-- answer and the check of ICE candidates. A description is what this code reads and writes of
-- github.com/pion/sdp's SessionDescription. That package's UnmarshalString, Marshal and Attribute
-- and strings.Fields are parameters.
pub mod Validation
pub mod Answer
use Prim.Native.String.{String}
use text.Mathlib.Text.{◌==◌ as str_eq}
use go_ring.Common.{
  ℕ, zero, suc, ◌+◌, Bool, true, false, not, ◌&&◌, ◌||◌, Option, none, some, List, [], ◌∷◌, ◌++◌,
  Bytes, length, is_empty, ltb, leb, ◌==◌, get_elem?, if◌then◌else◌,
}
use go_ring.Common.Int.{ℤ, pos, negsuc, int_eq}
use go_ring.Common.Fallible.{Result, ok, err, ◌>>=◌, ◌>>◌, guard, or_fail}

pub record Attribute : Type 0 where
  pub key : String
  pub value : String

pub record MediaDescription : Type 0 where
  pub media : String
  pub port : ℤ
  pub attributes : List Attribute

pub record SessionDescription : Type 0 where
  pub attributes : List Attribute
  pub media_descriptions : List MediaDescription

-- Errors by their text: `bad_request` or `internal`; `index_out_of_range` is Go's run-time panic.
pub data SdpError : Type 0 where
  bad_request internal : String → SdpError
  index_out_of_range : SdpError

abbrev pub max_sdp_bytes : ℕ
max_sdp_bytes = 1048576

unfoldable pub is_direction : String → Bool
is_direction k =
    str_eq k "sendrecv" || (str_eq k "sendonly" || (str_eq k "recvonly" || str_eq k "inactive"))

abbrev pub has_direction : Attribute → Bool
has_direction a = is_direction a.key

abbrev pub is_mid : Attribute → Bool
is_mid a = str_eq a.key "mid"

-- The counters that the loops over attributes keep.
unfoldable pub count : (Attribute → Bool) → List Attribute → ℕ
count p [] = 0
count p (a ∷ xs) = if p a then suc (count p xs) else count p xs

unfoldable pub validate_session_direction : List Attribute → Result SdpError (Unit {0})
unfolding count is_direction
validate_session_direction xs =
    guard (not (ltb 1 (count has_direction xs)))
      (bad_request "SDP has conflicting session directions")

unfoldable pub validate_media_attributes : List Attribute → Result SdpError (Unit {0})
unfolding count is_direction
validate_media_attributes xs =
    guard (count is_mid xs == 1) (bad_request "SDP section must have exactly one media ID")
    >> guard (not (ltb 1 (count has_direction xs)))
        (bad_request "SDP has conflicting media directions")

-- A `map[string]bool` whose values are all true.
unfoldable pub mem : String → List String → Bool
mem k [] = false
mem k (j ∷ js) = str_eq j k || mem k js

-- `media.Attribute("mid")`, of which some calls ignore whether it is there.
abbrev pub mid_or_empty : Option String → String
mid_or_empty none = ""
mid_or_empty (some m) = m

-- `mids` holds the identities so far.
unfoldable pub validate_media_sections :
    (MediaDescription → Option String)
    → List String
    → List MediaDescription
    → Result SdpError (List String)
unfolding mem validate_media_attributes
validate_media_sections mid_of mids [] = ok mids
validate_media_sections mid_of mids (m ∷ ms) =
    let bad = bad_request "SDP requires unique media IDs" in
    let mid = mid_or_empty (mid_of m) in
    guard (not (str_eq mid "" || mem mid mids)) bad
    >> (validate_media_attributes m.attributes >> validate_media_sections mid_of (mid ∷ mids) ms)

-- The loop over the fields of one group; `seen` are those before.
unfoldable pub validate_group : List String → List String → List String → Result SdpError (Unit {0})
unfolding mem
validate_group mids seen [] = ok tt
validate_group mids seen (f ∷ fs) =
    guard (mem f mids && not (mem f seen)) (bad_request "SDP bundle references invalid media ID")
    >> validate_group mids (f ∷ seen) fs

-- What a group attribute bundles: nothing unless its first field is BUNDLE.
unfoldable pub bundled : (String → List String) → Attribute → List String
bundled fields a =
    let tail : List String = elim (fields a.value) [
      | [] ↦ []
      | kind ∷ fs ↦ if str_eq kind "BUNDLE" then fs else []
    ] in
    if str_eq a.key "group" then tail else []

unfoldable pub validate_bundle_groups :
    (String → List String) → List String → List Attribute → Result SdpError (Unit {0})
unfolding validate_group bundled
validate_bundle_groups fields mids [] = ok tt
validate_bundle_groups fields mids (a ∷ xs) =
    validate_group mids [] (bundled fields a) >> validate_bundle_groups fields mids xs

unfoldable pub ends_in_newline : Bytes → Bool
ends_in_newline [] = false
ends_in_newline (c ∷ []) = c == 10
ends_in_newline (c ∷ d ∷ ds) = ends_in_newline (d ∷ ds)

unfoldable pub framed : Bytes → Bytes
unfolding ends_in_newline
framed raw = if ends_in_newline raw then raw else raw ++ 13 ∷ 10 ∷ []

-- The part of `ParseSDP` behind the parser.
unfoldable pub validate_description :
    (MediaDescription → Option String)
    → (String → List String)
    → SessionDescription
    → Result SdpError SessionDescription
unfolding validate_session_direction validate_media_sections validate_bundle_groups
validate_description mid_of fields d =
    guard (not (is_empty d.media_descriptions)) (bad_request "SDP has no media sections")
    >> (validate_session_direction d.attributes
        >> (validate_media_sections mid_of [] d.media_descriptions >>= λ mids.
            validate_bundle_groups fields mids d.attributes >> ok d))

unfoldable pub parse_sdp :
    (Bytes → Option SessionDescription)
    → (MediaDescription → Option String)
    → (String → List String)
    → Bytes
    → Result SdpError SessionDescription
unfolding validate_description framed
parse_sdp unmarshal mid_of fields raw =
    let parsed : Result SdpError SessionDescription = elim (unmarshal (framed raw)) [
      | none ↦ err (bad_request "invalid SDP syntax")
      | some d ↦ validate_description mid_of fields d
    ] in
    guard (leb (length raw) max_sdp_bytes) (bad_request "SDP exceeds size limit") >> parsed

unfoldable pub find_direction : List Attribute → Option String
unfolding is_direction
find_direction [] = none
find_direction (a ∷ xs) = if has_direction a then some a.key else find_direction xs

-- The section's attributes first, then the session's.
unfoldable pub direction : List Attribute → List Attribute → String
unfolding find_direction
direction session media = elim (find_direction media) [
  | some k ↦ k
  | none ↦ elim (find_direction session) [ some k ↦ k | none ↦ "sendrecv" ]
]

unfoldable pub same_media_identity :
    (MediaDescription → Option String) → MediaDescription → MediaDescription → Bool
same_media_identity mid_of o a =
    str_eq (mid_or_empty (mid_of a)) (mid_or_empty (mid_of o)) && str_eq a.media o.media

unfoldable pub send_only : List Attribute → List Attribute
send_only [] = []
send_only (a ∷ xs) =
    (if str_eq a.key "sendrecv" then record a { key = "sendonly" } else a) ∷ send_only xs

unfoldable pub has_send_recv : List Attribute → Bool
has_send_recv [] = false
has_send_recv (a ∷ xs) = str_eq a.key "sendrecv" || has_send_recv xs

-- `normalizeRecvOnlyAnswer`: whether it changed the section, and the section after it.
unfoldable pub normalize_recv_only_answer :
    List Attribute → List Attribute → MediaDescription → MediaDescription → Bool × MediaDescription
unfolding direction send_only has_send_recv
normalize_recv_only_answer offer_session answer_session o a =
    let property : Attribute = record { key = "sendonly"; value = "" } in
    let changed =
      if has_send_recv a.attributes
      then send_only a.attributes
      else a.attributes ++ property ∷ [] in
    if str_eq (direction offer_session o.attributes) "recvonly"
      && str_eq (direction answer_session a.attributes) "sendrecv"
    then (true, record a { attributes = changed })
    else (false, a)

unfoldable pub answer_direction_allowed : String → String → Bool
answer_direction_allowed offered answered =
    if str_eq offered "recvonly"
    then str_eq answered "sendonly" || str_eq answered "inactive"
    else if str_eq offered "sendonly"
    then str_eq answered "recvonly" || str_eq answered "inactive"
    else not (str_eq offered "inactive") || str_eq answered "inactive"

-- A section that both sides keep.
unfoldable pub normalize_active_section :
    List Attribute
    → List Attribute
    → MediaDescription
    → MediaDescription
    → Result SdpError (Bool × MediaDescription)
unfolding normalize_recv_only_answer answer_direction_allowed direction
normalize_active_section offer_session answer_session o a =
    let (changed, a') = normalize_recv_only_answer offer_session answer_session o a in
    let allowed =
      answer_direction_allowed (direction offer_session o.attributes)
        (direction answer_session a'.attributes) in
    guard (not (int_eq o.port (pos 0)))
      (bad_request "SDP answer reactivates a rejected offer section")
    >> (guard allowed (bad_request "SDP answer direction incompatible with offer")
        >> ok (changed, a'))

-- The body of the loop of `normalizeAnswerMediaSections`.
unfoldable pub normalize_section :
    (MediaDescription → Option String)
    → List Attribute
    → List Attribute
    → MediaDescription
    → MediaDescription
    → Result SdpError (Bool × MediaDescription)
unfolding normalize_active_section same_media_identity
normalize_section mid_of offer_session answer_session o a =
    guard (same_media_identity mid_of o a) (bad_request "SDP answer media order differs")
    >> (if int_eq a.port (pos 0)
        then ok (false, a)
        else normalize_active_section offer_session answer_session o a)

unfoldable pub normalize_answer_media_sections :
    (MediaDescription → Option String)
    → List Attribute
    → List Attribute
    → List MediaDescription
    → List MediaDescription
    → Result SdpError (Bool × List MediaDescription)
unfolding normalize_section
normalize_answer_media_sections mid_of offer_session answer_session os [] = ok (false, [])
normalize_answer_media_sections mid_of offer_session answer_session [] (a ∷ xs) =
    err index_out_of_range
normalize_answer_media_sections mid_of offer_session answer_session (o ∷ os) (a ∷ xs) =
    normalize_section mid_of offer_session answer_session o a >>= λ first.
    normalize_answer_media_sections mid_of offer_session answer_session os xs >>= λ rest.
    ok (first.0 || rest.0, first.1 ∷ rest.1)

-- `NormalizeAnswer` behind the two calls of `ParseSDP`, with the answer's text.
unfoldable pub normalize_descriptions :
    (SessionDescription → Option Bytes)
    → (MediaDescription → Option String)
    → Bytes
    → SessionDescription
    → SessionDescription
    → Result SdpError Bytes
unfolding normalize_answer_media_sections
normalize_descriptions marshal mid_of answer od ad =
    let encode = λ (ms : List MediaDescription).
      or_fail (marshal (record ad { media_descriptions = ms }))
        (internal "cannot encode SDP answer") in
    guard (length od.media_descriptions == length ad.media_descriptions)
      (bad_request "SDP answer media count differs")
    >> (normalize_answer_media_sections mid_of od.attributes ad.attributes od.media_descriptions
          ad.media_descriptions
        >>= λ r. if r.0 then encode r.1 else ok answer)

unfoldable pub normalize_answer :
    (Bytes → Option SessionDescription)
    → (SessionDescription → Option Bytes)
    → (MediaDescription → Option String)
    → (String → List String)
    → Bytes
    → Bytes
    → Result SdpError Bytes
unfolding parse_sdp normalize_descriptions
normalize_answer unmarshal marshal mid_of fields offer answer =
    parse_sdp unmarshal mid_of fields offer >>= λ od.
    parse_sdp unmarshal mid_of fields answer >>= λ ad.
    normalize_descriptions marshal mid_of answer od ad

unfoldable pub validate_ice :
    (MediaDescription → Option String)
    → Option SessionDescription
    → String
    → ℤ
    → Result SdpError (Unit {0})
validate_ice mid_of none mid index = err (bad_request "ICE media index out of range")
validate_ice mid_of (some d) mid (negsuc n) = err (bad_request "ICE media index out of range")
validate_ice mid_of (some d) mid (pos n) = elim (get_elem? d.media_descriptions n) [
  | none ↦ err (bad_request "ICE media index out of range")
  | some m ↦
      guard (str_eq mid "" || str_eq mid (mid_or_empty (mid_of m)))
        (bad_request "ICE media ID and index differ")
]
