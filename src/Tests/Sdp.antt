-- ===== src/Tests/Sdp.antt =====
-- The theorems on pkg/dependencies/webrtc/sdp.go at concrete inputs.
use Prim.Native.String.{String}
use text.Mathlib.Text.{◌==◌ as str_eq}
use go_ring.Common.{
  ℕ, zero, suc, ◌≤◌, ◌≡◌, ◌↔◌, refl, ◌⊎◌, Option, none, some, List, [], ◌∷◌, Bytes, length,
  get_elem?, if◌then◌else◌,
}
use go_ring.Common.Int.{pos}
use go_ring.Common.Fallible.{ok}
use go_ring.Sdp.{
  Attribute, MediaDescription, SessionDescription, framed, mid_or_empty, parse_sdp, validate_ice,
  normalize_answer,
}
use go_ring.Sdp.Validation.{IsDescription, parse_sdp-ok_iff, validate_ice-ok_iff}
use go_ring.Sdp.Answer.{IsAnswer, normalize_answer-ok}

abbrev first_value : String → List Attribute → Option String
first_value k [] = none
first_value k (a ∷ xs) = if str_eq a.key k then some a.value else first_value k xs

abbrev mid_of : MediaDescription → Option String
mid_of m = first_value "mid" m.attributes

abbrev one_field : String → List String
one_field v = v ∷ []

abbrev video : String → SessionDescription
video way = record {
  attributes = [];
  media_descriptions =
      (record {
        media = "video";
        port = pos 9;
        attributes =
            (record { key = "mid"; value = "0" }) ∷ (record { key = way; value = "" }) ∷ [];
      })
      ∷ [];
}

-- Three texts: an offer that receives only, an answer that does both, and what is left of it.
abbrev offer : Bytes
offer = 1 ∷ []

abbrev answer : Bytes
answer = 2 ∷ []

abbrev normalized : Bytes
normalized = 3 ∷ []

abbrev unmarshal : Bytes → Option SessionDescription
unmarshal (suc zero ∷ rest) = some (video "recvonly")
unmarshal (suc (suc zero) ∷ rest) = some (video "sendrecv")
unmarshal _ = none

abbrev marshal : SessionDescription → Option Bytes
marshal d = some normalized

parse_sdp-ok_iff_example : (parse_sdp unmarshal mid_of one_field offer ≡ ok (video "recvonly")) ↔ (
    (length offer ≤ 1048576)
    × (unmarshal (framed offer) ≡ some (video "recvonly"))
    × IsDescription mid_of one_field (video "recvonly"))
parse_sdp-ok_iff_example = parse_sdp-ok_iff unmarshal mid_of one_field offer (video "recvonly")

abbrev candidate : String
candidate = "0"

validate_ice-ok_iff_example :
    (validate_ice mid_of (some (video "recvonly")) candidate (pos 0) ≡ ok tt) ↔ (
      (d : SessionDescription) × (n : ℕ) × (m : MediaDescription) × (some (video "recvonly")
        ≡ some d)
      × (pos 0 ≡ pos n)
      × (get_elem? d.media_descriptions n ≡ some m)
      × ((candidate ≡ "") ⊎ (candidate ≡ mid_or_empty (mid_of m))))
validate_ice-ok_iff_example = validate_ice-ok_iff mid_of (some (video "recvonly")) candidate (pos 0)

normalize_answer-ok_example :
    (od : SessionDescription) × (ad : SessionDescription) × (parse_sdp unmarshal mid_of one_field
        offer
      ≡ ok od)
    × (parse_sdp unmarshal mid_of one_field answer ≡ ok ad)
    × IsAnswer marshal mid_of answer normalized od ad
unfolding normalize_answer
normalize_answer-ok_example =
    normalize_answer-ok unmarshal marshal mid_of one_field offer answer normalized refl
