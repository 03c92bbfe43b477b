-- ===== src/Sdp/Answer.antt =====
-- What NormalizeAnswer of pkg/dependencies/webrtc/sdp.go does to the sections of an answer.
use Prim.Native.String.{String}
use text.Mathlib.Text.{◌==◌ as str_eq}
use text.Mathlib.TextEquality.{eq_iff}
use go_ring.Common.{
  ◌≡◌, ◌≢◌, ◌↔◌, refl, ◌⊎◌, inl, inr, Bool, true, false, not, ◌&&◌, ◌||◌, Option, none, some, List,
  [], ◌∷◌, ◌++◌, Bytes, length, ◌==◌, arith, Bool-cases, Option-cases, subst, if◌then◌else◌, ap,
  sym, ◌∙◌,
}
use go_ring.Common.Int.{ℤ, pos, negsuc, int_eq}
use go_ring.Common.Fallible.{ok, guard_iff, or_fail, bind-eq-ok}
use go_ring.Sdp.{
  Attribute, MediaDescription, SessionDescription, SdpError, internal, has_direction, is_direction,
  mid_or_empty, find_direction, direction, same_media_identity, send_only, has_send_recv,
  normalize_recv_only_answer, answer_direction_allowed, normalize_active_section, normalize_section,
  normalize_answer_media_sections, parse_sdp, normalize_descriptions, normalize_answer,
}

-- The attributes that do not give a direction.
unfoldable pub others : List Attribute → List Attribute
unfolding is_direction
others [] = []
others (a ∷ xs) = if has_direction a then others xs else a ∷ others xs

-- RFC 3264, section 6.1: which directions may answer an offered one.
abbrev Answers : String → String → Type 0
Answers offered answered =
    ((offered ≡ "recvonly") → (answered ≡ "sendonly") ⊎ (answered ≡ "inactive"))
    × ((offered ≡ "sendonly") → (answered ≡ "recvonly") ⊎ (answered ≡ "inactive"))
    × ((offered ≡ "inactive") → answered ≡ "inactive")

renames : (k : String) → str_eq k "sendrecv" ≡ true → is_direction k ≡ true
unfolding is_direction
renames k h = rw h refl

sends : is_direction "sendonly" ≡ true
unfolding is_direction
sends = refl

-- What the loop over the attributes writes for one of them.
abbrev renamed : Attribute → Attribute
renamed a = if str_eq a.key "sendrecv" then record a { key = "sendonly" } else a

others-renamed :
    (a : Attribute) (xs ys : List Attribute)
    → others xs ≡ others ys
    → others (renamed a ∷ xs) ≡ others (a ∷ ys)
unfolding others
others-renamed a xs ys e = elim (Bool-cases (str_eq a.key "sendrecv")) [
  | inl hit ↦ rw hit e
  | inr miss ↦
      let same : renamed a ≡ a = rw miss refl in
      ap (λ b. others (b ∷ xs)) same ∙ ap (λ t. if has_direction a then t else a ∷ t) e
]

others-send_only : (xs : List Attribute) → others (send_only xs) ≡ others xs
unfolding send_only
others-send_only [] = refl
others-send_only (a ∷ xs) = others-renamed a (send_only xs) xs (others-send_only xs)

others-append :
    (xs : List Attribute) (a : Attribute)
    → has_direction a ≡ true
    → others (xs ++ a ∷ []) ≡ others xs
unfolding others
others-append [] a d = rw d refl
others-append (x ∷ xs) a d = ground (arith, others-append xs a d)

-- A first direction of sendrecv is renamed, and becomes one of sendonly.
find-send_only :
    (xs : List Attribute)
    → find_direction xs ≡ some "sendrecv"
    → (find_direction (send_only xs) ≡ some "sendonly") × (has_send_recv xs ≡ true)
unfolding find_direction send_only has_send_recv
find-send_only [] h = absurd (cc)
find-send_only (a ∷ xs) h = elim (Bool-cases (str_eq a.key "sendrecv")) [
  | inl hit ↦ rw (hit, sends) (refl, refl)
  | inr miss ↦ elim (Bool-cases (is_direction a.key)) [
    | inl d ↦ ground (arith, eq_iff a.key "sendrecv")
    | inr d ↦ rw (miss, find_direction, d, has_send_recv) (find-send_only xs (ground arith))
  ]
]

find-append :
    (xs : List Attribute) (a : Attribute)
    → find_direction xs ≡ none
    → has_direction a ≡ true
    → find_direction (xs ++ a ∷ []) ≡ some a.key
unfolding find_direction
find-append [] a h d = rw d refl
find-append (x ∷ xs) a h d = ground (arith, find-append xs a)

-- No direction among the attributes leaves none to rename.
none-has_send_recv : (xs : List Attribute) → find_direction xs ≡ none → has_send_recv xs ≡ false
unfolding find_direction has_send_recv
none-has_send_recv [] h = refl
none-has_send_recv (a ∷ xs) h = ground (arith, renames a.key, none-has_send_recv xs)

-- What NormalizeAnswer does to one section of an answer.
abbrev Normalized :
    (MediaDescription → Option String)
    → List Attribute
    → List Attribute
    → MediaDescription
    → MediaDescription
    → MediaDescription
    → Type 0
Normalized mid_of offer_session answer_session o a a' =
    let offered = direction offer_session o.attributes in
    let answered = direction answer_session a.attributes in
    let after = direction answer_session a'.attributes in
    (mid_or_empty (mid_of a) ≡ mid_or_empty (mid_of o))
    × (a.media ≡ o.media)
    × (a'.media ≡ a.media)
    × (a'.port ≡ a.port)
    × (others a'.attributes ≡ others a.attributes)
    × ((a.port ≢ pos 0) → (o.port ≢ pos 0) × Answers offered after)
    × ((a' ≡ a) ⊎ ((offered ≡ "recvonly") × (answered ≡ "sendrecv") × (after ≡ "sendonly")))

allowed_Answers :
    (offered answered : String)
    → answer_direction_allowed offered answered ≡ true
    → Answers offered answered
unfolding answer_direction_allowed
allowed_Answers o a h =
    let read = λ (x y : String) (w : (str_eq a x || str_eq a y) ≡ true).
      let r : (a ≡ x) ⊎ (a ≡ y) = ground (arith, eq_iff a x, eq_iff a y) in r in
    let at = λ (x : String) (e : o ≡ x).
      let r : answer_direction_allowed x a ≡ true =
        subst (λ z. answer_direction_allowed z a ≡ true) e h in
      r in
    (
      λ e. read "sendonly" "inactive" (at "recvonly" e),
      λ e. read "recvonly" "inactive" (at "sendonly" e),
      λ e. (eq_iff a "inactive").0 (at "inactive" e),
    )

changed-direction :
    (session : List Attribute) (m : MediaDescription)
    → direction session m.attributes ≡ "sendrecv"
    → (a : Attribute) → a.key ≡ "sendonly"
    → let xs =
        if has_send_recv m.attributes then send_only m.attributes else m.attributes ++ a ∷ [] in
      (direction session xs ≡ "sendonly") × (others xs ≡ others m.attributes)
unfolding direction
changed-direction session m h a k = elim (Option-cases (find_direction m.attributes)) [
  | inl e ↦
      let d : has_direction a ≡ true = ap is_direction k ∙ sends in
      let f = find-append m.attributes a e d in
      rw (none-has_send_recv m.attributes e, f, direction) (k, others-append m.attributes a d)
  | inr (k', e) ↦
      let same : k' ≡ "sendrecv" = ground arith in
      let f = find-send_only m.attributes (e ∙ ap some same) in
      rw (f.1, f.0, direction) (refl, others-send_only m.attributes)
]

recv_only-cases :
    (os as' : List Attribute) (o a : MediaDescription)
    → let r = normalize_recv_only_answer os as' o a in
      (r ≡ (false, a))
      ⊎ ((direction os o.attributes ≡ "recvonly")
          × (direction as' a.attributes ≡ "sendrecv")
          × (r.0 ≡ true)
          × (r.1.media ≡ a.media)
          × (r.1.port ≡ a.port)
          × (direction as' r.1.attributes ≡ "sendonly")
          × (others r.1.attributes ≡ others a.attributes))
unfolding normalize_recv_only_answer
recv_only-cases os as' o a =
    elim (Bool-cases (
      str_eq (direction os o.attributes) "recvonly"
      && str_eq (direction as' a.attributes) "sendrecv")) [
        | inl both ↦
            let offered : direction os o.attributes ≡ "recvonly" =
              ground (arith, eq_iff (direction os o.attributes) "recvonly") in
            let answered : direction as' a.attributes ≡ "sendrecv" =
              ground (arith, eq_iff (direction as' a.attributes) "sendrecv") in
            let property : Attribute = record { key = "sendonly"; value = "" } in
            let c = changed-direction as' a answered property refl in
            inr (
              rw (both, normalize_recv_only_answer) (offered, answered, refl, refl, refl, c.0, c.1))
        | inr other ↦ inl (rw (other, normalize_recv_only_answer) refl)
      ]

identity :
    (mid_of : MediaDescription → Option String) (o a : MediaDescription)
    → same_media_identity mid_of o a ≡ true
    → (mid_or_empty (mid_of a) ≡ mid_or_empty (mid_of o)) × (a.media ≡ o.media)
unfolding same_media_identity
identity mid_of o a h =
    ground
      (arith, eq_iff (mid_or_empty (mid_of a)) (mid_or_empty (mid_of o)), eq_iff a.media o.media)

zero_port_iff : (z : ℤ) → (int_eq z (pos 0) ≡ true) ↔ (z ≡ pos 0)
zero_port_iff (pos n) = ground arith
zero_port_iff (negsuc n) = (λ h. absurd (cc), λ h. absurd (cc))

-- An accepted section, and one that was not changed, is as it was.
abbrev Outcome :
    (MediaDescription → Option String)
    → List Attribute
    → List Attribute
    → MediaDescription
    → MediaDescription
    → Bool × MediaDescription
    → Type 0
Outcome mid_of os as' o a r = Normalized mid_of os as' o a r.1 × (r.0 ≡ false → r.1 ≡ a)

active_section :
    (mid_of : MediaDescription → Option String) (os as' : List Attribute) (o a : MediaDescription)
    (r : Bool × MediaDescription)
    → same_media_identity mid_of o a ≡ true
    → normalize_active_section os as' o a ≡ ok r
    → Outcome mid_of os as' o a r
unfolding normalize_active_section
active_section mid_of os as' o a r s h =
    let n = normalize_recv_only_answer os as' o a in
    let (live, h1) = (guard_iff (not (int_eq o.port (pos 0))) _ _).0 h in
    let (allowed, h2) =
      (guard_iff
          (answer_direction_allowed (direction os o.attributes) (direction as' n.1.attributes)) _
          _).0
        h1 in
    let same : n ≡ r = ground arith in
    let (mids, media) = identity mid_of o a s in
    let offered : o.port ≢ pos 0 = λ e. absurd (ground (arith, zero_port_iff o.port)) in
    let answers =
      allowed_Answers (direction os o.attributes) (direction as' n.1.attributes) allowed in
    let outcome : Outcome mid_of os as' o a n = elim (recv_only-cases os as' o a) [
      | inl e ↦
          let same : n.1 ≡ a = ap (λ p. p.1) e in
          (
            (
              mids,
              media,
              ap (λ m. m.media) same,
              ap (λ m. m.port) same,
              ap (λ m. others m.attributes) same,
              λ k. (offered, answers),
              inl same,
            ),
            λ k. same,
          )
      | inr (offers, answered, changed, m, p, after, rest) ↦ (
        (mids, media, m, p, rest, λ k. (offered, answers), inr (offers, answered, after)),
        λ k. absurd (ground arith),
      )
    ] in
    subst (Outcome mid_of os as' o a) same outcome

section_ok :
    (mid_of : MediaDescription → Option String) (os as' : List Attribute) (o a : MediaDescription)
    (r : Bool × MediaDescription)
    → normalize_section mid_of os as' o a ≡ ok r
    → Outcome mid_of os as' o a r
unfolding normalize_section
section_ok mid_of os as' o a r h =
    let (s, h1) = (guard_iff (same_media_identity mid_of o a) _ _).0 h in
    let (mids, media) = identity mid_of o a s in
    elim (Bool-cases (int_eq a.port (pos 0))) [
      | inl z ↦
          let same : r ≡ (false, a) = ground arith in
          let kept : Outcome mid_of os as' o a (false, a) = (
            (mids, media, refl, refl, refl, λ k. absurd (k ((zero_port_iff a.port).0 z)), inl refl),
            λ k. refl,
          ) in
          subst (Outcome mid_of os as' o a) (sym same) kept
      | inr nz ↦ active_section mid_of os as' o a r s (ground arith)
    ]

-- One to one, in order, over the sections of the offer and of the answer before and after.
abbrev AllSections :
    (MediaDescription → MediaDescription → MediaDescription → Type 0)
    → List MediaDescription
    → List MediaDescription
    → List MediaDescription
    → Type 0
AllSections P os [] [] = Unit
AllSections P (o ∷ os) (a ∷ xs) (b ∷ ys) = P o a b × AllSections P os xs ys
AllSections P os [] (b ∷ ys) = ⊥
AllSections P os (a ∷ xs) [] = ⊥
AllSections P [] (a ∷ xs) (b ∷ ys) = ⊥

normalize_answer_media_sections-ok :
    (mid_of : MediaDescription → Option String) (offer_session answer_session : List Attribute)
    (os xs : List MediaDescription) (r : Bool × List MediaDescription)
    → normalize_answer_media_sections mid_of offer_session answer_session os xs ≡ ok r
    → AllSections (Normalized mid_of offer_session answer_session) os xs r.1
      × (r.0 ≡ false → r.1 ≡ xs)
unfolding normalize_answer_media_sections
normalize_answer_media_sections-ok mid_of s t os [] r h =
    let same : (false, []) ≡ r = ground arith in
    subst (λ q. AllSections (Normalized mid_of s t) os [] q.1 × (q.0 ≡ false → q.1 ≡ [])) same
      (tt, λ k. refl)
normalize_answer_media_sections-ok mid_of s t [] (a ∷ xs) r h = absurd (cc)
normalize_answer_media_sections-ok mid_of s t (o ∷ os) (a ∷ xs) r h =
    let (first, e1, h1) = bind-eq-ok (normalize_section mid_of s t o a) _ h in
    let (rest, e2, h2) = bind-eq-ok (normalize_answer_media_sections mid_of s t os xs) _ h1 in
    let one = section_ok mid_of s t o a first e1 in
    let ih = normalize_answer_media_sections-ok mid_of s t os xs rest e2 in
    let same : (first.0 || rest.0, first.1 ∷ rest.1) ≡ r = ground arith in
    let kept : (first.0 || rest.0) ≡ false → first.1 ∷ rest.1 ≡ a ∷ xs = λ k.
      let k1 : first.0 ≡ false = ground arith in
      let k2 : rest.0 ≡ false = ground arith in rw (one.1 k1, ih.1 k2) refl in
    subst
      (λ q.
        AllSections (Normalized mid_of s t) (o ∷ os) (a ∷ xs) q.1 × (q.0 ≡ false → q.1 ≡ a ∷ xs))
      same ((one.0, ih.0), kept)

or_fail-ok : (o : Option Bytes) (e : SdpError) (out : Bytes) → or_fail o e ≡ ok out → o ≡ some out
or_fail-ok none e out h = absurd (cc)
or_fail-ok (some b) e out h = ground arith

abbrev pub IsAnswer :
    (SessionDescription → Option Bytes)
    → (MediaDescription → Option String)
    → Bytes
    → Bytes
    → SessionDescription
    → SessionDescription
    → Type 0
IsAnswer marshal mid_of answer out od ad =
    (length od.media_descriptions ≡ length ad.media_descriptions)
    × ((ms : List MediaDescription) × AllSections (Normalized mid_of od.attributes ad.attributes)
          od.media_descriptions ad.media_descriptions ms
        × (((out ≡ answer) × (ms ≡ ad.media_descriptions))
            ⊎ (marshal (record ad { media_descriptions = ms }) ≡ some out)))

descriptions-ok :
    (marshal : SessionDescription → Option Bytes) (mid_of : MediaDescription → Option String)
    (answer out : Bytes) (od ad : SessionDescription)
    → normalize_descriptions marshal mid_of answer od ad ≡ ok out
    → IsAnswer marshal mid_of answer out od ad
unfolding normalize_descriptions
descriptions-ok marshal mid_of answer out od ad h =
    let (same, h1) =
      (guard_iff (length od.media_descriptions == length ad.media_descriptions) _ _).0 h in
    let (r, e, h2) =
      bind-eq-ok
        (normalize_answer_media_sections mid_of od.attributes ad.attributes od.media_descriptions
          ad.media_descriptions)
        _ h1 in
    let sections =
      normalize_answer_media_sections-ok mid_of od.attributes ad.attributes od.media_descriptions
        ad.media_descriptions r e in
    let encoded : or_fail (marshal (record ad { media_descriptions = r.1 }))
            (internal "cannot encode SDP answer")
          ≡ ok out
        → marshal (record ad { media_descriptions = r.1 }) ≡ some out =
      or_fail-ok _ _ out in
    elim (Bool-cases r.0) [
      | inl changed ↦ (ground arith, (r.1, sections.0, inr (encoded (ground arith))))
      | inr kept ↦ (ground arith, (r.1, sections.0, inl (ground arith, sections.1 kept)))
    ]

-- Where NormalizeAnswer returns a text, ParseSDP accepts the offer and the answer; both have equally
-- many sections; each section of the answer has in order the identity and medium of one of the offer,
-- and keeps its medium, port and attributes that give no direction; it is as it was unless the offer
-- says recvonly and the answer sendrecv, where it becomes sendonly; a section that the answer does
-- not reject is not rejected in the offer, and its direction afterwards answers the offered one by
-- RFC 3264; and either the text is the answer's own and no section differs, or it encodes the answer
-- with those sections.
pub normalize_answer-ok :
    (unmarshal : Bytes → Option SessionDescription) (marshal : SessionDescription → Option Bytes)
    (mid_of : MediaDescription → Option String) (fields : String → List String)
    (offer answer out : Bytes)
    → normalize_answer unmarshal marshal mid_of fields offer answer ≡ ok out
    → (od : SessionDescription) × (ad : SessionDescription) × (parse_sdp unmarshal mid_of fields
          offer
        ≡ ok od)
      × (parse_sdp unmarshal mid_of fields answer ≡ ok ad)
      × IsAnswer marshal mid_of answer out od ad
unfolding normalize_answer
normalize_answer-ok unmarshal marshal mid_of fields offer answer out h =
    let (od, eo, h1) = bind-eq-ok (parse_sdp unmarshal mid_of fields offer) _ h in
    let (ad, ea, h2) = bind-eq-ok (parse_sdp unmarshal mid_of fields answer) _ h1 in
    (od, ad, eo, ea, descriptions-ok marshal mid_of answer out od ad h2)
