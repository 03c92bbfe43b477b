-- ===== src/Sdp/Validation.antt =====
-- What ParseSDP and ValidateICE of pkg/dependencies/webrtc/sdp.go accept.
use Prim.Native.String.{String}
use text.Mathlib.Text.{◌==◌ as str_eq}
use text.Mathlib.TextEquality.{eq_iff}
use go_ring.Common.{
  ℕ, ◌≤◌, ◌≡◌, ◌≢◌, ◌↔◌, refl, ◌⊎◌, inl, inr, true, false, not, ◌&&◌, ◌||◌, Option, none, some,
  List, [], ◌∷◌, Bytes, length, is_empty, All, map, arith, get_elem?, leb, Option-cases, subst, ap,
  sym, ◌∙◌,
}
use go_ring.Common.Int.{ℤ, pos, negsuc}
use go_ring.Common.Fallible.{ok, ◌>>◌, guard, guard_iff, bind-eq-ok}
use go_ring.Sdp.{
  Attribute, MediaDescription, SessionDescription, bad_request, has_direction, is_mid, count, mem,
  mid_or_empty, validate_session_direction, validate_media_attributes, validate_media_sections,
  validate_group, bundled, validate_bundle_groups, framed, validate_description, parse_sdp,
  validate_ice,
}

-- No identity stands twice.
abbrev Distinct : List String → Type 0
Distinct [] = Unit
Distinct (x ∷ xs) = (mem x xs ≡ false) × Distinct xs

-- Nor do any stand in a list before.
abbrev Fresh : List String → List String → Type 0
Fresh seen xs = All (λ x. mem x seen ≡ false) xs × Distinct xs

apart :
    (x : String) (seen xs : List String)
    → All (λ y. mem y (x ∷ seen) ≡ false) xs
      ↔ ((mem x xs ≡ false) × All (λ y. mem y seen ≡ false) xs)
unfolding mem
apart x seen [] = (λ h. (refl, tt), λ h. tt)
apart x seen (y ∷ ys) = ground (arith, eq_iff x y, eq_iff y x, apart x seen ys)

Fresh-cons :
    (x : String) (seen xs : List String)
    → Fresh seen (x ∷ xs) ↔ ((mem x seen ≡ false) × Fresh (x ∷ seen) xs)
Fresh-cons x seen xs = (
  λ h. (h.0.0, ((apart x seen xs).1 (h.1.0, h.0.1), h.1.1)),
  λ h. let a = (apart x seen xs).0 h.1.0 in ((h.0, a.1), (a.0, h.1.1)),
)

Fresh-nil : (xs : List String) → Fresh [] xs ↔ Distinct xs
unfolding mem
Fresh-nil [] = (λ h. tt, λ h. (tt, tt))
Fresh-nil (x ∷ xs) = (λ h. h.1, λ h. ((refl, ((Fresh-nil xs).1 h.1).0), h))

abbrev mids_of : (MediaDescription → Option String) → List MediaDescription → List String
mids_of mid_of ms = map (λ m. mid_or_empty (mid_of m)) ms

abbrev IsSection : (MediaDescription → Option String) → MediaDescription → Type 0
IsSection mid_of m =
    (mid_or_empty (mid_of m) ≢ "")
    × (count is_mid m.attributes ≡ 1)
    × (count has_direction m.attributes ≤ 1)

abbrev gather : List String → List String → List String
gather acc [] = acc
gather acc (x ∷ xs) = gather (x ∷ acc) xs

mem-gather : (f : String) (acc xs : List String) → mem f (gather acc xs) ≡ (mem f acc || mem f xs)
unfolding mem
mem-gather f acc [] = ground arith
mem-gather f acc (x ∷ xs) = mem-gather f (x ∷ acc) xs ∙ ground arith

attributes_iff :
    (xs : List Attribute)
    → (validate_media_attributes xs ≡ ok tt)
      ↔ ((count is_mid xs ≡ 1) × (count has_direction xs ≤ 1))
unfolding validate_media_attributes
attributes_iff xs = ground arith

group_iff :
    (mids seen fs : List String)
    → (validate_group mids seen fs ≡ ok tt) ↔ (All (λ f. mem f mids ≡ true) fs × Fresh seen fs)
unfolding validate_group
group_iff mids seen [] = (λ h. (tt, (tt, tt)), λ h. refl)
group_iff mids seen (f ∷ fs) =
    let rest = group_iff mids (f ∷ seen) fs in
    let fresh = Fresh-cons f seen fs in
    let head =
      guard_iff (mem f mids && not (mem f seen))
        (bad_request "SDP bundle references invalid media ID")
        (validate_group mids (f ∷ seen) fs) in
    (
      λ h.
          let a = head.0 h in
          let b = rest.0 a.1 in
          let known : mem f mids ≡ true = ground arith in
          let new : mem f seen ≡ false = ground arith in ((known, b.0), fresh.1 (new, b.1)),
      λ h.
          let a = fresh.0 h.1 in
          let known : mem f mids ≡ true = h.0.0 in
          let new : mem f seen ≡ false = a.0 in
          let both : (mem f mids && not (mem f seen)) ≡ true = ground arith in
          head.1 (both, rest.1 (h.0.1, a.1)),
    )

abbrev IsBundle : (String → List String) → List String → Attribute → Type 0
IsBundle fields mids a =
    All (λ f. mem f mids ≡ true) (bundled fields a) × Distinct (bundled fields a)

bundles_iff :
    (fields : String → List String) (mids : List String) (xs : List Attribute)
    → (validate_bundle_groups fields mids xs ≡ ok tt) ↔ All (IsBundle fields mids) xs
unfolding validate_bundle_groups
bundles_iff fields mids [] = (λ h. tt, λ h. refl)
bundles_iff fields mids (a ∷ xs) =
    let group = group_iff mids [] (bundled fields a) in
    let rest = bundles_iff fields mids xs in
    let fresh = Fresh-nil (bundled fields a) in
    (
      λ h.
          let (u, e, r) =
            bind-eq-ok (validate_group mids [] (bundled fields a))
              (λ _. validate_bundle_groups fields mids xs) h in
          let g = group.0 e in ((g.0, fresh.0 g.1), rest.0 r),
      λ h.
          let e : validate_group mids [] (bundled fields a) ≡ ok tt =
            group.1 (h.0.0, fresh.1 h.0.1) in
          rw (e, validate_bundle_groups) (rest.1 h.1),
    )

sections_iff :
    (mid_of : MediaDescription → Option String) (acc : List String) (ms : List MediaDescription)
    (r : List String)
    → (validate_media_sections mid_of acc ms ≡ ok r) ↔ (
        (r ≡ gather acc (mids_of mid_of ms))
        × (All (IsSection mid_of) ms × Fresh acc (mids_of mid_of ms)))
unfolding validate_media_sections
sections_iff mid_of acc [] r = (λ h. (ground arith, (tt, (tt, tt))), λ h. ap ok (sym h.0))
sections_iff mid_of acc (m ∷ ms) r =
    let mid = mid_or_empty (mid_of m) in
    let tail = validate_media_sections mid_of (mid ∷ acc) ms in
    let rest = sections_iff mid_of (mid ∷ acc) ms r in
    let fresh = Fresh-cons mid acc (mids_of mid_of ms) in
    let attributes = attributes_iff m.attributes in
    let head =
      guard_iff (not (str_eq mid "" || mem mid acc)) (bad_request "SDP requires unique media IDs")
        (validate_media_attributes m.attributes >> tail) in
    (
      λ h.
          let a = head.0 h in
          let (u, e, t) = bind-eq-ok (validate_media_attributes m.attributes) (λ _. tail) a.1 in
          let b = rest.0 t in
          let c = attributes.0 e in
          let named : mid ≢ "" = ground (arith, eq_iff mid "") in
          let new : mem mid acc ≡ false = ground arith in
          (b.0, (((named, c.0, c.1), b.1.0), fresh.1 (new, b.1.1))),
      λ h.
          let c = fresh.0 h.1.1 in
          let new : mem mid acc ≡ false = c.0 in
          let named : mid ≢ "" = h.1.0.0.0 in
          let both : not (str_eq mid "" || mem mid acc) ≡ true = ground (arith, eq_iff mid "") in
          let e : validate_media_attributes m.attributes ≡ ok tt =
            attributes.1 (h.1.0.0.1, h.1.0.0.2) in
          let t : tail ≡ ok r = rest.1 (h.0, (h.1.0.1, c.1)) in head.1 (both, rw e t),
    )

-- A description whose sections have one identity each, no two the same, and which asks for at most
-- one direction at each place and bundles only sections that it has, each once in a group.
abbrev pub IsDescription :
    (MediaDescription → Option String) → (String → List String) → SessionDescription → Type 0
IsDescription mid_of fields d =
    let mids = mids_of mid_of d.media_descriptions in
    (d.media_descriptions ≢ [])
    × (count has_direction d.attributes ≤ 1)
    × All (IsSection mid_of) d.media_descriptions
    × Distinct mids
    × All (IsBundle fields mids) d.attributes

All-bundles :
    (fields : String → List String) (a b : List String) (xs : List Attribute)
    → ((f : String) → mem f a ≡ mem f b)
    → All (IsBundle fields a) xs
    → All (IsBundle fields b) xs
All-bundles fields a b [] e h = tt
All-bundles fields a b (x ∷ xs) e h =
    ((All-same (bundled fields x) h.0.0, h.0.1), All-bundles fields a b xs e h.1)
  where
    All-same : (fs : List String) → All (λ f. mem f a ≡ true) fs → All (λ f. mem f b ≡ true) fs
    All-same [] h = tt
    All-same (f ∷ fs) h = (sym (e f) ∙ h.0, All-same fs h.1)

session_iff :
    (xs : List Attribute) → (validate_session_direction xs ≡ ok tt) ↔ (count has_direction xs ≤ 1)
unfolding validate_session_direction
session_iff xs = ground arith

gathered : (xs : List String) (f : String) → mem f (gather [] xs) ≡ mem f xs
unfolding mem
gathered xs f = mem-gather f [] xs

module _ (mid_of : MediaDescription → Option String) (fields : String → List String) where
  validate→ :
      (d d' : SessionDescription)
      → validate_description mid_of fields d ≡ ok d'
      → (d ≡ d') × IsDescription mid_of fields d
  unfolding validate_description
  validate→ d d' h =
      let mids = mids_of mid_of d.media_descriptions in
      let (u, some_media, h1) = bind-eq-ok (guard (not (is_empty d.media_descriptions)) _) _ h in
      let (u', e, h2) = bind-eq-ok (validate_session_direction d.attributes) _ h1 in
      let (r, sections, h3) =
        bind-eq-ok (validate_media_sections mid_of [] d.media_descriptions) _ h2 in
      let (u'', bundles, h4) = bind-eq-ok (validate_bundle_groups fields r d.attributes) _ h3 in
      let c = (sections_iff mid_of [] d.media_descriptions r).0 sections in
      let b = (bundles_iff fields r d.attributes).0 bundles in
      let full : d.media_descriptions ≢ [] = ground arith in
      (
        ground arith,
        (
          full,
          (session_iff d.attributes).0 e,
          c.1.0,
          (Fresh-nil mids).0 c.1.1,
          All-bundles fields r mids d.attributes (λ f. ap (mem f) c.0 ∙ gathered mids f) b,
        ),
      )

  validate← :
      (d : SessionDescription)
      → IsDescription mid_of fields d
      → validate_description mid_of fields d ≡ ok d
  unfolding validate_description
  validate← d (full, one, sections, distinct, bundles) =
      let mids = mids_of mid_of d.media_descriptions in
      let e1 : not (is_empty d.media_descriptions) ≡ true = ground arith in
      let e2 = (session_iff d.attributes).1 one in
      let e3 =
        (sections_iff mid_of [] d.media_descriptions (gather [] mids)).1
          (refl, (sections, (Fresh-nil mids).1 distinct)) in
      let e4 = (bundles_iff fields (gather [] mids) d.attributes).1 (
        All-bundles fields mids (gather [] mids) d.attributes (λ f. sym (gathered mids f))
          bundles) in
      rw (e1, e2, e3, e4) refl

-- ParseSDP returns a description exactly when the text is at most 1 MiB long and, with a line ending
-- added where it has none, parses to that description, and the description has sections, one
-- non-empty identity in each, no two of which are the same, at most one direction at each place, and
-- groups of type BUNDLE that name only identities of sections and none of them twice.
pub parse_sdp-ok_iff :
    (unmarshal : Bytes → Option SessionDescription) (mid_of : MediaDescription → Option String)
    (fields : String → List String) (raw : Bytes) (d : SessionDescription)
    → (parse_sdp unmarshal mid_of fields raw ≡ ok d)
      ↔ ((length raw ≤ 1048576) × (unmarshal (framed raw) ≡ some d) × IsDescription mid_of fields d)
unfolding parse_sdp
parse_sdp-ok_iff unmarshal mid_of fields raw d = (
  λ h.
      let (small, rest) = (guard_iff (leb (length raw) 1048576) _ _).0 h in
      elim (Option-cases (unmarshal (framed raw))) [
        | inl missing ↦ absurd (ground arith)
        | inr (d', e) ↦
            let same = validate→ mid_of fields d' d (ground arith) in
            (ground arith, e ∙ ap some same.0, subst (IsDescription mid_of fields) same.0 same.1)
      ],
  λ h.
      (guard_iff (leb (length raw) 1048576) _ _).1
        (ground arith, rw (h.1, parse_sdp) (validate← mid_of fields d h.2)),
)

-- ValidateICE accepts a candidate exactly when there is a description, its index is that of a
-- section, and it has either no identity or that section's.
pub validate_ice-ok_iff :
    (mid_of : MediaDescription → Option String) (description : Option SessionDescription)
    (mid : String) (index : ℤ)
    → (validate_ice mid_of description mid index ≡ ok tt) ↔ (
        (d : SessionDescription) × (n : ℕ) × (m : MediaDescription) × (description ≡ some d)
        × (index ≡ pos n)
        × (get_elem? d.media_descriptions n ≡ some m)
        × ((mid ≡ "") ⊎ (mid ≡ mid_or_empty (mid_of m))))
unfolding validate_ice
validate_ice-ok_iff mid_of none mid index = (λ h. cc, λ h. cc)
validate_ice-ok_iff mid_of (some d) mid (negsuc n) = (λ h. cc, λ h. cc)
validate_ice-ok_iff mid_of (some d) mid (pos n) =
    elim (Option-cases (get_elem? d.media_descriptions n)) [
      | inl missing ↦ ground arith
      | inr (m, e) ↦
          rw (e, validate_ice)
            (
              λ h.
                  let w : (mid ≡ "") ⊎ (mid ≡ mid_or_empty (mid_of m)) =
                    ground (arith, eq_iff mid "", eq_iff mid (mid_or_empty (mid_of m))) in
                  (d, n, m, refl, refl, e, w),
              λ (d', n', m', ed, ei, em, w).
                  let at : get_elem? d.media_descriptions n ≡ some m' = cc in
                  let same : m' ≡ m = ground (arith, e) in
                  ground (arith, eq_iff mid "", eq_iff mid (mid_or_empty (mid_of m)), same),
            )
    ]
