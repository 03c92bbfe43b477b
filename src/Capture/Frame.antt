-- ===== src/Capture/Frame.antt =====
-- The frame of a typed netstring: its size, a colon, the payload and the tag.
use go_ring.Common.{
  ℕ, zero, suc, ◌+◌, ◌*◌, ◌/◌, ◌%◌, ◌^◌, ◌≤◌, ◌<◌, ◌≡◌, refl, subst, true, false, ◌&&◌, some, [],
  ◌∷◌, ◌++◌, Bytes, length, drop, get_or, ltb, leb, ◌==◌, arith, inl, inr, Bool-cases, Option-cases,
  length-append, length-take, length-drop, take-append, lt→ltb,
}
use go_ring.Common.Decimal.{decimal, digits}
use go_ring.Common.ParseInt.{
  parse_digits, parse_digits-decimal, all_digits, decimal-all_digits, decimal-cons,
}
use go_ring.Common.Fallible.{ok, or_fail-ok_cases, guard-ok_cases, ok-injective}
use go_ring.Capture.{split_colon, frame}

length-split_colon :
    (d : Bytes) (p : Bytes × Bytes)
    → split_colon d ≡ some p
    → length p.0 + length p.1 + 1 ≡ length d
unfolding split_colon
length-split_colon [] p h = cc
length-split_colon (c ∷ cs) p h = elim (Bool-cases (c == b':')) [
  | inl colon ↦
      let e : ([], cs) ≡ p = ground arith in
      subst (λ r. length r.0 + length r.1 + 1 ≡ suc (length cs)) e (omega arith)
  | inr other ↦ elim (Option-cases (split_colon cs)) [
    | inl missing ↦ absurd (ground arith)
    | inr (q, there) ↦
        let e : (c ∷ q.0, q.1) ≡ p = ground arith in
        let shorter = length-split_colon cs q there in
        subst (λ r. length r.0 + length r.1 + 1 ≡ suc (length cs)) e (omega (arith, shorter))
  ]
]

split_colon-digits :
    (ds after : Bytes) → all_digits ds ≡ true → split_colon (ds ++ b':' ∷ after) ≡ some (ds, after)
unfolding split_colon
split_colon-digits [] after h = refl
split_colon-digits (d ∷ ds) after h =
    let later = split_colon-digits ds after (ground arith) in ground arith

-- What stands in a frame is shorter than the frame.
pub length-frame :
    (d : Bytes) (q : Bytes × ℕ × Bytes) → frame d ≡ ok q → length q.0 + length q.2 + 3 ≤ length d
unfolding frame
length-frame d q h = guard-ok_cases (ltb 0 (length d)) _ _ h λ _ h.
    or_fail-ok_cases (split_colon d) _ _ h λ parts split h.
      guard-ok_cases (ltb 0 (length parts.0) && leb (length parts.0) 12) _ _ h λ sized h.
        or_fail-ok_cases (parse_digits parts.0) _ _ h λ n read h.
          guard-ok_cases (ltb n (length parts.1)) _ _ h λ room h.
            let whole = length-split_colon d parts split in
            let sizes : (1 ≤ length parts.0) × (n < length parts.1) = ground arith in
            subst (λ r. length r.0 + length r.2 + 3 ≤ length d) (ok-injective h)
              (omega (
                arith,
                whole,
                sizes.0,
                sizes.1,
                length-take n parts.1 (omega (arith, sizes.1)),
                length-drop (suc n) parts.1,
              ))

abbrev pow10 : ℕ → ℕ
pow10 zero = 1
pow10 (suc k) = 10 * pow10 k

-- The last digit behind the others, which are at most `k` where `k` is not zero.
length-last :
    (front : Bytes) (c k n : ℕ)
    → n < pow10 (suc k)
    → ltb n 10 ≡ false
    → ((j : ℕ) → k ≡ suc j → length front ≤ k)
    → length (front ++ c ∷ []) ≤ suc k
length-last front c zero n h large few = absurd (ground (arith, h))
length-last front c (suc k) n h large few = omega (arith, length-append front (c ∷ []), few k refl)

length-digits : (fuel k n : ℕ) → n < pow10 k → 1 ≤ k → length (digits fuel n) ≤ k
unfolding digits
length-digits zero k n h pos = omega arith
length-digits (suc fuel) zero n h pos = absurd (omega (arith, pos))
length-digits (suc fuel) (suc k) n h pos = elim (Bool-cases (ltb n 10)) [
  | inl small ↦ rw (small, digits) (omega arith)
  | inr large ↦
      rw (large, digits)
        (length-last (digits fuel (n / 10)) (b'0' + n % 10) k n h large
          λ j e. length-digits fuel k (n / 10) (omega (arith, h)) (omega (arith, e)))
]

get_or-append : (p : Bytes) (t : ℕ) (rest : Bytes) → get_or (p ++ t ∷ rest) (length p) 0 ≡ t
get_or-append [] t rest = refl
get_or-append (x ∷ p) t rest = get_or-append p t rest

drop-append_one : (p : Bytes) (t : ℕ) (rest : Bytes) → drop (suc (length p)) (p ++ t ∷ rest) ≡ rest
drop-append_one [] t rest = refl
drop-append_one (x ∷ p) t rest = drop-append_one p t rest

size_fits :
    (n : ℕ) → n < 10 ^ 12 → (ltb 0 (length (decimal n)) && leb (length (decimal n)) 12) ≡ true
unfolding decimal
size_fits n h =
    let (c, cs, e) = decimal-cons n in
    let some_digit : 1 ≤ length (decimal n) = rw e (omega arith) in
    let few : length (decimal n) ≤ 12 = length-digits (suc n) 12 n h (omega arith) in
    ground (arith, some_digit, few)

-- A payload of less than 10 ^ 12 bytes is found in its frame.
pub frame-framed :
    (payload : Bytes) (tag : ℕ) (rest : Bytes)
    → length payload < 10 ^ 12
    → frame (decimal (length payload) ++ b':' ∷ (payload ++ tag ∷ rest)) ≡ ok (payload, tag, rest)
unfolding frame
frame-framed payload tag rest h =
    let n = length payload in
    let d = decimal n in
    let after = payload ++ tag ∷ rest in
    let there : ltb 0 (length (d ++ b':' ∷ after)) ≡ true =
      lt→ltb _ _ (omega (arith, length-append d (b':' ∷ after))) in
    let room : ltb n (length after) ≡ true =
      lt→ltb _ _ (omega (arith, length-append payload (tag ∷ rest))) in
    rw
      (
        there,
        split_colon-digits d after (decimal-all_digits n),
        size_fits n h,
        parse_digits-decimal n,
        room,
        take-append payload (tag ∷ rest),
        get_or-append payload tag rest,
        drop-append_one payload tag rest,
      )
      refl
