-- ===== src/Common/ParseInt.antt =====
-- strconv.ParseInt and FormatInt with base 10 and 64 bits, on ASCII bytes.
use Prim.Native.Nat.{ℕ, zero, suc, ◌+◌, ◌-◌, ◌/◌, ◌%◌, ◌^◌, ◌≤◌, ◌<◌}
use mathlib.Core.Path.{◌≡◌, refl, sym, ap, ◌∙◌, subst}
use mathlib.Core.Logic.{inl, inr}
use mathlib.Core.Bool.{Bool, true, ◌&&◌}
use mathlib.Core.List.{[], ◌∷◌, ◌++◌}
use mathlib.Core.Option.{Option, none, some}
use native.Mathlib.Omega.{arith}
use go_ring.Common.Tests.{ltb, leb, ◌==◌, if◌then◌else◌, Bool-cases, le→leb, leb→le}
use go_ring.Common.Lists.{Bytes}
use go_ring.Common.Int.{ℤ, pos, negsuc}
use go_ring.Common.Decimal.{decimal, digits, value, value-decimal}

abbrev pub is_digit : ℕ → Bool
is_digit c = leb b'0' c && leb c b'9'

abbrev pub all_digits : Bytes → Bool
all_digits [] = true
all_digits (c ∷ cs) = is_digit c && all_digits cs

-- One digit or more.
unfoldable pub parse_digits : Bytes → Option ℕ
parse_digits [] = none
parse_digits (c ∷ cs) = if all_digits (c ∷ cs) then some (value 0 (c ∷ cs)) else none

abbrev negative : ℕ → ℤ
negative zero = pos 0
negative (suc n) = negsuc n

abbrev pub at_most : ℕ → (ℕ → ℤ) → Option ℕ → Option ℤ
at_most bound sign none = none
at_most bound sign (some n) = if leb n bound then some (sign n) else none

unfoldable pub parse_int64 : Bytes → Option ℤ
unfolding parse_digits
parse_int64 [] = none
parse_int64 (c ∷ cs) =
    if c == b'-'
    then at_most (2 ^ 63) negative (parse_digits cs)
    else if c == b'+'
    then at_most (2 ^ 63 - 1) pos (parse_digits cs)
    else at_most (2 ^ 63 - 1) pos (parse_digits (c ∷ cs))

unfoldable pub format_int : ℤ → Bytes
format_int (pos n) = decimal n
format_int (negsuc n) = b'-' ∷ decimal (suc n)

abbrev pub IsInt64 : ℤ → Type 0
IsInt64 (pos n) = n < 2 ^ 63
IsInt64 (negsuc n) = n < 2 ^ 63

all_digits-append :
    (xs ys : Bytes) → all_digits xs ≡ true → all_digits ys ≡ true → all_digits (xs ++ ys) ≡ true
all_digits-append [] ys hx hy = hy
all_digits-append (x ∷ xs) ys hx hy = ground (arith, all_digits-append xs ys)

all_digits-digits : (fuel n : ℕ) → all_digits (digits fuel n) ≡ true
unfolding digits
all_digits-digits zero n = refl
all_digits-digits (suc fuel) n = elim (Bool-cases (ltb n 10)) [
  | inl small ↦ rw (small, digits) (ground arith)
  | inr large ↦
      rw (large, digits)
        (all_digits-append (digits fuel (n / 10)) ((b'0' + n % 10) ∷ [])
          (all_digits-digits fuel (n / 10)) (ground arith))
]

pub decimal-all_digits : (n : ℕ) → all_digits (decimal n) ≡ true
unfolding decimal
decimal-all_digits n = all_digits-digits (suc n) n

append-cons : (xs : Bytes) (y : ℕ) → (c : ℕ) × (cs : Bytes) × (xs ++ y ∷ [] ≡ c ∷ cs)
append-cons [] y = (y, [], refl)
append-cons (x ∷ xs) y = (x, xs ++ y ∷ [], refl)

digits-cons : (fuel n : ℕ) → (c : ℕ) × (cs : Bytes) × (digits (suc fuel) n ≡ c ∷ cs)
unfolding digits
digits-cons fuel n = elim (Bool-cases (ltb n 10)) [
  | inl small ↦ (b'0' + n, [], ground arith)
  | inr large ↦
      let (c, cs, e) = append-cons (digits fuel (n / 10)) (b'0' + n % 10) in (c, cs, ground arith)
]

pub decimal-cons : (n : ℕ) → (c : ℕ) × (cs : Bytes) × (decimal n ≡ c ∷ cs)
unfolding decimal
decimal-cons n = digits-cons n n

-- The digits of a number read as the number.
pub parse_digits-decimal : (n : ℕ) → parse_digits (decimal n) ≡ some n
unfolding parse_digits
parse_digits-decimal n =
    let (c, cs, e) = decimal-cons n in
    let digits : all_digits (decimal n) ≡ true = decimal-all_digits n in
    rw e (
      rw (subst (λ d. all_digits d ≡ true) e digits)
        (ap some (sym (ap (value 0) e) ∙ value-decimal n)))

-- A text that starts with a digit has no sign.
parse_int64-digits :
    (d : Bytes) (n : ℕ)
    → all_digits d ≡ true
    → parse_digits d ≡ some n
    → n < 2 ^ 63
    → parse_int64 d ≡ some (pos n)
unfolding parse_int64
parse_int64-digits [] n h e l = cc
parse_int64-digits (c ∷ cs) n h e l = ground arith

at_most-some :
    (bound : ℕ) (sign : ℕ → ℤ) (n : ℕ) → n ≤ bound → at_most bound sign (some n) ≡ some (sign n)
at_most-some bound sign n h = rw (le→leb n bound h) refl

pub parse_int64-format_int : (z : ℤ) → IsInt64 z → parse_int64 (format_int z) ≡ some z
unfolding parse_int64 format_int
parse_int64-format_int (pos n) h =
    parse_int64-digits (decimal n) n (decimal-all_digits n) (parse_digits-decimal n) h
parse_int64-format_int (negsuc n) h =
    rw (parse_digits-decimal (suc n)) (at_most-some (2 ^ 63) negative (suc n) (omega (arith, h)))

at_most-value :
    (bound : ℕ) (sign : ℕ → ℤ) (o : Option ℕ) (z : ℤ)
    → at_most bound sign o ≡ some z
    → (n : ℕ) × (n ≤ bound) × (sign n ≡ z)
at_most-value bound sign none z h = cc
at_most-value bound sign (some n) z h = elim (Bool-cases (leb n bound)) [
  | inl fits ↦ (n, leb→le n bound fits, ground arith)
  | inr large ↦ absurd (ground arith)
]

IsInt64-pos : (z : ℤ) → (n : ℕ) × (n ≤ 2 ^ 63 - 1) × (pos n ≡ z) → IsInt64 z
IsInt64-pos z (n, small, e) = subst IsInt64 e (omega (arith, small))

IsInt64-negative : (n : ℕ) → n ≤ 2 ^ 63 → IsInt64 (negative n)
IsInt64-negative zero h = omega arith
IsInt64-negative (suc n) h = omega (arith, h)

-- What is read fits into 64 bits.
pub parse_int64-IsInt64 : (text : Bytes) (z : ℤ) → parse_int64 text ≡ some z → IsInt64 z
unfolding parse_int64
parse_int64-IsInt64 [] z h = cc
parse_int64-IsInt64 (c ∷ cs) z h = elim (Bool-cases (c == b'-')) [
  | inl minus ↦
      let (n, small, e) = at_most-value (2 ^ 63) negative (parse_digits cs) z (rw minus at h) in
      subst IsInt64 e (IsInt64-negative n small)
  | inr other ↦ elim (Bool-cases (c == b'+')) [
    | inl plus ↦
        IsInt64-pos z (at_most-value (2 ^ 63 - 1) pos (parse_digits cs) z (rw (other, plus) at h))
    | inr unsigned ↦
        IsInt64-pos z
          (at_most-value (2 ^ 63 - 1) pos (parse_digits (c ∷ cs)) z (rw (other, unsigned) at h))
  ]
]
