-- ===== src/H264/Stream.antt =====
-- The reader of cmd/go-ring/h264_bits.go seen as a list of bits, first bit first, and the
-- Exp-Golomb code of the H.264 standard that `ue` reads.
use go_ring.Common.{
  ℕ, zero, suc, ◌+◌, ◌-◌, ◌*◌, ◌/◌, ◌%◌, ◌^◌, ◌≤◌, ◌<◌, ◌≡◌, refl, sym, ap, ◌∙◌, ◌⊎◌, inl, inr,
  Option, none, some, List, [], ◌∷◌, ◌++◌, Bytes, length, get_or, drop, leb, arith, Bool-cases,
  leb→le,
}
use native.Mathlib.Numerals.{add-one}
use go_ring.H264.Bits.{H264Bits, bit_value}

-- The eight bits of a byte, most significant first.
abbrev pub byte_bits : ℕ → List ℕ
byte_bits x =
    x / 128 % 2
    ∷ x / 64 % 2
    ∷ x / 32 % 2
    ∷ x / 16 % 2
    ∷ x / 8 % 2
    ∷ x / 4 % 2
    ∷ x / 2 % 2
    ∷ x / 1 % 2
    ∷ []

abbrev pub bits_of : Bytes → List ℕ
bits_of [] = []
bits_of (x ∷ xs) = byte_bits x ++ bits_of xs

-- What is left to read.
unfoldable pub stream : H264Bits → List ℕ
stream b = drop b.bit (bits_of b.bytes)

-- The bit that the source takes from the bytes at position `i`.
abbrev at_bit : Bytes → ℕ → ℕ
at_bit bytes i = get_or bytes (i / 8) 0 / 2 ^ (7 - i % 8) % 2

at_bit_later : (x : ℕ) (xs : Bytes) (i j : ℕ) → i ≡ j + 8 → at_bit (x ∷ xs) i ≡ at_bit xs j
at_bit_later x xs i j e =
    let quotient : i / 8 ≡ suc (j / 8) = omega arith in
    let remainder : i % 8 ≡ j % 8 = omega arith in rw (quotient, remainder) refl

drop-bits_of :
    (bytes : Bytes) (i : ℕ)
    → i < length bytes * 8
    → drop i (bits_of bytes) ≡ at_bit bytes i ∷ drop (suc i) (bits_of bytes)
drop-bits_of [] i h = absurd (omega arith)
drop-bits_of (x ∷ xs) zero h = refl
drop-bits_of (x ∷ xs) (suc zero) h = refl
drop-bits_of (x ∷ xs) (suc (suc zero)) h = refl
drop-bits_of (x ∷ xs) (suc (suc (suc zero))) h = refl
drop-bits_of (x ∷ xs) (suc (suc (suc (suc zero)))) h = refl
drop-bits_of (x ∷ xs) (suc (suc (suc (suc (suc zero))))) h = refl
drop-bits_of (x ∷ xs) (suc (suc (suc (suc (suc (suc zero)))))) h = refl
drop-bits_of (x ∷ xs) (suc (suc (suc (suc (suc (suc (suc zero))))))) h = refl
drop-bits_of (x ∷ xs) (suc (suc (suc (suc (suc (suc (suc (suc j)))))))) h =
    drop-bits_of xs j (omega arith)
    ∙ sym (ap (λ t. t ∷ drop (suc j) (bits_of xs)) (at_bit_later x xs _ j (omega arith)))

length-bits_of : (bytes : Bytes) → length (bits_of bytes) ≡ length bytes * 8
length-bits_of [] = refl
length-bits_of (x ∷ xs) = omega (arith, length-bits_of xs)

drop_all : (xs : List ℕ) (i : ℕ) → length xs ≤ i → drop i xs ≡ []
drop_all [] zero h = refl
drop_all [] (suc i) h = refl
drop_all (x ∷ xs) zero h = absurd (omega arith)
drop_all (x ∷ xs) (suc i) h = drop_all xs i (omega arith)

-- A read at `s` fails where nothing is left, and takes the first bit otherwise.
abbrev pub Reads : List ℕ → Option (ℕ × H264Bits) → Type 0
Reads s r =
    ((s ≡ []) × (r ≡ none))
    ⊎ ((x : ℕ) × (b' : H264Bits) × (s ≡ x ∷ stream b') × (x < 2) × (r ≡ some (x, b')))

pub bit_value-Reads : (b : H264Bits) → Reads (stream b) (bit_value b)
unfolding bit_value stream
bit_value-Reads b = elim (Bool-cases (leb (length b.bytes * 8) b.bit)) [
  | inl over ↦ inl (
    drop_all (bits_of b.bytes) b.bit omega
        (arith, length-bits_of b.bytes, leb→le (length b.bytes * 8) b.bit over),
    rw over,
  )
  | inr inside ↦ inr (
    at_bit b.bytes b.bit,
    record b { bit = b.bit + 1 },
    rw add-one (drop-bits_of b.bytes b.bit (ground arith)),
    omega arith,
    rw inside,
  )
]

-- A reader with bits left gives the first of them.
pub bit_value-cons :
    (b : H264Bits) (x : ℕ) (s : List ℕ)
    → stream b ≡ x ∷ s
    → (b' : H264Bits) × (bit_value b ≡ some (x, b')) × (stream b' ≡ s)
bit_value-cons b x s e = elim (bit_value-Reads b) [
  | inl (nothing, r) ↦ cc
  | inr (y, b', front, small, r) ↦ (b', cc, cc)
]

-- A bit that was read is the first bit of what was left.
pub bit_value-some :
    (b b' : H264Bits) (x : ℕ) → bit_value b ≡ some (x, b') → (stream b ≡ x ∷ stream b') × (x < 2)
bit_value-some b b' x e = elim (bit_value-Reads b) [
  | inl (nothing, r) ↦ cc
  | inr (y, b'', front, small, r) ↦ (cc, ground arith)
]
