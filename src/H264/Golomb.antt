-- ===== src/H264/Golomb.antt =====
-- `ue` of cmd/go-ring/h264_bits.go against the Exp-Golomb code of the H.264 standard.
use native.Mathlib.Nat.{pow-suc, pow-le-pow_right, mod-eq_of_lt}
use go_ring.Common.{
  ℕ, zero, suc, ◌+◌, ◌-◌, ◌*◌, ◌%◌, ◌^◌, ◌≤◌, ◌<◌, ◌≡◌, refl, sym, ap, ◌∙◌, inl, inr, some, List,
  [], ◌∷◌, ◌++◌, append_assoc, length, replicate, arith, bind-eq-some,
}
use go_ring.H264.Bits.{H264Bits, leading_zeros, read_suffix, ue}
use go_ring.H264.Stream.{stream, bit_value-Reads, bit_value-cons, bit_value-some}

-- The number that the bits of `w` make behind `acc`.
abbrev pub bits_value : ℕ → List ℕ → ℕ
bits_value acc [] = acc
bits_value acc (x ∷ w) = bits_value (acc * 2 + x) w

-- As many zeros as suffix bits, a one, and the suffix.
abbrev pub golomb : List ℕ → List ℕ
golomb w = replicate (length w) 0 ++ 1 ∷ w

abbrev pub golomb_value : List ℕ → ℕ
golomb_value w = bits_value 1 w - 1

leading_zeros_complete :
    (fuel seen k n : ℕ) (b : H264Bits) (rest : List ℕ)
    → stream b ≡ replicate k 0 ++ 1 ∷ rest
    → seen + k ≡ n
    → n ≤ 31
    → k < fuel
    → (b' : H264Bits) × (leading_zeros fuel seen b ≡ some (n, b')) × (stream b' ≡ rest)
unfolding leading_zeros
leading_zeros_complete zero seen k n b rest e s h l = absurd (omega arith)
leading_zeros_complete (suc fuel) seen zero n b rest e s h l =
    let (b', r, left) = bit_value-cons b 1 rest e in (b', rw r (ground arith), left)
leading_zeros_complete (suc fuel) seen (suc k) n b rest e s h l =
    let (b', r, left) = bit_value-cons b 0 (replicate k 0 ++ 1 ∷ rest) e in
    let (b'', more, left') =
      leading_zeros_complete fuel (seen + 1) k n b' rest left (omega arith) h (omega arith) in
    (b'', rw r (ground arith), left')

-- `m` bounds the value read so far, so the `uint64` never wraps.
read_suffix_complete :
    (w : List ℕ) (m value : ℕ) (b : H264Bits) (rest : List ℕ)
    → stream b ≡ w ++ rest
    → value < 2 ^ m
    → m + length w ≤ 32
    → (b' : H264Bits) × (read_suffix (length w) value b ≡ some (bits_value value w, b'))
      × (stream b' ≡ rest)
unfolding read_suffix
read_suffix_complete [] m value b rest e v h = (b, refl, e)
read_suffix_complete (x ∷ w) m value b rest e v h =
    let (b', r, left) = bit_value-cons b x (w ++ rest) e in
    let small : x < 2 = (bit_value-some b b' x r).1 in
    let next : value * 2 + x < 2 ^ suc m = omega (arith, pow-suc 2 m) in
    let (b'', more, left') =
      read_suffix_complete w (suc m) (value * 2 + x) b' rest left next (omega arith) in
    let bound : 2 ^ suc m ≤ 2 ^ 64 = pow-le-pow_right (omega arith) {j = 64} (omega arith) in
    let same : (value * 2 + x) % 2 ^ 64 ≡ value * 2 + x = mod-eq_of_lt (omega arith) in
    (b'', rw (r, read_suffix) (rw same more), left')

-- `ue` reads every code word of at most 31 leading zeros, whatever follows it: the result is the
-- value of the word and the reader stands behind it.
pub ue-golomb :
    (w rest : List ℕ) (b : H264Bits)
    → stream b ≡ golomb w ++ rest
    → length w ≤ 31
    → (b' : H264Bits) × (ue b ≡ some (golomb_value w, b')) × (stream b' ≡ rest)
unfolding ue
ue-golomb w rest b e h =
    let (b', r, left) =
      leading_zeros_complete 32 0 (length w) (length w) b (w ++ rest)
        (e ∙ append_assoc (replicate (length w) 0) (1 ∷ w) rest) (omega arith) h (omega arith) in
    let (b'', r', left') = read_suffix_complete w 1 1 b' rest left (omega arith) (omega arith) in
    (b'', rw r (rw r' refl), left')

leading_zeros_sound :
    (fuel seen n : ℕ) (b b' : H264Bits)
    → leading_zeros fuel seen b ≡ some (n, b')
    → seen ≤ 31
    → (k : ℕ) × (n ≡ seen + k) × (n ≤ 31) × (stream b ≡ replicate k 0 ++ 1 ∷ stream b')
unfolding leading_zeros
leading_zeros_sound zero seen n b b' e h = cc
leading_zeros_sound (suc fuel) seen n b b' e h = elim (bit_value-Reads b) [
  | inl (nothing, r) ↦ absurd (ground arith)
  | inr (zero, c, s, small, r) ↦
      let rest : leading_zeros fuel (seen + 1) c ≡ some (n, b') = ground arith in
      let (k, count, most, left) = leading_zeros_sound fuel (seen + 1) n c b' rest (ground arith) in
      (suc k, omega arith, most, s ∙ ap (◌∷◌ 0) left)
  | inr (suc x, c, s, small, r) ↦ (0, ground arith, ground arith, ground arith)
]

read_suffix_sound :
    (n m value v : ℕ) (b b' : H264Bits)
    → read_suffix n value b ≡ some (v, b')
    → value < 2 ^ m
    → m + n ≤ 32
    → (w : List ℕ) × (length w ≡ n) × (stream b ≡ w ++ stream b') × (v ≡ bits_value value w)
unfolding read_suffix
read_suffix_sound zero m value v b b' e small h = ([], refl, ground arith, ground arith)
read_suffix_sound (suc n) m value v b b' e small h = elim (bit_value-Reads b) [
  | inl (nothing, r) ↦ absurd (ground arith)
  | inr (x, c, s, bit, r) ↦
      let next : value * 2 + x < 2 ^ suc m = omega (arith, pow-suc 2 m) in
      let bound : 2 ^ suc m ≤ 2 ^ 64 = pow-le-pow_right (omega arith) {j = 64} (omega arith) in
      let same : (value * 2 + x) % 2 ^ 64 ≡ value * 2 + x = mod-eq_of_lt (omega arith) in
      let step : read_suffix n ((value * 2 + x) % 2 ^ 64) c ≡ some (v, b') = ground arith in
      let (w, size, left, total) =
        read_suffix_sound n (suc m) (value * 2 + x) v c b' (rw same at step) next (omega arith) in
      (x ∷ w, ap suc size, s ∙ ap (◌∷◌ x) left, total)
]

golomb_front :
    (w : List ℕ) (k : ℕ) (s t u : List ℕ)
    → s ≡ replicate k 0 ++ 1 ∷ t
    → t ≡ w ++ u
    → length w ≡ k
    → s ≡ golomb w ++ u
golomb_front w k s t u e f size =
    rw e (rw (f, ← size) (sym (append_assoc (replicate (length w) 0) (1 ∷ w) u)))

-- Conversely a value that `ue` returns is that of a code word of at most 31 leading zeros, which
-- stood at the reader and was taken whole.
pub ue_sound :
    (v : ℕ) (b b' : H264Bits)
    → ue b ≡ some (v, b')
    → (w : List ℕ) × (length w ≤ 31) × (stream b ≡ golomb w ++ stream b') × (v ≡ golomb_value w)
unfolding ue
ue_sound v b b' e =
    let ((n, c), zeros_read, rest) = bind-eq-some (leading_zeros 32 0 b) _ e in
    let ((value, d), suffix_read, final) = bind-eq-some (read_suffix n 1 c) _ rest in
    let (k, count, most, front) = leading_zeros_sound 32 0 n b c zeros_read (omega arith) in
    let (w, size, left, total) =
      read_suffix_sound n 1 1 value c d suffix_read (omega arith) (omega arith) in
    let same : length w ≡ k = omega arith in
    let last : d ≡ b' = ground arith in
    (
      w,
      omega arith,
      golomb_front w k _ (stream c) _ front (left ∙ ap (λ t. w ++ stream t) last) same,
      ground arith,
    )
