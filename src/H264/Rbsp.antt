-- ===== src/H264/Rbsp.antt =====
-- `h264RBSP` of cmd/go-ring/h264_bits.go against the emulation prevention of the H.264 standard.
use mathlib.Core.List.{reverse, reverse-cons}
use go_ring.Common.{
  ℕ, ◌+◌, ◌≤◌, ◌<◌, ◌≡◌, refl, sym, ap, subst, ◌∙◌, ◌↔◌, inl, inr, Bool, true, false, not, ◌&&◌, [],
  ◌∷◌, ◌++◌, append-nil, append_assoc, Bytes, length, length-append, leb, ◌==◌, if◌then◌else◌,
  arith, Bool-cases,
}
use go_ring.H264.Bits.{ends_in_zeros, rbsp_loop, h264_rbsp}

-- The encoder of the standard (7.4.1.1): behind two zeros, a byte of at most 3 gets a byte 3 in
-- front of it. `zeros_seen` counts the zeros since the last other byte or inserted byte.
abbrev zeros_after : ℕ → ℕ → ℕ
zeros_after zeros_seen v = if v == 0 then (if zeros_seen == 2 then 1 else zeros_seen + 1) else 0

pub escape : ℕ → Bytes → Bytes
escape zeros_seen [] = []
escape zeros_seen (v ∷ d) =
    let rest = escape (zeros_after zeros_seen v) d in
    if zeros_seen == 2 && leb v 3 then 3 ∷ v ∷ rest else v ∷ rest

-- No byte 3 stands behind two zeros.
pub no_003 : Bytes → Bool
no_003 (a ∷ b ∷ c ∷ d) = not ((a == 0 && b == 0) && c == 3) && no_003 (b ∷ c ∷ d)
no_003 _ = true

-- The zeros that the encoder counts stand at the end of the decoder's output.
abbrev Agree : ℕ → Bytes → Type 0
Agree z [] = z ≡ 0
Agree z (a ∷ []) = (z ≤ 1) × (z ≡ 1 → a ≡ 0)
Agree z (a ∷ b ∷ out) = (z ≤ 2) × (z ≡ 1 → a ≡ 0) × (z ≡ 2 → (a ≡ 0) × (b ≡ 0))

Agree-next : (z v : ℕ) (out : Bytes) → Agree z out → Agree (zeros_after z v) (v ∷ out)
Agree-next z v [] a = ground arith
Agree-next z v (x ∷ []) a = ground arith
Agree-next z v (x ∷ y ∷ out) a = ground arith

Agree-two : (out : Bytes) → Agree 2 out → ends_in_zeros out ≡ true
unfolding ends_in_zeros
Agree-two [] a = absurd (omega arith)
Agree-two (x ∷ []) a = absurd (omega arith)
Agree-two (x ∷ y ∷ out) a = ground (arith, a.1, a.2)

Agree-zero : (out : Bytes) → Agree 0 out
Agree-zero [] = refl
Agree-zero (x ∷ []) = omega arith
Agree-zero (x ∷ y ∷ out) = omega arith

abbrev step : Bytes → ℕ → Bytes
step out v = if ends_in_zeros out && v == 3 then out else v ∷ out

Agree-step : (z v : ℕ) (out : Bytes) → Agree z out → Agree (zeros_after z v) (step out v)
Agree-step z v out a = elim (Bool-cases (ends_in_zeros out && v == 3)) [
  | inl dropped ↦ let three : v ≡ 3 = ground arith in rw (dropped, three) (Agree-zero out)
  | inr kept ↦ rw kept (Agree-next z v out a)
]

-- An inserted byte is dropped, and no more than the payload itself would lose is lost.
rbsp_loop-escape :
    (d out : Bytes) (z : ℕ) → Agree z out → rbsp_loop out (escape z d) ≡ rbsp_loop out d
unfolding rbsp_loop escape
rbsp_loop-escape [] out z a = refl
rbsp_loop-escape (v ∷ d) out z a =
    let rest = rbsp_loop-escape d (step out v) (zeros_after z v) (Agree-step z v out a) in
    elim (Bool-cases (z == 2 && leb v 3)) [
      | inl inserted ↦
          let two : z ≡ 2 = ground arith in
          let zeros : ends_in_zeros out ≡ true = Agree-two out (subst (λ k. Agree k out) two a) in
          rw inserted (
            subst
              (λ t.
                rbsp_loop (if t && true then out else 3 ∷ out) (v ∷ escape (zeros_after z v) d)
                ≡ rbsp_loop (step out v) d)
              (sym zeros) rest)
      | inr plain ↦ rw plain rest
    ]

-- What the loop keeps of its input.
abbrev clean : Bytes → Bytes → Bool
clean out [] = true
clean out (v ∷ d) = not (ends_in_zeros out && v == 3) && clean (v ∷ out) d

rbsp_loop-clean : (out d : Bytes) → clean out d ≡ true → rbsp_loop out d ≡ reverse out ++ d
unfolding rbsp_loop
rbsp_loop-clean out [] c = sym (append-nil (reverse out))
rbsp_loop-clean out (v ∷ d) c = elim (Bool-cases (ends_in_zeros out && v == 3)) [
  | inl dropped ↦ absurd (ground arith)
  | inr kept ↦ rw kept (
      rbsp_loop-clean (v ∷ out) d (ground arith)
      ∙ rw (reverse-cons v out) (append_assoc (reverse out) (v ∷ []) d))
]

length-reverse : (xs : Bytes) → length (reverse xs) ≡ length xs
length-reverse [] = refl
length-reverse (x ∷ xs) =
    omega
      (arith, ap length (reverse-cons x xs), length-append (reverse xs) (x ∷ []), length-reverse xs)

length-rbsp_loop-le : (out d : Bytes) → length (rbsp_loop out d) ≤ length out + length d
unfolding rbsp_loop
length-rbsp_loop-le out [] = omega (arith, length-reverse out)
length-rbsp_loop-le out (v ∷ d) =
    ground (arith, length-rbsp_loop-le out d, length-rbsp_loop-le (v ∷ out) d)

length-rbsp_loop-lt :
    (out d : Bytes) → clean out d ≡ false → length (rbsp_loop out d) < length out + length d
unfolding rbsp_loop
length-rbsp_loop-lt out [] c = cc
length-rbsp_loop-lt out (v ∷ d) c =
    ground (arith, length-rbsp_loop-le out d, length-rbsp_loop-lt (v ∷ out) d)

clean-two : (a b : ℕ) (out d : Bytes) → clean (b ∷ a ∷ out) d ≡ no_003 (a ∷ b ∷ d)
unfolding no_003 ends_in_zeros
clean-two a b out [] = refl
clean-two a b out (c ∷ d) = ap (◌&&◌ _) (clean-two b c (a ∷ out) d)

clean-no_003 : (d : Bytes) → clean [] d ≡ no_003 d
unfolding no_003 ends_in_zeros
clean-no_003 [] = refl
clean-no_003 (a ∷ []) = refl
clean-no_003 (a ∷ b ∷ d) = clean-two a b [] d

-- The reader gets back the payload that the standard's encoder was given exactly when no byte 3 of
-- the payload stands behind two zeros.
pub h264_rbsp-escape_iff :
    (header : ℕ) (d : Bytes) → ((h264_rbsp (header ∷ escape 0 d)).bytes ≡ d) ↔ (no_003 d ≡ true)
unfolding h264_rbsp
h264_rbsp-escape_iff header d = (forth, back)
  where
    plain : rbsp_loop [] (escape 0 d) ≡ rbsp_loop [] d
    plain = rbsp_loop-escape d [] 0 refl

    back : no_003 d ≡ true → rbsp_loop [] (escape 0 d) ≡ d
    back c = plain ∙ rbsp_loop-clean [] d (clean-no_003 d ∙ c)

    forth : rbsp_loop [] (escape 0 d) ≡ d → no_003 d ≡ true
    forth e = elim (Bool-cases (no_003 d)) [
      | inl c ↦ c
      | inr c ↦
          absurd (
            omega (arith, length-rbsp_loop-lt [] d (clean-no_003 d ∙ c), ap length (sym plain ∙ e)))
    ]
