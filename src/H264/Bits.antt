-- ===== src/H264/Bits.antt =====
-- cmd/go-ring/h264_bits.go: the bit reader over the RBSP of a NAL unit. A function that returns
-- `(value, ok)` is an `Option`; where it moves the reader's position, the moved reader comes with
-- the value. After a failure the source looks at the reader no more, so it is not returned.
use go_ring.Common.{
  ℕ, zero, suc, ◌+◌, ◌-◌, ◌*◌, ◌/◌, ◌%◌, ◌^◌, Bool, false, ◌&&◌, Option, none, some, [], ◌∷◌, Bytes,
  length, get_or, ltb, leb, ◌==◌, if◌then◌else◌, ◌>>=◌,
}
use mathlib.Core.List.{reverse}

abbrev pub bits_per_byte : ℕ
bits_per_byte = 8

abbrev pub high_bit_offset : ℕ
high_bit_offset = 7

abbrev pub max_exp_golomb_zeros : ℕ
max_exp_golomb_zeros = 31

abbrev pub min_sps_bytes : ℕ
min_sps_bytes = 4

abbrev pub sps_header_bits : ℕ
sps_header_bits = 24

abbrev pub max_sps_id : ℕ
max_sps_id = 31

abbrev pub max_pps_id : ℕ
max_pps_id = 255

pub record H264Bits : Type 0 where
  pub bytes : Bytes
  pub bit : ℕ

-- `len(data) >= 2 && data[len(data)-2] == 0 && data[len(data)-1] == 0`, newest byte first.
unfoldable pub ends_in_zeros : Bytes → Bool
ends_in_zeros (a ∷ b ∷ rest) = b == 0 && a == 0
ends_in_zeros _ = false

-- The loop over `nalu[1:]`; `out` is `data`, newest byte first.
unfoldable pub rbsp_loop : Bytes → Bytes → Bytes
rbsp_loop out [] = reverse out
rbsp_loop out (value ∷ rest) =
    rbsp_loop (if ends_in_zeros out && value == 3 then out else value ∷ out) rest

-- The callers have at least two bytes, so `nalu[1:]` does not fail.
unfoldable pub h264_rbsp : Bytes → H264Bits
h264_rbsp [] = record { bytes = []; bit = 0 }
h264_rbsp (header ∷ nalu) = record { bytes = rbsp_loop [] nalu; bit = 0 }

unfoldable pub bit_value : H264Bits → Option (ℕ × H264Bits)
bit_value b =
    if leb (length b.bytes * bits_per_byte) b.bit
    then none
    else some (
      get_or b.bytes (b.bit / bits_per_byte) 0 / 2 ^ (high_bit_offset - b.bit % bits_per_byte) % 2,
      record b { bit = b.bit + 1 },
    )

unfoldable pub skip : H264Bits → ℕ → Option H264Bits
skip b count =
    if ltb (length b.bytes * bits_per_byte) (b.bit + count)
    then none
    else some (record b { bit = b.bit + count })

-- The first loop of `ue`. A round needs fuel; 32 is enough, since the 32nd zero ends the loop.
unfoldable pub leading_zeros : ℕ → ℕ → H264Bits → Option (ℕ × H264Bits)
leading_zeros zero seen b = none
leading_zeros (suc fuel) seen b = bit_value b >>= λ (bit, b').
    let more = leading_zeros fuel (seen + 1) b' in
    if bit == 0
    then (if ltb max_exp_golomb_zeros (seen + 1) then none else more)
    else some (seen, b')

-- The second loop of `ue`; `value` is a `uint64`, and the bit is 0 or 1, so `|` adds it.
unfoldable pub read_suffix : ℕ → ℕ → H264Bits → Option (ℕ × H264Bits)
read_suffix zero value b = some (value, b)
read_suffix (suc left) value b =
    bit_value b >>= λ (bit, b'). read_suffix left ((value * 2 + bit) % 2 ^ 64) b'

-- `value` is at least 1 here, so `value - 1` does not wrap.
unfoldable pub ue : H264Bits → Option (ℕ × H264Bits)
unfolding leading_zeros read_suffix
ue b = leading_zeros 32 0 b >>= λ (count, b').
    read_suffix count 1 b' >>= λ (value, b''). some (value - 1, b'')

unfoldable pub sps_id : Bytes → Option ℕ
sps_id nalu =
    if ltb (length nalu) min_sps_bytes
    then none
    else skip (h264_rbsp nalu) sps_header_bits >>= λ bits.
        ue bits >>= λ (id, _). if leb id max_sps_id then some id else none

-- The PPS's own ID and that of the SPS that it refers to.
unfoldable pub pps_ids : Bytes → Option (ℕ × ℕ)
pps_ids nalu =
    if ltb (length nalu) 2
    then none
    else ue (h264_rbsp nalu) >>= λ (pps, bits). ue bits >>= λ (sps, _).
        if leb pps max_pps_id && leb sps max_sps_id then some (pps, sps) else none

-- `first_mb_in_slice` and `slice_type` are read and dropped.
unfoldable pub slice_pps_id : Bytes → Option ℕ
slice_pps_id nalu =
    if ltb (length nalu) 2
    then none
    else ue (h264_rbsp nalu) >>= λ (_, bits). ue bits >>= λ (_, bits').
        ue bits' >>= λ (id, _). if leb id max_pps_id then some id else none
