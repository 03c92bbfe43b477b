-- ===== src/Capture/Encode.antt =====
-- The format of typed netstrings, written by an encoder, and the values that it can hold.
pub mod RoundTrip
use go_ring.Common.{
  ℕ, zero, suc, ◌+◌, ◌*◌, ◌^◌, ◌≤◌, ◌<◌, ◌≡◌, refl, sym, ap, ◌∙◌, subst, Bool, true, false, some,
  [], ◌∷◌, ◌++◌, Bytes, length, codes, arith, append_assoc, length-append, le→leb, ◌||◌,
}
use go_ring.Common.Decimal.{bytes_eq, decimal}
use go_ring.Common.ParseInt.{format_int, IsInt64, parse_int64-format_int, decimal-cons}
use go_ring.Common.Fallible.{ok}
use go_ring.Capture.{
  Value, Values, Fields, null, binary, text, integer, float, boolean, list, object, nil, cons,
  no_fields, field, Parsers, parse_scalar, decode_tnetstring, parse_value, parse_list, parse_map,
  key_string, set_field,
}
use go_ring.Capture.Frame.{frame-framed}

-- The size of the payload, a colon, the payload and the tag.
unfoldable pub framed : Bytes → ℕ → Bytes
framed payload tag = decimal (length payload) ++ b':' ∷ (payload ++ tag ∷ [])

length-framed : (payload : Bytes) (tag : ℕ) → length payload + 3 ≤ length (framed payload tag)
unfolding framed
length-framed payload tag =
    let (c, cs, e) = decimal-cons (length payload) in
    let some_digit : 1 ≤ length (decimal (length payload)) = rw e (omega arith) in
    omega (
      arith,
      some_digit,
      length-append (decimal (length payload)) (b':' ∷ (payload ++ tag ∷ [])),
      length-append payload (tag ∷ []),
    )

-- A payload whose size has at most twelve digits.
abbrev pub Fits : Bytes → Type 0
Fits payload = length payload < 10 ^ 12

abbrev pub truth : Bool → Bytes
truth true = codes "true"
truth false = codes "false"

unfoldable pub has_field : {F : Type 0} → Bytes → Fields F → Bool
has_field k no_fields = false
has_field k (field j w fs) = bytes_eq j k || has_field k fs

unfoldable pub append_fields : {F : Type 0} → Fields F → Fields F → Fields F
append_fields no_fields gs = gs
append_fields (field k v fs) gs = field k v (append_fields fs gs)

-- No key stands twice, nor in what was found before.
unfoldable pub Distinct : {F : Type 0} → Fields F → Fields F → Type 0
Distinct found no_fields = Unit
Distinct found (field k v fs) =
    (has_field k found ≡ false) × Distinct (append_fields found (field k v no_fields)) fs

module _ {F : Type 0} (parsers : Parsers F) (format_float : F → Bytes) where
  unfoldable mutual
    unfolding framed

    pub encode : Value F → Bytes
    encode null = framed [] b'~'
    encode (binary b) = framed b b','
    encode (text t) = framed t b';'
    encode (integer n) = framed (format_int n) b'#'
    encode (float x) = framed (format_float x) b'^'
    encode (boolean b) = framed (truth b) b'!'
    encode (list vs) = framed (encode_values vs) b']'
    encode (object fs) = framed (encode_fields fs) b'}'

    pub encode_values : Values F → Bytes
    encode_values nil = []
    encode_values (cons v vs) = encode v ++ encode_values vs

    pub encode_fields : Fields F → Bytes
    encode_fields no_fields = []
    encode_fields (field k v fs) = framed k b';' ++ (encode v ++ encode_fields fs)

  -- A value that stands `depth` levels deep and has an encoding.
  unfoldable mutual
    unfolding encode

    pub Encodable : ℕ → Value F → Type 0
    Encodable depth null = depth ≤ 256
    Encodable depth (binary b) = (depth ≤ 256) × Fits b
    Encodable depth (text t) = (depth ≤ 256) × Fits t × (parsers.valid_utf8 t ≡ true)
    Encodable depth (integer n) = (depth ≤ 256) × Fits (format_int n) × IsInt64 n
    Encodable depth (float x) =
        (depth ≤ 256) × Fits (format_float x) × (parsers.parse_float (format_float x) ≡ some x)
    Encodable depth (boolean b) = depth ≤ 256
    Encodable depth (list vs) =
        (depth ≤ 256) × Fits (encode_values vs) × EncodableValues (suc depth) vs
    Encodable depth (object fs) =
        (depth ≤ 256)
        × Fits (encode_fields fs)
        × Distinct no_fields fs
        × EncodableFields (suc depth) fs

    pub EncodableValues : ℕ → Values F → Type 0
    EncodableValues depth nil = Unit
    EncodableValues depth (cons v vs) = Encodable depth v × EncodableValues depth vs

    pub EncodableFields : ℕ → Fields F → Type 0
    EncodableFields depth no_fields = Unit
    EncodableFields depth (field k v fs) =
        (depth ≤ 256)
        × Fits k
        × (parsers.valid_utf8 k ≡ true)
        × Encodable depth v
        × EncodableFields depth fs
