-- ===== src/Capture/Encode/RoundTrip.antt =====
-- That the decoder of typed netstrings reads what an encoder wrote.
use go_ring.Common.{
  ℕ, zero, suc, ◌+◌, ◌*◌, ◌≤◌, ◌<◌, ◌≡◌, refl, sym, ap, ◌∙◌, subst, true, false, [], ◌∷◌, ◌++◌,
  Bytes, length, arith, append_assoc, length-append, le→leb,
}
use go_ring.Common.Decimal.{decimal}
use go_ring.Common.ParseInt.{format_int, parse_int64-format_int}
use go_ring.Common.Fallible.{ok}
use go_ring.Capture.{
  Value, Values, Fields, null, binary, text, integer, float, boolean, list, object, nil, cons,
  no_fields, field, Parsers, parse_scalar, decode_tnetstring, parse_value, parse_list, parse_map,
  key_string, set_field,
}
use go_ring.Capture.Frame.{frame-framed}
use go_ring.Capture.Encode.{
  framed, length-framed, truth, has_field, append_fields, Distinct, encode, encode_values,
  encode_fields, Fits, Encodable, EncodableValues, EncodableFields,
}

module _ {F : Type 0} (parsers : Parsers F) (format_float : F → Bytes) where
  decode-framed :
      (f depth : ℕ) (payload : Bytes) (tag : ℕ) (rest : Bytes) (v : Value F)
      → depth ≤ 256
      → Fits payload
      → parse_value parsers f depth tag payload ≡ ok v
      → decode_tnetstring parsers (suc f) depth (framed payload tag ++ rest) ≡ ok (v, rest)
  unfolding framed decode_tnetstring
  decode-framed f depth payload tag rest v shallow fits parsed =
      let split : framed payload tag ++ rest
          ≡ decimal (length payload) ++ b':' ∷ (payload ++ tag ∷ rest) =
        append_assoc (decimal (length payload)) (b':' ∷ (payload ++ tag ∷ [])) rest
        ∙ ap (λ q. decimal (length payload) ++ b':' ∷ q) (append_assoc payload (tag ∷ []) rest) in
      subst (λ q. decode_tnetstring parsers (suc f) depth q ≡ ok (v, rest)) (sym split)
        (rw (le→leb depth 256 shallow, frame-framed payload tag rest fits, parsed) refl)

  -- The same for a payload that is read whatever the fuel.
  decode-scalar :
      (f depth : ℕ) (payload : Bytes) (tag : ℕ) (rest : Bytes) (v : Value F)
      → 2 * length (framed payload tag) < f
      → depth ≤ 256
      → Fits payload
      → ((g : ℕ) → parse_value parsers (suc g) depth tag payload ≡ ok v)
      → decode_tnetstring parsers f depth (framed payload tag ++ rest) ≡ ok (v, rest)
  decode-scalar zero depth payload tag rest v h shallow fits parsed = absurd (omega (arith, h))
  decode-scalar (suc zero) depth payload tag rest v h shallow fits parsed =
      absurd (omega (arith, h, length-framed payload tag))
  decode-scalar (suc (suc g)) depth payload tag rest v h shallow fits parsed =
      decode-framed (suc g) depth payload tag rest v shallow fits (parsed g)

  decode-text :
      (f depth : ℕ) (t rest : Bytes)
      → 2 * length (framed t b';') < f
      → depth ≤ 256
      → Fits t
      → parsers.valid_utf8 t ≡ true
      → decode_tnetstring parsers f depth (framed t b';' ++ rest) ≡ ok (text t, rest)
  unfolding parse_value parse_scalar
  decode-text f depth t rest h shallow fits valid =
      decode-scalar f depth t b';' rest (text t) h shallow fits λ g. rw valid refl

  -- One element off the front of a payload.
  parse_list-cons :
      (f depth : ℕ) (d rest : Bytes) (v : Value F) (vs : Values F)
      → 1 ≤ length d
      → decode_tnetstring parsers f depth d ≡ ok (v, rest)
      → parse_list parsers f depth rest ≡ ok vs
      → parse_list parsers (suc f) depth d ≡ ok (cons v vs)
  unfolding parse_list
  parse_list-cons f depth [] rest v vs h read later = absurd (omega (arith, h))
  parse_list-cons f depth (c ∷ cs) rest v vs h read later = rw (read, later) refl

  parse_map-field :
      (f depth : ℕ) (d after_key rest : Bytes) (k : Bytes) (v : Value F) (found fs : Fields F)
      → 1 ≤ length d
      → decode_tnetstring parsers f depth d ≡ ok (text k, after_key)
      → decode_tnetstring parsers f depth after_key ≡ ok (v, rest)
      → parse_map parsers f depth rest (set_field k v found) ≡ ok fs
      → parse_map parsers (suc f) depth d found ≡ ok fs
  unfolding parse_map key_string
  parse_map-field f depth [] after_key rest k v found fs h read_key read later =
      absurd (omega (arith, h))
  parse_map-field f depth (c ∷ cs) after_key rest k v found fs h read_key read later =
      rw (read_key, read) later

  set_field-new :
      (k : Bytes) (v : Value F) (found : Fields F)
      → has_field k found ≡ false
      → set_field k v found ≡ append_fields found (field k v no_fields)
  unfolding set_field has_field append_fields
  set_field-new k v no_fields h = refl
  set_field-new k v (field j w fs) h =
      let later = set_field-new k v fs (ground arith) in ground arith

  append_fields-nil : (fs : Fields F) → append_fields fs no_fields ≡ fs
  unfolding append_fields
  append_fields-nil no_fields = refl
  append_fields-nil (field k v fs) = ap (field k v) (append_fields-nil fs)

  append_fields_assoc :
      (found : Fields F) (k : Bytes) (v : Value F) (fs : Fields F)
      → append_fields (append_fields found (field k v no_fields)) fs
        ≡ append_fields found (field k v fs)
  unfolding append_fields
  append_fields_assoc no_fields k v fs = refl
  append_fields_assoc (field j w found) k v fs = ap (field j w) (append_fields_assoc found k v fs)

  length-encode_pos : (v : Value F) → 3 ≤ length (encode parsers format_float v)
  unfolding encode
  length-encode_pos v =
      elim v
        as (λ w. 3 ≤ length (encode parsers format_float w)) (λ vs. Unit {0}) (λ fs. Unit {0}) [
          | null ↦ omega (arith, length-framed [] b'~')
          | binary b ↦ omega (arith, length-framed b b',')
          | text t ↦ omega (arith, length-framed t b';')
          | integer n ↦ omega (arith, length-framed (format_int n) b'#')
          | float x ↦ omega (arith, length-framed (format_float x) b'^')
          | boolean b ↦ omega (arith, length-framed (truth b) b'!')
          | list vs ↦ omega (arith, length-framed (encode_values parsers format_float vs) b']')
          | object fs ↦ omega (arith, length-framed (encode_fields parsers format_float fs) b'}')
          | _ ↦ tt
        ]

  mutual
    unfolding encode Encodable parse_value parse_scalar parse_list parse_map Distinct append_fields

    decode-encode_lem :
        (v : Value F) (f depth : ℕ) (rest : Bytes)
        → 2 * length (encode parsers format_float v) < f
        → Encodable parsers format_float depth v
        → decode_tnetstring parsers f depth (encode parsers format_float v ++ rest) ≡ ok (v, rest)
    decode-encode_lem null f depth rest h e =
        decode-scalar f depth [] b'~' rest null h e (omega arith) λ g. refl
    decode-encode_lem (binary b) f depth rest h e =
        decode-scalar f depth b b',' rest (binary b) h e.0 e.1 λ g. refl
    decode-encode_lem (text t) f depth rest h e = decode-text f depth t rest h e.0 e.1 e.2
    decode-encode_lem (integer n) f depth rest h e =
        decode-scalar f depth (format_int n) b'#' rest (integer n) h e.0 e.1
          λ g. rw (parse_int64-format_int n e.2) refl
    decode-encode_lem (float x) f depth rest h e =
        decode-scalar f depth (format_float x) b'^' rest (float x) h e.0 e.1 λ g. rw e.2 refl
    decode-encode_lem (boolean true) f depth rest h e =
        decode-scalar f depth (truth true) b'!' rest (boolean true) h e (omega arith) λ g. refl
    decode-encode_lem (boolean false) f depth rest h e =
        decode-scalar f depth (truth false) b'!' rest (boolean false) h e (omega arith) λ g. refl
    decode-encode_lem (list vs) (suc (suc g)) depth rest h e =
        let larger = length-framed (encode_values parsers format_float vs) b']' in
        let parsed = values-encode_lem vs g (suc depth) (omega (arith, h, larger)) e.2 in
        decode-framed (suc g) depth (encode_values parsers format_float vs) b']' rest (list vs) e.0
          e.1 (rw parsed refl)
    decode-encode_lem (object fs) (suc (suc g)) depth rest h e =
        let larger = length-framed (encode_fields parsers format_float fs) b'}' in
        let parsed =
          fields-encode_lem fs g (suc depth) no_fields (omega (arith, h, larger)) e.2 e.3 in
        decode-framed (suc g) depth (encode_fields parsers format_float fs) b'}' rest (object fs)
          e.0 e.1 (rw parsed refl)
    decode-encode_lem (list vs) zero depth rest h e = absurd (omega (arith, h))
    decode-encode_lem (list vs) (suc zero) depth rest h e =
        absurd (omega (arith, h, length-framed (encode_values parsers format_float vs) b']'))
    decode-encode_lem (object fs) zero depth rest h e = absurd (omega (arith, h))
    decode-encode_lem (object fs) (suc zero) depth rest h e =
        absurd (omega (arith, h, length-framed (encode_fields parsers format_float fs) b'}'))

    values-encode_lem :
        (vs : Values F) (f depth : ℕ)
        → 2 * length (encode_values parsers format_float vs) + 1 < f
        → EncodableValues parsers format_float depth vs
        → parse_list parsers f depth (encode_values parsers format_float vs) ≡ ok vs
    values-encode_lem vs zero depth h e = absurd (omega (arith, h))
    values-encode_lem nil (suc f) depth h e = refl
    values-encode_lem (cons v vs) (suc f) depth h e =
        let sum =
          length-append (encode parsers format_float v) (encode_values parsers format_float vs) in
        let some_byte = length-encode_pos v in
        parse_list-cons f depth
          (encode parsers format_float v ++ encode_values parsers format_float vs)
          (encode_values parsers format_float vs) v vs (omega (arith, sum, some_byte))
          (decode-encode_lem v f depth (encode_values parsers format_float vs)
            (omega (arith, h, sum)) e.0)
          (values-encode_lem vs f depth (omega (arith, h, sum, some_byte)) e.1)

    fields-encode_lem :
        (fs : Fields F) (f depth : ℕ) (found : Fields F)
        → 2 * length (encode_fields parsers format_float fs) + 1 < f
        → Distinct found fs
        → EncodableFields parsers format_float depth fs
        → parse_map parsers f depth (encode_fields parsers format_float fs) found
          ≡ ok (append_fields found fs)
    fields-encode_lem fs zero depth found h d e = absurd (omega (arith, h))
    fields-encode_lem no_fields (suc f) depth found h d e = ap ok (sym (append_fields-nil found))
    fields-encode_lem (field k v fs) (suc f) depth found h d e =
        let sum =
          length-append (framed k b';')
            (encode parsers format_float v ++ encode_fields parsers format_float fs) in
        let later_sum =
          length-append (encode parsers format_float v) (encode_fields parsers format_float fs) in
        let key_bytes = length-framed k b';' in
        let behind = encode parsers format_float v ++ encode_fields parsers format_float fs in
        let later =
          fields-encode_lem fs f depth (append_fields found (field k v no_fields))
            (omega (arith, h, sum, later_sum, key_bytes)) d.1 e.4 in
        parse_map-field f depth (framed k b';' ++ behind) behind
          (encode_fields parsers format_float fs) k v found (append_fields found (field k v fs))
          (omega (arith, sum, key_bytes))
          (decode-text f depth k behind (omega (arith, h, sum)) e.0 e.1 e.2)
          (decode-encode_lem v f depth (encode_fields parsers format_float fs)
            (omega (arith, h, sum, later_sum)) e.3)
          (rw (set_field-new k v found d.0) (later ∙ ap ok (append_fields_assoc found k v fs)))

  -- Whatever value the format can hold (256 levels, sizes of at most twelve digits, integers of 64 bits,
  -- valid text, no repeated keys, floats that parse as they print), decodeTNetstring reads its encoding
  -- as that value and stops behind it, whatever follows.
  pub decode-encode :
      (v : Value F) (f : ℕ) (rest : Bytes)
      → 2 * length (encode parsers format_float v) < f
      → Encodable parsers format_float 0 v
      → decode_tnetstring parsers f 0 (encode parsers format_float v ++ rest) ≡ ok (v, rest)
  decode-encode v f rest h e = decode-encode_lem v f 0 rest h e
