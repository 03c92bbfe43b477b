-- ===== src/Capture.antt =====
-- tools/capture/tnetstring.go: typed netstrings. `F` is float64; utf8.Valid, strconv.ParseFloat and
-- flowFromState are parameters. An offset into the data is the data behind it.
pub mod Frame
pub mod Encode
pub mod Total
use Prim.Native.String.{String}
use go_ring.Common.{
  ℕ, zero, suc, ◌+◌, ◌*◌, Bool, true, false, ◌&&◌, Option, none, some, List, [], ◌∷◌, ◌++◌, Bytes,
  codes, length, take, drop, get_or, ltb, leb, ◌==◌, if◌then◌else◌, is_empty,
}
use go_ring.Common.Decimal.{bytes_eq}
use go_ring.Common.Int.{ℤ, pos, int_eq}
use go_ring.Common.ParseInt.{parse_digits, parse_int64}
use go_ring.Common.Fallible.{Result, ok, err, ◌>>=◌, ◌>>◌, guard, or_fail}

mutual
  -- What an `any` holds behind the decoder; `null` is `tnetNull`, and nil once it is returned.
  pub data Value (F : Type 0) : Type 0 where
    null : Value F
    binary text : Bytes → Value F
    integer : ℤ → Value F
    float : F → Value F
    boolean : Bool → Value F
    list : Values F → Value F
    object : Fields F → Value F

  -- `[]any`
  pub data Values (F : Type 0) : Type 0 where
    nil : Values F
    cons : Value F → Values F → Values F

  -- `map[string]any`, without repeated keys.
  pub data Fields (F : Type 0) : Type 0 where
    no_fields : Fields F
    field : Bytes → Value F → Fields F → Fields F

-- The errors by their text; `out_of_fuel` is of the model alone.
pub data CaptureError : Type 0 where
  too_deep unexpected_end missing_separator bad_length bad_text bad_integer : CaptureError
  bad_float bad_boolean bad_null unknown_tag bad_key not_an_object : CaptureError
  unsupported_version bad_flow out_of_fuel : CaptureError

pub record Parsers (F : Type 0) : Type 0 where
  pub valid_utf8 : Bytes → Bool
  pub parse_float : Bytes → Option F

abbrev pub max_tnetstring_depth : ℕ
max_tnetstring_depth = 256

-- `bytes.IndexByte(data, ':')`, with what stands before and behind it.
unfoldable pub split_colon : Bytes → Option (Bytes × Bytes)
split_colon [] = none
split_colon (c ∷ cs) =
    let later : Option (Bytes × Bytes) = elim (split_colon cs) [
      | none ↦ none
      | some (front, back) ↦ some (c ∷ front, back)
    ] in
    if c == b':' then some ([], cs) else later

-- The part of `decodeTNetstring` that finds the payload, the tag and what is behind them.
unfoldable pub frame : Bytes → Result CaptureError (Bytes × ℕ × Bytes)
unfolding split_colon
frame data_ =
    guard (ltb 0 (length data_)) unexpected_end
    >> (or_fail (split_colon data_) missing_separator >>= λ (size, after).
        guard (ltb 0 (length size) && leb (length size) 12) bad_length
        >> (or_fail (parse_digits size) bad_length >>= λ n.
            guard (ltb n (length after)) bad_length
            >> ok (take n after, get_or after n 0, drop (suc n) after)))

unfoldable pub set_field : {F : Type 0} → Bytes → Value F → Fields F → Fields F
set_field k v no_fields = field k v no_fields
set_field k v (field j w fs) =
    let later = set_field k v fs in if bytes_eq j k then field k v fs else field j w later

unfoldable pub key_string : {F : Type 0} → Value F → Option Bytes
key_string (text t) = some t
key_string (binary b) = some b
key_string _ = none

module _ {F : Type 0} (parsers : Parsers F) where
  -- The cases of `parseTNetstringValue` that hold no other value.
  unfoldable pub parse_scalar : ℕ → Bytes → Result CaptureError (Value F)
  parse_scalar tag payload =
      if tag == b','
      then ok (binary payload)
      else if tag == b';'
      then guard (parsers.valid_utf8 payload) bad_text >> ok (text payload)
      else if tag == b'#'
      then (or_fail (parse_int64 payload) bad_integer >>= λ n. ok (integer n))
      else if tag == b'^'
      then (or_fail (parsers.parse_float payload) bad_float >>= λ x. ok (float x))
      else if tag == b'!'
      then if bytes_eq payload (codes "true")
        then ok (boolean true)
        else if bytes_eq payload (codes "false")
        then ok (boolean false)
        else err bad_boolean
      else if tag == b'~'
      then guard (is_empty payload) bad_null >> ok null
      else err unknown_tag

  unfoldable mutual
    unfolding frame parse_scalar set_field key_string

    -- `decodeTNetstring`; `tnetNull` is `null` already.
    pub decode_tnetstring : ℕ → ℕ → Bytes → Result CaptureError (Value F × Bytes)
    decode_tnetstring zero depth data_ = err out_of_fuel
    decode_tnetstring (suc f) depth data_ =
        guard (leb depth max_tnetstring_depth) too_deep
        >> (frame data_ >>= λ (payload, tag, rest).
            parse_value f depth tag payload >>= λ v. ok (v, rest))

    -- `parseTNetstringValue`
    pub parse_value : ℕ → ℕ → ℕ → Bytes → Result CaptureError (Value F)
    parse_value zero depth tag payload = err out_of_fuel
    parse_value (suc f) depth tag payload =
        let values = parse_list f (suc depth) payload in
        let fields = parse_map f (suc depth) payload no_fields in
        if tag == b']'
        then (values >>= λ vs. ok (list vs))
        else if tag == b'}'
        then (fields >>= λ fs. ok (object fs))
        else parse_scalar tag payload

    -- `parseTNetstringList` on what is left of its payload.
    pub parse_list : ℕ → ℕ → Bytes → Result CaptureError (Values F)
    parse_list f depth [] = ok nil
    parse_list zero depth (c ∷ cs) = err out_of_fuel
    parse_list (suc f) depth (c ∷ cs) = decode_tnetstring f depth (c ∷ cs) >>= λ (v, rest).
        parse_list f depth rest >>= λ vs. ok (cons v vs)

    -- `parseTNetstringMap`, with the map so far.
    pub parse_map : ℕ → ℕ → Bytes → Fields F → Result CaptureError (Fields F)
    parse_map f depth [] found = ok found
    parse_map zero depth (c ∷ cs) found = err out_of_fuel
    parse_map (suc f) depth (c ∷ cs) found =
        decode_tnetstring f depth (c ∷ cs) >>= λ (key, after_key).
        decode_tnetstring f depth after_key >>= λ (value, after_value).
        or_fail (key_string key) bad_key >>= λ name.
        parse_map f depth after_value (set_field name value found)

  -- `flowState["version"]` as an `int64`.
  unfoldable pub version_of : Fields F → Option ℤ
  version_of no_fields = none
  version_of (field k (integer n) fs) =
      let later = version_of fs in if bytes_eq k (codes "version") then some n else later
  version_of (field k v fs) =
      let later = version_of fs in if bytes_eq k (codes "version") then none else later

  unfoldable pub as_object : Value F → Option (Fields F)
  as_object (object fs) = some fs
  as_object _ = none

  -- `decodeFlowStream` behind some records; each of its rounds takes a byte or more.
  unfoldable pub decode_flows :
      {Flow : Type 0} → (Fields F → Option Flow) → ℕ → Bytes → Result CaptureError (List Flow)
  unfolding decode_tnetstring version_of as_object
  decode_flows flow_from_state fuel [] = ok []
  decode_flows flow_from_state zero (c ∷ cs) = err out_of_fuel
  decode_flows flow_from_state (suc fuel) (c ∷ cs) =
      let data_ = c ∷ cs in
      decode_tnetstring (2 * length data_ + 1) 0 data_ >>= λ (state, next).
      or_fail (as_object state) not_an_object >>= λ fields.
      or_fail (version_of fields) unsupported_version >>= λ version.
      guard (int_eq version (pos 21)) unsupported_version
      >> (or_fail (flow_from_state fields) bad_flow >>= λ flow.
          decode_flows flow_from_state fuel next >>= λ flows. ok (flow ∷ flows))

  unfoldable pub decode_flow_stream :
      {Flow : Type 0} → (Fields F → Option Flow) → Bytes → Result CaptureError (List Flow)
  unfolding decode_flows
  decode_flow_stream flow_from_state data_ = decode_flows flow_from_state (length data_) data_
