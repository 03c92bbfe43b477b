-- ===== src/Wire/Close.antt =====
-- pkg/dependencies/websocket/wire_close_union.go: a close frame without the code of its reason.
pub mod Code
pub mod Normal
use go_ring.Common.{Bool, true, false, Option, none, some, Bytes, []}
use go_ring.Common.Maps.{Map, lookup, insert, delete, string_eq_instance}
use Prim.Native.String.{String}
use go_ring.Common.Decimal.{bytes_eq}
use go_ring.Common.ParseInt.{parse_int64, format_int}
use go_ring.Common.Fallible.{Result, ok, err, ◌>>=◌, ◌>>◌, guard, or_fail}
use go_ring.Wire.{
  WireError, undecodable, not_an_object, missing_field, close_reason, close_code, unencodable,
  WireJson,
}

-- An integer is its own text again.
unfoldable pub is_canonical_int : Bytes → Bool
is_canonical_int text = elim (parse_int64 text) [
  | none ↦ false
  | some n ↦ bytes_eq (format_int n) text
]

module _ {V : Type 0} (json : WireJson V) where
  unfoldable pub valid_close_reason_code : Bytes → Bool
  unfolding is_canonical_int
  valid_close_reason_code encoded = elim (json.decode_string encoded) [
    | some text ↦ true
    | none ↦ elim (json.decode_number encoded) [
      | none ↦ false
      | some number ↦ is_canonical_int number
    ]
  ]

  -- `err != nil || fields == nil`, with one error for both.
  unfoldable pub object_or : WireError → Bytes → Result WireError (Map String Bytes)
  object_or e encoded = or_fail (json.decode_object encoded) e >>= λ fields. or_fail fields e

  -- A nil map has no field.
  unfoldable pub raw_object_field :
      Option (Map String Bytes) → String → Result WireError (Map String Bytes)
  unfolding object_or
  raw_object_field none name = err (missing_field name)
  raw_object_field (some object) name =
      or_fail (lookup name object) (missing_field name) >>= object_or (not_an_object name)

  -- The frame with the body whose reason has no code.
  unfoldable pub encode_without_code :
      Map String Bytes → Map String Bytes → Map String Bytes → Result WireError Bytes
  encode_without_code frame body reason =
      or_fail (json.encode_object (delete "code" reason)) unencodable >>= λ reason_bytes.
      or_fail (json.encode_object (insert "reason" reason_bytes body)) unencodable >>= λ body_bytes.
      or_fail (json.encode_object (insert "body" body_bytes frame)) unencodable

  -- What `normalizeCloseReasonCode` does with a reason.
  unfoldable pub normalize_reason :
      Bytes → Map String Bytes → Map String Bytes → Bytes → Result WireError Bytes
  unfolding object_or encode_without_code
  normalize_reason encoded frame body reason = object_or close_reason reason >>= λ fields.
      elim (lookup "code" fields) [
        | none ↦ ok encoded
        | some code ↦
            guard (valid_close_reason_code code) close_code >> encode_without_code frame body fields
      ]

  unfoldable pub normalize_close_reason_code : Bytes → Result WireError Bytes
  unfolding raw_object_field normalize_reason
  normalize_close_reason_code encoded =
      or_fail (json.decode_object encoded) (undecodable "close") >>= λ read.
      raw_object_field read "body" >>= λ body. elim (lookup "reason" body) [
        | none ↦ ok encoded
        | some reason ↦
            normalize_reason encoded (elim read [ none ↦ [] | some frame ↦ frame ]) body reason
      ]
